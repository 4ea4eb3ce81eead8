-- ===== src/SeqStack/Contents.antt =====
-- `insert`, `remove`, `size`, `copy` and `count_doubles_in_seq`.
use public_conc_exp.Common.{
  ℕ, suc, ◌+◌, ◌≡◌, refl, ◌∙◌, ap, sym, not, List, [], ◌∷◌, ◌++◌, arith, ℤ, ◌==ℤ◌, ==ℤ_iff,
  if◌then◌else◌, ok, length, pos,
}
use mathlib.Core.List.{append_assoc, append-nil}
use public_conc_exp.Spec.Requests.{
  Request, add, remove as remove_request, Reply, done, got, stack_step, serve,
}
use public_conc_exp.SeqStack.{
  Sll, insert, remove, size_from, size, doubles_from, count_doubles_in_seq, copy_from, copy,
}

-- How many values equal the one just before them.
unfoldable pub repeats : List ℤ → ℕ
repeats (x ∷ y ∷ ys) = if x ==ℤ y then suc (repeats (y ∷ ys)) else repeats (y ∷ ys)
repeats _ = 0

doubles_from_lem : (n : ℕ) (x : ℤ) (ys : List ℤ) → doubles_from n x ys ≡ n + repeats (x ∷ ys)
unfolding doubles_from repeats
doubles_from_lem n x [] = omega arith
doubles_from_lem n x (y ∷ ys) =
    ground (arith, doubles_from_lem (n + 1) y ys, doubles_from_lem n y ys, ==ℤ_iff x y)

-- On a list that is not empty `count_doubles_in_seq` counts the values that equal the one before.
pub count_doubles_in_seq_lem :
    (x : ℤ) (xs : List ℤ) → count_doubles_in_seq (x ∷ xs) ≡ ok (repeats (x ∷ xs))
unfolding count_doubles_in_seq
count_doubles_in_seq_lem x xs = rw (doubles_from_lem 0 x xs) (ap ok (omega arith))

copy_from_lem : (new rest : Sll) → copy_from new rest ≡ new ++ rest
unfolding copy_from
copy_from_lem new [] = sym (append-nil new)
copy_from_lem new (x ∷ rest) = copy_from_lem (new ++ x ∷ []) rest ∙ append_assoc new (x ∷ []) rest

size_from_lem : (n : ℕ) (xs : List ℤ) → size_from n xs ≡ n + length xs
unfolding size_from
size_from_lem n [] = omega arith
size_from_lem n (x ∷ xs) = omega (arith, size_from_lem (n + 1) xs)

-- `copy` makes a list with the same values in the same order.
pub copy_lem : (xs : Sll) → copy xs ≡ xs
unfolding copy
copy_lem [] = refl
copy_lem (x ∷ xs) = copy_from_lem (x ∷ []) xs

-- One request as a client makes it: `insert` replies 1, which is true.
unfoldable pub request : Request → Sll → Sll × Reply
request (add v) s = ((insert v s).0, done (not ((insert v s).1 ==ℤ pos 0)))
request remove_request s = ((remove s).0, got (remove s).1)

unfoldable pub requests : List Request → Sll → Sll × List Reply
requests [] s = (s, [])
requests (r ∷ rs) s =
    let (s', reply) = request r s in let (t, replies) = requests rs s' in (t, reply ∷ replies)

request_lem : (r : Request) (xs : Sll) → request r xs ≡ stack_step r xs
unfolding request insert remove stack_step
request_lem (add v) xs = refl
request_lem remove_request [] = refl
request_lem remove_request (x ∷ xs) = refl

requests_lem : (rs : List Request) (xs : Sll) → requests rs xs ≡ serve stack_step rs xs
unfolding requests serve
requests_lem [] xs = refl
requests_lem (r ∷ rs) xs = rw (request_lem r xs, requests_lem rs (stack_step r xs).0)

size_lem : (xs : Sll) → size xs ≡ length xs
unfolding size
size_lem xs = omega (arith, size_from_lem 0 xs)

-- Any sequence of `insert` and `remove` leaves the contents and gives the replies of a stack, and
-- `size` then counts the contents.
insert-remove-serve :
    (rs : List Request) (xs : Sll)
    → (requests rs xs ≡ serve stack_step rs xs)
      × (size (requests rs xs).0 ≡ length (serve stack_step rs xs).0)
insert-remove-serve rs xs =
    (requests_lem rs xs, size_lem (requests rs xs).0 ∙ rw (requests_lem rs xs))

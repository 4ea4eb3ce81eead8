-- ===== src/LockStack/Laws.antt =====
-- The stack under one lock implements the stack of the specification.
use public_conc_exp.Common.{
  ℕ, zero, suc, ◌+◌, ◌<◌, ◌≡◌, refl, false, List, [], ◌∷◌, ◌++◌, arith, ℤ, ==ℤ_iff, minus_one,
  if◌then◌else◌, Run, ok, fault, ◌>>=◌, length,
}
use public_conc_exp.Spec.SortedSet.{has}
use public_conc_exp.Spec.Requests.{Request, add, remove, Reply, done, got, stack_step, serve}
use public_conc_exp.LockStack.{
  StackSll, unlocked, push, pop, size_from, size, empty_loop, find_from, find,
}

-- One request, as a client makes it: the memory of each new node is zeroed.
unfoldable pub request : Request → StackSll → Run (StackSll × Reply)
request (add v) s = do (s', r) ← push [] v s; ok (s', done r)
request remove s = do (s', v) ← pop s; ok (s', got v)

unfoldable pub requests : List Request → StackSll → Run (StackSll × List Reply)
requests [] s = ok (s, [])
requests (r ∷ rs) s = do
  (s', reply) ← request r s
  (t, replies) ← requests rs s'
  ok (t, reply ∷ replies)

request_lem :
    (r : Request) (xs : List ℤ)
    → request r (unlocked xs) ≡ ok (unlocked (stack_step r xs).0, (stack_step r xs).1)
unfolding request push pop stack_step
request_lem (add v) [] = refl
request_lem (add v) (x ∷ xs) = refl
request_lem remove [] = refl
request_lem remove (x ∷ []) = refl
request_lem remove (x ∷ y ∷ xs) = refl

-- Any sequence of pushes and pops, from any contents, ends without blocking, with the lock free, in
-- the contents and with the replies that the specification of a stack gives.
pub push-pop-serve :
    (rs : List Request) (xs : List ℤ)
    → requests rs (unlocked xs)
      ≡ ok (unlocked (serve stack_step rs xs).0, (serve stack_step rs xs).1)
unfolding requests serve
push-pop-serve [] xs = refl
push-pop-serve (r ∷ rs) xs = rw (request_lem r xs, push-pop-serve rs (stack_step r xs).0)

size_from_lem : (n : ℕ) (xs : List ℤ) → size_from n xs ≡ n + length xs
unfolding size_from
size_from_lem n [] = omega arith
size_from_lem n (x ∷ xs) = omega (arith, size_from_lem (n + 1) xs)

pub size_lem : (xs : List ℤ) → size (unlocked xs) ≡ length xs
unfolding size
size_lem xs = omega (arith, size_from_lem 0 xs)

find_from_lem :
    (v bottom : ℤ) (xs : List ℤ)
    → find_from v (xs ++ bottom ∷ []) ≡ ok (if has v xs then v else minus_one)
unfolding find_from has
find_from_lem v bottom [] = refl
find_from_lem v bottom (x ∷ []) = ground (arith, ==ℤ_iff x v, ==ℤ_iff v x)
find_from_lem v bottom (x ∷ y ∷ xs) =
    ground (arith, find_from_lem v bottom (y ∷ xs), ==ℤ_iff x v, ==ℤ_iff v x)

-- `find` dereferences a null pointer on an empty stack, and on any other searches all the nodes but
-- the bottom one.
find_lem :
    (v bottom : ℤ) (xs : List ℤ)
    → (find v (unlocked []) ≡ fault)
      × (find v (unlocked (xs ++ bottom ∷ [])) ≡ ok (if has v xs then v else minus_one))
unfolding find
find_lem v bottom xs = (unfold find_from in refl, find_from_lem v bottom xs)

-- `empty` ends with one round more than there are nodes; if no stored value is -1 the stack is then
-- empty and the lock free.
pub empty_loop_lem :
    (fuel : ℕ) (xs : List ℤ)
    → length xs < fuel
    → has minus_one xs ≡ false
    → empty_loop fuel (unlocked xs) ≡ ok (unlocked [])
unfolding empty_loop has
empty_loop_lem zero xs h q = absurd (omega arith)
empty_loop_lem (suc fuel) [] h q = refl
empty_loop_lem (suc fuel) (x ∷ []) h q = ground (arith, empty_loop_lem fuel [], ==ℤ_iff x minus_one)
empty_loop_lem (suc fuel) (x ∷ y ∷ xs) h q =
    ground (arith, empty_loop_lem fuel (y ∷ xs), ==ℤ_iff x minus_one)

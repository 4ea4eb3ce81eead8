-- ===== src/LfStack/Sequential.antt =====
-- `find`, `size` and `empty` of `lfStack`, by one thread while no other is at work. The nodes that
-- `Top` leads to are the list of their values.
use public_conc_exp.Common.{
  ℕ, zero, suc, ◌+◌, ◌<◌, ◌≡◌, refl, false, List, [], ◌∷◌, ◌++◌, arith, ℤ, ◌==ℤ◌, ==ℤ_iff,
  minus_one, if◌then◌else◌, Run, ok, fault, spins, length,
}
use public_conc_exp.Spec.SortedSet.{has}

-- `temp->next` is read before `temp` is tested, and a node with no successor is not looked at.
unfoldable pub find : ℤ → List ℤ → Run ℤ
find data_ [] = fault
find data_ (temp ∷ []) = ok minus_one
find data_ (temp ∷ next ∷ rest) = if temp ==ℤ data_ then ok data_ else find data_ (next ∷ rest)

unfoldable pub pop : List ℤ → List ℤ × ℤ
pop [] = ([], minus_one)
pop (old_top ∷ rest) = (rest, old_top)

size_from : ℕ → List ℤ → ℕ
size_from counter [] = counter
size_from counter (current ∷ rest) = size_from (counter + 1) rest

unfoldable pub size : List ℤ → ℕ
unfolding size_from
size s = size_from 0 s

-- `while(this->pop()!=-1){}`, on fuel
unfoldable pub empty_loop : ℕ → List ℤ → Run (List ℤ)
unfolding pop
empty_loop zero s = spins
empty_loop (suc fuel) s =
    let (s', got) = pop s in
    let again = empty_loop fuel s' in if got ==ℤ minus_one then ok s' else again

-- `find` faults on an empty stack; on any other it searches all but the bottom node.
pub find_lem :
    (v bottom : ℤ) (xs : List ℤ)
    → (find v [] ≡ fault) × (find v (xs ++ bottom ∷ []) ≡ ok (if has v xs then v else minus_one))
unfolding find has
find_lem v bottom [] = (refl, refl)
find_lem v bottom (x ∷ []) = ground (arith, ==ℤ_iff x v, ==ℤ_iff v x)
find_lem v bottom (x ∷ y ∷ xs) =
    ground (arith, find_lem v bottom (y ∷ xs), ==ℤ_iff x v, ==ℤ_iff v x)

size_from_lem : (n : ℕ) (xs : List ℤ) → size_from n xs ≡ n + length xs
unfolding size_from
size_from_lem n [] = omega arith
size_from_lem n (x ∷ xs) = omega (arith, size_from_lem (n + 1) xs)

pub size_lem : (xs : List ℤ) → size xs ≡ length xs
unfolding size
size_lem xs = omega (arith, size_from_lem 0 xs)

-- With one round more than there are nodes the loop of `empty` ends, and if no stored value is -1
-- the stack is then empty.
pub empty_loop_lem :
    (fuel : ℕ) (xs : List ℤ)
    → length xs < fuel
    → has minus_one xs ≡ false
    → empty_loop fuel xs ≡ ok []
unfolding empty_loop has
empty_loop_lem zero xs h q = absurd (omega arith)
empty_loop_lem (suc fuel) [] h q = refl
empty_loop_lem (suc fuel) (x ∷ xs) h q = ground (arith, empty_loop_lem fuel xs, ==ℤ_iff x minus_one)

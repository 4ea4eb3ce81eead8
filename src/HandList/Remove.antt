-- ===== src/HandList/Remove.antt =====
-- `remove`, `removeFirst` and `empty`: what they take out, and that they leave no lock held.
use public_conc_exp.Common.{
  ℕ, zero, suc, ◌+◌, ◌<◌, ◌≡◌, refl, true, false, List, [], ◌∷◌, map, arith, ℤ, ◌==ℤ◌, ==ℤ_iff,
  minus_one, if◌then◌else◌, ok, length,
}
use public_conc_exp.Spec.SortedSet.{
  has, IsAscending, drop_value, drop_value_before, has_below, has_before,
}
use public_conc_exp.HandList.{new_node, remove_after, remove, remove_first, empty_loop, empty}
use public_conc_exp.HandList.Quiet.{quiet}

remove_after_lem :
    (v x : ℤ) (xs : List ℤ)
    → IsAscending xs
    → remove_after v (record { value = x; locked = true }) (map new_node xs)
      ≡ ok (new_node x ∷ map new_node (drop_value v xs), if has v xs then v else minus_one)
unfolding remove_after drop_value has
remove_after_lem v x [] s = refl
remove_after_lem v x (y ∷ xs) s = ground (
  arith,
  remove_after_lem v y xs s.1,
  ==ℤ_iff y v,
  ==ℤ_iff v y,
  has_before v y xs,
  has_below y xs s.0,
)

-- On a quiet, strictly ascending list `remove` ends with all locks free, holds the list without `v`, and returns
-- `v` if it was there and -1 if not.
pub remove-drop_value :
    (v : ℤ) (xs : List ℤ)
    → IsAscending xs
    → remove v (quiet xs) ≡ ok (quiet (drop_value v xs), if has v xs then v else minus_one)
unfolding remove drop_value has
remove-drop_value v [] s = refl
remove-drop_value v (x ∷ xs) s = ground (
  arith,
  remove_after_lem v x xs s.1,
  drop_value_before v x xs,
  ==ℤ_iff x v,
  ==ℤ_iff v x,
  has_before v x xs,
  has_below x xs s.0,
)

-- The values behind the first -1: what `empty` leaves.
unfoldable after_minus_one : List ℤ → List ℤ
after_minus_one [] = []
after_minus_one (x ∷ xs) = if x ==ℤ minus_one then xs else after_minus_one xs

empty_loop_lem :
    (fuel : ℕ) (xs : List ℤ)
    → length xs < fuel
    → empty_loop fuel (quiet xs) ≡ ok (quiet (after_minus_one xs))
unfolding empty_loop remove_first after_minus_one
empty_loop_lem zero xs h = absurd (omega arith)
empty_loop_lem (suc fuel) [] h = refl
empty_loop_lem (suc fuel) (x ∷ xs) h = ground (arith, empty_loop_lem fuel xs)

length-quiet : (xs : List ℤ) → length (quiet xs).chain ≡ length xs
length-quiet [] = refl
length-quiet (x ∷ xs) = omega (arith, length-quiet xs)

-- `empty` terminates on every quiet list. It stops behind the first stored -1, which it takes for
-- the report of an empty list, and leaves what stands there.
empty_lem : (xs : List ℤ) → empty (quiet xs) ≡ ok (quiet (after_minus_one xs))
unfolding empty
empty_lem xs = rw (length-quiet xs) (empty_loop_lem (length xs + 1) xs (omega arith))

-- Without a stored -1 nothing is left.
after_minus_one-nil : (xs : List ℤ) → has minus_one xs ≡ false → after_minus_one xs ≡ []
unfolding after_minus_one has
after_minus_one-nil [] h = refl
after_minus_one-nil (x ∷ xs) h = ground (arith, after_minus_one-nil xs, ==ℤ_iff x minus_one)

-- ===== src/HandList/Insert.antt =====
-- `insert` is the insertion into an ascending set, and leaves no lock held.
use public_conc_exp.Common.{◌≡◌, refl, true, not, List, [], ◌∷◌, map, arith, ℤ, ==ℤ_iff, ok}
use public_conc_exp.Spec.SortedSet.{has, IsAscending, put, has_below, has_before}
use public_conc_exp.HandList.{new_node, insert_after, insert}
use public_conc_exp.HandList.Quiet.{quiet}

insert_after_lem :
    (item x : ℤ) (xs : List ℤ)
    → IsAscending xs
    → insert_after item (record { value = x; locked = true }) (map new_node xs)
      ≡ ok (new_node x ∷ map new_node (put item xs), not (has item xs))
unfolding insert_after put has
insert_after_lem item x [] s = refl
insert_after_lem item x (y ∷ xs) s = ground (
  arith,
  insert_after_lem item y xs s.1,
  ==ℤ_iff y item,
  ==ℤ_iff item y,
  has_before item y xs,
  has_below y xs s.0,
)

-- On a quiet, strictly ascending list, with memory that the allocator hands out zeroed, `insert`
-- ends with all locks free, holds `put data xs`, and returns whether the value was new.
pub insert-put :
    (item : ℤ) (xs : List ℤ)
    → IsAscending xs
    → insert [] item (quiet xs) ≡ ok (quiet (put item xs), not (has item xs))
unfolding insert put has
insert-put item [] s = refl
insert-put item (x ∷ xs) s = ground (
  arith,
  insert_after_lem item x xs s.1,
  ==ℤ_iff x item,
  has_before item x xs,
  has_below x xs s.0,
)

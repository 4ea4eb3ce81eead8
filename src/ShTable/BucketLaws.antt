-- ===== src/ShTable/BucketLaws.antt =====
-- A bucket in use is an ascending set of numbers that are not negative.
use public_conc_exp.Common.{
  ℕ, ◌+◌, ◌≡◌, refl, true, not, List, [], ◌∷◌, map, arith, ℤ, pos, ◌≤ℤ◌, ==ℤ_iff, minus_one,
  if◌then◌else◌, ok, fault, length,
}
use public_conc_exp.Spec.SortedSet.{
  has, IsAscending, put, drop_value, drop_value_before, has_below, has_before,
}
use public_conc_exp.ShTable.Bucket.{
  SllHand, new_node, new_list, unlocked, insert_after, insert, remove_after, remove, search_from,
  search, size_from, size,
}

abbrev pub quiet : List ℤ → SllHand
quiet xs = unlocked (map new_node xs)

-- No value is negative.
abbrev pub AllNat : List ℤ → Type 0
AllNat [] = Unit
AllNat (x ∷ xs) = (pos 0 ≤ℤ x) × AllNat xs

insert_after_lem :
    (v x : ℤ) (xs : List ℤ)
    → IsAscending xs
    → insert_after v (record { value = x; locked = true }) (map new_node xs)
      ≡ ok (new_node x ∷ map new_node (put v xs), not (has v xs))
unfolding insert_after put has
insert_after_lem v x [] s = refl
insert_after_lem v x (y ∷ xs) s = ground (
  arith,
  insert_after_lem v y xs s.1,
  ==ℤ_iff y v,
  ==ℤ_iff v y,
  has_before v y xs,
  has_below y xs s.0,
)

-- On a bucket that holds something `insert` is the insertion into an ascending set, and leaves no
-- lock held.
pub insert-put :
    (v x : ℤ) (xs : List ℤ)
    → IsAscending (x ∷ xs)
    → pos 0 ≤ℤ x
    → insert v (quiet (x ∷ xs)) ≡ ok (quiet (put v (x ∷ xs)), not (has v (x ∷ xs)))
unfolding insert put has
insert-put v x xs s nonneg =
    ground (arith, insert_after_lem v x xs s.1, ==ℤ_iff x v, has_before v x xs, has_below x xs s.0)

-- The first `insert` replaces the sentinel; on a bucket from which everything has been removed
-- `insert` dereferences a null pointer.
pub insert_edges :
    (v : ℤ) → (insert v new_list ≡ ok (quiet (v ∷ []), true)) × (insert v (quiet []) ≡ fault)
unfolding insert
insert_edges v = (refl, refl)

remove_after_lem :
    (v x : ℤ) (xs : List ℤ)
    → IsAscending xs
    → remove_after v (record { value = x; locked = true }) (map new_node xs)
      ≡ ok (new_node x ∷ map new_node (drop_value v xs), if has v xs then v else minus_one)
unfolding remove_after drop_value has
remove_after_lem v x [] s = refl
remove_after_lem v x (y ∷ xs) s = ground (
  arith,
  remove_after_lem v y xs s.1,
  ==ℤ_iff y v,
  ==ℤ_iff v y,
  has_before v y xs,
  has_below y xs s.0,
)

pub remove-drop_value :
    (v : ℤ) (xs : List ℤ)
    → IsAscending xs
    → remove v (quiet xs) ≡ ok (quiet (drop_value v xs), if has v xs then v else minus_one)
unfolding remove drop_value has
remove-drop_value v [] s = refl
remove-drop_value v (x ∷ xs) s = ground (
  arith,
  remove_after_lem v x xs s.1,
  drop_value_before v x xs,
  ==ℤ_iff x v,
  ==ℤ_iff v x,
  has_before v x xs,
  has_below x xs s.0,
)

search_from_lem :
    (v : ℤ) (xs : List ℤ) → search_from v (map new_node xs) ≡ (if has v xs then v else minus_one)
unfolding search_from has
search_from_lem v [] = refl
search_from_lem v (x ∷ xs) = ground (arith, search_from_lem v xs, ==ℤ_iff x v, ==ℤ_iff v x)

pub search_lem : (v : ℤ) (xs : List ℤ) → search v (quiet xs) ≡ (if has v xs then v else minus_one)
unfolding search
search_lem v xs = search_from_lem v xs

size_from_lem : (n : ℕ) (xs : List ℤ) → size_from n (map new_node xs) ≡ n + length xs
unfolding size_from
size_from_lem n [] = omega arith
size_from_lem n (x ∷ xs) = omega (arith, size_from_lem (n + 1) xs)

pub size_lem : (xs : List ℤ) → size (quiet xs) ≡ length xs
unfolding size
size_lem xs = omega (arith, size_from_lem 0 xs)

-- ===== src/HandList/Observe.antt =====
-- `search` and `size`, which take no lock, and the list seen through them.
use public_conc_exp.Common.{
  ℕ, ◌+◌, ◌≡◌, refl, ◌∙◌, true, false, not, ◌||◌, ◌&&◌, List, [], ◌∷◌, map, arith, ℤ, ◌==ℤ◌,
  ==ℤ_iff, ==ℤ_refl, minus_one, if◌then◌else◌, ok, length,
}
use public_conc_exp.Spec.SortedSet.{
  has, IsAscending, put, drop_value, put_again, has-put, has-drop_value, put-IsAscending,
  drop_value-IsAscending,
}
use public_conc_exp.HandList.{new_node, insert, remove, search_from, search, size_from, size}
use public_conc_exp.HandList.Quiet.{quiet}
use public_conc_exp.HandList.Insert.{insert-put}
use public_conc_exp.HandList.Remove.{remove-drop_value}

search_from_lem :
    (v : ℤ) (xs : List ℤ) → search_from v (map new_node xs) ≡ (if has v xs then v else minus_one)
unfolding search_from has
search_from_lem v [] = refl
search_from_lem v (x ∷ xs) = ground (arith, search_from_lem v xs, ==ℤ_iff x v, ==ℤ_iff v x)

-- `search` finds a value exactly if it is stored, in any order; -1 otherwise.
pub search_lem : (v : ℤ) (xs : List ℤ) → search v (quiet xs) ≡ (if has v xs then v else minus_one)
unfolding search
search_lem v xs = search_from_lem v xs

size_from_lem : (n : ℕ) (xs : List ℤ) → size_from n (map new_node xs) ≡ n + length xs
unfolding size_from
size_from_lem n [] = omega arith
size_from_lem n (x ∷ xs) = omega (arith, size_from_lem (n + 1) xs)

-- `size` counts the nodes.
pub size_lem : (xs : List ℤ) → size (quiet xs) ≡ length xs
unfolding size
size_lem xs = omega (arith, size_from_lem 0 xs)

insert_again :
    (v : ℤ) (xs : List ℤ)
    → IsAscending xs
    → insert [] v (quiet (put v xs)) ≡ ok (quiet (put v xs), false)
insert_again v xs s =
    let held : has v (put v xs) ≡ true = has-put v v xs ∙ rw (==ℤ_refl v) in
    let ascending = put-IsAscending v xs s in
    insert-put v (put v xs) ascending ∙ rw (held, put_again v (put v xs) ascending held)

-- The contract of an ordered set: after `insert v` every search for `w` answers as before, except
-- that `v` is found; the list stays ascending, and a second `insert v` returns false.
pub insert-search :
    (v : ℤ) (xs : List ℤ)
    → IsAscending xs
    → (ys : List ℤ) × (insert [] v (quiet xs) ≡ ok (quiet ys, not (has v xs)))
      × IsAscending ys
      × ((w : ℤ) → search w (quiet ys) ≡ (if (w ==ℤ v) || has w xs then w else minus_one))
      × (insert [] v (quiet ys) ≡ ok (quiet ys, false))
insert-search v xs s = (
  put v xs,
  insert-put v xs s,
  put-IsAscending v xs s,
  λ w. search_lem w (put v xs) ∙ rw (has-put w v xs),
  insert_again v xs s,
)

-- After `remove v` every search for another value answers as before, and `v` is not found.
pub remove-search :
    (v : ℤ) (xs : List ℤ)
    → IsAscending xs
    → (ys : List ℤ) × (remove v (quiet xs) ≡ ok (quiet ys, if has v xs then v else minus_one))
      × IsAscending ys
      × ((w : ℤ) → search w (quiet ys) ≡ (if not (w ==ℤ v) && has w xs then w else minus_one))
remove-search v xs s = (
  drop_value v xs,
  remove-drop_value v xs s,
  drop_value-IsAscending v xs s,
  λ w. search_lem w (drop_value v xs) ∙ rw (has-drop_value w v xs s),
)

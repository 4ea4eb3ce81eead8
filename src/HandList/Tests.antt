-- ===== src/HandList/Tests.antt =====
-- The hand-over-hand list on small inputs.
use public_conc_exp.Common.{
  ◌≡◌, refl, ◌&&◌, ◌||◌, not, true, false, List, [], ◌∷◌, arith, ℤ, pos, ◌==ℤ◌, minus_one,
  if◌then◌else◌, ok, blocked,
}
use public_conc_exp.Spec.SortedSet.{has, IsAscending}
use public_conc_exp.HandList.{insert, remove, search, unlocked, new_node}
use public_conc_exp.HandList.Quiet.{quiet}
use public_conc_exp.HandList.Observe.{insert-search, remove-search}

abbrev sample : List ℤ
sample = pos 2 ∷ pos 5 ∷ pos 9 ∷ []

insert_middle :
    insert [] (pos 7) (quiet sample) ≡ ok (quiet (pos 2 ∷ pos 5 ∷ pos 7 ∷ pos 9 ∷ []), true)
unfolding insert
insert_middle = refl

-- An indeterminate `nextNode` that leads anywhere becomes part of the list.
insert_junk :
    insert (new_node (pos 1) ∷ []) (pos 7) (quiet []) ≡ ok (quiet (pos 7 ∷ pos 1 ∷ []), true)
unfolding insert
insert_junk = refl

-- A node that another thread holds stops the traversal.
insert_held :
    insert [] (pos 7) (unlocked (new_node (pos 2) ∷ record { value = pos 5; locked = true } ∷ []))
    ≡ blocked
unfolding insert
insert_held = refl

insert-search_example :
    (ys : List ℤ) × (insert [] (pos 7) (quiet sample) ≡ ok (quiet ys, not (has (pos 7) sample)))
    × IsAscending ys
    × ((w : ℤ) → search w (quiet ys) ≡ (if (w ==ℤ pos 7) || has w sample then w else minus_one))
    × (insert [] (pos 7) (quiet ys) ≡ ok (quiet ys, false))
insert-search_example = insert-search (pos 7) sample (omega arith)

remove-search_example :
    (ys : List ℤ) × (remove (pos 5) (quiet sample)
      ≡ ok (quiet ys, if has (pos 5) sample then pos 5 else minus_one))
    × IsAscending ys
    × ((w : ℤ) → search w (quiet ys) ≡ (if not (w ==ℤ pos 5) && has w sample then w else minus_one))
remove-search_example = remove-search (pos 5) sample (omega arith)

-- ===== src/SeqStack/Tests.antt =====
-- The sequential stack on small inputs.
use public_conc_exp.Common.{◌≡◌, refl, [], ◌∷◌, ℤ, pos, ok, fault}
use public_conc_exp.SeqStack.{Sll, count_doubles_in_seq, merge_sort}
use public_conc_exp.SeqStack.Contents.{repeats, count_doubles_in_seq_lem}
use public_conc_exp.SeqStack.Sort.{count, IsSorted, merge_sort_lem}

abbrev sample : Sll
sample = pos 5 ∷ pos 2 ∷ pos 2 ∷ pos 9 ∷ pos 0 ∷ []

merge_sort-sample : merge_sort sample ≡ ok (pos 0 ∷ pos 2 ∷ pos 2 ∷ pos 5 ∷ pos 9 ∷ [])
unfolding merge_sort
merge_sort-sample = refl

merge_sort_lem_example :
    (ys : Sll) × (merge_sort sample ≡ ok ys) × IsSorted ys × ((v : ℤ) → count v ys ≡ count v sample)
merge_sort_lem_example = merge_sort_lem sample

count_doubles_in_seq-sample : count_doubles_in_seq sample ≡ ok (repeats sample)
count_doubles_in_seq-sample = count_doubles_in_seq_lem (pos 5) (pos 2 ∷ pos 2 ∷ pos 9 ∷ pos 0 ∷ [])

-- The list has to hold something.
count_doubles_in_seq_empty : count_doubles_in_seq [] ≡ fault
unfolding count_doubles_in_seq
count_doubles_in_seq_empty = refl

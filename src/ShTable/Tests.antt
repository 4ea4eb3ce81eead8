-- ===== src/ShTable/Tests.antt =====
-- The hash table on small inputs.
use public_conc_exp.Common.{
  ◌≡◌, refl, ◌||◌, true, not, List, [], ◌∷◌, arith, ℤ, pos, ◌≤ℤ◌, ◌==ℤ◌, minus_one, if◌then◌else◌,
  ok, fault,
}
use public_conc_exp.Spec.SortedSet.{has}
use public_conc_exp.ShTable.{Table, new_table, find, insert, remove}
use public_conc_exp.ShTable.Hash.{most}
use public_conc_exp.ShTable.Laws.{
  IsTable, put_into, insert_all, insert-find, insert_all-find, remove-insert_faults,
}

insert-find_example :
    (u : Table) × (insert (pos 3) new_table ≡ ok (u, not (has (pos 3) [])))
    × IsTable u (put_into (pos 3) (λ i. []))
    × ((w : ℤ)
        → pos 0 ≤ℤ w
        → w ≤ℤ most
        → find w u ≡ ok (if (w ==ℤ pos 3) || has w [] then w else minus_one))
insert-find_example =
    insert-find (pos 3) new_table (λ i. []) (omega arith) (omega arith) (λ i. refl)

abbrev sample : List ℤ
sample = pos 40 ∷ pos 3 ∷ pos 17 ∷ pos 3 ∷ []

insert_all-find_example :
    (u : Table) × (insert_all sample new_table ≡ ok u)
    × ((w : ℤ) → pos 0 ≤ℤ w → w ≤ℤ most → find w u ≡ ok (if has w sample then w else minus_one))
insert_all-find_example = insert_all-find sample (omega arith) (omega arith)

remove-insert_faults_example :
    (t : Table) × (u : Table) × (insert (pos 3) new_table ≡ ok (t, true))
    × (remove (pos 3) t ≡ ok (u, pos 3))
    × (insert (pos 3) u ≡ fault)
remove-insert_faults_example = remove-insert_faults (pos 3) (pos 3) (omega arith) (omega arith) refl

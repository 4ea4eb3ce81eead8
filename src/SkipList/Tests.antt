-- ===== src/SkipList/Tests.antt =====
-- A skip list of two levels: node 2 with 3 on the lowest one, node 3 with 8 on both.
use public_conc_exp.Common.{
  ℕ, zero, suc, ◌-◌, ◌<◌, ◌≡◌, ◌≢◌, refl, true, false, not, inl, inr, List, [], ◌∷◌, arith, pos,
  ◌==◌, if◌then◌else◌, ok, fault, ◌>>=◌,
}
use public_conc_exp.Spec.SortedSet.{IsAscending, has, put, drop_value}
use public_conc_exp.Rows.{Ptr, null}
use public_conc_exp.SkipList.{sentinel, SkipList, new, find, insert, remove}
use public_conc_exp.Rows.Row.{Linked, In}
use public_conc_exp.SkipList.Shape.{Shape, contents, IsEnough, IsNew}
use public_conc_exp.SkipList.Find.{skip_find}
use public_conc_exp.SkipList.Laws.{skip_insert, skip_remove}

abbrev two : SkipList
two = record {
  levels = 2;
  data_of = λ p. if p == 2 then pos 3 else pos 8;
  lvls_array = λ p i.
      if p == 1 then (if i == 0 then 2 else 3) else if p == 2 then (if i == 0 then 3 else 0) else 0;
}

abbrev rows : ℕ → List Ptr
rows zero = 2 ∷ 3 ∷ []
rows (suc i) = 3 ∷ []

rows_linked : (i : ℕ) → i < 2 → Linked (λ p. two.lvls_array p i) sentinel (rows i)
rows_linked zero lt = (refl, (refl, refl))
rows_linked (suc zero) lt = (refl, refl)
rows_linked (suc (suc i)) lt = absurd (omega arith)

rows-IsAscending : (i : ℕ) → i < 2 → IsAscending (contents two (λ j. rows i))
rows-IsAscending zero lt = ((omega arith, tt), (tt, tt))
rows-IsAscending (suc i) lt = (tt, tt)

rows_nested : (i : ℕ) → suc i < 2 → (p : Ptr) → In p (rows (suc i)) → In p (rows i)
rows_nested zero lt p at = inr at
rows_nested (suc i) lt p at = at

rows_proper : (i : ℕ) → i < 2 → (p : Ptr) → In p (rows i) → (p ≢ null) × (p ≢ sentinel)
rows_proper zero lt p (inl e) = (omega (arith, e), omega (arith, e))
rows_proper zero lt p (inr (inl e)) = (omega (arith, e), omega (arith, e))
rows_proper zero lt p (inr (inr at)) = absurd at
rows_proper (suc i) lt p (inl e) = (omega (arith, e), omega (arith, e))
rows_proper (suc i) lt p (inr at) = absurd at

two-Shape : Shape two rows
two-Shape = record {
  linked = rows_linked;
  ascending = rows-IsAscending;
  nested = rows_nested;
  proper = rows_proper;
}

two-IsEnough : IsEnough 5 two rows
two-IsEnough zero lt = omega arith
two-IsEnough (suc i) lt = omega arith

four-IsNew : IsNew 4 two rows
four-IsNew = (omega arith, omega arith, four)
  where
    four : (i : ℕ) → i < 2 → (q : Ptr) → In q (rows i) → q ≢ 4
    four zero lt q (inl e) = omega (arith, e)
    four zero lt q (inr (inl e)) = omega (arith, e)
    four zero lt q (inr (inr at)) = absurd at
    four (suc i) lt q (inl e) = omega (arith, e)
    four (suc i) lt q (inr at) = absurd at

skip_find_example :
    (p : Ptr) × (find 5 two (pos 8) ≡ ok p)
    × (not (p == null) ≡ has (pos 8) (contents two rows))
    × (p ≢ null → In p (rows 0) × (two.data_of p ≡ pos 8))
skip_find_example = skip_find 5 two (pos 8) rows two-Shape two-IsEnough (omega arith)

skip_insert_example :
    (t : SkipList) × (rows' : ℕ → List Ptr) × (insert 5 (λ k. true) 4 two (pos 5)
      ≡ ok (t, not (has (pos 5) (contents two rows))))
    × Shape t rows'
    × (contents t rows' ≡ put (pos 5) (contents two rows))
    × (t.levels ≡ two.levels)
skip_insert_example =
    skip_insert 5 two (pos 5) rows two-Shape two-IsEnough (λ k. true) 4 four-IsNew (omega arith)

skip_remove_example :
    (t : SkipList) × (rows' : ℕ → List Ptr) × (p : Ptr) × (remove 5 two (pos 8) ≡ ok (t, p))
    × (not (p == null) ≡ has (pos 8) (contents two rows))
    × Shape (record t { levels = two.levels }) rows'
    × Shape t rows'
    × (contents t rows' ≡ drop_value (pos 8) (contents two rows))
    × (t.levels ≡ (if has (pos 8) (contents two rows) then two.levels - 1 else two.levels))
skip_remove_example = skip_remove 5 two (pos 8) rows two-Shape two-IsEnough (omega arith)

-- One removal leaves a list of one level with no level, and the next call is out of bounds.
used_up :
    (do
      (s, b) ← insert 5 (λ k. false) 2 (new (λ p. pos 0) 0) (pos 5)
      (t, p) ← remove 5 s (pos 5)
      insert 5 (λ k. false) 3 t (pos 6))
    ≡ fault
unfolding new insert remove
used_up = refl

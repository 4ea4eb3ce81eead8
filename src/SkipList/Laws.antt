-- ===== src/SkipList/Laws.antt =====
-- What `insert` and `remove` of the skip list do to the set that it holds.
use public_conc_exp.Common.{
  ℕ, ◌-◌, ◌<◌, ◌≡◌, refl, sym, ◌∙◌, Bool, true, false, not, inl, inr, Bool-cases, List, [], arith,
  ℤ, ◌==◌, ==ℤ_iff, leb, if◌then◌else◌, ok,
}
use public_conc_exp.Spec.SortedSet.{has, put, put_again, drop_value, drop_value_missing}
use public_conc_exp.Rows.{Ptr, null}
use public_conc_exp.SkipList.{SkipList, new, randomlvl, insert, remove}
use public_conc_exp.SkipList.Shape.{lower-Shape, Shape, contents, IsEnough, IsNew}
use public_conc_exp.SkipList.Find.{back, not_null, search_lem, next_lem, key_lem}
use public_conc_exp.Rows.Row.{above-In, has-above}
use public_conc_exp.Rows.Change.{is_first-In}
use public_conc_exp.Rows.Drop.{first-above, drop_value-dropped}
use public_conc_exp.SkipList.Remove.{shrunk, unlinked, shrunk-Shape}
use public_conc_exp.SkipList.Link.{randomlvl_lem}
use public_conc_exp.SkipList.Insert.{grown, linked_in, grown-Shape, grown_values}

some_level : (k : ℕ) → 0 < k → (k == 0) ≡ false
some_level k lt = ground arith

level_within : (k r : ℕ) → r < k → leb k r ≡ false
level_within k r lt = ground arith

leb_zero : (r : ℕ) → leb 0 r ≡ true
leb_zero r = ground arith

module _ (fuel : ℕ) (s : SkipList) (key : ℤ) (rows : ℕ → List Ptr) (shape : Shape s rows)
    (enough : IsEnough fuel s rows) where
  -- On a skip list of at least one level, with more fuel than a row has nodes and a new address,
  -- whatever the random numbers are, `insert` ends, returns whether the value is new, and leaves a
  -- skip list of as many levels that holds what was held and the value.
  pub skip_insert :
      (up : ℕ → Bool) (n : Ptr)
      → IsNew n s rows
      → 0 < s.levels
      → (t : SkipList) × (rows' : ℕ → List Ptr) × (insert fuel up n s key
          ≡ ok (t, not (has key (contents s rows))))
        × Shape t rows'
        × (contents t rows' ≡ put key (contents s rows))
        × (t.levels ≡ s.levels)
  unfolding insert
  skip_insert up n (no_null, no_sentinel, fresh) lt =
      let key_is = key_lem fuel s key rows shape enough lt in
      elim (Bool-cases (has key (contents s rows))) [
        | inl e ↦ (
          s,
          rows,
          rw (
            some_level s.levels lt,
            search_lem fuel s key rows shape enough lt,
            next_lem s key rows shape 0 lt,
            key_is,
            e,
          ),
          shape,
          sym (put_again key (contents s rows) (shape.ascending 0 lt) e),
          refl,
        )
        | inr e ↦
            let r = randomlvl up s in
            (
              linked_in s key rows n r,
              grown s key rows n r,
              rw (
                some_level s.levels lt,
                search_lem fuel s key rows shape enough lt,
                next_lem s key rows shape 0 lt,
                key_is,
                e,
                level_within s.levels r (randomlvl_lem up s lt),
              ),
              grown-Shape s key rows shape n no_null no_sentinel fresh e r,
              rw (leb_zero r) (grown_values s key rows shape n no_null no_sentinel fresh e r 0 lt),
              refl,
            )
      ]

  -- On a skip list of at least one level, with more fuel than a row has nodes, `remove` ends, with null
  -- exactly if the value is not held, and leaves a skip list that holds what was held without the
  -- value: on all the levels that there were the rows are linked, ascending and nested, and the lowest one
  -- holds just these values. Each value that it removes costs the list a level.
  pub skip_remove :
      0 < s.levels
      → (t : SkipList) × (rows' : ℕ → List Ptr) × (p : Ptr) × (remove fuel s key ≡ ok (t, p))
        × (not (p == null) ≡ has key (contents s rows))
        × Shape (record t { levels = s.levels }) rows'
        × Shape t rows'
        × (contents t rows' ≡ drop_value key (contents s rows))
        × (t.levels ≡ (if has key (contents s rows) then s.levels - 1 else s.levels))
  unfolding remove
  skip_remove lt =
      let key_is = key_lem fuel s key rows shape enough lt in
      elim (Bool-cases (has key (contents s rows))) [
        | inl e ↦
            let asc = shape.ascending 0 lt in
            let is = sym (has-above s.data_of key (rows 0) asc) ∙ e in
            let (p, at_back, h) = is_first-In s.data_of key (back s key rows 0) is in
            let at = above-In s.data_of key p (rows 0) at_back in
            let same : s.data_of p ≡ key = ground (arith, ==ℤ_iff (s.data_of p) key) in
            let no_null = (shape.proper 0 lt p at).0 in
            (
              unlinked s key rows p,
              shrunk s key rows p,
              p,
              rw (
                some_level s.levels lt,
                search_lem fuel s key rows shape enough lt,
                next_lem s key rows shape 0 lt,
                key_is,
                e,
                first-above s.data_of key p (rows 0) asc at same,
              ),
              rw (not_null p no_null, e),
              shrunk-Shape s key rows shape p no_null at same,
              lower-Shape (record (unlinked s key rows p) { levels = s.levels })
                  (shrunk s key rows p) (s.levels - 1) (omega arith)
                  (shrunk-Shape s key rows shape p no_null at same),
              sym (drop_value-dropped s.data_of key (rows 0)),
              rw e,
            )
        | inr e ↦ (
          s,
          rows,
          null,
          rw (
            some_level s.levels lt,
            search_lem fuel s key rows shape enough lt,
            next_lem s key rows shape 0 lt,
            key_is,
            e,
          ),
          sym e,
          shape,
          shape,
          sym (drop_value_missing key (contents s rows) e),
          rw e,
        )
      ]

-- The constructor makes a skip list that holds nothing.
new-Shape : (junk : Ptr → ℤ) (maxlvl : ℕ) → Shape (new junk maxlvl) (λ i. [])
unfolding new
new-Shape junk maxlvl = record {
  linked = λ i lt. refl;
  ascending = λ i lt. tt;
  nested = λ i lt p at. at;
  proper = λ i lt p at. absurd at;
}

-- ===== src/SkipList/Remove.antt =====
-- The pointers of the skip list after `remove` has taken out a node.
use public_conc_exp.Common.{
  ℕ, suc, ◌-◌, ◌<◌, ◌≡◌, ◌≢◌, sym, ap, ◌∙◌, subst, true, inl, inr, Bool-cases, List, ◌++◌, map,
  arith, ℤ, ==ℤ_iff, ==_refl,
}
use public_conc_exp.Spec.SortedSet.{IsAscending, drop_value-IsAscending}
use public_conc_exp.Rows.{Ptr, null}
use public_conc_exp.SkipList.{sentinel, SkipList, unlink_from}
use public_conc_exp.Rows.Row.{Linked, In, last, first, above-In, is_first}
use public_conc_exp.SkipList.Shape.{Shape}
use public_conc_exp.SkipList.Find.{front, back, parts, cuts, cuts_lem, next_lem}
use public_conc_exp.Rows.Change.{Apart, Apart-ascending, Linked-keep, is_first-In}
use public_conc_exp.SkipList.Link.{
  is_cut, Downward, cut_out, cut_out-here, cut_out-other, cut_out-kept, unlink_from_lem,
}
use public_conc_exp.SkipList.Insert.{nested_down}
use public_conc_exp.Rows.Drop.{
  dropped, drop_value-dropped, dropped-In, In-dropped, first-above, first-is_first, Linked-rest,
  rest_other,
}

module _ (s : SkipList) (key : ℤ) (rows : ℕ → List Ptr) (x : Ptr) where
  -- The rows without the key's node.
  abbrev pub shrunk : ℕ → List Ptr
  shrunk i = dropped s.data_of key (rows i)

  -- The state after the loop that unlinks the node.
  abbrev pub unlinked : SkipList
  unlinked = record s {
    levels = s.levels - 1;
    lvls_array = unlink_from s.levels 0 (cuts s key rows s.levels (λ i. null)) x s.lvls_array;
  }

module _ (s : SkipList) (key : ℤ) (rows : ℕ → List Ptr) (shape : Shape s rows) (x : Ptr)
    (no_null : x ≢ null) (held : In x (rows 0)) (same_key : s.data_of x ≡ key) where
  abbrev update : ℕ → Ptr
  update = cuts s key rows s.levels (λ i. null)

  cut_at : (i : ℕ) → i < s.levels → update i ≡ last sentinel (front s key rows i)
  cut_at i lt = cuts_lem s key rows s.levels (λ j. null) i lt

  cut_first : (i : ℕ) → i < s.levels → s.lvls_array (update i) i ≡ first (back s key rows i)
  cut_first i lt = ap (λ q. s.lvls_array q i) (cut_at i lt) ∙ next_lem s key rows shape i lt

  -- No other node of any level has the key.
  only : (i : ℕ) (q : Ptr) → i < s.levels → In q (rows i) → s.data_of q ≡ key → q ≡ x
  only i q lt at e =
      let asc = shape.ascending 0 (omega arith) in
      sym (first-above s.data_of key q (rows 0) asc (nested_down s rows shape i q lt at) e)
      ∙ first-above s.data_of key x (rows 0) asc held same_key

  is_cut_lem :
      (i : ℕ)
      → i < s.levels
      → is_cut update x s.lvls_array i ≡ is_first s.data_of key (back s key rows i)
  is_cut_lem i lt = rw (cut_first i lt) (
      first-is_first s.data_of key x (back s key rows i) same_key no_null
        (λ q at e. only i q lt (above-In s.data_of key q (rows i) at) e))

  -- A level that leads to the key's node holds it.
  cut-In :
      (i : ℕ) → i < s.levels → is_first s.data_of key (back s key rows i) ≡ true → In x (rows i)
  cut-In i lt h =
      let (p, at, e) = is_first-In s.data_of key (back s key rows i) h in
      let at_row = above-In s.data_of key p (rows i) at in
      subst (λ q. In q (rows i)) (only i p lt at_row (ground (arith, ==ℤ_iff (s.data_of p) key)))
        at_row

  first_is : (i : ℕ) → i < s.levels → In x (rows i) → first (back s key rows i) ≡ x
  first_is i lt at = first-above s.data_of key x (rows i) (shape.ascending i lt) at same_key

  cuts-Downward : Downward update x s.lvls_array s.levels 0
  cuts-Downward j le lt h =
      let up = cut-In (suc j) (omega arith) (sym (is_cut_lem (suc j) (omega arith)) ∙ h) in
      let at = shape.nested j (omega arith) x up in
      rw (cut_first j (omega arith), first_is j (omega arith) at) (==_refl x)

  abbrev row_f : ℕ → Ptr → Ptr
  row_f i q = s.lvls_array q i

  abbrev row_g : ℕ → Ptr → Ptr
  row_g i q = (unlinked s key rows x).lvls_array q i

  row_g_lem : (i : ℕ) (q : Ptr) → i < s.levels → row_g i q ≡ cut_out update x s.lvls_array q i
  row_g_lem i q lt =
      unlink_from_lem update x s.levels 0 s.lvls_array cuts-Downward q i (omega arith) (omega arith)

  shrunk_linked : (i : ℕ) → i < s.levels → Linked (row_g i) sentinel (shrunk s key rows x i)
  shrunk_linked i lt =
      let F = front s key rows i in
      let B = back s key rows i in
      let cut = parts s key rows i in
      let link = subst (Linked (row_f i) sentinel) (sym cut) (shape.linked i lt) in
      let apart =
        Apart-ascending s.data_of sentinel (rows i) (λ q j. (shape.proper i lt q j).1)
          (shape.ascending i lt) in
      elim (Bool-cases (is_first s.data_of key B)) [
        | inl h ↦
            let c = is_cut_lem i lt ∙ h in
            Linked-rest s.data_of key (row_f i) (row_g i) sentinel x F B link
              (subst (Apart sentinel) (sym cut) apart) h (first_is i lt (cut-In i lt h))
              (row_g_lem i (last sentinel F) lt
                ∙ cut_out-here update x s.lvls_array (last sentinel F) i c (cut_at i lt))
              (λ q ne.
                row_g_lem i q lt
                ∙ cut_out-other update x s.lvls_array q i (λ e. ne (e ∙ cut_at i lt)))
        | inr h ↦
            let c = is_cut_lem i lt ∙ h in
            rw (rest_other s.data_of key B h) (
              Linked-keep (row_f i) (row_g i) sentinel (F ++ B)
                (λ q at. row_g_lem i q lt ∙ cut_out-kept update x s.lvls_array q i c) link)
      ]

  -- All the rows that there were before are without the node.
  pub shrunk-Shape :
      Shape (record (unlinked s key rows x) { levels = s.levels }) (shrunk s key rows x)
  shrunk-Shape = record {
    linked = λ i lt. shrunk_linked i lt;
    ascending = λ i lt.
        subst IsAscending (drop_value-dropped s.data_of key (rows i))
          (drop_value-IsAscending key (map s.data_of (rows i)) (shape.ascending i lt));
    nested = λ i lt q at.
        let (j, ne) = dropped-In s.data_of key q (rows (suc i)) (shape.ascending (suc i) lt) at in
        In-dropped s.data_of key q (rows i) (shape.nested i lt q j) ne;
    proper = λ i lt q at.
        let (j, ne) = dropped-In s.data_of key q (rows i) (shape.ascending i lt) at in
        shape.proper i lt q j;
  }

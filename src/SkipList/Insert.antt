-- ===== src/SkipList/Insert.antt =====
-- `insert` of the skip list.
use public_conc_exp.Common.{
  update as store, ℕ, zero, suc, ◌≤◌, ◌<◌, ◌≡◌, ◌≢◌, sym, ap, ◌∙◌, subst, false, ◌⊎◌, inl, inr,
  Bool-cases, List, ◌∷◌, ◌++◌, map, arith, ℤ, ==_refl, leb, leb→le, if◌then◌else◌,
}
use public_conc_exp.Spec.SortedSet.{IsAscending, has, put, put-IsAscending}
use public_conc_exp.Rows.{Ptr, null}
use public_conc_exp.SkipList.{sentinel, SkipList, new_node, link_upto}
use public_conc_exp.Rows.Row.{Linked, In, last, last-In, below-In, above-In, is_first, put-below}
use public_conc_exp.SkipList.Shape.{Shape, contents}
use public_conc_exp.SkipList.Find.{front, back, parts, cuts, cuts_lem, next_lem}
use public_conc_exp.Rows.Change.{
  Apart-ascending, Apart, Linked-keep, Linked-insert, In-insert, In-more, map-agree, map-append,
  has-In, is_first-In,
}
use public_conc_exp.SkipList.Link.{
  link_upto-above, link_upto-update, link_upto-node, link_upto-other,
}

module _ (s : SkipList) (rows : ℕ → List Ptr) (shape : Shape s rows) where
  -- Every node is in the lowest row.
  pub nested_down : (i : ℕ) (p : Ptr) → i < s.levels → In p (rows i) → In p (rows 0)
  nested_down zero p lt at = at
  nested_down (suc i) p lt at = nested_down i p (omega arith) (shape.nested i lt p at)

  -- A key that the contents do not have is on no level.
  missing_level :
      (key : ℤ) (i : ℕ)
      → has key (contents s rows) ≡ false
      → i < s.levels
      → is_first s.data_of key (back s key rows i) ≡ false
  missing_level key i missing lt = elim (Bool-cases (is_first s.data_of key (back s key rows i))) [
    | inl e ↦
        let (p, at, h) = is_first-In s.data_of key (back s key rows i) e in
        let low = nested_down i p lt (above-In s.data_of key p (rows i) at) in
        absurd (ground (arith, missing, has-In s.data_of key p (rows 0) low (ground (arith, h))))
    | inr e ↦ e
  ]

module _ (s : SkipList) (key : ℤ) (rows : ℕ → List Ptr) (n : Ptr) (r : ℕ) where
  -- The rows with the node `n` on the levels up to `r`.
  abbrev pub grown : ℕ → List Ptr
  grown i = if leb i r then front s key rows i ++ n ∷ back s key rows i else rows i

  -- The state after the loop that links the node.
  abbrev pub linked_in : SkipList
  linked_in =
      let t = new_node s key n in
      record t {
        lvls_array = link_upto (suc r) (cuts s key rows s.levels (λ i. null)) n t.lvls_array;
      }

module _ (s : SkipList) (key : ℤ) (rows : ℕ → List Ptr) (shape : Shape s rows) (n : Ptr)
    (no_null : n ≢ null) (no_sentinel : n ≢ sentinel)
    (fresh : (i : ℕ) → i < s.levels → (q : Ptr) → In q (rows i) → q ≢ n)
    (missing : has key (contents s rows) ≡ false) (r : ℕ) where
  data_old : (q : Ptr) → q ≢ n → store s.data_of n key q ≡ s.data_of q
  data_old q ne = ground arith

  -- The values of a row with the new node in its place.
  pub grown_values :
      (i : ℕ)
      → i < s.levels
      → map (store s.data_of n key) (front s key rows i ++ n ∷ back s key rows i)
        ≡ put key (map s.data_of (rows i))
  grown_values i lt =
      let F = front s key rows i in
      let B = back s key rows i in
      let d = store s.data_of n key in
      rw
        (
          map-append d F (n ∷ B),
          map-agree d s.data_of F
              (λ q j. data_old q (fresh i lt q (below-In s.data_of key q (rows i) j))),
          map-agree d s.data_of B
              (λ q j. data_old q (fresh i lt q (above-In s.data_of key q (rows i) j))),
          ==_refl n,
        )
        (sym (put-below s.data_of key (rows i) (missing_level s rows shape key i missing lt)))

  abbrev end : ℕ → Ptr
  end i = last sentinel (front s key rows i)

  end-ne : (i : ℕ) → i < s.levels → end i ≢ n
  end-ne i lt e = elim (last-In sentinel (front s key rows i)) [
    | inl h ↦ no_sentinel (sym e ∙ h)
    | inr j ↦ fresh i lt (end i) (below-In s.data_of key (end i) (rows i) j) e
  ]

  old : (q : Ptr) (i : ℕ) → q ≢ n → store s.lvls_array n (λ i. null) q i ≡ s.lvls_array q i
  old q i ne = ground arith

  abbrev row_f : ℕ → Ptr → Ptr
  row_f i q = s.lvls_array q i

  abbrev row_g : ℕ → Ptr → Ptr
  row_g i q = (linked_in s key rows n r).lvls_array q i

  grown_linked :
      (i : ℕ)
      → i < s.levels
      → i ≤ r
      → Linked (row_g i) sentinel (front s key rows i ++ n ∷ back s key rows i)
  grown_linked i lt le =
      let u = cuts s key rows s.levels (λ j. null) in
      let l = store s.lvls_array n (λ j. null) in
      let at = cuts_lem s key rows s.levels (λ j. null) i lt in
      let F = front s key rows i in
      let B = back s key rows i in
      let cut = parts s key rows i in
      let in_row = λ (q : Ptr) (j : In q (F ++ B)). subst (In q) cut j in
      let apart =
        Apart-ascending s.data_of sentinel (rows i) (λ q j. (shape.proper i lt q j).1)
          (shape.ascending i lt) in
      Linked-insert (row_f i) (row_g i) n sentinel F B
        (subst (Linked (row_f i) sentinel) (sym cut) (shape.linked i lt))
        (subst (Apart sentinel) (sym cut) apart) no_sentinel (λ q j. fresh i lt q (in_row q j))
        (subst (λ c. row_g i c ≡ n) at (link_upto-update u n l (suc r) i (omega arith)))
        (link_upto-node u n l (suc r) i (omega arith) (λ e. end-ne i lt (sym at ∙ e))
          ∙ old (u i) i (λ e. end-ne i lt (sym at ∙ e))
          ∙ ap (row_f i) at
          ∙ next_lem s key rows shape i lt)
        (λ q ne ne_end. link_upto-other u n l (suc r) i q ne (λ e. ne_end (e ∙ at)) ∙ old q i ne)

  kept_linked : (i : ℕ) → i < s.levels → r < i → Linked (row_g i) sentinel (rows i)
  kept_linked i lt gt =
      let u = cuts s key rows s.levels (λ j. null) in
      let l = store s.lvls_array n (λ j. null) in
      Linked-keep (row_f i) (row_g i) sentinel (rows i)
        (λ q at.
          link_upto-above u n l (suc r) i q (omega arith)
          ∙ old q i (elim at [ inl e ↦ λ h. no_sentinel (sym h ∙ e) | inr j ↦ fresh i lt q j ]))
        (shape.linked i lt)

  grown_In : (i : ℕ) (q : Ptr) → In q (grown s key rows n r i) → ((q ≡ n) × (i ≤ r)) ⊎ In q (rows i)
  grown_In i q at = elim (Bool-cases (leb i r)) [
    | inl e ↦ elim (In-insert q n (front s key rows i) (back s key rows i) (rw e at at)) [
      | inl h ↦ inl (h, leb→le i r e)
      | inr j ↦ inr (subst (In q) (parts s key rows i) j)
    ]
    | inr e ↦ inr (rw e at at)
  ]

  In_grown : (i : ℕ) (q : Ptr) → ((q ≡ n) × (i ≤ r)) ⊎ In q (rows i) → In q (grown s key rows n r i)
  In_grown i q at = elim (Bool-cases (leb i r)) [
    | inl e ↦ rw e (
        In-more q n (front s key rows i) (back s key rows i) (elim at [
          | inl (h, le) ↦ inl h
          | inr j ↦ inr (subst (In q) (sym (parts s key rows i)) j)
        ]))
    | inr e ↦ rw e (elim at [ inl (h, le) ↦ absurd (ground arith) | inr j ↦ j ])
  ]

  pub grown-Shape : Shape (linked_in s key rows n r) (grown s key rows n r)
  grown-Shape = record {
    linked = λ i lt. elim (Bool-cases (leb i r)) [
      | inl e ↦ rw e (grown_linked i lt (leb→le i r e))
      | inr e ↦ rw e (kept_linked i lt (ground arith))
    ];
    ascending = λ i lt. elim (Bool-cases (leb i r)) [
      | inl e ↦ rw e (
          subst IsAscending (sym (grown_values i lt))
            (put-IsAscending key (map s.data_of (rows i)) (shape.ascending i lt)))
      | inr e ↦ rw e (
          subst IsAscending
            (sym (
              map-agree (store s.data_of n key) s.data_of (rows i)
                (λ q j. data_old q (fresh i lt q j))))
            (shape.ascending i lt))
    ];
    nested = λ i lt q at. In_grown i q (elim (grown_In (suc i) q at) [
      | inl (h, le) ↦ inl (h, omega arith)
      | inr j ↦ inr (shape.nested i lt q j)
    ]);
    proper = λ i lt q at. elim (grown_In i q at) [
      | inl (h, le) ↦ (λ e. no_null (sym h ∙ e), λ e. no_sentinel (sym h ∙ e))
      | inr j ↦ shape.proper i lt q j
    ];
  }

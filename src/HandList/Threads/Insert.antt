-- ===== src/HandList/Threads/Insert.antt =====
-- The steps of `insert`.
use public_conc_exp.Common.{
  update, update_here, update_other, ◌≡◌, ◌≢◌, refl, sym, ap, ◌∙◌, subst, false, inl, inr,
  Bool-cases, some, List, arith, ℤ, ltb_ℤ, ◌==ℤ◌, ◌==◌,
}
use public_conc_exp.Spec.SortedSet.{put_again}
use public_conc_exp.Spec.Requests.{done}
use public_conc_exp.Rows.{Ptr, null}
use public_conc_exp.Rows.Row.{In}
use public_conc_exp.Rows.Change.{Linked-keep}
use public_conc_exp.Rows.Cut.{next-In}
use public_conc_exp.HandList.Threads.{
  list, Mem, ins_list, ins_walk, ins_test, ins_lock, ins_release, ins_link, ins_store, leave,
  silent, inserted, act, lead_to,
}
use public_conc_exp.HandList.Threads.Shape.{spec, contents, Shape}
use public_conc_exp.HandList.Threads.Local.{Given, fit, stay, acquire-Does, unlock-Done, owns_none}
use public_conc_exp.HandList.Threads.Store.{lead_ne, has-cut, insert_Done}

module _ (data_of : Ptr → ℤ) (m : Mem) (xs : List Ptr) (shape : Shape data_of m xs) where
  pub ins_list_Does : (v : ℤ) (n : Ptr) → Given data_of m xs (ins_list v n)
  unfolding act
  ins_list_Does v n f locked =
      acquire-Does data_of m xs shape (ins_list v n) locked list (ins_walk v n list) (inl refl)
        (fit data_of m xs (ins_walk v n list) (inl refl) tt tt f.aim_of (inl refl) f.own)
        (λ a h. ground arith) (λ a h. ground arith) (λ o e. e)

  pub ins_walk_Does : (v : ℤ) (n c : Ptr) → Given data_of m xs (ins_walk v n c)
  unfolding act spec
  ins_walk_Does v n c f locked = elim (Bool-cases (m.next_node c == null)) [
    | inl e ↦
        let lead : m.next_node c ≡ null = ground arith in
        elim (Bool-cases (c == list)) [
          | inl h ↦
              rw (e, h)
                (stay data_of m xs shape (ins_walk v n c) locked (ins_store v n c null) silent refl
                  (fit data_of m xs (ins_store v n c null) f.at lead tt f.aim_of (f.found, inl refl)
                    f.own)
                  (λ a i. i) (λ a i. i) (λ o i. i))
          | inr h ↦
              rw (e, h)
                (stay data_of m xs shape (ins_walk v n c) locked (ins_link v n c null) silent refl
                  (fit data_of m xs (ins_link v n c null) f.at lead tt f.aim_of (f.found, inl refl)
                    f.own)
                  (λ a i. i) (λ a i. i) (λ o i. i))
        ]
    | inr e ↦
        let q = m.next_node c in
        rw e (
          stay data_of m xs shape (ins_walk v n c) locked (ins_test v n c q) silent refl
            (fit data_of m xs (ins_test v n c q) f.at refl tt f.aim_of (f.found, ground arith)
              f.own)
            (λ a i. i) (λ a i. i) (λ o i. i))
  ]

  pub ins_test_Does : (v : ℤ) (n c q : Ptr) → Given data_of m xs (ins_test v n c q)
  unfolding act spec
  ins_test_Does v n c q f locked = elim (Bool-cases (ltb_ℤ (data_of q) v)) [
    | inl e ↦ rw e (
        stay data_of m xs shape (ins_test v n c q) locked (ins_lock v n c q) silent refl
          (fit data_of m xs (ins_lock v n c q) f.at f.ahead_of tt f.aim_of (f.found.1, ground arith)
            f.own)
          (λ a i. i) (λ a i. i) (λ o i. i))
    | inr e ↦ elim (Bool-cases (data_of q ==ℤ v)) [
      | inl h ↦
          let solid : (q == null) ≡ false = ground (arith, f.found.1) in
          let held =
            has-cut data_of m xs shape v c q f.at f.found.0 (inr e) f.ahead_of ∙ rw (solid, h) in
          rw (e, h)
            (stay data_of m xs shape (ins_test v n c q) locked (leave c (done false))
              (inserted v false) (rw (held, put_again v (contents data_of xs) shape.ascending held))
              (fit data_of m xs (leave c (done false)) f.at tt tt tt tt tt) (λ a i. i) (λ a i. i)
              (owns_none (ins_test v n c q)))
      | inr h ↦
          rw (e, h)
            (stay data_of m xs shape (ins_test v n c q) locked (ins_link v n c q) silent refl
              (fit data_of m xs (ins_link v n c q) f.at f.ahead_of tt f.aim_of
                (f.found.0, inr (ground arith)) f.own)
              (λ a i. i) (λ a i. i) (λ o i. i))
    ]
  ]

  pub ins_lock_Does : (v : ℤ) (n c q : Ptr) → Given data_of m xs (ins_lock v n c q)
  unfolding act
  ins_lock_Does v n c q f locked =
      acquire-Does data_of m xs shape (ins_lock v n c q) locked q (ins_release v n c q)
        (inr (next-In m.next_node list c q xs shape.linked f.at f.ahead_of f.found.0))
        (fit data_of m xs (ins_release v n c q) f.at f.ahead_of tt f.aim_of f.found f.own)
        (λ a h. ground arith) (λ a h. ground arith) (λ o e. e)

  pub ins_release_Does : (v : ℤ) (n c q : Ptr) → Given data_of m xs (ins_release v n c q)
  unfolding act spec
  ins_release_Does v n c q f locked =
      let at_q = inr (next-In m.next_node list c q xs shape.linked f.at f.ahead_of f.found.0) in
      let ne = lead_ne data_of m xs shape c q f.at f.ahead_of f.found.0 in
      unlock-Done data_of m xs shape (ins_release v n c q) locked c (ins_walk v n q) silent refl
        (inl refl) (fit data_of m xs (ins_walk v n q) at_q tt tt f.aim_of (inr f.found.1) f.own)
        (λ a h. (ground arith, ground (arith, ne))) (λ a h h'. ground arith) (λ o e. e)

  pub ins_store_Does : (v : ℤ) (n c q : Ptr) → Given data_of m xs (ins_store v n c q)
  unfolding act
  ins_store_Does v n c q f locked =
      insert_Done data_of m xs shape v n c q f.own f.at f.found.0 f.found.1 f.ahead_of f.aim_of
        locked

  -- The new node gets its pointer.
  pub ins_link_Does : (v : ℤ) (n c q : Ptr) → Given data_of m xs (ins_link v n c q)
  unfolding act spec
  ins_link_Does v n c q f locked =
      let (no_null, made, value, apart) = f.own in
      let n_c : c ≢ n =
        λ e. elim f.at [ inl h ↦ no_null (sym e ∙ h) | inr i ↦ apart (subst (λ b. In b xs) e i) ] in
      (
        xs,
        record {
          shape = record {
            linked =
                Linked-keep m.next_node (update m.next_node n q) list xs
                  (λ a i. update_other m.next_node n q a (elim i [
                    | inl e ↦ λ h. no_null (sym h ∙ e)
                    | inr j ↦ λ h. apart (subst (λ b. In b xs) h j)
                  ]))
                  shape.linked;
            ascending = shape.ascending;
            proper = shape.proper;
          };
          fits =
              fit data_of (lead_to m n q) xs (ins_store v n c q) f.at
                (update_other m.next_node n q c n_c ∙ f.ahead_of) tt (update_here m.next_node n q)
                f.found f.own;
          accepted = refl;
          frame =
              λ a h g. update_other m.next_node n q a (λ e. g v (ap (λ b. some (b, v)) (sym e)));
          kept = λ a h i. i;
          gained = λ a i. inl i;
          same_made = refl;
          locks = λ a h e. e;
          holds = λ a h. locked a h;
          takes = λ a h. inl h;
          still = λ a e. inr (e, λ h. h);
          keeps = λ o e. e;
        },
      )

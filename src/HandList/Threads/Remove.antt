-- ===== src/HandList/Threads/Remove.antt =====
-- The steps of `remove`.
use public_conc_exp.Common.{
  ◌≡◌, ◌≢◌, refl, sym, ◌∙◌, subst, Bool, true, false, not, ◌⊎◌, inl, inr, Bool-cases, and_false,
  some, List, arith, ℤ, ◌<ℤ◌, ltb_ℤ, ◌==ℤ◌, ==ℤ_iff, ◌==◌, minus_one,
}
use public_conc_exp.Spec.SortedSet.{has, drop_value_missing}
use public_conc_exp.Spec.Requests.{got}
use public_conc_exp.Rows.{Ptr, null}
use public_conc_exp.Rows.Drop.{dropped}
use public_conc_exp.Rows.Cut.{next-In, next_greater}
use public_conc_exp.HandList.Threads.{
  list, Mem, rem_list, rem_head, rem_lock_head, rem_test_head, rem_release, rem_walk, rem_test,
  rem_lock, rem_lock_next, rem_skip, rem_store, rem_unlock_next, leave, silent, removed, missing,
  act, lead_to,
}
use public_conc_exp.HandList.Threads.Shape.{spec, At, contents, Shape, Behind, Side}
use public_conc_exp.HandList.Threads.Local.{Given, fit, stay, acquire-Does, unlock-Done, owns_none}
use public_conc_exp.HandList.Threads.Store.{
  lead_ne, has-cut, remove_Done, At-fewer, removed_accepted,
}

module _ (data_of : Ptr → ℤ) (m : Mem) (xs : List Ptr) (shape : Shape data_of m xs) where
  -- The decision that a value is missing, where a walk has shown it.
  missing_accepted :
      (passed : Bool) (v : ℤ)
      → (passed ≡ false → has v (contents data_of xs) ≡ false)
      → spec (missing passed v) (contents data_of xs) ≡ some (contents data_of xs)
  unfolding spec
  missing_accepted true v none_there = refl
  missing_accepted false v none_there =
      let absent = none_there refl in rw (absent, drop_value_missing v (contents data_of xs) absent)

  -- The value of a walk on its way belongs behind the place where it is.
  Side-Behind :
      (passed : Bool) (v : ℤ) (c : Ptr)
      → passed ≡ false
      → Side data_of passed v c
      → Behind data_of v c
  Side-Behind true v c e side = absurd (ground arith)
  Side-Behind false v c e side = inr side

  -- Behind a node greater than the value there are only greater ones.
  pub passed_on :
      (passed : Bool) (v : ℤ) (c q : Ptr)
      → c ≢ list
      → At xs c
      → m.next_node c ≡ q
      → q ≢ null
      → Side data_of passed v c
      → (data_of q ≡ v) ⊎ (data_of q <ℤ v)
      → passed ≡ false
  passed_on false v c q c_node at lead ne side found = refl
  passed_on true v c q c_node at lead ne side found = elim at [
    | inl e ↦ absurd (c_node e)
    | inr i ↦
        let lt =
          next_greater data_of m.next_node list c q xs shape.linked shape.ascending i lead ne in
        elim found [
          | inl e ↦ absurd (omega (arith, lt, side, subst (λ k. data_of c <ℤ k) e lt))
          | inr less ↦ absurd (omega arith)
        ]
  ]

  pub rem_list_Does : (v : ℤ) → Given data_of m xs (rem_list v)
  unfolding act
  rem_list_Does v f locked =
      acquire-Does data_of m xs shape (rem_list v) locked list (rem_head v) (inl refl)
        (fit data_of m xs (rem_head v) (inl refl) tt tt tt tt tt) (λ a h. ground arith)
        (λ a h. ground arith) (λ o e. e)

  pub rem_head_Does : (v : ℤ) → Given data_of m xs (rem_head v)
  unfolding act spec
  rem_head_Does v f locked = elim (Bool-cases (m.next_node list == null)) [
    | inl e ↦
        let lead : m.next_node list ≡ null = ground arith in
        let absent = has-cut data_of m xs shape v list null (inl refl) (inl refl) (inl refl) lead in
        rw e (
          stay data_of m xs shape (rem_head v) locked (leave list (got minus_one)) (removed v false)
            (missing_accepted false v (λ h. absent))
            (fit data_of m xs (leave list (got minus_one)) (inl refl) tt tt tt tt tt) (λ a i. i)
            (λ a i. i) (owns_none (rem_head v)))
    | inr e ↦
        let q = m.next_node list in
        rw e (
          stay data_of m xs shape (rem_head v) locked (rem_lock_head v q) silent refl
            (fit data_of m xs (rem_lock_head v q) (inl refl) refl tt tt (ground arith) tt)
            (λ a i. i) (λ a i. i) (λ o i. i))
  ]

  pub rem_lock_head_Does : (v : ℤ) (q : Ptr) → Given data_of m xs (rem_lock_head v q)
  unfolding act
  rem_lock_head_Does v q f locked =
      acquire-Does data_of m xs shape (rem_lock_head v q) locked q (rem_test_head v q)
        (inr (next-In m.next_node list list q xs shape.linked f.at f.ahead_of f.found))
        (fit data_of m xs (rem_test_head v q) f.at f.ahead_of tt tt f.found tt)
        (λ a h. ground arith) (λ a h. ground arith) (λ o e. e)

  pub rem_test_head_Does : (v : ℤ) (q : Ptr) → Given data_of m xs (rem_test_head v q)
  unfolding act spec
  rem_test_head_Does v q f locked = elim (Bool-cases (data_of q ==ℤ v)) [
    | inl e ↦ rw e (
        stay data_of m xs shape (rem_test_head v q) locked (rem_skip v list q) silent refl
          (fit data_of m xs (rem_skip v list q) f.at f.ahead_of tt tt
            (f.found, ground (arith, ==ℤ_iff (data_of q) v)) tt)
          (λ a i. i) (λ a i. i) (λ o i. i))
    | inr e ↦ elim (Bool-cases (ltb_ℤ (data_of q) v)) [
      | inl h ↦
          rw (e, h)
            (stay data_of m xs shape (rem_test_head v q) locked (rem_release false v list q) silent
              refl
              (fit data_of m xs (rem_release false v list q) f.at f.ahead_of tt tt
                (f.found, ground arith) tt)
              (λ a i. i) (λ a i. i) (λ o i. i))
      | inr h ↦
          let absent =
            has-cut data_of m xs shape v list q f.at (inl refl) (inr h) f.ahead_of
            ∙ and_false (not (q == null)) (data_of q ==ℤ v) e in
          rw (e, h)
            (stay data_of m xs shape (rem_test_head v q) locked (rem_release true v list q)
              (removed v false) (missing_accepted false v (λ i. absent))
              (fit data_of m xs (rem_release true v list q) f.at f.ahead_of tt tt
                (f.found, ground arith) tt)
              (λ a i. i) (λ a i. i) (λ o i. i))
    ]
  ]

  pub rem_release_Does :
      (passed : Bool) (v : ℤ) (c q : Ptr) → Given data_of m xs (rem_release passed v c q)
  unfolding act spec
  rem_release_Does passed v c q f locked =
      let at_q = inr (next-In m.next_node list c q xs shape.linked f.at f.ahead_of f.found.0) in
      let ne = lead_ne data_of m xs shape c q f.at f.ahead_of f.found.0 in
      unlock-Done data_of m xs shape (rem_release passed v c q) locked c (rem_walk passed v q)
        silent refl (inl refl) (fit data_of m xs (rem_walk passed v q) at_q tt tt tt f.found tt)
        (λ a h. (ground arith, ground (arith, ne))) (λ a h h'. ground arith) (λ o e. e)

  pub rem_walk_Does : (passed : Bool) (v : ℤ) (c : Ptr) → Given data_of m xs (rem_walk passed v c)
  unfolding act spec
  rem_walk_Does passed v c f locked = elim (Bool-cases (m.next_node c == null)) [
    | inl e ↦
        let lead : m.next_node c ≡ null = ground arith in
        rw e (
          stay data_of m xs shape (rem_walk passed v c) locked (leave c (got minus_one))
            (missing passed v)
            (missing_accepted passed v (λ h.
              has-cut data_of m xs shape v c null f.at (Side-Behind passed v c h f.found.1)
                (inl refl) lead))
            (fit data_of m xs (leave c (got minus_one)) f.at tt tt tt tt tt) (λ a i. i) (λ a i. i)
            (owns_none (rem_walk passed v c)))
    | inr e ↦
        let q = m.next_node c in
        rw e (
          stay data_of m xs shape (rem_walk passed v c) locked (rem_test passed v c q) silent refl
            (fit data_of m xs (rem_test passed v c q) f.at refl tt tt
              (ground arith, f.found.0, f.found.1) tt)
            (λ a i. i) (λ a i. i) (λ o i. i))
  ]

  pub rem_test_Does :
      (passed : Bool) (v : ℤ) (c q : Ptr) → Given data_of m xs (rem_test passed v c q)
  unfolding act spec
  rem_test_Does passed v c q f locked =
      let (ne, c_node, side) = f.found in
      let on = passed_on passed v c q c_node f.at f.ahead_of ne side in
      elim (Bool-cases (ltb_ℤ (data_of q) v)) [
        | inl e ↦
            let less : data_of q <ℤ v = ground arith in
            rw e (
              stay data_of m xs shape (rem_test passed v c q) locked (rem_lock passed v c q) silent
                refl
                (fit data_of m xs (rem_lock passed v c q) f.at f.ahead_of tt tt
                  (ne, subst (λ b. Side data_of b v q) (sym (on (inr less))) less) tt)
                (λ a i. i) (λ a i. i) (λ o i. i))
        | inr e ↦ elim (Bool-cases (data_of q ==ℤ v)) [
          | inl h ↦
              rw (e, h)
                (stay data_of m xs shape (rem_test passed v c q) locked (rem_lock_next v c q) silent
                  refl
                  (fit data_of m xs (rem_lock_next v c q) f.at f.ahead_of tt tt
                    (ne, ground (arith, ==ℤ_iff (data_of q) v)) tt)
                  (λ a i. i) (λ a i. i) (λ o i. i))
          | inr h ↦
              rw (e, h)
                (stay data_of m xs shape (rem_test passed v c q) locked (leave c (got minus_one))
                  (missing passed v)
                  (missing_accepted passed v (λ i.
                    has-cut data_of m xs shape v c q f.at (Side-Behind passed v c i side) (inr e)
                      f.ahead_of
                    ∙ and_false (not (q == null)) (data_of q ==ℤ v) h))
                  (fit data_of m xs (leave c (got minus_one)) f.at tt tt tt tt tt) (λ a i. i)
                  (λ a i. i) (owns_none (rem_test passed v c q)))
        ]
      ]

  pub rem_lock_Does :
      (passed : Bool) (v : ℤ) (c q : Ptr) → Given data_of m xs (rem_lock passed v c q)
  unfolding act
  rem_lock_Does passed v c q f locked =
      acquire-Does data_of m xs shape (rem_lock passed v c q) locked q (rem_release passed v c q)
        (inr (next-In m.next_node list c q xs shape.linked f.at f.ahead_of f.found.0))
        (fit data_of m xs (rem_release passed v c q) f.at f.ahead_of tt tt f.found tt)
        (λ a h. ground arith) (λ a h. ground arith) (λ o e. e)

  pub rem_lock_next_Does : (v : ℤ) (c q : Ptr) → Given data_of m xs (rem_lock_next v c q)
  unfolding act
  rem_lock_next_Does v c q f locked =
      acquire-Does data_of m xs shape (rem_lock_next v c q) locked q (rem_skip v c q)
        (inr (next-In m.next_node list c q xs shape.linked f.at f.ahead_of f.found.0))
        (fit data_of m xs (rem_skip v c q) f.at f.ahead_of tt tt f.found tt) (λ a h. ground arith)
        (λ a h. ground arith) (λ o e. e)

  pub rem_skip_Does : (v : ℤ) (c q : Ptr) → Given data_of m xs (rem_skip v c q)
  unfolding act spec
  rem_skip_Does v c q f locked =
      let r = m.next_node q in
      stay data_of m xs shape (rem_skip v c q) locked (rem_store v c q r) silent refl
        (fit data_of m xs (rem_store v c q r) f.at f.ahead_of refl tt f.found tt) (λ a i. i)
        (λ a i. i) (λ o i. i)

  pub rem_store_Does : (v : ℤ) (c q r : Ptr) → Given data_of m xs (rem_store v c q r)
  unfolding act
  rem_store_Does v c q r f locked =
      let (ne, value) = f.found in
      let c_q = lead_ne data_of m xs shape c q f.at f.ahead_of ne in
      remove_Done data_of m xs shape c q r ne f.at f.ahead_of f.beyond_of (rem_store v c q r)
        (rem_unlock_next v c q) (removed v true) (inl refl) (inr refl) locked
        (subst
          (λ k.
            spec (removed k true) (contents data_of xs)
            ≡ some (contents data_of (dropped data_of (data_of q) xs)))
          value (removed_accepted data_of m xs shape c q r ne f.at f.ahead_of f.beyond_of))
        (fit data_of (lead_to m c r) _ (rem_unlock_next v c q)
          (At-fewer data_of m xs shape c q r ne f.at f.ahead_of f.beyond_of) tt tt tt
          (λ e. c_q (sym e)) tt)
        (λ a i. i) (λ a i. i) (λ o i. i)

  pub rem_unlock_next_Does : (v : ℤ) (c q : Ptr) → Given data_of m xs (rem_unlock_next v c q)
  unfolding act spec
  rem_unlock_next_Does v c q f locked =
      unlock-Done data_of m xs shape (rem_unlock_next v c q) locked q (leave c (got v)) silent refl
        (inr refl) (fit data_of m xs (leave c (got v)) f.at tt tt tt tt tt)
        (λ a h. (ground arith, ground (arith, f.found))) (λ a h h'. ground arith) (λ o e. e)

-- ===== src/HandList/Threads/Served.antt =====
-- The steps of the hand-over-hand list as steps of calls of a set.
use public_conc_exp.Common.{
  ◌≡◌, ap, ◌∙◌, Bool, true, false, inl, inr, Bool-cases, none, some, List, [], ◌∷◌, arith, ℤ, ltb_ℤ,
  ◌==ℤ◌, ==ℤ_iff, ◌==◌, if◌then◌else◌, minus_one, Run, ok,
}
use public_conc_exp.Rows.{Ptr, null}
use public_conc_exp.Spec.Requests.{Reply, done, got}
use public_conc_exp.Spec.Calls.{Call, free, waiting, decided, advance, decide, return_, same_reply}
use public_conc_exp.Spec.Calls
use public_conc_exp.Spec.SetCalls.{SetRequest, insert, remove, remove_first, set, set_step}
use public_conc_exp.HandList.Threads.{
  list, Mem, Pc, idle, ins_list, ins_walk, ins_test, ins_lock, ins_release, ins_link, ins_store,
  rem_list, rem_head, rem_lock_head, rem_test_head, rem_release, rem_walk, rem_test, rem_lock,
  rem_lock_next, rem_skip, rem_store, rem_unlock_next, pop_list, pop_head, pop_lock, pop_skip,
  pop_store, pop_unlock_node, pop_unlock_list, pop_data, leave, Label, silent, inserted, removed,
  took, returned, acquire, act, kind, missing,
}
use public_conc_exp.HandList.Threads.Shape.{spec, Shape, Fits}
use public_conc_exp.HandList.Threads.Remove.{passed_on}

-- A removal under way: decided, if its value is known to be missing.
abbrev pub removing : Bool → ℤ → Call SetRequest
removing passed v = if passed then decided (got minus_one) else waiting (remove v)

module _ (data_of : Ptr → ℤ) where
  -- The call of a thread that stands at a place.
  abbrev pub status : Pc → Call SetRequest
  status idle = free
  status (ins_list v n) = waiting (insert v)
  status (ins_walk v n c) = waiting (insert v)
  status (ins_test v n c q) = waiting (insert v)
  status (ins_lock v n c q) = waiting (insert v)
  status (ins_release v n c q) = waiting (insert v)
  status (ins_link v n c q) = waiting (insert v)
  status (ins_store v n c q) = waiting (insert v)
  status (rem_list v) = waiting (remove v)
  status (rem_head v) = waiting (remove v)
  status (rem_lock_head v q) = waiting (remove v)
  status (rem_test_head v q) = waiting (remove v)
  status (rem_release passed v c q) = removing passed v
  status (rem_walk passed v c) = removing passed v
  status (rem_test passed v c q) = removing passed v
  status (rem_lock passed v c q) = removing passed v
  status (rem_lock_next v c q) = waiting (remove v)
  status (rem_skip v c q) = waiting (remove v)
  status (rem_store v c q r) = waiting (remove v)
  status (rem_unlock_next v c q) = decided (got v)
  status (pop_unlock_node q) = decided (got (data_of q))
  status (pop_unlock_list q) = decided (got (data_of q))
  status (pop_data q) = decided (got (data_of q))
  status (leave c reply) = decided reply
  status _ = waiting remove_first

  abbrev Goes : Call SetRequest → Label → Call SetRequest → Type 0
  Goes c l c' =
      (xs xs' : List ℤ) → spec l xs ≡ some xs' → advance set (kind l) c xs ≡ some (c', xs')

  abbrev pub Advances : Call SetRequest → Run (Mem × Pc × Label) → Type 0
  Advances c (ok (m', p', l)) =
      (xs xs' : List ℤ) → spec l xs ≡ some xs' → advance set (kind l) c xs ≡ some (status p', xs')
  Advances c _ = Unit

  -- Each label, as a step of a call that it fits.
  silent-waiting : (q : SetRequest) → Goes (waiting q) silent (waiting q)
  unfolding spec advance
  silent-waiting q xs xs' e = ground (arith, e)

  silent-removing : (passed : Bool) (v : ℤ) → Goes (removing passed v) silent (removing passed v)
  unfolding spec advance
  silent-removing true v xs xs' e = ground (arith, e)
  silent-removing false v xs xs' e = ground (arith, e)

  inserted-decide : (v : ℤ) (b : Bool) → Goes (waiting (insert v)) (inserted v b) (decided (done b))
  unfolding spec advance set_step
  inserted-decide v b xs xs' e = ground (arith, e)

  removed-decide :
      (v : ℤ) (b : Bool)
      → Goes (waiting (remove v)) (removed v b) (decided (got (if b then v else minus_one)))
  unfolding spec advance set_step
  removed-decide v b xs xs' e = ground (arith, e)

  took_none-decide : Goes (waiting remove_first) (took none) (decided (got minus_one))
  unfolding spec advance set_step
  took_none-decide [] xs' e = ground (arith, e)
  took_none-decide (x ∷ xs) xs' e = absurd (ground (arith, e))

  took-decide : (v : ℤ) → Goes (waiting remove_first) (took (some v)) (decided (got v))
  unfolding spec advance set_step
  took-decide v [] xs' e = absurd (ground (arith, e))
  took-decide v (x ∷ xs) xs' e = ground (arith, e)

  returned-free : (r : Reply) → Goes (decided r) (returned r) free
  unfolding spec advance
  returned-free (done true) xs xs' e = ground (arith, e)
  returned-free (done false) xs xs' e = ground (arith, e)
  returned-free (got v) xs xs' e = ground (arith, e)

  missing-Advances :
      (passed : Bool) (v : ℤ)
      → Goes (removing passed v) (missing passed v) (decided (got minus_one))
  unfolding spec advance
  missing-Advances true v xs xs' e = ground (arith, e)
  missing-Advances false v xs xs' e = removed-decide v false xs xs' e

  acquire-Advances :
      (m : Mem) (q : Ptr) (p : Pc) (c : Call SetRequest)
      → Goes c silent (status p)
      → Advances c (acquire m q p)
  acquire-Advances m q p c goes = elim (Bool-cases (m.node_lock q)) [
    | inl e ↦ rw (e, Advances) tt
    | inr e ↦ rw (e, Advances) goes
  ]

  pub act-Advances :
      (m : Mem) (xs : List Ptr) (shape : Shape data_of m xs) (p : Pc)
      → Fits data_of m xs p
      → Advances (status p) (act data_of m p)
  unfolding act spec advance
  act-Advances m xs shape idle f = (λ xs xs' e'. ground (arith, e'))
  act-Advances m xs shape (ins_list v n) f = acquire-Advances m list _ _ (silent-waiting (insert v))
  act-Advances m xs shape (ins_walk v n c) f = elim (Bool-cases (m.next_node c == null)) [
    | inr e ↦ rw (e, Advances) (λ xs xs' e'. ground (arith, e'))
    | inl e ↦ elim (Bool-cases (c == list)) [
      | inl h ↦ rw (e, h, Advances) (λ xs xs' e'. ground (arith, e'))
      | inr h ↦ rw (e, h, Advances) (λ xs xs' e'. ground (arith, e'))
    ]
  ]
  act-Advances m xs shape (ins_test v n c q) f = elim (Bool-cases (ltb_ℤ (data_of q) v)) [
    | inl e ↦ rw (e, Advances) (λ xs xs' e'. ground (arith, e'))
    | inr e ↦ elim (Bool-cases (data_of q ==ℤ v)) [
      | inl h ↦ rw (e, h, Advances) (inserted-decide v false)
      | inr h ↦ rw (e, h, Advances) (λ xs xs' e'. ground (arith, e'))
    ]
  ]
  act-Advances m xs shape (ins_lock v n c q) f =
      acquire-Advances m q _ _ (silent-waiting (insert v))
  act-Advances m xs shape (ins_release v n c q) f = (λ xs xs' e'. ground (arith, e'))
  act-Advances m xs shape (ins_link v n c q) f = (λ xs xs' e'. ground (arith, e'))
  act-Advances m xs shape (ins_store v n c q) f = inserted-decide v true
  act-Advances m xs shape (rem_list v) f = acquire-Advances m list _ _ (silent-waiting (remove v))
  act-Advances m xs shape (rem_head v) f = elim (Bool-cases (m.next_node list == null)) [
    | inl e ↦ rw (e, Advances) (removed-decide v false)
    | inr e ↦ rw (e, Advances) (λ xs xs' e'. ground (arith, e'))
  ]
  act-Advances m xs shape (rem_lock_head v q) f =
      acquire-Advances m q _ _ (silent-waiting (remove v))
  act-Advances m xs shape (rem_test_head v q) f = elim (Bool-cases (data_of q ==ℤ v)) [
    | inl h ↦ rw (h, Advances) (λ xs xs' e'. ground (arith, e'))
    | inr h ↦ elim (Bool-cases (ltb_ℤ (data_of q) v)) [
      | inl e ↦ rw (h, e, Advances) (λ xs xs' e'. ground (arith, e'))
      | inr e ↦ rw (h, e, Advances) (removed-decide v false)
    ]
  ]
  act-Advances m xs shape (rem_release passed v c q) f = silent-removing passed v
  act-Advances m xs shape (rem_walk passed v c) f = elim (Bool-cases (m.next_node c == null)) [
    | inl e ↦ rw (e, Advances) (missing-Advances passed v)
    | inr e ↦ rw (e, Advances) (silent-removing passed v)
  ]
  act-Advances m xs shape (rem_test passed v c q) f =
      let (ne, c_node, side) = f.found in
      let on = passed_on data_of m xs shape passed v c q c_node f.at f.ahead_of ne side in
      elim (Bool-cases (ltb_ℤ (data_of q) v)) [
        | inl e ↦ rw (e, Advances) (silent-removing passed v)
        | inr e ↦ elim (Bool-cases (data_of q ==ℤ v)) [
          | inr h ↦ rw (e, h, Advances) (missing-Advances passed v)
          | inl h ↦
              let none_passed : passed ≡ false = on (inl (ground (arith, ==ℤ_iff (data_of q) v))) in
              rw (e, h, Advances)
                (λ ys ys' e'.
                  ap (λ b. advance set Calls.silent (removing b v) ys) none_passed
                  ∙ silent-waiting (remove v) ys ys' e')
        ]
      ]
  act-Advances m xs shape (rem_lock passed v c q) f =
      acquire-Advances m q _ _ (silent-removing passed v)
  act-Advances m xs shape (rem_lock_next v c q) f =
      acquire-Advances m q _ _ (silent-waiting (remove v))
  act-Advances m xs shape (rem_skip v c q) f = (λ xs xs' e'. ground (arith, e'))
  act-Advances m xs shape (rem_store v c q r) f = removed-decide v true
  act-Advances m xs shape (rem_unlock_next v c q) f = (λ xs xs' e'. ground (arith, e'))
  act-Advances m xs shape pop_list f = acquire-Advances m list _ _ (silent-waiting remove_first)
  act-Advances m xs shape pop_head f = elim (Bool-cases (m.next_node list == null)) [
    | inl e ↦ rw (e, Advances) took_none-decide
    | inr e ↦ rw (e, Advances) (λ xs xs' e'. ground (arith, e'))
  ]
  act-Advances m xs shape (pop_lock q) f = acquire-Advances m q _ _ (silent-waiting remove_first)
  act-Advances m xs shape (pop_skip q) f = (λ xs xs' e'. ground (arith, e'))
  act-Advances m xs shape (pop_store q r) f = took-decide (data_of q)
  act-Advances m xs shape (pop_unlock_node q) f = (λ xs xs' e'. ground (arith, e'))
  act-Advances m xs shape (pop_unlock_list q) f = (λ xs xs' e'. ground (arith, e'))
  act-Advances m xs shape (pop_data q) f = returned-free (got (data_of q))
  act-Advances m xs shape (leave c reply) f = returned-free reply

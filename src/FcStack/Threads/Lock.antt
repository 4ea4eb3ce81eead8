-- ===== src/FcStack/Threads/Lock.antt =====
-- Calls and returns, the lock, and the compare-and-swap on the head of the publication list.
use public_conc_exp.Common.{
  update, update_here, update_other, ℕ, ◌≡◌, ◌≢◌, refl, sym, ap, ◌∙◌, subst, Bool, true, false, inl,
  Option, none, some, ◌∷◌, ℤ, if◌then◌else◌, arith,
}
use public_conc_exp.FcStack.Combine.{has_pid}
use public_conc_exp.FcStack.{fc_combining_rounds}
use public_conc_exp.FcStack.Threads.{
  Mem, Pc, idle, set_value, test_lock, cas_lock, wait_lock, read_head, cas_head, join_test, round,
  same_request, resume, release, reply, Label, silent, called, returned, act,
}
use public_conc_exp.FcStack.Threads.Combining.{
  Ghost, inside, spec, Call, free, waiting, Settled, Leads, entering, none_held, combining,
  is_owner, is_some, Combines, Fits, Global,
}
use public_conc_exp.FcStack.Threads.Frame.{Quiet}
use public_conc_exp.FcStack.Threads.Local.{Done, Does, fit, stay}
use public_conc_exp.FcStack.Threads.Own.{same_request_lem, own_Done}

no_owner : (o : Option ℕ) → false ≡ is_some o → o ≡ none
no_owner none e = refl
no_owner (some j) e = absurd (ground (arith, e))

pub other_owner : (o : Option ℕ) (i j : ℕ) → true ≡ is_owner o i → j ≢ i → is_owner o j ≡ false
other_owner none i j e ne = refl
other_owner (some k) i j e ne = ground (arith, e, ne)

module _ (m : Mem) (g : Ghost) (globe : Global m g) (i : ℕ) where
  cas_lock_on :
      (v : ℤ) (b : Bool)
      → m.lock ≡ b
      → Fits m g i (cas_lock v)
      → Does m g i
          (if b then (m, wait_lock v, silent) else (record m { lock = true }, join_test v, silent))
  unfolding spec
  cas_lock_on v true e f =
      stay m g globe i (wait_lock v) (fit m g i (wait_lock v) f.settled f.joined f.owns tt)
  cas_lock_on v false e f =
      let m' : Mem = record m { lock = true } in
      let g' : Ghost = record g { owner = some i } in
      let no = no_owner g.owner (sym e ∙ globe.locked) in
      let quiet : Quiet m g i m' g' = record {
        calls = λ j ne. refl;
        pending = λ j ne. refl;
        value = λ j ne. refl;
        active = λ j ne. refl;
        next = λ j ne. refl;
        listed = λ j ne. refl;
        owner = λ j ne. (ground (arith, ne)) ∙ sym (ap (λ o. is_owner o j) no);
        serving = refl;
        still_listed = λ q h. h;
        still_next = λ q h. refl;
        still_pending = λ e'. (e', refl, refl);
      } in
      (
        g',
        own_Done m g globe i m' g' (join_test v) silent quiet
            (record {
              stack = globe.stack;
              path = globe.path;
              locked = refl;
              unused = λ h. globe.unused no;
            })
            (fit m' g' i (join_test v) f.settled f.joined (ground arith) (globe.unused no)) refl,
      )

  pub cas_lock_Does : (v : ℤ) → Fits m g i (cas_lock v) → Does m g i (act i m (cas_lock v))
  unfolding act
  cas_lock_Does v f = cas_lock_on v m.lock refl f

  pub release-Does : (v : ℤ) → Fits m g i (release v) → Does m g i (act i m (release v))
  unfolding act spec
  release-Does v f =
      let m' : Mem = record m { lock = false } in
      let g' : Ghost = record g { owner = none } in
      let quiet : Quiet m g i m' g' = record {
        calls = λ j ne. refl;
        pending = λ j ne. refl;
        value = λ j ne. refl;
        active = λ j ne. refl;
        next = λ j ne. refl;
        listed = λ j ne. refl;
        owner = λ j ne. sym (other_owner g.owner i j f.owns ne);
        serving = refl;
        still_listed = λ q h. h;
        still_next = λ q h. refl;
        still_pending = λ e'. (e', refl, refl);
      } in
      (
        g',
        own_Done m g globe i m' g' (reply v) silent quiet
            (record {
              stack = globe.stack;
              path = globe.path;
              locked = refl;
              unused = λ h. f.combines;
            })
            (fit m' g' i (reply v) f.settled f.joined refl tt) refl,
      )

  -- A step that changes only what is said of the thread's own call.
  recall : Call → Ghost
  recall c = record g { combined = record g.combined { calls = update g.combined.calls i c } }

  recall-Done :
      (c : Call) (p' : Pc) (l : Label)
      → m.pending i ≡ false
      → Fits m (recall c) i p'
      → spec l g.combined ≡ some (recall c).combined
      → Done m g i m p' l (recall c)
  unfolding recall
  recall-Done c p' l e f accepted =
      let quiet : Quiet m g i m (recall c) = record {
        calls = λ j ne. update_other g.combined.calls i c j ne;
        pending = λ j ne. refl;
        value = λ j ne. refl;
        active = λ j ne. refl;
        next = λ j ne. refl;
        listed = λ j ne. refl;
        owner = λ j ne. refl;
        serving = refl;
        still_listed = λ q h. h;
        still_next = λ q h. refl;
        still_pending = λ e'. absurd (ground (arith, e, e'));
      } in
      own_Done m g globe i m (recall c) p' l quiet
        (record {
          stack = globe.stack;
          path = globe.path;
          locked = globe.locked;
          unused = globe.unused;
        })
        f accepted

  pub call_Does : (v : ℤ) → Fits m g i idle → Does m g i (m, set_value v, called i v)
  unfolding spec recall
  call_Does v f = (
    recall (waiting v),
    recall-Done (waiting v) (set_value v) (called i v) f.settled.1
        (fit m (recall (waiting v)) i (set_value v)
          (update_here g.combined.calls i (waiting v), f.settled.1) f.joined f.owns tt)
        (rw (f.settled.0, spec) refl),
  )

  pub reply_Does : (v : ℤ) → Fits m g i (reply v) → Does m g i (act i m (reply v))
  unfolding act spec recall
  reply_Does v f = (
    recall free,
    recall-Done free idle (returned i (m.value i)) f.settled.1
        (fit m (recall free) i idle (update_here g.combined.calls i free, f.settled.1) f.joined
          f.owns tt)
        (rw (f.settled.0, spec) (ground arith)),
  )

  -- The thread's request is the new head.
  cas_head_on :
      (b : Bool) (v : ℤ) (h : Option ℕ) (won : Bool)
      → same_request m.head h ≡ won
      → Fits m g i (cas_head b v h)
      → Does m g i (
          if won
          then (record m { head = some i }, resume b v, silent)
          else (m, read_head b v, silent))
  unfolding spec
  cas_head_on b v h false e f =
      stay m g globe i (read_head b v)
        (fit m g i (read_head b v) f.settled (f.joined.0, f.joined.1) f.owns f.combines)
  cas_head_on b v h true e f =
      let m' : Mem = record m { head = some i } in
      let g' : Ghost = record g { listed = i ∷ g.listed } in
      let is : m.head ≡ m.next i = same_request_lem m.head h e ∙ sym f.joined.2 in
      let quiet : Quiet m g i m' g' = record {
        calls = λ j ne. refl;
        pending = λ j ne. refl;
        value = λ j ne. refl;
        active = λ j ne. refl;
        next = λ j ne. refl;
        listed = λ j ne. ground (arith, ne);
        owner = λ j ne. refl;
        serving = refl;
        still_listed = λ q on. ground (arith, on);
        still_next = λ q on. refl;
        still_pending = λ e'. (e', refl, refl);
      } in
      let globe' : Global m' g' = record {
        stack = globe.stack;
        path = (refl, subst (λ c. Leads m.next c g.listed) is globe.path);
        locked = globe.locked;
        unused = globe.unused;
      } in
      let here : has_pid i (i ∷ g.listed) ≡ true = ground arith in
      (
        g',
        own_Done m g globe i m' g' (resume b v) silent quiet globe'
            (resumed b f.settled f.owns f.combines (f.joined.0 ∙ sym here) here) refl,
      )
    where
      resumed :
          (c : Bool)
          → Settled m g i (inside v)
          → combining (if c then entering else none_held) ≡ is_owner g.owner i
          → Combines m g i (if c then entering else none_held)
          → m.active i ≡ has_pid i (i ∷ g.listed)
          → has_pid i (i ∷ g.listed) ≡ true
          → Fits (record m { head = some i }) (record g { listed = i ∷ g.listed }) i (resume c v)
      resumed true s o k j here =
          fit (record m { head = some i }) (record g { listed = i ∷ g.listed }) i
            (round fc_combining_rounds v) s j o (k, here, inl refl)
      resumed false s o k j here =
          fit (record m { head = some i }) (record g { listed = i ∷ g.listed }) i (test_lock v) s j
            o tt

  pub cas_head_Does :
      (b : Bool) (v : ℤ) (h : Option ℕ)
      → Fits m g i (cas_head b v h)
      → Does m g i (act i m (cas_head b v h))
  unfolding act
  cas_head_Does b v h f = cas_head_on b v h (same_request m.head h) refl f

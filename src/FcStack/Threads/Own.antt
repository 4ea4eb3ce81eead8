-- ===== src/FcStack/Threads/Own.antt =====
-- The steps by which a thread writes its own request, takes and gives back the lock, and joins the list.
use public_conc_exp.Common.{
  update, update_here, update_other, ℕ, ◌≡◌, ◌≢◌, refl, sym, ap, ◌∙◌, subst, Bool, true, false, inl,
  Option, none, some, ℤ, if◌then◌else◌, arith,
}
use public_conc_exp.FcStack.Combine.{has_pid}
use public_conc_exp.FcStack.Threads.{
  Mem, Pc, set_value, set_pending, test_lock, set_active, read_head, set_next, cas_head,
  same_request, Label, silent, act,
}
use public_conc_exp.FcStack.Threads.Combining.{
  Ghost, spec, entering, none_held, Combines, Fits, Global,
}
use public_conc_exp.FcStack.Threads.Frame.{Leads-keep, Quiet, quiet-Fits}
use public_conc_exp.FcStack.Threads.Local.{Done, Does, fit}

-- What a thread in `FcEnqueueRequest` knows as the holder of the lock, if it is.
pub enter_keep :
    (b : Bool) (m : Mem) (m' : Mem) (g g' : Ghost) (i : ℕ)
    → g'.serving ≡ g.serving
    → Combines m g i (if b then entering else none_held)
    → Combines m' g' i (if b then entering else none_held)
enter_keep true m m' g g' i same h = same ∙ h
enter_keep false m m' g g' i same h = tt

pub same_request_lem : (p q : Option ℕ) → same_request p q ≡ true → p ≡ q
same_request_lem none none e = refl
same_request_lem none (some q) e = absurd (ground (arith, e))
same_request_lem (some p) none e = absurd (ground (arith, e))
same_request_lem (some p) (some q) e = ap some (ground (arith, e))

module _ (m : Mem) (g : Ghost) (globe : Global m g) (i : ℕ) where
  -- A step that writes only the thread's own request.
  quiet_own :
      (m' : Mem)
      → ((j : ℕ) → j ≢ i → m'.pending j ≡ m.pending j)
      → ((j : ℕ) → j ≢ i → m'.value j ≡ m.value j)
      → ((j : ℕ) → j ≢ i → m'.active j ≡ m.active j)
      → ((j : ℕ) → j ≢ i → m'.next j ≡ m.next j)
      → ((q : ℕ) → has_pid q g.listed ≡ true → m'.next q ≡ m.next q)
      → (m.pending i ≡ true → (m'.pending i ≡ true) × (m'.value i ≡ m.value i))
      → Quiet m g i m' g
  quiet_own m' pending value active next still keep = record {
    calls = λ j ne. refl;
    pending = pending;
    value = value;
    active = active;
    next = next;
    listed = λ j ne. refl;
    owner = λ j ne. refl;
    serving = refl;
    still_listed = λ q h. h;
    still_next = still;
    still_pending = λ e. ((keep e).0, (keep e).1, refl);
  }

  pub own_Done :
      (m' : Mem) (g' : Ghost) (p' : Pc) (l : Label)
      → Quiet m g i m' g'
      → Global m' g'
      → Fits m' g' i p'
      → spec l g.combined ≡ some g'.combined
      → Done m g i m' p' l g'
  own_Done m' g' p' l quiet globe' fits accepted = record {
    globe = globe';
    fits = fits;
    accepted = accepted;
    others = λ j ne q f. quiet-Fits m g i m' g' quiet j ne q f;
  }

  pub set_value_Does : (v : ℤ) → Fits m g i (set_value v) → Does m g i (act i m (set_value v))
  unfolding act spec
  set_value_Does v f =
      let m' : Mem = record m { value = update m.value i v } in
      let quiet =
        quiet_own m' (λ j ne. refl) (λ j ne. update_other m.value i v j ne) (λ j ne. refl)
          (λ j ne. refl) (λ q h. refl) (λ e. absurd (ground (arith, e, f.settled.1))) in
      (
        g,
        own_Done m' g (set_pending v) silent quiet
            (record {
              stack = globe.stack;
              path = globe.path;
              locked = globe.locked;
              unused = globe.unused;
            })
            (fit m' g i (set_pending v) f.settled f.joined f.owns tt) refl,
      )

  pub set_pending_Does : (v : ℤ) → Fits m g i (set_pending v) → Does m g i (act i m (set_pending v))
  unfolding act spec
  set_pending_Does v f =
      let m' : Mem = record m { pending = update m.pending i true } in
      let quiet =
        quiet_own m' (λ j ne. update_other m.pending i true j ne) (λ j ne. refl) (λ j ne. refl)
          (λ j ne. refl) (λ q h. refl) (λ e. absurd (ground (arith, e, f.settled.1))) in
      (
        g,
        own_Done m' g (test_lock v) silent quiet
            (record {
              stack = globe.stack;
              path = globe.path;
              locked = globe.locked;
              unused = globe.unused;
            })
            (fit m' g i (test_lock v) (inl (f.settled.0, update_here m.pending i true)) f.joined
              f.owns tt)
            refl,
      )

  pub set_active_Does :
      (b : Bool) (v : ℤ) → Fits m g i (set_active b v) → Does m g i (act i m (set_active b v))
  unfolding act spec
  set_active_Does b v f =
      let m' : Mem = record m { active = update m.active i true } in
      let quiet =
        quiet_own m' (λ j ne. refl) (λ j ne. refl) (λ j ne. update_other m.active i true j ne)
          (λ j ne. refl) (λ q h. refl) (λ e. (e, refl)) in
      (
        g,
        own_Done m' g (read_head b v) silent quiet
            (record {
              stack = globe.stack;
              path = globe.path;
              locked = globe.locked;
              unused = globe.unused;
            })
            (fit m' g i (read_head b v) f.settled (update_here m.active i true, f.joined.1) f.owns
              (enter_keep b m m' g g i refl f.combines))
            refl,
      )

  pub set_next_Does :
      (b : Bool) (v : ℤ) (h : Option ℕ)
      → Fits m g i (set_next b v h)
      → Does m g i (act i m (set_next b v h))
  unfolding act spec
  set_next_Does b v h f =
      let m' : Mem = record m { next = update m.next i h } in
      let still = λ (q : ℕ) (on : has_pid q g.listed ≡ true). update_other m.next i h q (λ e.
        absurd (ground (arith, on, subst (λ k. has_pid k g.listed ≡ false) (sym e) f.joined.1))) in
      let quiet =
        quiet_own m' (λ j ne. refl) (λ j ne. refl) (λ j ne. refl)
          (λ j ne. update_other m.next i h j ne) still (λ e. (e, refl)) in
      (
        g,
        own_Done m' g (cas_head b v h) silent quiet
            (record {
              stack = globe.stack;
              path = Leads-keep m.next (update m.next i h) m.head g.listed still globe.path;
              locked = globe.locked;
              unused = globe.unused;
            })
            (fit m' g i (cas_head b v h) f.settled (f.joined.0, f.joined.1, update_here m.next i h)
              f.owns (enter_keep b m m' g g i refl f.combines))
            refl,
      )

-- ===== src/FcStack/Threads/History.antt =====
-- Flat combining keeps its promise, however the threads interleave.
use public_conc_exp.Common.{
  update, ℕ, ◌≡◌, refl, sym, ◌∙◌, subst, true, inl, inr, Bool-cases, Option, none, some, List, [],
  ℤ, ◌==◌, arith,
}
use public_conc_exp.Spec.History.{replay, Reach, replay-Reach}
use public_conc_exp.FcStack.Threads.{
  Mem, Pc, idle, set_value, set_pending, test_lock, cas_lock, wait_lock, wait_pending, wait_active,
  test_pending, test_active, set_active, read_head, set_next, cas_head, join_test, round, visit,
  serve, put_value, put_done, advance, release, reply, Label, act, System, system, Step, call, work,
  init,
}
use public_conc_exp.FcStack.Threads.Combining.{
  free, Combined, Ghost, Stage, stage, spec, Settled, duty, combining, is_owner, is_some, Fits,
  Global, Inv,
}
use public_conc_exp.FcStack.Threads.Local.{
  Done, Does, fit, idle_Does, test_lock_Does, wait_lock_Does, wait_pending_Does, wait_active_Does,
  test_pending_Does, test_active_Does, join_test_Does, read_head_Does,
}
use public_conc_exp.FcStack.Threads.Own.{
  set_value_Does, set_pending_Does, set_active_Does, set_next_Does,
}
use public_conc_exp.FcStack.Threads.Lock.{
  cas_lock_Does, release-Does, call_Does, reply_Does, cas_head_Does,
}
use public_conc_exp.FcStack.Threads.Serve.{round-Does, visit_Does, advance-Does}
use public_conc_exp.FcStack.Threads.Hand.{serve-Does, put_value_Does, put_done_Does}

act-Does :
    (m : Mem) (g : Ghost) (globe : Global m g)
    → ((j : ℕ) → (st : Stage) × Settled m g j st)
    → (i : ℕ) (p : Pc) → Fits m g i p
    → Does m g i (act i m p)
act-Does m g globe all i idle = idle_Does m g globe i
act-Does m g globe all i (set_value v) = set_value_Does m g globe i v
act-Does m g globe all i (set_pending v) = set_pending_Does m g globe i v
act-Does m g globe all i (test_lock v) = test_lock_Does m g globe i v
act-Does m g globe all i (cas_lock v) = cas_lock_Does m g globe i v
act-Does m g globe all i (wait_lock v) = wait_lock_Does m g globe i v
act-Does m g globe all i (wait_pending v) = wait_pending_Does m g globe i v
act-Does m g globe all i (wait_active v) = wait_active_Does m g globe i v
act-Does m g globe all i (test_pending v) = test_pending_Does m g globe i v
act-Does m g globe all i (test_active v) = test_active_Does m g globe i v
act-Does m g globe all i (set_active b v) = set_active_Does m g globe i b v
act-Does m g globe all i (read_head b v) = read_head_Does m g globe i b v
act-Does m g globe all i (set_next b v h) = set_next_Does m g globe i b v h
act-Does m g globe all i (cas_head b v h) = cas_head_Does m g globe i b v h
act-Does m g globe all i (join_test v) = join_test_Does m g globe i v
act-Does m g globe all i (round n v) = round-Does m g globe i n v
act-Does m g globe all i (visit n v cur) = visit_Does m g globe i n v cur
act-Does m g globe all i (serve n v cur) = serve-Does m g globe i n v cur (all cur)
act-Does m g globe all i (put_value n v cur r) = put_value_Does m g globe i n v cur r
act-Does m g globe all i (put_done n v cur) = put_done_Does m g globe i n v cur
act-Does m g globe all i (advance n v cur) = advance-Does m g globe i n v cur
act-Does m g globe all i (release v) = release-Does m g globe i v
act-Does m g globe all i (reply v) = reply_Does m g globe i v

Done-Inv :
    (s : System) (g : Ghost) (i : ℕ) (m : Mem) (p : Pc) (l : Label) (g' : Ghost)
    → Inv s g
    → Done s.mem g i m p l g'
    → Inv (system m (update s.pc i p)) g'
Done-Inv s g i m p l g' inv d = record {
  globe = d.globe;
  fits = λ j. elim (Bool-cases (i == j)) [
    | inl e ↦ let is : i ≡ j = ground arith in rw e (subst (λ k. Fits m g' k p) is d.fits)
    | inr e ↦ rw e (d.others j (ground arith) (s.pc j) (inv.fits j))
  ];
}

-- Every step of any thread keeps the invariant, and is an event that flat combining promises.
Step-Inv :
    (s : System) (g : Ghost) (l : Label) (t : System)
    → Inv s g
    → Step s l t
    → (g' : Ghost) × Inv t g' × (spec l g.combined ≡ some g'.combined)
Step-Inv s g l t inv (call i v at) =
    let (g', d) = call_Does s.mem g inv.globe i v (subst (Fits s.mem g i) at (inv.fits i)) in
    (g', Done-Inv s g i s.mem (set_value v) l g' inv d, d.accepted)
Step-Inv s g l t inv (work i {m} {p} e) =
    let (g', d) = subst (Does s.mem g i) e (
      act-Does s.mem g inv.globe (λ j. (stage (s.pc j), (inv.fits j).settled)) i (s.pc i)
        (inv.fits i)) in
    (g', Done-Inv s g i m p l g' inv d, d.accepted)

-- An empty stack, and no call.
abbrev pub nothing_yet : Combined
nothing_yet = record { stack = []; calls = λ i. free }

abbrev first_ghost : Ghost
first_ghost = record { combined = nothing_yet; listed = []; owner = none; serving = none }

module _ (junk_next : ℕ → Option ℕ) (junk_value : ℕ → ℤ) where
  Inv-init : Inv (init junk_next junk_value) first_ghost
  Inv-init = record {
    globe = record { stack = refl; path = refl; locked = refl; unused = λ e. refl };
    fits = λ i. fit (init junk_next junk_value).mem first_ghost i idle (refl, refl) refl refl tt;
  }

  module _ {history : List Label} {s : System}
      (r : Reach Step (init junk_next junk_value) history s) where
    reach_Inv : (g : Ghost) × Inv s g × (replay spec history nothing_yet ≡ some g.combined)
    reach_Inv = replay-Reach spec Inv (λ g. g.combined) first_ghost Inv-init Step-Inv r

    -- However the calls of `FcApplyOp` interleave, from zeroed requests on: every call is answered
    -- exactly once between its start and its return, by one serial operation on the argument of the
    -- call that serves it, and returns that answer; the stack is what these operations make of it.
    pub fc_linearizable :
        (c : Combined) × (replay spec history nothing_yet ≡ some c) × (s.mem.top ≡ c.stack)
    fc_linearizable = let (g, inv, e) = reach_Inv in (g.combined, e, inv.globe.stack)

    same_owner :
        (o : Option ℕ) (i j : ℕ)
        → true ≡ is_owner o i
        → true ≡ is_owner o j
        → (is_some o ≡ true) × (j ≡ i)
    same_owner none i j e e' = absurd (ground (arith, e))
    same_owner (some k) i j e e' = (refl, ground (arith, e, e'))

    -- In every reachable state, if a thread is between taking the lock and giving it back, then the lock
    -- is taken, and no other thread is there.
    pub combining_exclusive :
        (i : ℕ)
        → combining (duty (s.pc i)) ≡ true
        → (s.mem.lock ≡ true) × ((j : ℕ) → combining (duty (s.pc j)) ≡ true → j ≡ i)
    combining_exclusive i e =
        let (g, inv, h) = reach_Inv in
        let mine = sym e ∙ (inv.fits i).owns in
        (
          inv.globe.locked ∙ (same_owner g.owner i i mine mine).0,
          λ j e'. (same_owner g.owner i j mine (sym e' ∙ (inv.fits j).owns)).1,
        )

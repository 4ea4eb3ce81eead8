-- ===== src/FcStack/Threads/Local.antt =====
-- What a step of a thread promises, and the steps that only read.
use public_conc_exp.Common.{
  ℕ, ◌≡◌, ◌≢◌, refl, sym, ◌∙◌, Bool, true, false, inl, inr, some, ℤ, if◌then◌else◌, arith,
}
use public_conc_exp.FcStack.{fc_combining_rounds}
use public_conc_exp.FcStack.Threads.{
  Mem, Pc, idle, test_lock, cas_lock, wait_lock, wait_pending, wait_active, test_pending,
  test_active, set_active, read_head, set_next, join_test, round, reply, Label, silent, act,
}
use public_conc_exp.FcStack.Threads.Combining.{
  Ghost, inside, stage, spec, Answered, Settled, Joined, joining, duty, combining, is_owner,
  Combines, Fits, Global,
}

pub record Done (m : Mem) (g : Ghost) (i : ℕ) (m' : Mem) (p' : Pc) (l : Label) (g' : Ghost)
    : Type 0 where
  pub globe : Global m' g'
  pub fits : Fits m' g' i p'
  pub accepted : spec l g.combined ≡ some g'.combined
  pub others : (j : ℕ) → j ≢ i → (q : Pc) → Fits m g j q → Fits m' g' j q

abbrev pub Does : Mem → Ghost → ℕ → Mem × Pc × Label → Type 0
Does m g i (m', p', l) = (g' : Ghost) × Done m g i m' p' l g'

-- What is known of a thread, in the order of the fields.
abbrev pub fit :
    (m : Mem) (g : Ghost) (i : ℕ) (p : Pc)
    → Settled m g i (stage p)
    → Joined m g i (joining p)
    → combining (duty p) ≡ is_owner g.owner i
    → Combines m g i (duty p)
    → Fits m g i p
fit m g i p a b c d = record { settled = a; joined = b; owns = c; combines = d }

-- A call with no request pending has its answer.
pub Settled-Answered :
    (m : Mem) (g : Ghost) (i : ℕ) (v : ℤ)
    → Settled m g i (inside v)
    → m.pending i ≡ false
    → Answered m g i v
Settled-Answered m g i v (inl (e, f)) h = absurd (ground (arith, f, h))
Settled-Answered m g i v (inr (inl a)) h = a
Settled-Answered m g i v (inr (inr (r, e, f, s))) h = absurd (ground (arith, f, h))

module _ (m : Mem) (g : Ghost) (globe : Global m g) (i : ℕ) where
  pub stay : (p' : Pc) → Fits m g i p' → Does m g i (m, p', silent)
  unfolding spec
  stay p' f = (g, record { globe = globe; fits = f; accepted = refl; others = λ j ne q h. h })

  -- A step that reads and branches.
  pub stay_if :
      (b : Bool) (p q : Pc)
      → (b ≡ true → Fits m g i p)
      → (b ≡ false → Fits m g i q)
      → Does m g i (m, (if b then p else q), silent)
  stay_if true p q f h = stay p (f refl)
  stay_if false p q f h = stay q (h refl)

  pub idle_Does : Fits m g i idle → Does m g i (act i m idle)
  unfolding act
  idle_Does f = stay idle f

  pub test_lock_Does : (v : ℤ) → Fits m g i (test_lock v) → Does m g i (act i m (test_lock v))
  unfolding act
  test_lock_Does v f =
      stay_if m.lock (wait_lock v) (cas_lock v)
        (λ e. fit m g i (wait_lock v) f.settled f.joined f.owns tt)
        (λ e. fit m g i (cas_lock v) f.settled f.joined f.owns tt)

  pub wait_lock_Does : (v : ℤ) → Fits m g i (wait_lock v) → Does m g i (act i m (wait_lock v))
  unfolding act
  wait_lock_Does v f =
      stay_if m.lock (wait_pending v) (test_pending v)
        (λ e. fit m g i (wait_pending v) f.settled f.joined f.owns tt)
        (λ e. fit m g i (test_pending v) f.settled f.joined f.owns tt)

  pub wait_pending_Does :
      (v : ℤ) → Fits m g i (wait_pending v) → Does m g i (act i m (wait_pending v))
  unfolding act
  wait_pending_Does v f =
      stay_if (m.pending i) (wait_active v) (test_pending v)
        (λ e. fit m g i (wait_active v) f.settled f.joined f.owns tt)
        (λ e. fit m g i (test_pending v) f.settled f.joined f.owns tt)

  pub wait_active_Does : (v : ℤ) → Fits m g i (wait_active v) → Does m g i (act i m (wait_active v))
  unfolding act
  wait_active_Does v f =
      stay_if (m.active i) (wait_lock v) (test_pending v)
        (λ e. fit m g i (wait_lock v) f.settled f.joined f.owns tt)
        (λ e. fit m g i (test_pending v) f.settled f.joined f.owns tt)

  pub test_pending_Does :
      (v : ℤ) → Fits m g i (test_pending v) → Does m g i (act i m (test_pending v))
  unfolding act
  test_pending_Does v f =
      stay_if (m.pending i) (test_active v) (reply v)
        (λ e. fit m g i (test_active v) f.settled f.joined f.owns tt)
        (λ e. fit m g i (reply v) (Settled-Answered m g i v f.settled e) f.joined f.owns tt)

  pub test_active_Does : (v : ℤ) → Fits m g i (test_active v) → Does m g i (act i m (test_active v))
  unfolding act
  test_active_Does v f =
      stay_if (m.active i) (test_lock v) (set_active false v)
        (λ e. fit m g i (test_lock v) f.settled f.joined f.owns tt)
        (λ e. fit m g i (set_active false v) f.settled (e, sym f.joined ∙ e) f.owns tt)

  pub join_test_Does : (v : ℤ) → Fits m g i (join_test v) → Does m g i (act i m (join_test v))
  unfolding act
  join_test_Does v f =
      stay_if (m.active i) (round fc_combining_rounds v) (set_active true v)
        (λ e.
          fit m g i (round fc_combining_rounds v) f.settled f.joined f.owns
            (f.combines, sym f.joined ∙ e, inl refl))
        (λ e. fit m g i (set_active true v) f.settled (e, sym f.joined ∙ e) f.owns f.combines)

  pub read_head_Does :
      (b : Bool) (v : ℤ) → Fits m g i (read_head b v) → Does m g i (act i m (read_head b v))
  unfolding act
  read_head_Does b v f =
      let p' = set_next b v m.head in stay p' (fit m g i p' f.settled f.joined f.owns f.combines)

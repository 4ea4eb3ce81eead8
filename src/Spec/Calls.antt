-- ===== src/Spec/Calls.antt =====
-- The calls of an object by many threads: what each step of a thread is for its call, and which
-- histories of such steps an object accepts. A call takes effect at most once, between its start and
-- its return, and returns the reply that the object gave it there.
use public_conc_exp.Common.{
  update, ℕ, ◌≡◌, refl, sym, subst, Bool, true, false, inl, inr, Bool-cases, Option, none, some,
  ◌==◌, ◌==ℤ◌, if◌then◌else◌,
}
use public_conc_exp.Spec.Requests.{Reply, done, got}

-- The call of a thread: none; not decided yet; not decided, but with a reply that would leave the
-- object as it is; decided, with its reply.
pub data Call (R : Type 0) : Type 0 where
  free : Call R
  waiting : R → Call R
  noted : R → Reply → Call R
  decided : Reply → Call R

-- What a step is for the call of its thread: its start with a request, nothing, its effect, the
-- observation that it would have no effect, its return, effect and return at once, or observation and
-- return at once.
pub data Kind (R : Type 0) : Type 0 where
  start_call : R → Kind R
  silent : Kind R
  decide : Kind R
  note : Kind R
  return_ : Reply → Kind R
  finish : Reply → Kind R
  refuse : Reply → Kind R

abbrev pub same_reply : Reply → Reply → Bool
same_reply (done true) (done b) = b
same_reply (done false) (done true) = false
same_reply (done false) (done false) = true
same_reply (got v) (got w) = v ==ℤ w
same_reply _ _ = false

-- A sequential object: the effect of a request with its reply, if it can have one, and the reply that a
-- request may get without effect.
pub record Object (R X : Type 0) : Type 0 where
  pub step : R → X → Option (X × Reply)
  pub peek : R → X → Option Reply

-- The contents of the object, and the call of each thread.
pub record Served (R X : Type 0) : Type 0 where
  pub contents : X
  pub calls : ℕ → Call R

module _ {R X : Type 0} (object : Object R X) where
  open object use {step, peek}

  -- The effect with a return at once.
  abbrev pub finished : Reply → Option (X × Reply) → Option (Call R × X)
  finished r (some (x, r')) = if same_reply r' r then some (free, x) else none
  finished r none = none

  -- What a step of a thread does to its call and to the contents. A note counts for the next step of
  -- the thread only.
  unfoldable pub advance : Kind R → Call R → X → Option (Call R × X)
  advance (start_call q) free x = some (waiting q, x)
  advance silent (noted q r) x = some (waiting q, x)
  advance silent c x = some (c, x)
  advance decide (waiting q) x = elim (step q x) [ none ↦ none | some o ↦ some (decided o.1, o.0) ]
  advance note (waiting q) x = elim (peek q x) [ none ↦ none | some r ↦ some (noted q r, x) ]
  advance (return_ r) (decided r') x = if same_reply r' r then some (free, x) else none
  advance (return_ r) (noted q r') x = if same_reply r' r then some (free, x) else none
  advance (finish r) (waiting q) x = finished r (step q x)
  advance (refuse r) (waiting q) x = elim (peek q x) [
    | none ↦ none
    | some r' ↦ if same_reply r' r then some (free, x) else none
  ]
  advance _ _ x = none

  -- The steps that the object accepts, each with its thread.
  unfoldable pub accepts : ℕ × Kind R → Served R X → Option (Served R X)
  accepts (i, k) s = elim (advance k (s.calls i) s.contents) [
    | none ↦ none
    | some o ↦ some (record { contents = o.1; calls = update s.calls i o.0 })
  ]

  pub accepts-advance :
      (i : ℕ) (k : Kind R) (x : X) (calls : ℕ → Call R) (c c' : Call R) (x' : X)
      → calls i ≡ c
      → advance k c x ≡ some (c', x')
      → accepts (i, k) (record { contents = x; calls = calls })
        ≡ some (record { contents = x'; calls = update calls i c' })
  unfolding accepts
  accepts-advance i k x calls c c' x' at e =
      let e' : advance k (calls i) x ≡ some (c', x') =
        subst (λ d. advance k d x ≡ some (c', x')) (sym at) e in
      rw (e', accepts) refl

  pub accepts-start_call :
      (i : ℕ) (q : R) (x : X) (calls : ℕ → Call R)
      → calls i ≡ free
      → accepts (i, start_call q) (record { contents = x; calls = calls })
        ≡ some (record { contents = x; calls = update calls i (waiting q) })
  unfolding advance
  accepts-start_call i q x calls at =
      accepts-advance i (start_call q) x calls free (waiting q) x at refl

-- The calls follow where the threads stand.
pub status-update :
    {R P : Type 0} (status : P → Call R) (pc : ℕ → P) (calls : ℕ → Call R) (i : ℕ) (p : P)
    → ((j : ℕ) → calls j ≡ status (pc j))
    → (j : ℕ) → update calls i (status p) j ≡ status (update pc i p j)
status-update status pc calls i p same j = elim (Bool-cases (i == j)) [
  | inl e ↦ rw e refl
  | inr e ↦ rw e (same j)
]

-- No call of any thread, and these contents.
abbrev pub at_rest : {R X : Type 0} → X → Served R X
at_rest x = record { contents = x; calls = λ i. free }

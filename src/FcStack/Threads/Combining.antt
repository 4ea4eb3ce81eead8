-- ===== src/FcStack/Threads/Combining.antt =====
-- What the threads of the flat-combining stack do together, and what each of them knows.
use public_conc_exp.Common.{
  update, ℕ, ◌≡◌, ◌≢◌, Bool, true, false, ◌⊎◌, Option, none, some, List, [], ◌∷◌, ℤ, ◌==◌, ◌==ℤ◌,
  if◌then◌else◌,
}
use public_conc_exp.FcStack.{serial_push_pop, fc_combining_rounds}
use public_conc_exp.FcStack.Combine.{has_pid}
use public_conc_exp.FcStack.Threads.{
  Mem, Pc, idle, set_value, set_pending, test_lock, cas_lock, wait_lock, wait_pending, wait_active,
  test_pending, test_active, set_active, read_head, set_next, cas_head, join_test, round, visit,
  serve, put_value, put_done, advance, release, reply, Label, silent, called, served, returned,
  System,
}

-- The call of a thread: none, or waiting with its argument, or answered.
pub data Call : Type 0 where
  free : Call
  waiting : (v : ℤ) → Call
  answered : (v answer : ℤ) → Call

-- A stack with the calls in progress.
pub record Combined : Type 0 where
  pub stack : List ℤ
  pub calls : ℕ → Call

abbrev pub argument : Call → Option ℤ
argument free = none
argument (waiting v) = some v
argument (answered v r) = some v

-- The serial operation on the argument `v`, as the answer of thread `q`.
abbrev pub answer_call : ℤ → ℕ → ℤ → Combined → Call → Option Combined
answer_call v q r c (waiting w) =
    if (serial_push_pop v c.stack).1 ==ℤ r
    then some
        (record { stack = (serial_push_pop v c.stack).0; calls = update c.calls q (answered w r) })
    else none
answer_call v q r c _ = none

-- What flat combining promises: a call that waits is answered once, by one serial operation on the
-- argument of the thread that serves it, and then returns that answer.
unfoldable pub spec : Label → Combined → Option Combined
spec silent c = some c
spec (called i v) c = elim (c.calls i) [
  | free ↦ some (record c { calls = update c.calls i (waiting v) })
  | waiting w ↦ none
  | answered w r ↦ none
]
spec (served i q r) c = elim (argument (c.calls i)) [
  | none ↦ none
  | some v ↦ answer_call v q r c (c.calls q)
]
spec (returned i r) c = elim (c.calls i) [
  | free ↦ none
  | waiting w ↦ none
  | answered w r' ↦ if r' ==ℤ r then some (record c { calls = update c.calls i free }) else none
]

-- Behind the state: the publication list, who holds the lock, and the answer that is being handed over.
pub record Ghost : Type 0 where
  pub combined : Combined
  pub listed : List ℕ
  pub owner : Option ℕ
  pub serving : Option (ℕ × ℤ)

-- What the holder of the lock is at, and the other threads are not.
pub data Duty : Type 0 where
  none_held : Duty
  entering : Duty
  at_round : (n : ℕ) → Duty
  at_visit : (cur : Option ℕ) → Duty
  at_serve : (cur : ℕ) → Duty
  at_value : (cur : ℕ) (answer : ℤ) → Duty
  at_done : (cur : ℕ) → Duty
  at_advance : (cur : ℕ) → Duty

abbrev pub duty : Pc → Duty
duty (set_active b v) = if b then entering else none_held
duty (read_head b v) = if b then entering else none_held
duty (set_next b v h) = if b then entering else none_held
duty (cas_head b v h) = if b then entering else none_held
duty (join_test v) = entering
duty (round n v) = at_round n
duty (visit n v cur) = at_visit cur
duty (serve n v cur) = at_serve cur
duty (put_value n v cur r) = at_value cur r
duty (put_done n v cur) = at_done cur
duty (advance n v cur) = at_advance cur
duty (release v) = entering
duty _ = none_held

abbrev pub combining : Duty → Bool
combining none_held = false
combining _ = true

abbrev pub is_owner : Option ℕ → ℕ → Bool
is_owner none i = false
is_owner (some j) i = j == i

abbrev pub is_some {ℓ} : {A : Type ℓ} → Option A → Bool
is_some none = false
is_some (some a) = true

-- How far a call has come: `out`, not announced yet, announced, or about to return.
pub data Stage : Type 0 where
  out : Stage
  early : (v : ℤ) → Stage
  inside : (v : ℤ) → Stage
  late : (v : ℤ) → Stage

abbrev pub stage : Pc → Stage
stage idle = out
stage (set_value v) = early v
stage (set_pending v) = early v
stage (test_lock v) = inside v
stage (cas_lock v) = inside v
stage (wait_lock v) = inside v
stage (wait_pending v) = inside v
stage (wait_active v) = inside v
stage (test_pending v) = inside v
stage (test_active v) = inside v
stage (set_active b v) = inside v
stage (read_head b v) = inside v
stage (set_next b v h) = inside v
stage (cas_head b v h) = inside v
stage (join_test v) = inside v
stage (round n v) = inside v
stage (visit n v cur) = inside v
stage (serve n v cur) = inside v
stage (put_value n v cur r) = inside v
stage (put_done n v cur) = inside v
stage (advance n v cur) = inside v
stage (release v) = late v
stage (reply v) = late v

-- The answer of a call is in its request.
abbrev pub Answered : Mem → Ghost → ℕ → ℤ → Type 0
Answered m g i v = (g.combined.calls i ≡ answered v (m.value i)) × (m.pending i ≡ false)

-- The request of a thread and its call.
abbrev pub Settled : Mem → Ghost → ℕ → Stage → Type 0
Settled m g i out = (g.combined.calls i ≡ free) × (m.pending i ≡ false)
Settled m g i (early v) = (g.combined.calls i ≡ waiting v) × (m.pending i ≡ false)
Settled m g i (inside v) =
    ((g.combined.calls i ≡ waiting v) × (m.pending i ≡ true))
    ⊎ Answered m g i v
    ⊎ ((r : ℤ) × (g.combined.calls i ≡ answered v r)
        × (m.pending i ≡ true)
        × (g.serving ≡ some (i, r)))
Settled m g i (late v) = Answered m g i v

-- How far `FcEnqueueRequest` has come.
pub data Joining : Type 0 where
  unmarked : Joining
  marked : Joining
  linking : (h : Option ℕ) → Joining
  settled_in : Joining

abbrev pub joining : Pc → Joining
joining (set_active b v) = unmarked
joining (read_head b v) = marked
joining (set_next b v h) = marked
joining (cas_head b v h) = linking h
joining _ = settled_in

-- Whether the request of a thread is on the publication list.
abbrev pub Joined : Mem → Ghost → ℕ → Joining → Type 0
Joined m g i unmarked = (m.active i ≡ false) × (has_pid i g.listed ≡ false)
Joined m g i marked = (m.active i ≡ true) × (has_pid i g.listed ≡ false)
Joined m g i (linking h) = (m.active i ≡ true) × (has_pid i g.listed ≡ false) × (m.next i ≡ h)
Joined m g i settled_in = m.active i ≡ has_pid i g.listed

-- From `h` along `next` through the requests.
abbrev pub Leads : (ℕ → Option ℕ) → Option ℕ → List ℕ → Type 0
Leads next h [] = h ≡ none
Leads next h (x ∷ xs) = (h ≡ some x) × Leads next (next x) xs

-- The combiner has the rest `ys` of the list before it, its own request among it if that still waits.
abbrev pub Cursor : Mem → Ghost → ℕ → Option ℕ → Type 0
Cursor m g i cur =
    (has_pid i g.listed ≡ true)
    × ((ys : List ℕ) × Leads m.next cur ys
        × ((q : ℕ) → has_pid q ys ≡ true → has_pid q g.listed ≡ true)
        × (m.pending i ≡ true → has_pid i ys ≡ true))

-- The answer `r` of the call of `cur` is known, and `cur` not told yet.
abbrev pub Handed : Mem → Ghost → ℕ → ℤ → Type 0
Handed m g cur r =
    (g.serving ≡ some (cur, r))
    × (m.pending cur ≡ true)
    × ((w : ℤ) × (g.combined.calls cur ≡ answered w r))

-- What the holder of the lock knows.
abbrev pub Combines : Mem → Ghost → ℕ → Duty → Type 0
Combines m g i none_held = Unit
Combines m g i entering = g.serving ≡ none
Combines m g i (at_round n) =
    (g.serving ≡ none)
    × (has_pid i g.listed ≡ true)
    × ((n ≡ fc_combining_rounds) ⊎ (m.pending i ≡ false))
Combines m g i (at_visit cur) = (g.serving ≡ none) × Cursor m g i cur
Combines m g i (at_serve cur) =
    (g.serving ≡ none) × Cursor m g i (some cur) × (m.pending cur ≡ true)
Combines m g i (at_value cur r) = Handed m g cur r × Cursor m g i (some cur)
Combines m g i (at_done cur) = Handed m g cur (m.value cur) × Cursor m g i (some cur)
Combines m g i (at_advance cur) =
    (g.serving ≡ none) × Cursor m g i (some cur) × (m.pending i ≡ true → cur ≢ i)

-- What holds of one thread.
pub record Fits (m : Mem) (g : Ghost) (i : ℕ) (p : Pc) : Type 0 where
  pub settled : Settled m g i (stage p)
  pub joined : Joined m g i (joining p)
  pub owns : combining (duty p) ≡ is_owner g.owner i
  pub combines : Combines m g i (duty p)

-- What holds of the stack, the publication list and the lock.
pub record Global (m : Mem) (g : Ghost) : Type 0 where
  pub stack : m.top ≡ g.combined.stack
  pub path : Leads m.next m.head g.listed
  pub locked : m.lock ≡ is_some g.owner
  pub unused : g.owner ≡ none → g.serving ≡ none

pub record Inv (s : System) (g : Ghost) : Type 0 where
  pub globe : Global s.mem g
  pub fits : (i : ℕ) → Fits s.mem g i (s.pc i)

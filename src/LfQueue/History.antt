-- ===== src/LfQueue/History.antt =====
-- The bounded lock-free queue implements a queue of at most its capacity, in every interleaving.
use public_conc_exp.Common.{
  ℕ, ◌<◌, ◌≤◌, ◌+◌, ◌-◌, ◌%◌, ◌^◌, ◌≡◌, ◌≢◌, refl, ap, ◌∙◌, some, List, [], ◌∷◌, ℤ, arith, length,
  length-append,
}
use public_conc_exp.Spec.History.{replay, Reach, start, later, replay-append}
use public_conc_exp.Spec.Requests.{Request}
use public_conc_exp.Spec.Calls.{Call, free, Kind, accepts, at_rest}
use public_conc_exp.LfQueue.{idle, System, Step, init}
use public_conc_exp.LfQueue.Ring.{Line, contents, ticket, Shape, ticket-slot}
use public_conc_exp.LfQueue.Served.{ring, status}
use public_conc_exp.LfQueue.Invariant.{Inv-init, none_yet, Ghost, served, InvServed, Step-Inv}

module _ (capacity : ℕ) (room : 0 < capacity) (junk : ℕ → ℤ) where
  -- A history that is too short for the counters to wrap around.
  abbrev pub IsShort : List (ℕ × Kind Request) → Type 0
  IsShort history = length history + capacity < 2 ^ 64 - 1

  -- No more tickets have been given out than steps taken.
  pub reach_Inv :
      {history : List (ℕ × Kind Request)} {s : System}
      → Reach (Step capacity) (init junk) history s
      → IsShort history
      → (g : Ghost capacity room) × InvServed capacity room s g
        × (replay (accepts (ring capacity)) history (at_rest []) ≡ some (served capacity room g))
        × (g.0.last ≤ length history)
  unfolding replay
  reach_Inv start short = (
    (none_yet capacity room junk, λ i. free),
    (Inv-init capacity room junk, λ j. refl),
    refl,
    omega arith,
  )
  reach_Inv (later {history} {s} {t} {l} r step) short =
      let longer = length-append history (l ∷ []) in
      let (g, inv, e, few) = reach_Inv r (omega (arith, short, longer)) in
      let (g', inv', accepted, one) =
        Step-Inv capacity room s g l t inv (omega (arith, short, longer, few)) step in
      (
        g',
        inv',
        replay-append (accepts (ring capacity)) history l (at_rest []) (served capacity room g) e
            ∙ rw (accepted, replay) refl,
        omega (arith, longer, few, one),
      )

  -- Linearizability. In every history so short that no counter wraps around (of fewer than
  -- 2 ^ 64 - 1 - `capacity` steps), however the threads interleave, the starts, effects and returns of
  -- the calls are ones that a queue of at most `capacity` values accepts: a call that returns true took
  -- effect once, between its start and its return, an `enqueue` with room for its value and a `dequeue`
  -- with a value to take; a call that returns false had no effect. The tickets in the queue are those
  -- from `_head` to `_tail`, a slot that shows its ticket holds that ticket's value, and a thread
  -- outside both functions has no call open.
  pub ring_linearizable :
      {history : List (ℕ × Kind Request)} {s : System}
      → Reach (Step capacity) (init junk) history s
      → IsShort history
      → (g : Line) × (calls : ℕ → Call Request) × (replay
            (accepts (ring capacity))
            history
            (at_rest [])
          ≡ some (record { contents = contents g; calls = calls }))
        × Shape capacity s.mem g
        × ((i : ℕ) → s.pc i ≡ idle → calls i ≡ free)
  ring_linearizable r short =
      let ((g, calls), (inv, same), e, few) = reach_Inv r short in
      (g, calls, e, inv.shape, λ i at. same i ∙ ap status at)

  -- In no state reached before a counter wraps around do two threads have tickets of one slot between
  -- their compare-and-swap and their last store, so no slot is ever written by two threads at a time.
  pub slot_exclusive :
      {history : List (ℕ × Kind Request)} {s : System}
      → Reach (Step capacity) (init junk) history s
      → IsShort history
      → (i j t u : ℕ) → i ≢ j
      → ticket (s.pc i) ≡ some t
      → ticket (s.pc j) ≡ some u
      → t % capacity ≢ u % capacity
  slot_exclusive {history} {s} r short i j t u other mine its = λ same.
      let ((g, calls), (inv, _), e, few) = reach_Inv r short in
      let here = ticket-slot capacity s.mem g (s.pc i) t (inv.fits i) mine in
      let there = ticket-slot capacity s.mem g (s.pc j) u (inv.fits j) its in
      let one : t ≡ u = ground (arith, here, there) in other (inv.single i j t mine (ground arith))

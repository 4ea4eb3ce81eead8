-- ===== src/LfQueue/Tests.antt =====
-- Two threads on a queue of capacity 2: thread 0 has taken a ticket for 7, thread 1 one for 8; then
-- thread 2 finds the queue full, and thread 0 goes on and returns.
use public_conc_exp.Common.{ℕ, ◌≡◌, ◌≢◌, ◌%◌, refl, true, false, some, List, [], ◌∷◌, ℤ, pos, arith}
use public_conc_exp.Spec.History.{replay, Reach, start, later}
use public_conc_exp.Spec.Requests.{Request, add, done}
use public_conc_exp.Spec.Calls.{
  Call, free, Kind, start_call, silent, decide, return_, refuse, accepts, at_rest,
}
use public_conc_exp.LfQueue.{idle, refused, act, System, Step, work, call_enqueue, init}
use public_conc_exp.LfQueue.Ring.{Line, contents, ticket, Shape}
use public_conc_exp.LfQueue.Served.{ring}
use public_conc_exp.LfQueue.History.{ring_linearizable, slot_exclusive}
use public_conc_exp.LfQueue

abbrev junk : ℕ → ℤ
junk i = pos 5

abbrev Reached : Type 0
Reached = (history : List (ℕ × Kind Request)) × (s : System) × Reach (Step 2) (init junk) history s

two_tickets : Reached
unfolding act
two_tickets =
    let called = later (later start (call_enqueue 0 (pos 7) refl)) (call_enqueue 1 (pos 8) refl) in
    let loaded = later (later called (work 0 refl)) (work 1 refl) in
    let first = later (later loaded (work 0 refl)) (work 0 refl) in
    let failed = later (later first (work 1 refl)) (work 1 refl) in
    (_, _, later (later failed (work 1 refl)) (work 1 refl))

two_pc : (ticket (two_tickets.1.pc 0) ≡ some 0) × (ticket (two_tickets.1.pc 1) ≡ some 1)
unfolding two_tickets
two_pc = (refl, refl)

returned_both : Reached
unfolding act two_tickets
returned_both =
    let full = later two_tickets.2 (call_enqueue 2 (pos 9) refl) in
    let refused = later (later full (work 2 refl)) (work 2 refl) in
    (_, _, later (later refused (work 0 refl)) (work 0 refl))

returned_both-history :
    returned_both.0
    ≡ (0, start_call (add (pos 7)))
      ∷ (1, start_call (add (pos 8)))
      ∷ (0, silent)
      ∷ (1, silent)
      ∷ (0, silent)
      ∷ (0, decide)
      ∷ (1, silent)
      ∷ (1, silent)
      ∷ (1, silent)
      ∷ (1, decide)
      ∷ (2, start_call (add (pos 9)))
      ∷ (2, silent)
      ∷ (2, refuse (done false))
      ∷ (0, silent)
      ∷ (0, return_ (done true))
      ∷ []
unfolding returned_both two_tickets
returned_both-history = refl

ring_linearizable_example :
    (g : Line) × (calls : ℕ → Call Request) × (replay
        (accepts (ring 2))
        returned_both.0
        (at_rest [])
      ≡ some (record { contents = contents g; calls = calls }))
    × Shape 2 returned_both.1.mem g
    × ((i : ℕ) → returned_both.1.pc i ≡ idle → calls i ≡ free)
unfolding returned_both two_tickets
ring_linearizable_example = ring_linearizable 2 (omega arith) junk returned_both.2 (omega arith)

-- Both values are published: the queue is full, and no ticket is held.
filled : Reached
unfolding act returned_both two_tickets
filled = (_, _, later (later returned_both.2 (work 1 refl)) (work 1 refl))

slot_exclusive_example : ◌≢◌ {A = ℕ} (0 % 2) (1 % 2)
unfolding two_tickets
slot_exclusive_example =
    slot_exclusive 2 (omega arith) junk two_tickets.2 (omega arith) 0 1 0 1 (omega arith) two_pc.0
      two_pc.1

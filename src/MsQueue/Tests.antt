-- ===== src/MsQueue/Tests.antt =====
-- Two threads on the Michael-Scott queue: thread 0 links a node with 7 and leaves `tail` behind;
-- thread 1 dequeues, moves `tail` on first, and takes the 7.
use public_conc_exp.Common.{◌≡◌, ◌≢◌, refl, some, List, [], pos, fault, ok, length, ℕ, ◌+◌}
use public_conc_exp.Spec.History.{replay, Reach, start, later}
use public_conc_exp.MsQueue.{act, System, Step, work, call_enqueue, call_dequeue, init, null}
use public_conc_exp.MsQueue.Chain.{Order, contents, Shape}
use public_conc_exp.MsQueue.Sequential.{size}
use public_conc_exp.MsQueue.History.{queue_linearizable, queue_act-ne-fault, size-Reach}
use public_conc_exp.MsQueue.{idle}
use public_conc_exp.MsQueue.Served.{queue}
use public_conc_exp.Spec.Requests.{Request}
use public_conc_exp.Spec.Calls.{Call, free, Kind, accepts, at_rest}

abbrev Reached : Type 0
Reached = (history : List (ℕ × Kind Request)) × (s : System) × Reach Step (init 1) history s

one-ne-null : 1 ≢ null
one-ne-null e = cc

linked : Reached
unfolding act
linked = (
  _,
  _,
  later
      (later
        (later (later (later start (call_enqueue 0 (pos 7) 2 refl (λ e. cc) refl)) (work 0 refl))
          (work 0 refl))
        (work 0 refl))
      (work 0 refl),
)

taken : Reached
unfolding act linked
taken =
    let asked = later linked.2 (call_dequeue 1 refl) in
    let helped =
      later
        (later (later (later (later asked (work 1 refl)) (work 1 refl)) (work 1 refl))
          (work 1 refl))
        (work 1 refl) in
    (
      _,
      _,
      later
          (later
            (later (later (later (later helped (work 1 refl)) (work 1 refl)) (work 1 refl))
              (work 1 refl))
            (work 1 refl))
          (work 1 refl),
    )

queue_linearizable_example :
    (g : Order) × (calls : ℕ → Call Request) × (replay (accepts queue) taken.0 (at_rest [])
      ≡ some (record { contents = contents g; calls = calls }))
    × Shape taken.1.mem g
    × ((i : ℕ) → taken.1.pc i ≡ idle → calls i ≡ free)
queue_linearizable_example = queue_linearizable 1 one-ne-null taken.2

queue_act-ne-fault_example : ¬ (act taken.1.mem (taken.1.pc 1) ≡ fault)
queue_act-ne-fault_example = queue_act-ne-fault 1 one-ne-null taken.2 1

size-Reach_example :
    (g : Order) × (calls : ℕ → Call Request) × (replay (accepts queue) taken.0 (at_rest [])
      ≡ some (record { contents = contents g; calls = calls }))
    × ((fuel : ℕ) → size (g.len + 1 + fuel) taken.1.mem ≡ ok (length (contents g) + 1))
size-Reach_example = size-Reach 1 one-ne-null taken.2

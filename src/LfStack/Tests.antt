-- ===== src/LfStack/Tests.antt =====
-- Two threads on the lock-free stack: thread 1 loads `Top` for its push, thread 0 pushes 7 in
-- between, so the compare-and-swap of thread 1 fails and it starts over; then thread 0 pops.
use public_conc_exp.Common.{ℕ, ◌≡◌, refl, some, List, [], pos, ok, fault}
use public_conc_exp.LfStack.{Mem, idle, pop_value, returned, act, System, work, call_push, call_pop}
use public_conc_exp.LfStack.Chain.{Cells, first, values, IsChain}
use public_conc_exp.LfStack.Solo.{alone, alone_returns}
use public_conc_exp.LfStack.History.{linearizable, act-ne-fault, pop-returns}
use public_conc_exp.LfStack.{Step, init}
use public_conc_exp.LfStack.Served.{stack}
use public_conc_exp.Spec.History.{replay, Reach, start, later}
use public_conc_exp.Spec.Requests.{Request}
use public_conc_exp.Spec.Calls.{Call, free, Kind, accepts, at_rest}

abbrev Reached : Type 0
Reached = (history : List (ℕ × Kind Request)) × (s : System) × Reach Step init history s

contended : Reached
unfolding act
contended = (
  _,
  _,
  later
      (later
        (later
          (later
            (later
              (later
                (later
                  (later
                    (later
                      (later
                        (later (later start (call_push 0 (pos 7) 1 0 refl (λ e. cc) refl))
                          (call_push 1 (pos 9) 2 5 refl (λ e. cc) refl))
                        (work 1 refl))
                      (work 1 refl))
                    (work 0 refl))
                  (work 0 refl))
                (work 0 refl))
              (work 1 refl))
            (call_pop 0 refl))
          (work 0 refl))
        (work 0 refl))
      (work 0 refl),
)

linearizable_example :
    (cells : Cells) × (calls : ℕ → Call Request) × (replay (accepts stack) contended.0 (at_rest [])
      ≡ some (record { contents = values cells; calls = calls }))
    × (contended.1.mem.top ≡ first cells)
    × IsChain contended.1.mem.heap cells
    × ((i : ℕ) → contended.1.pc i ≡ idle → calls i ≡ free)
linearizable_example = linearizable contended.2

act-ne-fault_example : ¬ (act contended.1.mem (contended.1.pc 1) ≡ fault)
act-ne-fault_example = act-ne-fault contended.2 1

contended_pc : contended.1.pc 0 ≡ pop_value 1 (pos 7)
unfolding contended
contended_pc = refl

pop-returns_example :
    act contended.1.mem (contended.1.pc 0) ≡ ok (contended.1.mem, idle, returned (pos 7))
pop-returns_example = pop-returns contended.2 0 1 (pos 7) contended_pc

-- Thread 1 has lost its compare-and-swap, and needs three more steps.
alone_returns_example : (m : Mem) × (alone 6 contended.1.mem (contended.1.pc 1) ≡ ok (m, idle))
alone_returns_example = alone_returns contended.2 1

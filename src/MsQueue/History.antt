-- ===== src/MsQueue/History.antt =====
-- The Michael-Scott queue implements a queue: every interleaving has a history that the
-- specification accepts, step by step.
use public_conc_exp.Common.{
  refl, ap, ◌∙◌, ℕ, ◌≡◌, ◌≢◌, ◌+◌, some, List, [], ok, fault, subst, length, arith,
}
use public_conc_exp.Spec.History.{replay, Reach, replay-Reach}
use public_conc_exp.MsQueue.{Ptr, null, act, System, Step, init}
use public_conc_exp.MsQueue.Chain.{Order, contents, Shape}
use public_conc_exp.MsQueue.Local.{Does}
use public_conc_exp.MsQueue.Local.Moves.{act-Does}
use public_conc_exp.MsQueue.Sequential.{size, size_lem}
use public_conc_exp.MsQueue.Invariant.{Inv-init, alone, Ghost, served, InvServed, Step-Inv}
use public_conc_exp.MsQueue.Served.{queue, status}
use public_conc_exp.Spec.Requests.{Request}
use public_conc_exp.Spec.Calls.{Call, free, Kind, accepts, at_rest}
use public_conc_exp.MsQueue.{idle}

reach_Inv :
    (d : Ptr) {history : List (ℕ × Kind Request)} {s : System}
    → d ≢ null
    → Reach Step (init d) history s
    → (g : Ghost) × InvServed s g × (replay (accepts queue) history (at_rest []) ≡ some (served g))
reach_Inv d ne r =
    replay-Reach (accepts queue) InvServed served (alone d, λ i. free) (Inv-init d ne, λ j. refl)
      Step-Inv r

-- Linearizability. However the threads interleave, the history of the calls' starts, effects and
-- returns is one that a queue accepts: every `enqueue` takes effect once, when it returns, and every
-- `dequeue` either takes the first value when it returns, and returns it, or has no effect and returns
-- -1, if the queue was empty in between. At the end the nodes from `head` on, among them the one at
-- `tail`, hold the contents behind the first one, and a thread outside both has no call open.
pub queue_linearizable :
    (d : Ptr) {history : List (ℕ × Kind Request)} {s : System}
    → d ≢ null
    → Reach Step (init d) history s
    → (g : Order) × (calls : ℕ → Call Request) × (replay (accepts queue) history (at_rest [])
        ≡ some (record { contents = contents g; calls = calls }))
      × Shape s.mem g
      × ((i : ℕ) → s.pc i ≡ idle → calls i ≡ free)
queue_linearizable d ne r =
    let ((g, calls), (inv, same), e) = reach_Inv d ne r in
    (g, calls, e, inv.shape, λ i at. same i ∙ ap status at)

-- In every reachable state no thread of the Michael-Scott queue reads or writes through a pointer to
-- no node.
pub queue_act-ne-fault :
    (d : Ptr) {history : List (ℕ × Kind Request)} {s : System}
    → d ≢ null
    → Reach Step (init d) history s
    → (i : ℕ) → ¬ (act s.mem (s.pc i) ≡ fault)
queue_act-ne-fault d {history} {s} ne r i e =
    let ((g, calls), (inv, same), _) = reach_Inv d ne r in
    subst (Does s.mem g (s.pc i)) e (act-Does s.mem g inv.shape (s.pc i) (inv.fits i) (inv.own i))

-- In every reachable state `size`, run with enough rounds while no other step is made, returns one
-- more than the abstract queue has values.
pub size-Reach :
    (d : Ptr) {history : List (ℕ × Kind Request)} {s : System}
    → d ≢ null
    → Reach Step (init d) history s
    → (g : Order) × (calls : ℕ → Call Request) × (replay (accepts queue) history (at_rest [])
        ≡ some (record { contents = contents g; calls = calls }))
      × ((fuel : ℕ) → size (g.len + 1 + fuel) s.mem ≡ ok (length (contents g) + 1))
size-Reach d {history} {s} ne r =
    let ((g, calls), (inv, same), e) = reach_Inv d ne r in
    (g, calls, e, λ fuel. size_lem s.mem g inv.shape (g.len + 1 + fuel) (omega arith))

-- ===== src/LfStack/History.antt =====
-- The lock-free stack implements a stack: in every interleaving its calls are those of a stack.
use public_conc_exp.Common.{ℕ, ◌≡◌, refl, ◌∙◌, ap, some, List, [], ℤ, ok, fault, subst}
use public_conc_exp.Spec.History.{replay, Reach, replay-Reach}
use public_conc_exp.Spec.Requests.{Request}
use public_conc_exp.Spec.Calls.{Call, free, Kind, accepts, at_rest}
use public_conc_exp.LfStack.{Ptr, idle, pop_value, returned, act, System, Step, init}
use public_conc_exp.LfStack.Chain.{Cells, first, values, IsChain, Fits}
use public_conc_exp.LfStack.Local.{Does, act-Does}
use public_conc_exp.LfStack.Served.{stack, status}
use public_conc_exp.LfStack.Invariant.{Inv-init, Ghost, served, InvServed, Step-Inv}

pub reach_Inv :
    {history : List (ℕ × Kind Request)} {s : System}
    → Reach Step init history s
    → (g : Ghost) × InvServed s g × (replay (accepts stack) history (at_rest []) ≡ some (served g))
reach_Inv r =
    replay-Reach (accepts stack) InvServed served ([], λ i. free) (Inv-init, λ j. refl) Step-Inv r

-- Linearizability. However the threads interleave, the history of the calls' starts, effects and
-- returns is one that a stack accepts: every `push` takes effect once, when it returns, every `pop`
-- takes effect at most once between its start and its return and returns the value that it took, or -1
-- if the stack was empty in between. At the end the nodes that `Top` leads to hold the contents, and a
-- thread outside `push` and `pop` has no call open.
pub linearizable :
    {history : List (ℕ × Kind Request)} {s : System}
    → Reach Step init history s
    → (cells : Cells) × (calls : ℕ → Call Request) × (replay (accepts stack) history (at_rest [])
        ≡ some (record { contents = values cells; calls = calls }))
      × (s.mem.top ≡ first cells)
      × IsChain s.mem.heap cells
      × ((i : ℕ) → s.pc i ≡ idle → calls i ≡ free)
linearizable r =
    let ((cells, calls), (inv, same), e) = reach_Inv r in
    (cells, calls, e, inv.top, inv.chain, λ i at. same i ∙ ap status at)

-- No thread ever reads or writes through a pointer to no node: in every reachable state the next
-- step of every thread is made.
pub act-ne-fault :
    {history : List (ℕ × Kind Request)} {s : System}
    → Reach Step init history s
    → (i : ℕ) → ¬ (act s.mem (s.pc i) ≡ fault)
act-ne-fault {s} r i e =
    let ((cells, calls), (inv, same), _) = reach_Inv r in
    subst (Does s.mem cells (s.pc i)) e
      (act-Does s.mem cells inv.top inv.chain (s.pc i) (inv.fits i))

-- A `pop` whose compare-and-swap took the value `v` returns `v`, whatever the other threads did
-- between the two.
pub pop-returns :
    {history : List (ℕ × Kind Request)} {s : System}
    → Reach Step init history s
    → (i : ℕ) (old : Ptr) (v : ℤ) → s.pc i ≡ pop_value old v
    → act s.mem (s.pc i) ≡ ok (s.mem, idle, returned v)
unfolding act
pop-returns {s} r i old v at =
    let ((cells, calls), (inv, same), _) = reach_Inv r in
    let (q, held) = subst (Fits s.mem.heap cells) at (inv.fits i) in rw (at, act, held)

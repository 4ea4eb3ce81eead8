-- ===== src/HandList/Threads/History.antt =====
-- The hand-over-hand list implements a set, however its threads interleave.
use public_conc_exp.Common.{ℕ, ◌≡◌, refl, ap, ◌∙◌, some, List, [], ℤ}
use public_conc_exp.Spec.History.{replay, Reach, replay-Reach}
use public_conc_exp.Spec.SetCalls.{SetRequest, set}
use public_conc_exp.Spec.Calls.{Call, free, Kind, accepts, at_rest}
use public_conc_exp.Rows.{Ptr, null}
use public_conc_exp.HandList.Threads.{idle, System, Step, init}
use public_conc_exp.HandList.Threads.Shape.{contents, Shape}
use public_conc_exp.HandList.Threads.Served.{status}
use public_conc_exp.HandList.Threads.Steps.{Ghost, served, InvServed, Inv-init, Step-Inv}

module _ (data_of : Ptr → ℤ) (junk : Ptr) {history : List (ℕ × Kind SetRequest)} {s : System}
    (r : Reach (Step data_of null) (init junk) history s) where
  pub reach_Inv :
      (g : Ghost data_of) × InvServed data_of s g
      × (replay (accepts set) history (at_rest []) ≡ some (served data_of g))
  reach_Inv =
      replay-Reach (accepts set) (InvServed data_of) (served data_of) ([], λ i. free)
        (Inv-init data_of junk, λ j. refl) (Step-Inv data_of) r

  -- Linearizability. If new nodes are zeroed, then however the calls of `insert`, `remove` and
  -- `removeFirst` interleave, the history of their starts, effects and returns is one that a set
  -- accepts: every call takes effect once, between its start and its return, and returns the reply
  -- that the set gave it there (whether the value was new; the value, or -1 if it was missing; the
  -- least value, or -1 if there was none). The nodes from `head` on are ascending and hold the final
  -- contents, and a thread outside all three functions has no call open.
  pub hand_linearizable :
      (xs : List Ptr) × (calls : ℕ → Call SetRequest) × (replay (accepts set) history (at_rest [])
        ≡ some (record { contents = contents data_of xs; calls = calls }))
      × Shape data_of s.mem xs
      × ((i : ℕ) → s.pc i ≡ idle → calls i ≡ free)
  hand_linearizable =
      let ((xs, calls), (inv, same), e) = reach_Inv in
      (xs, calls, e, inv.shape, λ i at. same i ∙ ap (status data_of) at)

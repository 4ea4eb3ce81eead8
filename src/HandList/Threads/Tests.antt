-- ===== src/HandList/Threads/Tests.antt =====
-- Two threads on an empty list: thread 0 inserts 5, and thread 1 waits for it and removes 5.
use public_conc_exp.Common.{blocked, ℕ, ◌≡◌, ◌≢◌, refl, true, some, List, [], ◌∷◌, ℤ, pos, arith}
use public_conc_exp.Spec.History.{replay, Reach, start, later}
use public_conc_exp.Spec.Requests.{done}
use public_conc_exp.Spec.Requests.{got}
use public_conc_exp.Spec.SetCalls.{SetRequest, insert, remove, set}
use public_conc_exp.Spec.Calls.{
  Call, free, Kind, start_call, silent, decide, return_, accepts, at_rest,
}
use public_conc_exp.Rows.{Ptr, null}
use public_conc_exp.HandList.Threads.{idle, act, System, Step, work, call_insert, call_remove, init}
use public_conc_exp.HandList.Threads.Shape.{contents, Shape}
use public_conc_exp.HandList.Threads.History.{hand_linearizable}
use public_conc_exp.HandList.Threads.Progress.{CanMove, hand_progress}

abbrev fives : Ptr → ℤ
fives p = pos 5

abbrev Reached : Type 0
Reached =
    (history : List (ℕ × Kind SetRequest)) × (s : System) × Reach (Step fives null) (init null)
      history s

two_calls : Reached
unfolding act
two_calls =
    let called = later start (call_insert 0 (pos 5) 9 refl (omega arith) refl refl) in
    let both = later called (call_remove 1 (pos 5) refl) in
    let stored = later (later (later both (work 0 refl)) (work 0 refl)) (work 0 refl) in
    let inside = later (later stored (work 0 refl)) (work 1 refl) in
    let at_head = later (later (later inside (work 1 refl)) (work 1 refl)) (work 1 refl) in
    let taken = later (later at_head (work 1 refl)) (work 1 refl) in
    (_, _, later (later taken (work 1 refl)) (work 1 refl))

-- The reply of each call comes after its effect.
two_calls-history :
    two_calls.0
    ≡ (0, start_call (insert (pos 5)))
      ∷ (1, start_call (remove (pos 5)))
      ∷ (0, silent)
      ∷ (0, silent)
      ∷ (0, decide)
      ∷ (0, return_ (done true))
      ∷ (1, silent)
      ∷ (1, silent)
      ∷ (1, silent)
      ∷ (1, silent)
      ∷ (1, silent)
      ∷ (1, decide)
      ∷ (1, silent)
      ∷ (1, return_ (got (pos 5)))
      ∷ []
unfolding two_calls
two_calls-history = refl

hand_linearizable_example :
    (xs : List Ptr) × (calls : ℕ → Call SetRequest) × (replay (accepts set) two_calls.0 (at_rest [])
      ≡ some (record { contents = contents fives xs; calls = calls }))
    × Shape fives two_calls.1.mem xs
    × ((i : ℕ) → two_calls.1.pc i ≡ idle → calls i ≡ free)
hand_linearizable_example = hand_linearizable fives null two_calls.2

-- Thread 0 holds the list, and thread 1 waits for it.
waiting : Reached
unfolding act
waiting =
    let called = later start (call_insert 0 (pos 5) 9 refl (omega arith) refl refl) in
    (_, _, later (later called (call_remove 1 (pos 5) refl)) (work 0 refl))

act-blocked : act fives waiting.1.mem (waiting.1.pc 1) ≡ blocked
unfolding act waiting
act-blocked = refl

waiting-busy : waiting.1.pc 1 ≢ idle
unfolding waiting
waiting-busy = λ e. absurd (ground (arith, e))

hand_progress_example : (k : ℕ) × CanMove fives waiting.1 k
hand_progress_example = hand_progress fives null waiting.2 1 waiting-busy

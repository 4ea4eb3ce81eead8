-- ===== src/FcStack/Threads/Tests.antt =====
-- Two threads push onto an empty stack: thread 0 takes the lock while thread 1 announces its request,
-- and serves both.
use public_conc_exp.Common.{
  ℕ, zero, suc, ◌≡◌, refl, true, Option, none, some, List, [], ◌∷◌, ◌++◌, ℤ, pos,
}
use public_conc_exp.Spec.History.{replay, Reach, start, later}
use public_conc_exp.FcStack.{serial_push_pop}
use public_conc_exp.FcStack.Threads.{Label, act, System, Step, call, work, init}
use public_conc_exp.FcStack.Threads.Combining.{Combined, spec, combining, duty}
use public_conc_exp.FcStack.Threads.History.{nothing_yet, fc_linearizable, combining_exclusive}

abbrev nowhere : ℕ → Option ℕ
nowhere i = none

abbrev zeros : ℕ → ℤ
zeros i = pos 0

abbrev Reached : Type 0
Reached = (history : List Label) × (s : System) × Reach Step (init nowhere zeros) history s

-- The next steps of the threads listed.
unfoldable schedule : List ℕ → Reached → Reached
unfolding act
schedule [] so_far = so_far
schedule (i ∷ is) (history, s, r) =
    let now = act i s.mem (s.pc i) in
    schedule is (_, _, later r (work i {m = now.0} {p = now.1} {l = now.2} refl))

abbrev times : ℕ → ℕ → List ℕ
times zero i = []
times (suc n) i = i ∷ times n i

called_both : Reached
called_both = (_, _, later (later start (call 0 (pos 5) refl)) (call 1 (pos 7) refl))

-- Thread 0 takes the lock; thread 1 puts its request on the list; thread 0 combines.
combined : Reached
unfolding schedule called_both
combined = schedule (times 4 0 ++ times 12 1 ++ times 50 0) called_both

-- The 7 of thread 1 never reaches the stack, and the 5 of thread 0 does twice.
lost_push : combined.1.mem.top ≡ pos 5 ∷ pos 5 ∷ []
unfolding combined schedule called_both act serial_push_pop
lost_push = refl

fc_linearizable_example :
    (c : Combined) × (replay spec combined.0 nothing_yet ≡ some c) × (combined.1.mem.top ≡ c.stack)
fc_linearizable_example = fc_linearizable nowhere zeros combined.2

-- Both have called, and thread 0 has the lock.
locked : Reached
unfolding schedule called_both
locked = schedule (times 4 0) called_both

locked_combining : combining (duty (locked.1.pc 0)) ≡ true
unfolding locked schedule called_both act
locked_combining = refl

combining_exclusive_example :
    (locked.1.mem.lock ≡ true) × ((j : ℕ) → combining (duty (locked.1.pc j)) ≡ true → j ≡ 0)
combining_exclusive_example = combining_exclusive nowhere zeros locked.2 0 locked_combining

-- ===== src/Locks/Tests.antt =====
-- Runs of the locks, and the theorems at them.
use public_conc_exp.Common.{ℕ, ◌≡◌, refl, true, false}
use public_conc_exp.Locks.SpinLock
use public_conc_exp.Locks.ClhLock

-- Thread 0 has the lock, and thread 1 is at the exchange.
contended : (s : SpinLock.System) × SpinLock.Reach s
contended = (
  _,
  SpinLock.later
      (SpinLock.later (SpinLock.later SpinLock.start (SpinLock.call_lock 0 refl)) (SpinLock.work 0))
      (SpinLock.call_lock 1 refl),
)

contended_inside : SpinLock.is_inside (contended.0.pc 0) ≡ true
unfolding contended SpinLock.act
contended_inside = refl

mutual_exclusion_example : ◌≡◌ {A = ℕ} 0 0
mutual_exclusion_example =
    SpinLock.mutual_exclusion contended.1 0 0 contended_inside contended_inside

-- A single thread has come to the wait at the end of `lock`.
waiting : (s : ClhLock.System) × ClhLock.Reach s
waiting = (
  _,
  ClhLock.later
      (ClhLock.later (ClhLock.later ClhLock.start (ClhLock.call_lock 4 refl)) (ClhLock.work 4))
      (ClhLock.work 4),
)

waiting_at : waiting.0.pc 4 ≡ ClhLock.spin
unfolding waiting ClhLock.act
waiting_at = refl

lock_never_returns_example :
    (ClhLock.past_lock (waiting.0.pc 4) ≡ false)
    × (waiting.0.pc 4 ≡ ClhLock.spin
        → ClhLock.act 4 waiting.0.mem (waiting.0.pc 4) ≡ (waiting.0.mem, ClhLock.spin))
lock_never_returns_example = ClhLock.lock_never_returns waiting.1 4

-- ===== src/Locks/ClhLock.antt =====
-- The queue lock, lib/includes/CLHLock.hpp (`CLHLock`), for any number of threads. `lock` sets the
-- thread's own node, swaps it with the tail, and then waits on the node `cur[pid]`: its own, where
-- a CLH lock waits on the predecessor's. Each access to shared memory is a step.
use public_conc_exp.Common.{update, ℕ, ◌+◌, ◌≡◌, refl, Bool, true, false, arith, if◌then◌else◌}

-- `CLHLockStruct`, with the `locked` field of each node. A node is its number.
pub record Shared : Type 0 where
  pub tail : ℕ
  pub cur : ℕ → ℕ
  pub cur_pred : ℕ → ℕ
  pub locked : ℕ → Bool

pub data Pc : Type 0 where
  outside set_locked swap_tail spin inside clear_locked : Pc

-- The next access of thread `pid`: `set_locked`, `swap_tail` and `spin` are the three lines of
-- `lock`, `inside` and `clear_locked` the two of `unlock`.
unfoldable pub act : ℕ → Shared → Pc → Shared × Pc
act pid l outside = (l, outside)
act pid l set_locked = (record l { locked = update l.locked (l.cur pid) true }, swap_tail)
act pid l swap_tail = (record l { cur_pred = update l.cur_pred pid l.tail; tail = l.cur pid }, spin)
act pid l spin = (l, if l.locked (l.cur pid) then spin else inside)
act pid l inside = (record l { locked = update l.locked (l.cur pid) false }, clear_locked)
act pid l clear_locked = (record l { cur = update l.cur pid (l.cur_pred pid) }, outside)

-- The constructor: the tail is node 0, thread `i` has node `i + 1`; no node is locked. The null
-- pointers of `curPred`, which are written before they are read, stand as node 0.
abbrev pub fresh : Shared
fresh = record { tail = 0; cur = λ i. i + 1; cur_pred = λ i. 0; locked = λ p. false }

pub record System : Type 0 where
  pub mem : Shared
  pub pc : ℕ → Pc

abbrev pub run : System → ℕ → System
run s i = record { mem = (act i s.mem (s.pc i)).0; pc = update s.pc i (act i s.mem (s.pc i)).1 }

pub data Step (s : System) : System → Type 0 where
  work : (i : ℕ) → Step s (run s i)
  call_lock : (i : ℕ) → s.pc i ≡ outside → Step s (record s { pc = update s.pc i set_locked })

pub data Reach : System → Type 0 where
  start : Reach (record { mem = fresh; pc = λ _. outside })
  later : {s t : System} → Reach s → Step s t → Reach t

abbrev pub in_lock : Pc → Bool
in_lock swap_tail = true
in_lock spin = true
in_lock _ = false

-- The thread has come through `lock`.
abbrev pub past_lock : Pc → Bool
past_lock inside = true
past_lock clear_locked = true
past_lock _ = false

-- Nobody is through, and the own node of each thread in `lock` is locked.
record Inv (s : System) : Type 0 where
  nobody : (i : ℕ) → past_lock (s.pc i) ≡ false
  waits : (i : ℕ) → in_lock (s.pc i) ≡ true → s.mem.locked (s.mem.cur i) ≡ true

module _ {s : System} (inv : Inv s) (i : ℕ) where
  open inv use {nobody, waits}

  move_nobody :
      (p : Pc) → s.pc i ≡ p → (j : ℕ) → past_lock (update s.pc i (act i s.mem p).1 j) ≡ false
  unfolding act
  move_nobody outside at j = ground (arith, nobody j, nobody i, waits i)
  move_nobody p at j = ground (arith, nobody j, nobody i, waits i)

  move_waits :
      (p : Pc)
      → s.pc i ≡ p
      → (j : ℕ) → in_lock (update s.pc i (act i s.mem p).1 j) ≡ true
      → (act i s.mem p).0.locked ((act i s.mem p).0.cur j) ≡ true
  unfolding act
  move_waits outside at j h = ground (arith, nobody i, waits j)
  move_waits p at j h = ground (arith, nobody i, waits j)

Step-Inv : {s t : System} → Step s t → Inv s → Inv t
Step-Inv {s} (work i) inv = record {
  nobody = move_nobody inv i (s.pc i) refl;
  waits = move_waits inv i (s.pc i) refl;
}
Step-Inv (call_lock i at) inv = record {
  nobody = λ j. ground (arith, inv.nobody j);
  waits = λ j h. ground (arith, inv.waits j);
}

reach_Inv : {s : System} → Reach s → Inv s
reach_Inv start = record { nobody = λ i. refl; waits = λ i h. cc }
reach_Inv (later r step) = Step-Inv step (reach_Inv r)

-- In no reachable state has any thread come through `lock`; and a thread that has reached the wait
-- at its end is there for ever, also if it is the only one: its next step leaves it where it is.
pub lock_never_returns :
    {s : System}
    → Reach s
    → (i : ℕ)
    → (past_lock (s.pc i) ≡ false) × (s.pc i ≡ spin → act i s.mem (s.pc i) ≡ (s.mem, spin))
unfolding act
lock_never_returns {s} r i =
    let inv = reach_Inv r in (inv.nobody i, λ at. ground (arith, inv.waits i))

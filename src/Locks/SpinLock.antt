-- ===== src/Locks/SpinLock.antt =====
-- The test-and-test-and-set lock, lib/includes/spinlock.hpp (`spinlock`): each access to `varLock`
-- is a step, in a sequentially consistent memory. The pause instruction only lets time pass.
use public_conc_exp.Common.{
  ℕ, ◌≡◌, refl, ◌⊎◌, ◌↔◌, inl, inr, Bool, true, false, not, Bool-cases, arith, ◌==◌, if◌then◌else◌,
}

-- `lock_exchange` and `lock_spin` are the two loops of `lock`; `try_load` and `try_exchange` the
-- two halves of the test of `try_lock`. A thread is `inside` from the success of either to `unlock`.
pub data Pc : Type 0 where
  outside lock_exchange lock_spin try_load try_exchange inside : Pc

-- The next access of a thread: the new `varLock`, and where the thread goes on.
unfoldable pub act : Bool → Pc → Bool × Pc
act var_lock outside = (var_lock, outside)
act var_lock lock_exchange = (true, if not var_lock then inside else lock_spin)
act var_lock lock_spin = (var_lock, if var_lock then lock_spin else lock_exchange)
act var_lock try_load = (var_lock, if not var_lock then try_exchange else outside)
act var_lock try_exchange = (true, if not var_lock then inside else outside)
act var_lock inside = (false, outside)

pub record System : Type 0 where
  pub var_lock : Bool
  pub pc : ℕ → Pc

abbrev pub update : (ℕ → Pc) → ℕ → Pc → ℕ → Pc
update f i p j = if i == j then p else f j

abbrev pub run : System → ℕ → System
run s i = record {
  var_lock = (act s.var_lock (s.pc i)).0;
  pc = update s.pc i (act s.var_lock (s.pc i)).1;
}

-- A thread takes its next step, or, outside, calls `lock` or `try_lock`.
pub data Step (s : System) : System → Type 0 where
  work : (i : ℕ) → Step s (run s i)
  call_lock : (i : ℕ) → s.pc i ≡ outside → Step s (record s { pc = update s.pc i lock_exchange })
  call_try_lock : (i : ℕ) → s.pc i ≡ outside → Step s (record s { pc = update s.pc i try_load })

abbrev pub init : System
init = record { var_lock = false; pc = λ _. outside }

pub data Reach : System → Type 0 where
  start : Reach init
  later : {s t : System} → Reach s → Step s t → Reach t

abbrev pub is_inside : Pc → Bool
is_inside inside = true
is_inside _ = false

-- `varLock` says whether there is a holder, and there is at most one.
pub record Inv (s : System) : Type 0 where
  pub held : s.var_lock ≡ true → (i : ℕ) × (is_inside (s.pc i) ≡ true)
  pub shut : (i : ℕ) → is_inside (s.pc i) ≡ true → s.var_lock ≡ true
  pub one : (i j : ℕ) → is_inside (s.pc i) ≡ true → is_inside (s.pc j) ≡ true → i ≡ j

module _ {s : System} (inv : Inv s) (i : ℕ) where
  open inv use {held, shut, one}

  move_held :
      (p : Pc)
      → s.pc i ≡ p
      → (act s.var_lock p).0 ≡ true
      → (j : ℕ) × (is_inside (update s.pc i (act s.var_lock p).1 j) ≡ true)
  unfolding act
  move_held outside at e = let (j, h) = held e in (j, ground arith)
  move_held lock_exchange at e = elim (Bool-cases s.var_lock) [
    | inl taken ↦ let (j, h) = held taken in (j, ground arith)
    | inr free ↦ (i, ground arith)
  ]
  move_held lock_spin at e = let (j, h) = held e in (j, ground arith)
  move_held try_load at e = let (j, h) = held e in (j, ground arith)
  move_held try_exchange at e = elim (Bool-cases s.var_lock) [
    | inl taken ↦ let (j, h) = held taken in (j, ground arith)
    | inr free ↦ (i, ground arith)
  ]
  move_held inside at e = cc

  move_shut :
      (p : Pc)
      → s.pc i ≡ p
      → (j : ℕ) → is_inside (update s.pc i (act s.var_lock p).1 j) ≡ true
      → (act s.var_lock p).0 ≡ true
  unfolding act
  move_shut outside at j h = ground (arith, shut j)
  move_shut p at j h = ground (arith, shut j, one i j)

  move_one :
      (p : Pc)
      → s.pc i ≡ p
      → (j k : ℕ) → is_inside (update s.pc i (act s.var_lock p).1 j) ≡ true
      → is_inside (update s.pc i (act s.var_lock p).1 k) ≡ true
      → j ≡ k
  unfolding act
  move_one outside at j k h g = ground (arith, one j k)
  move_one p at j k h g = ground (arith, one j k, shut j, shut k)

  run-Inv : Inv (run s i)
  run-Inv = record {
    held = move_held (s.pc i) refl;
    shut = move_shut (s.pc i) refl;
    one = move_one (s.pc i) refl;
  }

  call-Inv :
      (p : Pc) → s.pc i ≡ outside → is_inside p ≡ false → Inv (record s { pc = update s.pc i p })
  call-Inv p at quiet = record {
    held = λ e. let (j, h) = held e in (j, ground arith);
    shut = λ j h. ground (arith, shut j);
    one = λ j k h g. ground (arith, one j k);
  }

Step-Inv : {s t : System} → Step s t → Inv s → Inv t
Step-Inv (work i) inv = run-Inv inv i
Step-Inv (call_lock i at) inv = call-Inv inv i lock_exchange at refl
Step-Inv (call_try_lock i at) inv = call-Inv inv i try_load at refl

reach_Inv : {s : System} → Reach s → Inv s
reach_Inv start = record { held = λ e. cc; shut = λ i e. cc; one = λ i j e. cc }
reach_Inv (later r step) = Step-Inv step (reach_Inv r)

-- However the threads interleave their calls of `lock`, `try_lock` and `unlock`, no two of them hold
-- the lock.
pub mutual_exclusion :
    {s : System}
    → Reach s
    → (i j : ℕ) → is_inside (s.pc i) ≡ true
    → is_inside (s.pc j) ≡ true
    → i ≡ j
mutual_exclusion r = (reach_Inv r).one

-- A thread at the exchange of `lock` or of `try_lock` gets the lock exactly if no thread holds it:
-- the lock is never lost, and an `unlock` makes it free.
exchange_wins :
    {s : System}
    → Reach s
    → (i : ℕ) → (s.pc i ≡ lock_exchange) ⊎ (s.pc i ≡ try_exchange)
    → ((run s i).pc i ≡ inside) ↔ ((j : ℕ) → is_inside (s.pc j) ≡ false)
unfolding act
exchange_wins {s} r i at = (
  λ won j. wins_alone at won j,
  λ alone. elim (Bool-cases s.var_lock) [
    | inl taken ↦ let (j, h) = inv.held taken in absurd (ground (arith, alone j))
    | inr free ↦ enters at free
  ],
)
  where
    inv : Inv s
    inv = reach_Inv r

    wins_alone :
        (s.pc i ≡ lock_exchange) ⊎ (s.pc i ≡ try_exchange)
        → (run s i).pc i ≡ inside
        → (j : ℕ) → is_inside (s.pc j) ≡ false
    wins_alone (inl e) won j = ground (arith, inv.shut j)
    wins_alone (inr e) won j = ground (arith, inv.shut j)

    enters :
        (s.pc i ≡ lock_exchange) ⊎ (s.pc i ≡ try_exchange)
        → s.var_lock ≡ false
        → (run s i).pc i ≡ inside
    enters (inl e) free = ground arith
    enters (inr e) free = ground arith

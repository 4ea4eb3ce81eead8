-- ===== src/Common/Outcome.antt =====
-- The outcomes of running a piece of the program, and their sequencing.
-- `fault` is the use of a null, dangling or out-of-range pointer. `blocked` is a wait for a lock
-- that the caller itself holds. `spins` is a loop that has used up its fuel.
pub data Run {ℓ} (A : Type ℓ) : Type ℓ where
  ok : A → Run A
  fault : Run A
  blocked : Run A
  spins : Run A

infixl 5 ◌>>=◌ ◌>>◌
abbrev pub ◌>>=◌ {ℓ κ} : {A : Type ℓ} {B : Type κ} → Run A → (A → Run B) → Run B
ok a >>= f = f a
fault >>= f = fault
blocked >>= f = blocked
spins >>= f = spins

abbrev pub ◌>>◌ {ℓ κ} : {A : Type ℓ} {B : Type κ} → Run A → Run B → Run B
m >> k = m >>= λ _. k

-- ===== src/Common/Update.antt =====
-- A function from the natural numbers, such as an array or a memory, with one value changed.
use Prim.Native.Nat.{ℕ}
use mathlib.Core.Path.{◌≡◌}
use mathlib.Core.Logic.{◌≢◌}
use native.Mathlib.Omega.{arith}
use public_conc_exp.Common.Tests.{◌==◌, if◌then◌else◌}

abbrev pub update {ℓ} : {A : Type ℓ} → (ℕ → A) → ℕ → A → ℕ → A
update f i a j = if i == j then a else f j

module _ {ℓ} {A : Type ℓ} (f : ℕ → A) (i : ℕ) (a : A) where
  pub update_here : update f i a i ≡ a
  update_here = ground arith

  pub update_other : (j : ℕ) → j ≢ i → update f i a j ≡ f j
  update_other j ne = ground arith

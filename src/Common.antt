-- ===== src/Common.antt =====
-- The names that every other module shares: the libraries', passed on, and those of the children.
mod Tests
mod Lists
mod Update
mod Int
mod Outcome
pub use Tests.*
pub use Lists.*
pub use Update.*
pub use Int.*
pub use Outcome.*
pub use Prim.Native.Nat.{ℕ, zero, suc, ◌+◌, ◌-◌, ◌*◌, ◌/◌, ◌%◌, ◌^◌, ◌≤◌, ◌<◌}
pub use mathlib.Core.Path.{◌≡◌, refl, sym, ap, ◌∙◌, subst}
pub use mathlib.Core.Logic.{◌≢◌, ◌↔◌, ◌⊎◌, inl, inr}
pub use mathlib.Core.Bool.{Bool, true, false, ◌&&◌, ◌||◌, not}
pub use mathlib.Core.Option.{Option, none, some}
pub use mathlib.Core.List.{List, [], ◌∷◌, ◌++◌, map}
pub use native.Mathlib.Omega.{arith}

-- A result in the range of a 32-bit int that is not negative; beyond it the overflow is undefined.
abbrev pub as_int : ℕ → Run ℕ
as_int k = if ltb k (2 ^ 31) then ok k else fault

pub as_int_small : (k : ℕ) → k < 2 ^ 31 → as_int k ≡ ok k
as_int_small k lt = ground (arith, lt)

pub as_int_large : (k : ℕ) → 2 ^ 31 ≤ k → as_int k ≡ fault
as_int_large k le = ground (arith, le)

-- ===== src/ToggleBit.antt =====
-- The atomic array of bits by which threads announce requests, lib/DS/Sim/togglebit.hpp
-- (`ToggleBit_atomic`), one operation at a time. An index out of range is a `fault`.
pub mod Laws
mod Tests
use public_conc_exp.Common.{
  ℕ, zero, suc, ◌+◌, Bool, false, not, none, some, List, [], ◌∷◌, ℤ, pos, minus_one, Run, ok, fault,
  ◌>>=◌, get_elem?, set, if◌then◌else◌, ◌&&◌, ◌||◌,
}

pub record ToggleBit : Type 0 where
  pub bool_array : List Bool
  pub thread_num : ℕ

abbrev pub load : List Bool → ℕ → Run Bool
load bits i = elim (get_elem? bits i) [ none ↦ fault | some b ↦ ok b ]

abbrev pub store : List Bool → ℕ → Bool → Run (List Bool)
store bits i b = elim (get_elem? bits i) [ none ↦ fault | some c ↦ ok (set bits i b) ]

unfoldable pub toggle : ℕ → ToggleBit → Run ToggleBit
toggle index s = do
  b ← load s.bool_array index
  bits ← store s.bool_array index (not b)
  ok (record s { bool_array = bits })

-- The `for` of `resetAll`, with the rounds that are left.
unfoldable pub reset_loop : ℕ → ℕ → List Bool → Run (List Bool)
reset_loop zero i bits = ok bits
reset_loop (suc n) i bits = do bits' ← store bits i false; reset_loop n (i + 1) bits'

unfoldable pub reset_all : ToggleBit → Run ToggleBit
unfolding reset_loop
reset_all s = do bits ← reset_loop s.thread_num 0 s.bool_array; ok (record s { bool_array = bits })

unfoldable pub find_first_loop : ℕ → ℕ → List Bool → Run ℤ
find_first_loop zero i bits = ok minus_one
find_first_loop (suc n) i bits =
    let rest = find_first_loop n (i + 1) bits in do b ← load bits i; if b then ok (pos i) else rest

unfoldable pub find_first : ToggleBit → Run ℤ
unfolding find_first_loop
find_first s = find_first_loop s.thread_num 0 s.bool_array

abbrev pub differs : Bool → Bool → Bool
differs a b = (a && not b) || (not a && b)

unfoldable pub find_active_loop : ℕ → ℕ → List Bool → List Bool → Run (List ℕ)
find_active_loop zero i cur_status bits = ok []
find_active_loop (suc n) i cur_status bits = do
  c ← load cur_status i
  b ← load bits i
  rest ← find_active_loop n (i + 1) cur_status bits
  ok (if differs c b then i ∷ rest else rest)

-- `cur_status` is the caller's copy of the bits.
unfoldable pub find_active : List Bool → ToggleBit → Run (List ℕ)
unfolding find_active_loop
find_active cur_status s = find_active_loop s.thread_num 0 cur_status s.bool_array

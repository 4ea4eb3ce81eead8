-- ===== src/Rows.antt =====
-- Rows of nodes: an ascending list of addresses that a pointer in each node leads through. Shared by
-- the components whose nodes stand in memory.
pub mod Row
pub mod Change
pub mod Drop
pub mod Cut
use public_conc_exp.Common.{ℕ}

abbrev pub Ptr : Type 0
Ptr = ℕ

abbrev pub null : Ptr
null = 0

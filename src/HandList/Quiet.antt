-- ===== src/HandList/Quiet.antt =====
-- A list that no thread is at work on: every lock is free.
use public_conc_exp.Common.{List, map, ℤ}
use public_conc_exp.HandList.{HandList, new_node, unlocked}

-- The quiet list with these values.
abbrev pub quiet : List ℤ → HandList
quiet xs = unlocked (map new_node xs)

-- ===== src/HandList/Threads/Moves.antt =====
-- What one step does, whatever it is.
use public_conc_exp.Common.{List, ℤ}
use public_conc_exp.Rows.{Ptr}
use public_conc_exp.HandList.Threads.{
  Mem, Pc, idle, ins_list, ins_walk, ins_test, ins_lock, ins_release, ins_link, ins_store, rem_list,
  rem_head, rem_lock_head, rem_test_head, rem_release, rem_walk, rem_test, rem_lock, rem_lock_next,
  rem_skip, rem_store, rem_unlock_next, pop_list, pop_head, pop_lock, pop_skip, pop_store,
  pop_unlock_node, pop_unlock_list, pop_data, leave,
}
use public_conc_exp.HandList.Threads.Shape.{Shape}
use public_conc_exp.HandList.Threads.Local.{Given}
use public_conc_exp.HandList.Threads.Insert.{
  ins_list_Does, ins_walk_Does, ins_test_Does, ins_lock_Does, ins_release_Does, ins_link_Does,
  ins_store_Does,
}
use public_conc_exp.HandList.Threads.Remove.{
  rem_list_Does, rem_head_Does, rem_lock_head_Does, rem_test_head_Does, rem_release_Does,
  rem_walk_Does, rem_test_Does, rem_lock_Does, rem_lock_next_Does, rem_skip_Does, rem_store_Does,
  rem_unlock_next_Does,
}
use public_conc_exp.HandList.Threads.Pop.{
  pop_list_Does, pop_head_Does, pop_lock_Does, pop_skip_Does, pop_store_Does, pop_unlock_node_Does,
  pop_unlock_list_Does, pop_data_Does, leave_Does, idle_Does,
}

module _ (data_of : Ptr → ℤ) where
  pub act_Does :
      (m : Mem) (xs : List Ptr) (shape : Shape data_of m xs) (p : Pc) → Given data_of m xs p
  act_Does m xs shape idle = idle_Does data_of m xs shape
  act_Does m xs shape (ins_list v n) = ins_list_Does data_of m xs shape v n
  act_Does m xs shape (ins_walk v n c) = ins_walk_Does data_of m xs shape v n c
  act_Does m xs shape (ins_test v n c q) = ins_test_Does data_of m xs shape v n c q
  act_Does m xs shape (ins_lock v n c q) = ins_lock_Does data_of m xs shape v n c q
  act_Does m xs shape (ins_release v n c q) = ins_release_Does data_of m xs shape v n c q
  act_Does m xs shape (ins_link v n c q) = ins_link_Does data_of m xs shape v n c q
  act_Does m xs shape (ins_store v n c q) = ins_store_Does data_of m xs shape v n c q
  act_Does m xs shape (rem_list v) = rem_list_Does data_of m xs shape v
  act_Does m xs shape (rem_head v) = rem_head_Does data_of m xs shape v
  act_Does m xs shape (rem_lock_head v q) = rem_lock_head_Does data_of m xs shape v q
  act_Does m xs shape (rem_test_head v q) = rem_test_head_Does data_of m xs shape v q
  act_Does m xs shape (rem_release b v c q) = rem_release_Does data_of m xs shape b v c q
  act_Does m xs shape (rem_walk b v c) = rem_walk_Does data_of m xs shape b v c
  act_Does m xs shape (rem_test b v c q) = rem_test_Does data_of m xs shape b v c q
  act_Does m xs shape (rem_lock b v c q) = rem_lock_Does data_of m xs shape b v c q
  act_Does m xs shape (rem_lock_next v c q) = rem_lock_next_Does data_of m xs shape v c q
  act_Does m xs shape (rem_skip v c q) = rem_skip_Does data_of m xs shape v c q
  act_Does m xs shape (rem_store v c q r) = rem_store_Does data_of m xs shape v c q r
  act_Does m xs shape (rem_unlock_next v c q) = rem_unlock_next_Does data_of m xs shape v c q
  act_Does m xs shape pop_list = pop_list_Does data_of m xs shape
  act_Does m xs shape pop_head = pop_head_Does data_of m xs shape
  act_Does m xs shape (pop_lock q) = pop_lock_Does data_of m xs shape q
  act_Does m xs shape (pop_skip q) = pop_skip_Does data_of m xs shape q
  act_Does m xs shape (pop_store q r) = pop_store_Does data_of m xs shape q r
  act_Does m xs shape (pop_unlock_node q) = pop_unlock_node_Does data_of m xs shape q
  act_Does m xs shape (pop_unlock_list q) = pop_unlock_list_Does data_of m xs shape q
  act_Does m xs shape (pop_data q) = pop_data_Does data_of m xs shape q
  act_Does m xs shape (leave c reply) = leave_Does data_of m xs shape c reply

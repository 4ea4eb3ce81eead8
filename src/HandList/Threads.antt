-- ===== src/HandList/Threads.antt =====
-- `insert`, `remove` and `removeFirst` of the hand-over-hand list, lib/DS/SLLs/SLL_HOHL/SLL_HOHL.hpp
-- (`SLL_hand`), run by any number of threads. Each load, store, lock and unlock is a step of its own;
-- memory is sequentially consistent. `this->head` and `listLock` are the pointer and the lock of the
-- list itself, which stands at the address `list` as a node stands at its own: what `insert` does at
-- the head of the list is then what its loop does at a node. A pointer that the code reads again under
-- the lock that guards it is read once: so the second test of `head` in `removeFirst` never fails, and
-- the `return -1` behind it is not in the model. Nodes are never given back and their
-- `data` never changes, so each address has one value, `data_of`. The lock of a node that is not made
-- yet is free.
pub mod Shape
pub mod Local
pub mod Pop
pub mod Store
pub mod Insert
pub mod Remove
pub mod Moves
pub mod Served
pub mod Invariant
pub mod Steps
pub mod History
pub mod Progress
mod Tests
use public_conc_exp.Common.{
  update, ℕ, ◌≡◌, ◌≢◌, Bool, true, false, ◌&&◌, Option, none, some, ℤ, ltb_ℤ, ◌==ℤ◌, minus_one,
  ◌==◌, if◌then◌else◌, Run, ok, blocked,
}
use public_conc_exp.Rows.{Ptr, null}
use public_conc_exp.Spec.SetCalls.{SetRequest, insert, remove, remove_first}
use public_conc_exp.Spec.Calls.{Kind, start_call, decide, return_}
use public_conc_exp.Spec.Calls
use public_conc_exp.Spec.Requests.{Reply, done, got}

-- No node stands at null.
abbrev pub list : Ptr
list = null

-- The fields `nextNode` and `nodeLock`, and which nodes have been made.
pub record Mem : Type 0 where
  pub next_node : Ptr → Ptr
  pub node_lock : Ptr → Bool
  pub made : Ptr → Bool

-- Where a thread stands, with its locals: `n` is `newNode`, `c` is `current` (or the list) and `q` what
-- it leads to. `passed` says that the answer of `remove` was settled at the head.
pub data Pc : Type 0 where
  idle : Pc
  ins_list : ℤ → (n : Ptr) → Pc
  ins_walk : ℤ → (n c : Ptr) → Pc
  ins_test : ℤ → (n c q : Ptr) → Pc
  ins_lock : ℤ → (n c q : Ptr) → Pc
  ins_release : ℤ → (n c q : Ptr) → Pc
  ins_link : ℤ → (n c q : Ptr) → Pc
  ins_store : ℤ → (n c q : Ptr) → Pc
  rem_list : ℤ → Pc
  rem_head : ℤ → Pc
  rem_lock_head : ℤ → (q : Ptr) → Pc
  rem_test_head : ℤ → (q : Ptr) → Pc
  rem_release : (passed : Bool) → ℤ → (c q : Ptr) → Pc
  rem_walk : (passed : Bool) → ℤ → (c : Ptr) → Pc
  rem_test : (passed : Bool) → ℤ → (c q : Ptr) → Pc
  rem_lock : (passed : Bool) → ℤ → (c q : Ptr) → Pc
  rem_lock_next : ℤ → (c q : Ptr) → Pc
  rem_skip : ℤ → (c q : Ptr) → Pc
  rem_store : ℤ → (c q r : Ptr) → Pc
  rem_unlock_next : ℤ → (c q : Ptr) → Pc
  pop_list : Pc
  pop_head : Pc
  pop_lock : (q : Ptr) → Pc
  pop_skip : (q : Ptr) → Pc
  pop_store : (q r : Ptr) → Pc
  pop_unlock_node : (q : Ptr) → Pc
  pop_unlock_list : (q : Ptr) → Pc
  pop_data : (q : Ptr) → Pc
  leave : (c : Ptr) → Reply → Pc

-- What an observer sees of a step: the decision of a call, with its answer, and a return.
pub data Label : Type 0 where
  silent : Label
  inserted : ℤ → Bool → Label
  removed : ℤ → Bool → Label
  took : Option ℤ → Label
  returned : Reply → Label

-- The list with its threads.
pub record System : Type 0 where
  pub mem : Mem
  pub pc : ℕ → Pc

abbrev pub system : Mem → (ℕ → Pc) → System
system m f = record { mem = m; pc = f }

abbrev pub lock : Mem → Ptr → Mem
lock m c = record m { node_lock = update m.node_lock c true }

abbrev pub unlock : Mem → Ptr → Mem
unlock m c = record m { node_lock = update m.node_lock c false }

abbrev pub lead_to : Mem → (c q : Ptr) → Mem
lead_to m c q = record m { next_node = update m.next_node c q }

-- `lock()`: no step while another thread holds the lock.
abbrev pub acquire : Mem → Ptr → Pc → Run (Mem × Pc × Label)
acquire m c p = if m.node_lock c then blocked else ok (lock m c, p, silent)

-- The decision of `remove` that its value is missing, unless that was settled before.
abbrev pub missing : Bool → ℤ → Label
missing passed v = if passed then silent else removed v false

-- What a label says of the call.
abbrev pub kind : Label → Kind SetRequest
kind silent = Calls.silent
kind (inserted v b) = decide
kind (removed v b) = decide
kind (took o) = decide
kind (returned r) = return_ r

module _ (data_of : Ptr → ℤ) where
  -- The next step of a thread.
  unfoldable pub act : Mem → Pc → Run (Mem × Pc × Label)
  act m idle = ok (m, idle, silent)
  act m (ins_list v n) = acquire m list (ins_walk v n list)
  act m (ins_walk v n c) =
      if m.next_node c == null
      then ok (m, (if c == list then ins_store v n c null else ins_link v n c null), silent)
      else ok (m, ins_test v n c (m.next_node c), silent)
  act m (ins_test v n c q) =
      if ltb_ℤ (data_of q) v
      then ok (m, ins_lock v n c q, silent)
      else if data_of q ==ℤ v
      then ok (m, leave c (done false), inserted v false)
      else ok (m, ins_link v n c q, silent)
  act m (ins_lock v n c q) = acquire m q (ins_release v n c q)
  act m (ins_release v n c q) = ok (unlock m c, ins_walk v n q, silent)
  act m (ins_link v n c q) = ok (lead_to m n q, ins_store v n c q, silent)
  act m (ins_store v n c q) = ok (lead_to m c n, leave c (done true), inserted v true)
  act m (rem_list v) = acquire m list (rem_head v)
  act m (rem_head v) =
      if m.next_node list == null
      then ok (m, leave list (got minus_one), removed v false)
      else ok (m, rem_lock_head v (m.next_node list), silent)
  act m (rem_lock_head v q) = acquire m q (rem_test_head v q)
  act m (rem_test_head v q) =
      if data_of q ==ℤ v
      then ok (m, rem_skip v list q, silent)
      else if ltb_ℤ (data_of q) v
      then ok (m, rem_release false v list q, silent)
      else ok (m, rem_release true v list q, removed v false)
  act m (rem_release passed v c q) = ok (unlock m c, rem_walk passed v q, silent)
  act m (rem_walk passed v c) =
      if m.next_node c == null
      then ok (m, leave c (got minus_one), missing passed v)
      else ok (m, rem_test passed v c (m.next_node c), silent)
  act m (rem_test passed v c q) =
      if ltb_ℤ (data_of q) v
      then ok (m, rem_lock passed v c q, silent)
      else if data_of q ==ℤ v
      then ok (m, rem_lock_next v c q, silent)
      else ok (m, leave c (got minus_one), missing passed v)
  act m (rem_lock passed v c q) = acquire m q (rem_release passed v c q)
  act m (rem_lock_next v c q) = acquire m q (rem_skip v c q)
  act m (rem_skip v c q) = ok (m, rem_store v c q (m.next_node q), silent)
  act m (rem_store v c q r) = ok (lead_to m c r, rem_unlock_next v c q, removed v true)
  act m (rem_unlock_next v c q) = ok (unlock m q, leave c (got v), silent)
  act m pop_list = acquire m list pop_head
  act m pop_head =
      if m.next_node list == null
      then ok (m, leave list (got minus_one), took none)
      else ok (m, pop_lock (m.next_node list), silent)
  act m (pop_lock q) = acquire m q (pop_skip q)
  act m (pop_skip q) = ok (m, pop_store q (m.next_node q), silent)
  act m (pop_store q r) = ok (lead_to m list r, pop_unlock_node q, took (some (data_of q)))
  act m (pop_unlock_node q) = ok (unlock m q, pop_unlock_list q, silent)
  act m (pop_unlock_list q) = ok (unlock m list, pop_data q, silent)
  act m (pop_data q) = ok (m, idle, returned (got (data_of q)))
  act m (leave c reply) = ok (unlock m c, idle, returned reply)

  -- `new Node<T>(data)`, whose `nextNode` is what memory held (`junk`), stands before the first lock.
  pub data Step (junk : Ptr) (s : System) : ℕ × Kind SetRequest → System → Type 0 where
    work :
        (i : ℕ) {m : Mem} {p : Pc} {l : Label}
        → act s.mem (s.pc i) ≡ ok (m, p, l)
        → Step junk s (i, kind l) (system m (update s.pc i p))
    call_insert :
        (i : ℕ) (v : ℤ) (n : Ptr)
        → s.pc i ≡ idle
        → n ≢ null
        → s.mem.made n ≡ false
        → data_of n ≡ v
        → Step junk s
            (i, start_call (insert v))
            (system
              (record (lead_to s.mem n junk) { made = update s.mem.made n true })
              (update s.pc i (ins_list v n)))
    call_remove :
        (i : ℕ) (v : ℤ)
        → s.pc i ≡ idle
        → Step junk s (i, start_call (remove v)) (system s.mem (update s.pc i (rem_list v)))
    call_remove_first :
        (i : ℕ)
        → s.pc i ≡ idle
        → Step junk s (i, start_call remove_first) (system s.mem (update s.pc i pop_list))

-- The constructor; no thread has called anything. `junk` is what memory held before.
abbrev pub init : Ptr → System
init junk =
    system
      (record {
        next_node = update (λ p. junk) list null;
        node_lock = λ p. false;
        made = λ p. false;
      })
      (λ i. idle)

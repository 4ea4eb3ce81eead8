-- ===== src/LfStack.antt =====
-- The lock-free stack, lib/DS/Stacks/lfStack/lfstack.hpp (`Node`, `lfStack`), at T = int, run by any
-- number of threads. Each load, store and compare-and-swap on shared memory is a step of its own;
-- the memory is sequentially consistent. `BackoffDelay` only lets time pass, which is a schedule
-- that leaves the thread alone, so it is no step. Nodes are never given back by the code.
pub mod Chain
pub mod Local
pub mod Invariant
pub mod History
pub mod Sequential
pub mod Solo
pub mod Served
mod Tests
use public_conc_exp.Common.{
  update, ℕ, ◌≡◌, ◌≢◌, Bool, true, Option, none, some, ℤ, minus_one, ◌==◌, if◌then◌else◌, Run, ok,
  fault,
}
use public_conc_exp.Spec.Requests.{Request, add, remove, done, got}
use public_conc_exp.Spec.Calls.{Kind, start_call, decide, note, return_, finish}
use public_conc_exp.Spec.Calls

abbrev pub Ptr : Type 0
Ptr = ℕ

abbrev pub null : Ptr
null = 0

pub record Node : Type 0 where
  pub value : ℤ
  pub next : Ptr

abbrev pub node : ℤ → Ptr → Node
node v q = record { value = v; next = q }

-- The shared memory: the field `Top` and the heap.
pub record Mem : Type 0 where
  pub top : Ptr
  pub heap : Ptr → Option Node

-- Where a thread stands in `push` or `pop`, with its locals. `n` is `newnode`, `v` is `data`, `old`
-- is `old_Top`. The `v` of `pop_value` is a history variable: the value on top when the
-- compare-and-swap took the node.
pub data Pc : Type 0 where
  idle : Pc
  push_load : Ptr → ℤ → Pc
  push_link : Ptr → ℤ → Ptr → Pc
  push_cas : Ptr → ℤ → Ptr → Pc
  pop_load : Pc
  pop_test : Ptr → Pc
  pop_cas : Ptr → Ptr → Pc
  pop_value : Ptr → ℤ → Pc

-- What an observer of the abstract stack sees of a step, and what a finished `pop` hands back.
pub data Label : Type 0 where
  silent : Label
  pushed : Ptr → ℤ → Label
  popped : ℤ → Label
  saw_empty : Label
  returned : ℤ → Label

-- The next step of a thread inside `push` or `pop`. `fault` is a read or write through a pointer
-- to no node.
unfoldable pub act : Mem → Pc → Run (Mem × Pc × Label)
act m idle = ok (m, idle, silent)
act m (push_load n v) = ok (m, push_link n v m.top, silent)
act m (push_link n v old) = elim (m.heap n) [
  | none ↦ fault
  | some c ↦ ok (
    record m { heap = update m.heap n (some (record c { next = old })) },
    push_cas n v old,
    silent,
  )
]
act m (push_cas n v old) =
    if m.top == old
    then ok (record m { top = n }, idle, pushed n v)
    else ok (m, push_load n v, silent)
act m pop_load = ok (m, pop_test m.top, if m.top == null then saw_empty else silent)
act m (pop_test old) =
    if old == null
    then ok (m, idle, returned minus_one)
    else elim (m.heap old) [ none ↦ fault | some c ↦ ok (m, pop_cas old c.next, silent) ]
act m (pop_cas old next) =
    if m.top == old
    then (elim (m.heap old) [
      | none ↦ fault
      | some c ↦ ok (record m { top = next }, pop_value old c.value, popped c.value)
    ])
    else ok (m, pop_load, silent)
act m (pop_value old v) = elim (m.heap old) [
  | none ↦ fault
  | some c ↦ ok (m, idle, returned c.value)
]

-- The stack with its threads.
pub record System : Type 0 where
  pub mem : Mem
  pub pc : ℕ → Pc

abbrev pub system : Mem → (ℕ → Pc) → System
system m f = record { mem = m; pc = f }

-- What a label says of the call: a push takes effect and returns at once.
abbrev pub kind : Label → Kind Request
kind silent = Calls.silent
kind (pushed n v) = finish (done true)
kind (popped v) = decide
kind saw_empty = note
kind (returned v) = return_ (got v)

-- `call_push` is the entry of `push` with `new Node<T>(data)`: the allocator returns an address
-- that is not null and not in use, and the constructor leaves `next` as it finds it (`junk`).
pub data Step (s : System) : ℕ × Kind Request → System → Type 0 where
  work :
      (i : ℕ) {m : Mem} {p : Pc} {l : Label}
      → act s.mem (s.pc i) ≡ ok (m, p, l)
      → Step s (i, kind l) (system m (update s.pc i p))
  call_push :
      (i : ℕ) (v : ℤ) (n junk : Ptr)
      → s.pc i ≡ idle
      → n ≢ null
      → s.mem.heap n ≡ none
      → Step s
          (i, start_call (add v))
          (system
            (record { top = s.mem.top; heap = update s.mem.heap n (some (node v junk)) })
            (update s.pc i (push_load n v)))
  call_pop :
      (i : ℕ)
      → s.pc i ≡ idle
      → Step s (i, start_call remove) (system s.mem (update s.pc i pop_load))

-- The constructor: an empty stack; no thread has called anything.
abbrev pub init : System
init = system (record { top = null; heap = λ _. none }) (λ _. idle)

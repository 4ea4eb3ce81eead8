-- ===== src/MsQueue.antt =====
-- The Michael-Scott queue, lib/DS/Queues/Queue-Ms/queueMS.hpp (`Node`, `MsQueue`), at T = int, run
-- by any number of threads. Each load, store and compare-and-swap on shared memory is a step of its
-- own; the memory is sequentially consistent. Nodes are never given back by the code.
pub mod Chain
pub mod Local
pub mod Invariant
pub mod History
pub mod Sequential
pub mod Served
mod Tests
use public_conc_exp.Common.{
  true, update, ℕ, ◌≡◌, ◌≢◌, Option, none, some, ℤ, minus_one, ◌==◌, if◌then◌else◌, Run, ok, fault,
}
use public_conc_exp.Spec.Requests.{Request, add, remove, done, got}
use public_conc_exp.Spec.Calls.{Kind, start_call, note, return_, finish}
use public_conc_exp.Spec.Calls

abbrev pub Ptr : Type 0
Ptr = ℕ

abbrev pub null : Ptr
null = 0

pub record Node : Type 0 where
  pub item : ℤ
  pub next : Ptr

abbrev pub node : ℤ → Ptr → Node
node v q = record { item = v; next = q }

abbrev pub Heap : Type 0
Heap = Ptr → Option Node

-- The shared memory: the fields `head` and `tail`, and the heap.
pub record Mem : Type 0 where
  pub head : Ptr
  pub tail : Ptr
  pub heap : Heap

-- Where a thread stands in `enqueue` or `dequeue`, with its locals. `n` is `newnode`, `v` its data
-- or, in `deq_cas`, `ret_val`.
pub data Pc : Type 0 where
  idle : Pc
  enq_last : Ptr → ℤ → Pc
  enq_next : Ptr → ℤ → Ptr → Pc
  enq_check : Ptr → ℤ → (last next : Ptr) → Pc
  enq_link : Ptr → ℤ → (last : Ptr) → Pc
  enq_help : Ptr → ℤ → (last next : Ptr) → Pc
  deq_first : Pc
  deq_last : Ptr → Pc
  deq_next : (first last : Ptr) → Pc
  deq_check : (first last next : Ptr) → Pc
  deq_help : (last next : Ptr) → Pc
  deq_value : (first next : Ptr) → Pc
  deq_cas : (first next : Ptr) → ℤ → Pc

-- What an observer of the abstract queue sees of a step: a linked node, a node taken with the value
-- that `dequeue` then returns, an empty queue, and the return of -1 for it.
pub data Label : Type 0 where
  silent : Label
  enqueued : ℤ → Label
  dequeued : ℤ → Label
  saw_empty : Label
  returned_empty : Label

-- The next step of a thread inside `enqueue` or `dequeue`. `fault` is a read or write through a
-- pointer to no node.
unfoldable pub act : Mem → Pc → Run (Mem × Pc × Label)
act m idle = ok (m, idle, silent)
act m (enq_last n v) = ok (m, enq_next n v m.tail, silent)
act m (enq_next n v last) = elim (m.heap last) [
  | none ↦ fault
  | some c ↦ ok (m, enq_check n v last c.next, silent)
]
act m (enq_check n v last next) =
    if last == m.tail
    then (if next == null
        then ok (m, enq_link n v last, silent)
        else ok (m, enq_help n v last next, silent))
    else ok (m, enq_last n v, silent)
act m (enq_link n v last) = elim (m.heap last) [
  | none ↦ fault
  | some c ↦
      if c.next == null
      then ok
          (record m { heap = update m.heap last (some (record c { next = n })) }, idle, enqueued v)
      else ok (m, enq_last n v, silent)
]
act m (enq_help n v last next) =
    if m.tail == last
    then ok (record m { tail = next }, enq_last n v, silent)
    else ok (m, enq_last n v, silent)
act m deq_first = ok (m, deq_last m.head, silent)
act m (deq_last first) = ok (m, deq_next first m.tail, silent)
act m (deq_next first last) = elim (m.heap first) [
  | none ↦ fault
  | some c ↦ ok (m, deq_check first last c.next, if c.next == null then saw_empty else silent)
]
act m (deq_check first last next) =
    if first == m.head
    then (if first == last
        then (if next == null
            then ok (m, idle, returned_empty)
            else ok (m, deq_help last next, silent))
        else ok (m, deq_value first next, silent))
    else ok (m, deq_first, silent)
act m (deq_help last next) =
    if m.tail == last
    then ok (record m { tail = next }, deq_first, silent)
    else ok (m, deq_first, silent)
act m (deq_value first next) = elim (m.heap next) [
  | none ↦ fault
  | some c ↦ ok (m, deq_cas first next c.item, silent)
]
act m (deq_cas first next v) =
    if m.head == first
    then ok (record m { head = next }, idle, dequeued v)
    else ok (m, deq_first, silent)

-- The queue with its threads.
pub record System : Type 0 where
  pub mem : Mem
  pub pc : ℕ → Pc

abbrev pub system : Mem → (ℕ → Pc) → System
system m f = record { mem = m; pc = f }

-- What a label says of the call: a linked node and a moved `head` are followed by the return at once.
abbrev pub kind : Label → Kind Request
kind silent = Calls.silent
kind (enqueued v) = finish (done true)
kind (dequeued v) = finish (got v)
kind saw_empty = note
kind returned_empty = return_ (got minus_one)

-- `call_enqueue` is the entry of `enqueue` with `new Node<T>(data)`: the allocator returns an
-- address that is not null and not in use.
pub data Step (s : System) : ℕ × Kind Request → System → Type 0 where
  work :
      (i : ℕ) {m : Mem} {p : Pc} {l : Label}
      → act s.mem (s.pc i) ≡ ok (m, p, l)
      → Step s (i, kind l) (system m (update s.pc i p))
  call_enqueue :
      (i : ℕ) (v : ℤ) (n : Ptr)
      → s.pc i ≡ idle
      → n ≢ null
      → s.mem.heap n ≡ none
      → Step s
          (i, start_call (add v))
          (system
            (record s.mem { heap = update s.mem.heap n (some (node v null)) })
            (update s.pc i (enq_last n v)))
  call_dequeue :
      (i : ℕ)
      → s.pc i ≡ idle
      → Step s (i, start_call remove) (system s.mem (update s.pc i deq_first))

-- The constructor, with the address of its first node; no thread has called anything.
abbrev pub init : Ptr → System
init d =
    system (record { head = d; tail = d; heap = update (λ _. none) d (some (node minus_one null)) })
      (λ _. idle)

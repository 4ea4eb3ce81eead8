-- ===== src/FcQueue.antt =====
-- The queue under the flat-combining queue, lib/DS/FC/fcQueue/fcqueue.hpp (`Node`, `FcQueueStruct`,
-- `serialEnqueue`, `serialDequeue`, `size`): the operations that a combiner runs, on the heap. The
-- allocator is a parameter: `serial_enqueue` is given the address of its new node. Nodes are never
-- given back by the code.
pub mod Path
pub mod Laws
mod Tests
use public_conc_exp.Common.{
  ℕ, zero, suc, ◌+◌, true, false, ◌&&◌, Option, none, some, ℤ, pos, minus_one, ◌==◌, if◌then◌else◌,
  Run, ok, fault, spins,
}

abbrev pub Ptr : Type 0
Ptr = ℕ

abbrev pub null : Ptr
null = 0

pub record Node : Type 0 where
  pub value : ℤ
  pub next : Ptr

abbrev pub node : ℤ → Ptr → Node
node val q = record { value = val; next = q }

abbrev pub Heap : Type 0
Heap = Ptr → Option Node

abbrev pub update : Heap → Ptr → Node → Heap
update h p c q = if p == q then some c else h q

-- The fields `first` and `last`, and the memory.
pub record FcQueueStruct : Type 0 where
  pub first : Ptr
  pub last : Ptr
  pub heap : Heap

-- The constructor.
abbrev pub new_struct : Heap → FcQueueStruct
new_struct h = record { first = null; last = null; heap = h }

-- `this->S->last->next = newNode; this->S->last = newNode`
unfoldable pub append_node : Ptr → FcQueueStruct → Run (FcQueueStruct × ℤ)
append_node new_ s = elim (s.heap s.last) [
  | none ↦ fault
  | some c ↦
      ok (record s { heap = update s.heap s.last (record c { next = new_ }); last = new_ }, pos 0)
]

unfoldable pub serial_enqueue : Ptr → ℤ → FcQueueStruct → Run (FcQueueStruct × ℤ)
unfolding append_node
serial_enqueue new_ value s =
    let s1 = record s { heap = update s.heap new_ (node value null) } in
    if (s.last == null) && (s.first == null)
    then append_node new_ (record s1 { first = new_; last = new_ })
    else append_node new_ s1

unfoldable pub serial_dequeue : FcQueueStruct → Run (FcQueueStruct × ℤ)
serial_dequeue s =
    if (s.first == s.last) && (s.first == null)
    then ok (s, minus_one)
    else if s.first == s.last
    then elim (s.heap s.first) [
      | none ↦ fault
      | some ret ↦ ok (record s { first = null; last = null }, ret.value)
    ]
    else elim (s.heap s.first) [
      | none ↦ fault
      | some ret ↦ ok (record s { first = ret.next }, ret.value)
    ]

-- The `for` of `size`, on fuel.
unfoldable pub size_from : ℕ → Heap → ℕ → Ptr → Run ℕ
size_from zero h count cur = spins
size_from (suc fuel) h count cur = elim (cur == null) [
  | true ↦ ok count
  | false ↦ elim (h cur) [ none ↦ fault | some c ↦ size_from fuel h (count + 1) c.next ]
]

unfoldable pub size : ℕ → FcQueueStruct → Run ℕ
unfolding size_from
size fuel s = size_from fuel s.heap 0 s.first

-- ===== src/LfQueue.antt =====
-- The bounded lock-free queue, lib/DS/Queues/QueueLF/QueueLf.hpp (`LockFreeQueueCpp11`), at T = int,
-- run by any number of threads. Each load, store and compare-and-swap on shared memory is a step of
-- its own; the memory is sequentially consistent. The constructor rounds the capacity up to a power
-- of two, so that `& _capacityMask` is the remainder of the division by it. `_head`, `_tail` and
-- the stamps of the slots are size_t, and wrap around at 2 ^ 64.
pub mod Ring
pub mod Served
pub mod Frame
pub mod Local
pub mod Invariant
pub mod History
pub mod Refusal
mod Tests
use public_conc_exp.Common.{
  update, ℕ, ◌+◌, ◌-◌, ◌%◌, ◌^◌, ◌≡◌, Bool, false, true, Option, none, some, ℤ, ◌==◌, if◌then◌else◌,
}
use public_conc_exp.Spec.Requests.{Request, add, remove, done}
use public_conc_exp.Spec.Calls.{Kind, start_call, decide, return_, refuse}
use public_conc_exp.Spec.Calls

-- A slot of the array: `head` is `none` for the -1 that the constructor stores, which is 2 ^ 64 - 1.
pub record Node : Type 0 where
  pub item : ℤ
  pub tail : ℕ
  pub head : Option ℕ

-- The shared memory: `_head`, `_tail` and `_queue`.
pub record Mem : Type 0 where
  pub head : ℕ
  pub tail : ℕ
  pub queue : ℕ → Node

-- Where a thread stands in `enqueue` or `dequeue`, with its locals.
pub data Pc : Type 0 where
  idle : Pc
  enq_load : ℤ → Pc
  enq_test : ℤ → (tail : ℕ) → Pc
  enq_cas : ℤ → (tail : ℕ) → Pc
  enq_item : ℤ → (tail : ℕ) → Pc
  enq_publish : (tail : ℕ) → Pc
  deq_load : Pc
  deq_test : (head : ℕ) → Pc
  deq_cas : (head : ℕ) → Pc
  deq_release : (head : ℕ) → Pc

-- What a step is for its call: a place in the queue taken for a value, the first value given up, the
-- return behind one of these, or the return without them.
pub data Label : Type 0 where
  silent : Label
  enqueued : ℤ → Label
  dequeued : Label
  returned : Bool → Label
  refused : Bool → Label

-- What a label says of the call.
abbrev pub kind : Label → Kind Request
kind silent = Calls.silent
kind (enqueued v) = decide
kind dequeued = decide
kind (returned b) = return_ (done b)
kind (refused b) = refuse (done b)

abbrev pub holds : Option ℕ → ℕ → Bool
holds none h = 2 ^ 64 - 1 == h
holds (some k) h = k == h

-- The queue with its threads.
pub record System : Type 0 where
  pub mem : Mem
  pub pc : ℕ → Pc

abbrev pub system : Mem → (ℕ → Pc) → System
system m f = record { mem = m; pc = f }

module _ (capacity : ℕ) where
  abbrev pub write : (ℕ → Node) → ℕ → Node → ℕ → Node
  write queue i c = update queue (i % capacity) c

  -- The next step of a thread. A compare-and-swap that fails loads the counter anew.
  unfoldable pub act : Mem → Pc → Mem × Pc × Label
  act m idle = (m, idle, silent)
  act m (enq_load v) = (m, enq_test v m.tail, silent)
  act m (enq_test v tail) =
      if (m.queue (tail % capacity)).tail == tail
      then (m, enq_cas v tail, silent)
      else (m, idle, refused false)
  act m (enq_cas v tail) =
      if m.tail == tail
      then (record m { tail = (tail + 1) % 2 ^ 64 }, enq_item v tail, enqueued v)
      else (m, enq_test v m.tail, silent)
  act m (enq_item v tail) = (
    record m { queue = write m.queue tail (record (m.queue (tail % capacity)) { item = v }) },
    enq_publish tail,
    silent,
  )
  act m (enq_publish tail) = (
    record m {
      queue = write m.queue tail (record (m.queue (tail % capacity)) { head = some tail });
    },
    idle,
    returned true,
  )
  act m deq_load = (m, deq_test m.head, silent)
  act m (deq_test head) =
      if holds (m.queue (head % capacity)).head head
      then (m, deq_cas head, silent)
      else (m, idle, refused false)
  act m (deq_cas head) =
      if m.head == head
      then (record m { head = (head + 1) % 2 ^ 64 }, deq_release head, dequeued)
      else (m, deq_test m.head, silent)
  act m (deq_release head) = (
    record m {
      queue =
          write m.queue head
            (record (m.queue (head % capacity)) { tail = (head + capacity) % 2 ^ 64 });
    },
    idle,
    returned true,
  )

  -- `spurious` is a weak compare-and-swap that fails although the values agree.
  pub data Step (s : System) : ℕ × Kind Request → System → Type 0 where
    work :
        (i : ℕ) {m : Mem} {p : Pc} {l : Label}
        → act s.mem (s.pc i) ≡ (m, p, l)
        → Step s (i, kind l) (system m (update s.pc i p))
    spurious_enqueue :
        (i : ℕ) (v : ℤ) (tail : ℕ)
        → s.pc i ≡ enq_cas v tail
        → Step s (i, Calls.silent) (system s.mem (update s.pc i (enq_test v s.mem.tail)))
    spurious_dequeue :
        (i head : ℕ)
        → s.pc i ≡ deq_cas head
        → Step s (i, Calls.silent) (system s.mem (update s.pc i (deq_test s.mem.head)))
    call_enqueue :
        (i : ℕ) (v : ℤ)
        → s.pc i ≡ idle
        → Step s (i, start_call (add v)) (system s.mem (update s.pc i (enq_load v)))
    call_dequeue :
        (i : ℕ)
        → s.pc i ≡ idle
        → Step s (i, start_call remove) (system s.mem (update s.pc i deq_load))

-- The constructor; no thread has called anything. The items are what memory held (`junk`).
abbrev pub init : (ℕ → ℤ) → System
init junk =
    system
      (record { head = 0; tail = 0; queue = λ i. record { item = junk i; tail = i; head = none } })
      (λ _. idle)

-- ===== src/LfQueue/Served.antt =====
-- The steps of the bounded lock-free queue as steps of calls of a queue that may refuse.
use public_conc_exp.Common.{
  ℕ, ◌≡◌, ◌%◌, Option, true, false, none, some, List, [], ◌∷◌, ◌++◌, arith, ℤ, ltb, length,
  if◌then◌else◌, inl, inr, Bool-cases, ◌==◌,
}
use public_conc_exp.Spec.Requests.{Request, add, remove, Reply, done}
use public_conc_exp.Spec.Calls.{Call, free, waiting, decided, advance, Object}
use public_conc_exp.LfQueue.{
  Mem, Pc, idle, enq_load, enq_test, enq_cas, enq_item, enq_publish, deq_load, deq_test, deq_cas,
  deq_release, Label, enqueued, dequeued, kind, holds, act,
}
use public_conc_exp.LfQueue.Ring.{spec}

-- Whether there is room, or a value; a call that takes effect returns true. Any call may be refused: it
-- returns false and has no effect.
unfoldable pub ring_step : ℕ → Request → List ℤ → Option (List ℤ × Reply)
ring_step capacity (add v) xs =
    if ltb (length xs) capacity then some (xs ++ v ∷ [], done true) else none
ring_step capacity remove [] = none
ring_step capacity remove (x ∷ xs) = some (xs, done true)

abbrev pub ring : ℕ → Object Request (List ℤ)
ring capacity = record { step = ring_step capacity; peek = λ q xs. some (done false) }

-- The call of a thread that stands at a place.
abbrev pub status : Pc → Call Request
status idle = free
status (enq_load v) = waiting (add v)
status (enq_test v t) = waiting (add v)
status (enq_cas v t) = waiting (add v)
status (enq_item v t) = decided (done true)
status (enq_publish t) = decided (done true)
status deq_load = waiting remove
status (deq_test h) = waiting remove
status (deq_cas h) = waiting remove
status (deq_release h) = decided (done true)

module _ (capacity : ℕ) where
  abbrev pub Advances : Call Request → Mem × Pc × Label → Type 0
  Advances c (m', p', l) =
      (xs xs' : List ℤ)
      → spec capacity l xs ≡ some xs'
      → advance (ring capacity) (kind l) c xs ≡ some (status p', xs')

  enqueued-decide :
      (v : ℤ) (t : ℕ) (m : Mem) → Advances (waiting (add v)) (m, enq_item v t, enqueued v)
  unfolding spec advance ring_step
  enqueued-decide v t m xs xs' e = ground (arith, e)

  dequeued-decide : (t : ℕ) (m : Mem) → Advances (waiting remove) (m, deq_release t, dequeued)
  unfolding spec advance ring_step
  dequeued-decide t m [] xs' e = absurd (ground (arith, e))
  dequeued-decide t m (x ∷ xs) xs' e = ground (arith, e)

  pub act-Advances : (m : Mem) (p : Pc) → Advances (status p) (act capacity m p)
  unfolding act spec advance
  act-Advances m idle = λ xs xs' e. ground (arith, e)
  act-Advances m (enq_load v) = λ xs xs' e. ground (arith, e)
  act-Advances m (enq_test v t) = elim (Bool-cases ((m.queue (t % capacity)).tail == t)) [
    | inl e ↦ rw (e, Advances) (λ xs xs' e'. ground (arith, e'))
    | inr e ↦ rw (e, Advances) (λ xs xs' e'. ground (arith, e'))
  ]
  act-Advances m (enq_cas v t) = elim (Bool-cases (m.tail == t)) [
    | inl e ↦ rw (e, Advances) (enqueued-decide v t m)
    | inr e ↦ rw (e, Advances) (λ xs xs' e'. ground (arith, e'))
  ]
  act-Advances m (enq_item v t) = λ xs xs' e. ground (arith, e)
  act-Advances m (enq_publish t) = λ xs xs' e. ground (arith, e)
  act-Advances m deq_load = λ xs xs' e. ground (arith, e)
  act-Advances m (deq_test h) = elim (Bool-cases (holds (m.queue (h % capacity)).head h)) [
    | inl e ↦ rw (e, Advances) (λ xs xs' e'. ground (arith, e'))
    | inr e ↦ rw (e, Advances) (λ xs xs' e'. ground (arith, e'))
  ]
  act-Advances m (deq_cas h) = elim (Bool-cases (m.head == h)) [
    | inl e ↦ rw (e, Advances) (dequeued-decide h m)
    | inr e ↦ rw (e, Advances) (λ xs xs' e'. ground (arith, e'))
  ]
  act-Advances m (deq_release h) = λ xs xs' e. ground (arith, e)

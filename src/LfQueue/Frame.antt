-- ===== src/LfQueue/Frame.antt =====
-- What the steps of one thread leave true of the locals of another.
use public_conc_exp.Common.{update, ℕ, ◌+◌, ◌≤◌, ◌≡◌, ◌≢◌, some, arith, ℤ}
use public_conc_exp.LfQueue.{
  Node, Mem, Pc, enq_cas, enq_item, enq_publish, deq_test, deq_cas, deq_release,
}
use public_conc_exp.LfQueue.Ring.{Line, ticket, slot, written, Fits}

module _ (capacity : ℕ) (m : Mem) (g : Line) where
  -- A ticket is taken at the end.
  pub Fits-enqueue :
      (v : ℤ) (q : Pc)
      → Fits capacity m g q
      → Fits capacity
          (record m { tail = g.last + 1 })
          (record g { value = update g.value g.last v; last = g.last + 1 })
          q
  Fits-enqueue v (enq_cas w t) f = f
  Fits-enqueue v (enq_item w t) f = ground arith
  Fits-enqueue v (enq_publish t) f = ground arith
  Fits-enqueue v (deq_test t) f = f
  Fits-enqueue v (deq_cas t) f = f
  Fits-enqueue v (deq_release t) f = f
  Fits-enqueue v q f = tt

  -- The first ticket is given up; it has been published.
  pub Fits-dequeue :
      (q : Pc)
      → (slot capacity m g.first).head ≡ some g.first
      → Fits capacity m g q
      → Fits capacity (record m { head = g.first + 1 }) (record g { first = g.first + 1 }) q
  Fits-dequeue (enq_cas w t) e f = f
  Fits-dequeue (enq_item w t) e f = ground arith
  Fits-dequeue (enq_publish t) e f = ground arith
  Fits-dequeue (deq_test t) e f = omega arith
  Fits-dequeue (deq_cas t) e (le, f) = (omega arith, λ h. absurd (omega arith))
  Fits-dequeue (deq_release t) e f = ground arith
  Fits-dequeue q e f = tt

  -- The slot of the ticket `u` is written by its owner: the new slot keeps or raises `tail`.
  module _ (u : ℕ) (c : Node) (owner : (slot capacity m u).tail ≡ u) where
    -- The ticket of another thread has another slot.
    apart :
        (t : ℕ)
        → (slot capacity m t).tail ≡ t
        → t ≢ u
        → slot capacity (written capacity m u c) t ≡ (slot capacity m t)
    apart t e ne = ground arith

    pub Fits-write :
        (q : Pc)
        → (slot capacity m u).tail ≤ c.tail
        → ((h : ℕ)
            → h ≡ g.first
            → (slot capacity m h).tail ≡ h
            → (slot capacity m h).head ≡ some h
            → h ≢ u)
        → (ticket q ≢ some u)
        → Fits capacity m g q
        → Fits capacity (written capacity m u c) g q
    Fits-write (enq_cas w t) grows other ne f = ground arith
    Fits-write (enq_item w t) grows other ne f = ground (arith, apart t)
    Fits-write (enq_publish t) grows other ne f = ground (arith, apart t)
    Fits-write (deq_test t) grows other ne f = f
    Fits-write (deq_cas t) grows other ne (le, f) =
        (le, λ h. ground (arith, f h, apart t, other t h))
    Fits-write (deq_release t) grows other ne f = ground (arith, apart t)
    Fits-write q grows other ne f = tt

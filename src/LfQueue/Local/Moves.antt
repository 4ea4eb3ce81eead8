-- ===== src/LfQueue/Local/Moves.antt =====
-- Every step of a thread of the bounded lock-free queue keeps its promises.
use public_conc_exp.Common.{
  ℕ, ◌+◌, ◌-◌, ◌^◌, ◌≤◌, ◌<◌, ◌≡◌, refl, sym, inl, inr, true, false, Option, none, some, arith,
  ◌==◌, Bool-cases, subst,
}
use native.Mathlib.Nat.{mod-eq_of_lt}
use public_conc_exp.LfQueue.{
  Mem, Pc, idle, enq_load, enq_test, enq_cas, enq_item, enq_publish, deq_load, deq_test, deq_cas,
  deq_release, silent, enqueued, dequeued, refused, holds, act,
}
use public_conc_exp.LfQueue.Ring.{Line, spec, slot, Shape, Fits}
use public_conc_exp.LfQueue.Local.{Does, at_slot, stay, enqueue_Done, dequeue_Done}
use public_conc_exp.LfQueue.Local.Writes.{item_Does, publish_Does, release_Does}

pub holds-some : (o : Option ℕ) (h : ℕ) → h < 2 ^ 64 - 1 → holds o h ≡ true → o ≡ some h
holds-some none h lt e = absurd (ground (arith, lt))
holds-some (some k) h lt e = ground arith

module _ (capacity : ℕ) (room : 0 < capacity) where
  module _ (m : Mem) (g : Line) (shape : Shape capacity m g)
      (small : g.last + capacity < 2 ^ 64 - 1) where
    open shape use {head, tail, ordered, bounded, turned}

    -- A slot that shows the first ticket is at this ticket.
    published :
        (h : ℕ)
        → (slot capacity m h).head ≡ some h
        → h ≡ g.first
        → ((slot capacity m h).tail ≡ h) × ((slot capacity m h).head ≡ some h)
    published h shown e =
        let s = at_slot capacity room m g shape h in
        (
          elim (s.stamped h shown) [
            | inl same ↦ sym same
            | inr before ↦ absurd (omega (arith, before, s.high, e))
          ],
          shown,
        )

    -- Every step of a thread whose locals fit keeps its promises.
    pub act-Does : (p : Pc) → Fits capacity m g p → Does capacity room m g p (act capacity m p)
    unfolding act spec
    act-Does idle f = stay capacity room m g shape idle idle silent refl tt refl refl
    act-Does (enq_load v) f = stay capacity room m g shape _ _ silent refl tt refl refl
    act-Does (enq_test v t) f = elim (Bool-cases ((slot capacity m t).tail == t)) [
      | inl e ↦ rw (e, Does) (stay capacity room m g shape _ _ silent refl (ground arith) refl refl)
      | inr e ↦ rw (e, Does) (stay capacity room m g shape _ _ (refused false) refl tt refl refl)
    ]
    act-Does (enq_cas v t) f = elim (Bool-cases (m.tail == t)) [
      | inl e ↦
          let at_end : g.last ≡ t = ground (arith, tail) in
          rw (e, mod-eq_of_lt {n = t + 1} {m = 2 ^ 64} (omega (arith, at_end, small)), Does)
            (subst
              (λ k.
                Does capacity room m g (enq_cas v k)
                  (record m { tail = k + 1 }, enq_item v k, enqueued v))
              at_end
              (enqueue_Done capacity room m g shape v
                (subst (λ k. k ≤ (slot capacity m k).tail) (sym at_end) f)))
      | inr e ↦ rw (e, Does) (stay capacity room m g shape _ _ silent refl tt refl refl)
    ]
    act-Does (enq_item v u) f = item_Does capacity room m g shape small v u f
    act-Does (enq_publish u) f = publish_Does capacity room m g shape small u f
    act-Does deq_load f =
        stay capacity room m g shape _ _ silent refl (omega (arith, head)) refl refl
    act-Does (deq_test h) f = elim (Bool-cases (holds (slot capacity m h).head h)) [
      | inl e ↦
          rw (e, Does)
            (stay capacity room m g shape _ _ silent refl
              (f, λ e'. published h (holds-some _ h (omega (arith, f, small, ordered)) e) e') refl
              refl)
      | inr e ↦ rw (e, Does) (stay capacity room m g shape _ _ (refused false) refl tt refl refl)
    ]
    act-Does (deq_cas h) (le, f) = elim (Bool-cases (m.head == h)) [
      | inl e ↦
          let at_front : g.first ≡ h = ground (arith, head) in
          rw
            (
              e,
              mod-eq_of_lt {n = h + 1} {m = 2 ^ 64} (omega (arith, at_front, small, ordered)),
              Does,
            )
            (subst
              (λ k.
                Does capacity room m g (deq_cas k)
                  (record m { head = k + 1 }, deq_release k, dequeued))
              at_front
              (dequeue_Done capacity room m g shape (
                subst (λ k. ((slot capacity m k).tail ≡ k) × ((slot capacity m k).head ≡ some k))
                  (sym at_front) (f (sym at_front)))))
      | inr e ↦
          rw (e, Does)
            (stay capacity room m g shape _ _ silent refl (omega (arith, head)) refl refl)
    ]
    act-Does (deq_release h) f = release_Does capacity room m g shape small h f

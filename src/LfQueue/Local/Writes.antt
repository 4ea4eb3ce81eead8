-- ===== src/LfQueue/Local/Writes.antt =====
-- The three stores to a slot keep the promises of their threads.
use public_conc_exp.Common.{
  ℕ, ◌+◌, ◌-◌, ◌%◌, ◌^◌, ◌≤◌, ◌<◌, ◌≡◌, ◌≢◌, refl, sym, ap, ◌∙◌, ◌⊎◌, inl, inr, true, some, arith,
  ℤ, ◌==◌, Bool-cases, subst,
}
use native.Mathlib.Nat.{mod-eq_of_lt}
use public_conc_exp.LfQueue.{
  Node, Mem, Pc, idle, enq_item, enq_publish, deq_release, Label, silent, returned, act,
}
use public_conc_exp.LfQueue.Ring.{
  same_ticket, next_turn, Line, contents, ticket, spec, slot, IsOpen, IsTurned, Shape, Fits,
  written,
}
use public_conc_exp.LfQueue.Frame.{Fits-write}
use public_conc_exp.LfQueue.Local.{Done, Does, at_slot}

module _ (capacity : ℕ) (room : 0 < capacity) where
  module _ (m : Mem) (g : Line) (shape : Shape capacity m g)
      (small : g.last + capacity < 2 ^ 64 - 1) where
    open shape use {head, tail, ordered, bounded, turned}

    -- What the slot of a ticket is after a write to that of the ticket `u`.
    written-slot :
        (u : ℕ) (c : Node) (t : ℕ)
        → ((u % capacity ≡ t % capacity)
            × (slot capacity (written capacity m u c) t ≡ c)
            × (slot capacity m t ≡ slot capacity m u))
          ⊎ ((u ≢ t) × (slot capacity (written capacity m u c) t ≡ slot capacity m t))
    written-slot u c t = elim (Bool-cases (u % capacity == t % capacity)) [
      | inl e ↦
          let same : u % capacity ≡ t % capacity = ground arith in
          inl (same, ground arith, ap m.queue (sym same))
      | inr e ↦ inr (λ e'. ground arith, ground arith)
    ]

    -- Another slot is as open as before.
    other_slot :
        (u : ℕ) (c : Node) (t : ℕ)
        → slot capacity (written capacity m u c) t ≡ slot capacity m t
        → IsOpen capacity (written capacity m u c) g t
        → IsOpen capacity m g t
    other_slot u c t kept (inl (at, low)) = inl (sym (ap (λ d. d.tail) kept) ∙ at, low)
    other_slot u c t kept (inr (ge, lt, ne)) = inr (ge, lt, λ e. ne (ap (λ d. d.head) kept ∙ e))

    -- Two tickets in the queue that meet in a slot are the same.
    same_window :
        (u t : ℕ)
        → g.first ≤ u
        → u < g.last
        → g.first ≤ t
        → t < g.last
        → u % capacity ≡ t % capacity
        → u ≡ t
    same_window u t ge lt ge' lt' same =
        ground (
          arith,
          same_ticket u t capacity,
          same_ticket t u capacity,
          bounded,
          ge,
          lt,
          ge',
          lt',
          same,
        )

    -- The three writes to the slot of the ticket `u`.
    write_Shape :
        (u : ℕ) (c : Node)
        → IsTurned capacity g (u % capacity) c
        → Shape capacity (written capacity m u c) g
    write_Shape u c new_ = record {
      head = head;
      tail = tail;
      ordered = ordered;
      bounded = bounded;
      turned = λ j lt. elim (Bool-cases (u % capacity == j)) [
        | inl e ↦ rw e (subst (λ k. IsTurned capacity g k c) (ground arith) new_)
        | inr e ↦ rw e (turned j lt)
      ];
    }

    -- A write to the slot of its own ticket, after which the thread stands at `p'`.
    write_Done :
        (p p' : Pc) (u : ℕ) (c : Node) (l : Label)
        → ticket p ≡ some u
        → (slot capacity m u).tail ≡ u
        → (slot capacity m u).tail ≤ c.tail
        → (g.first ≡ u → (slot capacity m u).head ≢ some u)
        → spec capacity l (contents g) ≡ some (contents g)
        → IsTurned capacity g (u % capacity) c
        → Fits capacity (written capacity m u c) g p'
        → ((t : ℕ) → ticket p' ≡ some t → ticket p ≡ some t)
        → ((t : ℕ)
            → IsOpen capacity (written capacity m u c) g t
            → (ticket p' ≡ some t) ⊎ (IsOpen capacity m g t × (ticket p ≢ some t)))
        → (g' : Line) × Done capacity room m g p (written capacity m u c) p' l g'
    write_Done p p' u c l mine own grows unread accepted new_ fits keeps opens = (
      g,
      record {
        shape = write_Shape u c new_;
        fits = fits;
        counted = omega arith;
        accepted = accepted;
        others = λ q f apart.
            Fits-write capacity m g u c own q grows
              (λ h e at published same.
                unread (sym e ∙ same)
                  (subst (λ k. (slot capacity m k).head ≡ some k) same published))
              (apart u mine) f;
        opens = opens;
        keeps = λ t e. inl (keeps t e);
      },
    )

    pub item_Does :
        (v : ℤ) (u : ℕ)
        → Fits capacity m g (enq_item v u)
        → Does capacity room m g (enq_item v u) (act capacity m (enq_item v u))
    unfolding act spec
    item_Does v u (ge, lt, own, unpublished, is) =
        let s = at_slot capacity room m g shape u in
        write_Done (enq_item v u) (enq_publish u) u (record (slot capacity m u) { item = v }) silent
          refl own (omega arith) (λ e. unpublished) refl
          (record {
            turn = s.turn;
            low = s.low;
            high = s.high;
            stamped = s.stamped;
            stored = λ e. absurd (unpublished (e ∙ ap some own));
          })
          (ge, lt, ground arith, λ e. ground arith, ground arith) (λ t e. e)
          (λ t o. elim (written-slot u (record (slot capacity m u) { item = v }) t) [
            | inl (same, new_slot, old) ↦ elim o [
              | inl (at, low) ↦
                  absurd (omega (arith, sym (ap (λ d. d.tail) new_slot) ∙ at, own, low, ge))
              | inr (ge', lt', ne) ↦ inl (ap some (same_window u t ge lt ge' lt' same))
            ]
            | inr (other, kept) ↦ inr (other_slot u _ t kept o, λ e. other (ground arith))
          ])

    pub publish_Does :
        (u : ℕ)
        → Fits capacity m g (enq_publish u)
        → Does capacity room m g (enq_publish u) (act capacity m (enq_publish u))
    unfolding act spec
    publish_Does u (ge, lt, own, unpublished, is) =
        let s = at_slot capacity room m g shape u in
        write_Done (enq_publish u) idle u (record (slot capacity m u) { head = some u })
          (returned true) refl own (omega arith) (λ e. unpublished) refl
          (record {
            turn = s.turn;
            low = s.low;
            high = s.high;
            stamped = λ h e. inl (ground arith);
            stored = λ e. ground arith;
          })
          tt (λ t e. cc)
          (λ t o. elim (written-slot u (record (slot capacity m u) { head = some u }) t) [
            | inl (same, new_slot, old) ↦ elim o [
              | inl (at, low) ↦
                  absurd (omega (arith, sym (ap (λ d. d.tail) new_slot) ∙ at, own, low, ge))
              | inr (ge', lt', ne) ↦
                  absurd
                    (ne (ap (λ d. d.head) new_slot ∙ ap some (same_window u t ge lt ge' lt' same)))
            ]
            | inr (other, kept) ↦ inr (other_slot u _ t kept o, λ e. other (ground arith))
          ])

    pub release_Does :
        (h : ℕ)
        → Fits capacity m g (deq_release h)
        → Does capacity room m g (deq_release h) (act capacity m (deq_release h))
    unfolding act spec
    release_Does h (lt, own, published) =
        let s = at_slot capacity room m g shape h in
        rw (mod-eq_of_lt {n = h + capacity} {m = 2 ^ 64} (omega (arith, lt, small, ordered)), Does)
          (write_Done (deq_release h) idle h (record (slot capacity m h) { tail = h + capacity })
            (returned true) refl own (omega (arith, own)) (λ e. absurd (omega (arith, e, lt))) refl
            (record {
              turn = next_turn h capacity;
              low = omega (arith, s.low, own);
              high = omega (arith, lt);
              stamped = λ k e. inr (ground arith);
              stored = λ e. absurd (ground (arith, room));
            })
            tt (λ t e. cc)
            (λ t o. elim (written-slot h (record (slot capacity m h) { tail = h + capacity }) t) [
              | inl (same, new_slot, old) ↦ elim o [
                | inl (at, low) ↦
                    absurd (
                      omega (arith, sym (ap (λ d. d.tail) new_slot) ∙ at, own, low, s.low, ordered))
                | inr (ge', lt', ne) ↦ inr (
                  inr (
                    ge',
                    lt',
                    λ e. ne (ap (λ d. d.head) new_slot ∙ sym (ap (λ d. d.head) old) ∙ e),
                  ),
                  λ e. absurd (ground (arith, lt, ge')),
                )
              ]
              | inr (other, kept) ↦ inr (other_slot h _ t kept o, λ e. other (ground arith))
            ]))

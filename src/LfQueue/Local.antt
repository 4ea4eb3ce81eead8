-- ===== src/LfQueue/Local.antt =====
-- What one step does, seen from the thread that takes it.
pub mod Writes
pub mod Moves
use public_conc_exp.Common.{
  update, ℕ, suc, ◌+◌, ◌-◌, ◌%◌, ◌≤◌, ◌<◌, ◌≡◌, ◌≢◌, refl, sym, ap, ◌∙◌, ◌⊎◌, inl, inr, true, false,
  Option, none, some, [], ◌∷◌, ◌++◌, arith, ℤ, ◌==◌, Bool-cases, subst,
}
use native.Mathlib.Nat.{mod-lt}
use public_conc_exp.Spec.Numbered.{values_from, values_from-snoc, length-values_from}
use public_conc_exp.LfQueue.{
  Node, Mem, Pc, idle, enq_load, enq_test, enq_cas, enq_item, enq_publish, deq_load, deq_test,
  deq_cas, deq_release, Label, silent, enqueued, dequeued, returned, holds, act,
}
use public_conc_exp.LfQueue.Ring.{
  same_ticket, next_turn, Line, contents, ticket, spec, slot, IsOpen, IsTurned, Shape, Fits,
  written, ticket_given, published_free,
}
use public_conc_exp.LfQueue.Frame.{Fits-enqueue, Fits-dequeue, Fits-write}

module _ (capacity : ℕ) (room : 0 < capacity) where
  -- Everything that a step of a thread from `p` to `p'` promises.
  pub record Done (m : Mem) (g : Line) (p : Pc) (m' : Mem) (p' : Pc) (l : Label) (g' : Line)
      : Type 0 where
    pub shape : Shape capacity m' g'
    pub fits : Fits capacity m' g' p'
    pub counted : g'.last ≤ g.last + 1
    pub accepted : spec capacity l (contents g) ≡ some (contents g')
    pub others :
        (q : Pc)
        → Fits capacity m g q
        → ((t : ℕ) → ticket p ≡ some t → ticket q ≢ some t)
        → Fits capacity m' g' q
    pub opens :
        (t : ℕ)
        → IsOpen capacity m' g' t
        → (ticket p' ≡ some t) ⊎ (IsOpen capacity m g t × (ticket p ≢ some t))
    pub keeps :
        (t : ℕ)
        → ticket p' ≡ some t
        → (ticket p ≡ some t) ⊎ ((q : Pc) → Fits capacity m g q → ticket q ≢ some t)

  abbrev pub Does : Mem → Line → Pc → Mem × Pc × Label → Type 0
  Does m g p (m', p', l) = (g' : Line) × Done m g p m' p' l g'

  module _ (m : Mem) (g : Line) (shape : Shape capacity m g) where
    open shape use {head, tail, ordered, bounded, turned}

    pub at_slot : (t : ℕ) → IsTurned capacity g (t % capacity) (slot capacity m t)
    at_slot t = turned (t % capacity) (mod-lt t room)

    -- A step that leaves memory and the abstract queue alone.
    stay :
        (p p' : Pc) (l : Label)
        → spec capacity l (contents g) ≡ some (contents g)
        → Fits capacity m g p'
        → ticket p' ≡ none
        → ticket p ≡ none
        → (g' : Line) × Done m g p m p' l g'
    stay p p' l accepted fits free none_held = (
      g,
      record {
        shape = shape;
        fits = fits;
        counted = omega arith;
        accepted = accepted;
        others = λ q f apart. f;
        opens = λ t o. inr (o, λ e. cc);
        keeps = λ t e. cc;
      },
    )

    -- A ticket is taken: its slot is free.
    module _ (v : ℤ) (free : g.last ≤ (slot capacity m g.last).tail) where
      abbrev longer : Line
      longer = record g { value = update g.value g.last v; last = g.last + 1 }

      free_slot : (slot capacity m g.last).tail ≡ g.last
      free_slot =
          let s = at_slot g.last in
          sym (
            same_ticket g.last (slot capacity m g.last).tail capacity free
              (omega (arith, s.high, ordered)) (sym s.turn))

      enqueue-IsTurned : (j : ℕ) → j < capacity → IsTurned capacity longer j (m.queue j)
      enqueue-IsTurned j lt =
          let s = turned j lt in
          record {
            turn = s.turn;
            low =
                ground (arith, s.low, s.turn, next_turn (m.queue j).tail capacity, free_slot, room);
            high = s.high;
            stamped = s.stamped;
            stored = λ e. ground (arith, s.stored e);
          }

      enqueue_contents : contents g ++ v ∷ [] ≡ contents longer
      enqueue_contents =
          sym
            (values_from-snoc g.value g.last g.first (g.last - g.first) v (omega (arith, ordered)))
          ∙ ap (values_from longer.value g.first) {x = suc (g.last - g.first)}
              (omega (arith, ordered))

      enqueue_Done :
          (g' : Line) × Done m g
            (enq_cas v g.last)
            (record m { tail = g.last + 1 })
            (enq_item v g.last)
            (enqueued v)
            g'
      unfolding spec
      enqueue_Done =
          let s = at_slot g.last in
          let size = length-values_from g.value g.first (g.last - g.first) in
          (
            longer,
            record {
              shape = record {
                head = head;
                tail = refl;
                ordered = omega (arith, ordered);
                bounded = omega (arith, s.high, free_slot);
                turned = enqueue-IsTurned;
              };
              fits = (
                ordered,
                omega arith,
                free_slot,
                λ e. omega (arith, (s.stored (e ∙ ap some (sym free_slot))).0, free_slot),
                ground arith,
              );
              counted = omega arith;
              accepted = ground (arith, size, enqueue_contents, s.high, free_slot);
              others = λ q f apart. Fits-enqueue capacity m g v q f;
              opens = λ t o. elim o [
                | inl c ↦ inr (inl c, λ e. cc)
                | inr (ge, lt, ne) ↦ elim (Bool-cases (t == g.last)) [
                  | inl e ↦ inl (ground arith)
                  | inr e ↦ inr (inr (ge, ground (arith, lt), ne), λ e'. cc)
                ]
              ];
              keeps =
                  λ t e. inr (λ q f e'. ground (arith, ticket_given capacity m g q t ordered f e'));
            },
          )

    dequeue_Done :
        ((slot capacity m g.first).tail ≡ g.first) × ((slot capacity m g.first).head ≡ some g.first)
        → (g' : Line) × Done m g
            (deq_cas g.first)
            (record m { head = g.first + 1 })
            (deq_release g.first)
            dequeued
            g'
    unfolding spec
    dequeue_Done (at, shown) =
        let s = at_slot g.first in
        let given : g.first < g.last = ground (arith, s.stored) in
        let whole =
          ap (values_from g.value g.first) {x = g.last - g.first} {y = suc (g.last - (g.first + 1))}
            (omega (arith, given)) in
        (
          record g { first = g.first + 1 },
          record {
            shape = record {
              head = refl;
              tail = tail;
              ordered = omega (arith, given);
              bounded = omega (arith, bounded);
              turned = λ j lt.
                  let r = turned j lt in
                  record {
                    turn = r.turn;
                    low = r.low;
                    high = omega (arith, r.high);
                    stamped = r.stamped;
                    stored = r.stored;
                  };
            };
            fits = (omega arith, at, shown);
            counted = omega arith;
            accepted = rw (whole, spec) refl;
            others = λ q f apart. Fits-dequeue capacity m g q shown f;
            opens = λ t o. elim o [
              | inl (own, lt) ↦ elim (Bool-cases (t == g.first)) [
                | inl e ↦ inl (ground arith)
                | inr e ↦ inr (inl (own, ground (arith, lt)), λ e'. cc)
              ]
              | inr (ge, lt, ne) ↦ inr (inr (omega (arith, ge), lt, ne), λ e'. cc)
            ];
            keeps = λ t e. inr (λ q f e'. published_free capacity m g q shown f (ground arith));
          },
        )

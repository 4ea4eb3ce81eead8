-- ===== src/LfQueue/Invariant.antt =====
-- The invariant of all threads together, and that every step keeps it.
use public_conc_exp.Common.{
  update, ℕ, ◌<◌, ◌≡◌, refl, inl, inr, false, none, some, arith, ℤ, ◌==◌, Bool-cases, subst,
}
use public_conc_exp.Common.{update_here, update_other, ap, sym, ◌∙◌, ◌≢◌}
use native.Mathlib.Nat.{mod-eq_of_lt}
use public_conc_exp.LfQueue.{
  Mem, Pc, enq_load, deq_load, deq_test, Label, act, System, system, Step, work, spurious_enqueue,
  spurious_dequeue, call_enqueue, call_dequeue, init,
}
use public_conc_exp.LfQueue.Ring.{Line, contents, ticket, IsOpen, Shape, Fits}
use public_conc_exp.LfQueue.Local.{Done, Does}
use public_conc_exp.LfQueue.Local.Moves.{act-Does}
use public_conc_exp.Common.{List, ◌+◌, ◌-◌, ◌^◌, ◌≤◌}
use public_conc_exp.LfQueue.{kind}
use public_conc_exp.LfQueue.Served.{ring, status, Advances, act-Advances}
use public_conc_exp.Spec.Requests.{Request, add, remove}
use public_conc_exp.Spec.Calls.{
  Call, Kind, start_call, Served, advance, accepts, accepts-advance, status-update,
}
use public_conc_exp.Spec.Calls

module _ (capacity : ℕ) (room : 0 < capacity) where
  -- Every open ticket has one holder, and no ticket has two.
  pub record Inv (s : System) (g : Line) : Type 0 where
    pub shape : Shape capacity s.mem g
    pub fits : (i : ℕ) → Fits capacity s.mem g (s.pc i)
    pub holder : (t : ℕ) → IsOpen capacity s.mem g t → (i : ℕ) × (ticket (s.pc i) ≡ some t)
    pub single : (i j t : ℕ) → ticket (s.pc i) ≡ some t → ticket (s.pc j) ≡ some t → i ≡ j

  abbrev pub none_yet : (ℕ → ℤ) → Line
  none_yet junk = record { value = junk; first = 0; last = 0 }

  pub Inv-init : (junk : ℕ → ℤ) → Inv (init junk) (none_yet junk)
  Inv-init junk = record {
    shape = record {
      head = refl;
      tail = refl;
      ordered = omega arith;
      bounded = omega arith;
      turned = λ j lt. record {
        turn = mod-eq_of_lt lt;
        low = omega arith;
        high = omega (arith, lt);
        stamped = λ h e. cc;
        stored = λ e. cc;
      };
    };
    fits = λ i. tt;
    holder = λ t o. elim o [
      | inl (own, lt) ↦ absurd (omega (arith, lt))
      | inr (ge, lt, ne) ↦ absurd (omega (arith, lt))
    ];
    single = λ i j t e e'. cc;
  }

  module _ {s : System} {g : Line} (inv : Inv s g) (i : ℕ) where
    open inv use {shape, fits, holder, single}

    module _ {m : Mem} {p' : Pc} {l : Label} {g' : Line}
        (d : Done capacity room s.mem g (s.pc i) m p' l g') where
      Fits-after : (j : ℕ) → Fits capacity m g' (update s.pc i p' j)
      Fits-after j = elim (Bool-cases (i == j)) [
        | inl e ↦ rw e d.fits
        | inr e ↦
            rw e (d.others (s.pc j) (fits j) (λ t mine its. ground (arith, single i j t mine its)))
      ]

      new_ticket :
          (j t : ℕ) → (i == j) ≡ false → ticket p' ≡ some t → ticket (s.pc j) ≡ some t → i ≡ j
      new_ticket j t ne e e' = elim (d.keeps t e) [
        | inl old ↦ single i j t old e'
        | inr fresh ↦ absurd (fresh (s.pc j) (fits j) e')
      ]

      single_after :
          (j k t : ℕ)
          → ticket (update s.pc i p' j) ≡ some t
          → ticket (update s.pc i p' k) ≡ some t
          → j ≡ k
      single_after j k t e e' = ground (arith, single j k t, new_ticket j t, new_ticket k t)

      holder_after :
          (t : ℕ) → IsOpen capacity m g' t → (j : ℕ) × (ticket (update s.pc i p' j) ≡ some t)
      holder_after t o = elim (d.opens t o) [
        | inl mine ↦ (i, ap ticket (update_here s.pc i p') ∙ mine)
        | inr (old, other) ↦
            let (j, at) = holder t old in
            let ne : j ≢ i = λ e. other (ap (λ k. ticket (s.pc k)) (sym e) ∙ at) in
            (j, ap ticket (update_other s.pc i p' j ne) ∙ at)
      ]

      Done-Inv : Inv (system m (update s.pc i p')) g'
      Done-Inv = record {
        shape = d.shape;
        fits = Fits-after;
        holder = holder_after;
        single = single_after;
      }

    -- A thread goes on without touching memory, and holds no ticket then.
    move_Inv :
        (p' : Pc)
        → Fits capacity s.mem g p'
        → ticket p' ≡ none
        → ticket (s.pc i) ≡ none
        → Inv (system s.mem (update s.pc i p')) g
    move_Inv p' f free none_held = record {
      shape = shape;
      fits = λ j. elim (Bool-cases (i == j)) [ inl e ↦ rw e f | inr e ↦ rw e (fits j) ];
      holder = λ t o.
          let (j, at) = holder t o in
          let ne : j ≢ i =
            λ e. absurd (ground (arith, sym none_held ∙ ap (λ k. ticket (s.pc k)) (sym e) ∙ at)) in
          (j, ap ticket (update_other s.pc i p' j ne) ∙ at);
      single = λ j k t e e'. ground (arith, single j k t);
    }

  act-Done :
      (m : Mem) (g : Line) (p : Pc) {m' : Mem} {p' : Pc} {l : Label}
      → Shape capacity m g
      → g.last + capacity < 2 ^ 64 - 1
      → Fits capacity m g p
      → act capacity m p ≡ (m', p', l)
      → (g' : Line) × Done capacity room m g p m' p' l g'
  act-Done m g p shape small f e =
      subst (Does capacity room m g p) e (act-Does capacity room m g shape small p f)

  -- The queue, and the call of each thread.
  abbrev pub Ghost : Type 0
  Ghost = Line × (ℕ → Call Request)

  abbrev pub served : Ghost → Served Request (List ℤ)
  served g = record { contents = contents g.0; calls = g.1 }

  abbrev pub InvServed : System → Ghost → Type 0
  InvServed s g = Inv s g.0 × ((j : ℕ) → g.1 j ≡ status (s.pc j))

  -- What a step of a thread keeps; it gives out one ticket at most.
  abbrev pub Keeps : System → Ghost → ℕ × Kind Request → Type 0
  Keeps t g l =
      (g' : Ghost) × InvServed t g'
      × (accepts (ring capacity) l (served g) ≡ some (served g'))
      × (g'.0.last ≤ g.0.last + 1)

  -- A step that changes neither the memory nor the queue.
  move_Keeps :
      (s : System) (g : Line) (calls : ℕ → Call Request)
      → ((j : ℕ) → calls j ≡ status (s.pc j))
      → (i : ℕ) (p : Pc) (k : Kind Request) → Inv (system s.mem (update s.pc i p)) g
      → advance (ring capacity) k (status (s.pc i)) (contents g) ≡ some (status p, contents g)
      → Keeps (system s.mem (update s.pc i p)) (g, calls) (i, k)
  move_Keeps s g calls same i p k inv e = (
    (g, update calls i (status p)),
    (inv, status-update status s.pc calls i p same),
    accepts-advance (ring capacity) i k (contents g) calls (status (s.pc i)) (status p) (contents g)
        (same i) e,
    omega arith,
  )

  -- Before the counters wrap around, every step of any thread keeps the invariant, and is one that a
  -- bounded queue accepts.
  pub Step-Inv :
      (s : System) (g : Ghost) (l : ℕ × Kind Request) (t : System)
      → InvServed s g
      → g.0.last + capacity < 2 ^ 64 - 1
      → Step capacity s l t
      → Keeps t g l
  unfolding advance
  Step-Inv s (g, calls) l t (inv, same) small (work i {m} {p} {l = k} e) =
      let (g', d) = act-Done s.mem g (s.pc i) inv.shape small (inv.fits i) e in
      let advances =
        subst (Advances capacity (status (s.pc i))) e (act-Advances capacity s.mem (s.pc i)) in
      (
        (g', update calls i (status p)),
        (Done-Inv inv i d, status-update status s.pc calls i p same),
        accepts-advance (ring capacity) i (kind k) (contents g) calls (status (s.pc i)) (status p)
            (contents g') (same i) (advances (contents g) (contents g') d.accepted),
        d.counted,
      )
  Step-Inv s (g, calls) l t (inv, same) small (spurious_enqueue i v u at) =
      move_Keeps s g calls same i _ Calls.silent (move_Inv inv i _ tt refl (ap ticket at))
        (rw (at, advance) refl)
  Step-Inv s (g, calls) l t (inv, same) small (spurious_dequeue i h at) =
      move_Keeps s g calls same i _ Calls.silent
        (move_Inv inv i (deq_test s.mem.head) (omega (arith, inv.shape.head)) refl (ap ticket at))
        (rw (at, advance) refl)
  Step-Inv s (g, calls) l t (inv, same) small (call_enqueue i v at) =
      move_Keeps s g calls same i _ (start_call (add v))
        (move_Inv inv i (enq_load v) tt refl (ap ticket at)) (rw (at, advance) refl)
  Step-Inv s (g, calls) l t (inv, same) small (call_dequeue i at) =
      move_Keeps s g calls same i _ (start_call remove)
        (move_Inv inv i deq_load tt refl (ap ticket at)) (rw (at, advance) refl)

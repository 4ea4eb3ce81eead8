-- ===== src/MsQueue/Invariant.antt =====
-- The invariant of all threads together, and that every step keeps it.
use public_conc_exp.Common.{
  update, ℕ, ◌<◌, ◌≡◌, ◌≢◌, refl, sym, ◌∙◌, inl, inr, true, none, some, arith, ℤ, minus_one, ◌==◌,
  ok, Bool-cases, subst,
}
use public_conc_exp.MsQueue.{
  Ptr, null, node, Mem, Pc, enq_last, deq_first, Label, act, System, system, Step, work,
  call_enqueue, call_dequeue, init,
}
use public_conc_exp.MsQueue.Chain.{Order, contents, Shape, Fits, owned, IsOwned, Fits-mono}
use public_conc_exp.MsQueue.Local.{Done, Does}
use public_conc_exp.MsQueue.Local.Moves.{act-Does}
use public_conc_exp.MsQueue.{kind}
use public_conc_exp.MsQueue.Served.{queue, status, Advances, act-Advances}
use public_conc_exp.Common.{List, ap}
use public_conc_exp.Spec.Requests.{Request, add, remove}
use public_conc_exp.Spec.Calls.{
  Call, waiting, Kind, Served, accepts, accepts-advance, accepts-start_call, status-update,
}

-- No unlinked node has two owners.
pub record Inv (s : System) (g : Order) : Type 0 where
  pub shape : Shape s.mem g
  pub fits : (i : ℕ) → Fits g (s.pc i)
  pub own : (i n : ℕ) (v : ℤ) → owned (s.pc i) ≡ some (n, v) → IsOwned s.mem g n v
  pub single :
      (i j n : ℕ) (v w : ℤ) → owned (s.pc i) ≡ some (n, v) → owned (s.pc j) ≡ some (n, w) → i ≡ j

-- One node, at `d`.
abbrev pub alone : Ptr → Order
alone d = record { place = λ _. d; value = λ _. minus_one; len = 1; first = 0; last = 0 }

pub Inv-init : (d : Ptr) → d ≢ null → Inv (init d) (alone d)
Inv-init d ne = record {
  shape = record {
    nodes = λ i h. ground arith;
    solid = λ i h. ne;
    distinct = λ i j h h' e. omega arith;
    ordered = omega arith;
    within = omega arith;
    head = refl;
    tail = refl;
  };
  fits = λ i. tt;
  own = λ i n v e. cc;
  single = λ i j n v w e e'. cc;
}

module _ {s : System} {g : Order} (inv : Inv s g) (i : ℕ) where
  open inv use {shape, fits, own, single}

  module _ {m : Mem} {p' : Pc} {l : Label} {g' : Order} (d : Done s.mem g (s.pc i) m p' l g') where
    Fits-after : (j : ℕ) → Fits g' (update s.pc i p' j)
    Fits-after j = elim (Bool-cases (i == j)) [
      | inl e ↦ rw e d.fits
      | inr e ↦ rw e (Fits-mono g g' (s.pc j) d.extends shape.within (fits j))
    ]

    -- What thread `j` owned and has not linked in this step is still its own.
    IsOwned-after :
        (j n : ℕ) (v : ℤ)
        → owned (s.pc j) ≡ some (n, v)
        → ((i == j) ≡ true → owned p' ≡ some (n, v))
        → IsOwned m g' n v
    IsOwned-after j n v o still =
        let (ne, held, apart) = own j n v o in
        (
          ne,
          d.frame n apart ∙ held,
          λ k h e. elim (d.gains k h) [
            | inl lt ↦ apart k lt (sym (d.extends.places k lt) ∙ e)
            | inr ((w, o'), gone) ↦ elim (Bool-cases (i == j)) [
              | inl same ↦ ground (arith, still same)
              | inr other ↦ ground (arith, single i j n w v)
            ]
          ],
        )

    own_after : (j n : ℕ) (v : ℤ) → owned (update s.pc i p' j) ≡ some (n, v) → IsOwned m g' n v
    own_after j n v = elim (Bool-cases (i == j)) [
      | inl e ↦ rw e (λ o. IsOwned-after i n v (d.keeps n v o) (λ _. o))
      | inr e ↦ rw e (λ o. IsOwned-after j n v o (λ e'. ground arith))
    ]

    single_after :
        (j k n : ℕ) (v w : ℤ)
        → owned (update s.pc i p' j) ≡ some (n, v)
        → owned (update s.pc i p' k) ≡ some (n, w)
        → j ≡ k
    single_after j k n v w o o' =
        ground
          (arith, d.keeps n v, d.keeps n w, single j k n v w, single i k n v w, single j i n v w)

    Done-Inv : Inv (system m (update s.pc i p')) g'
    Done-Inv = record { shape = d.shape; fits = Fits-after; own = own_after; single = single_after }

  -- A call of `enqueue`, with the new node `n`.
  module _ (v : ℤ) (n : Ptr) (ne : n ≢ null) (unused : s.mem.heap n ≡ none) where
    grown : Mem
    grown = record s.mem { heap = update s.mem.heap n (some (node v null)) }

    not_linked : (k : ℕ) → k < g.len → g.place k ≢ n
    not_linked k h e = ground (arith, shape.nodes k)

    call_Shape : Shape grown g
    unfolding grown
    call_Shape = record {
      nodes = λ k h. ground (arith, shape.nodes k, not_linked k);
      solid = shape.solid;
      distinct = shape.distinct;
      ordered = shape.ordered;
      within = shape.within;
      head = shape.head;
      tail = shape.tail;
    }

    call_own :
        (j a : ℕ) (w : ℤ)
        → owned (update s.pc i (enq_last n v) j) ≡ some (a, w)
        → IsOwned grown g a w
    unfolding grown
    call_own j a w o = elim (Bool-cases (i == j)) [
      | inl e ↦ (ground arith, ground arith, λ k h e'. not_linked k h (ground arith))
      | inr e ↦ let (solid, held, apart) = own j a w (ground arith) in (solid, ground arith, apart)
    ]

    call_Inv : Inv (system grown (update s.pc i (enq_last n v))) g
    call_Inv = record {
      shape = call_Shape;
      fits = λ j. elim (Bool-cases (i == j)) [ inl e ↦ rw e tt | inr e ↦ rw e (fits j) ];
      own = call_own;
      single = λ j k a w x o o'. ground (arith, single j k a w x, own j a w, own k a x);
    }

  dequeue_Inv : Inv (system s.mem (update s.pc i deq_first)) g
  dequeue_Inv = record {
    shape = shape;
    fits = λ j. elim (Bool-cases (i == j)) [ inl e ↦ rw e tt | inr e ↦ rw e (fits j) ];
    own = λ j n v o. own j n v (ground arith);
    single = λ j k n v w o o'. ground (arith, single j k n v w);
  }

act-Done :
    (m : Mem) (g : Order) (p : Pc) {m' : Mem} {p' : Pc} {l : Label}
    → Shape m g
    → Fits g p
    → ((n : Ptr) (v : ℤ) → owned p ≡ some (n, v) → IsOwned m g n v)
    → act m p ≡ ok (m', p', l)
    → (g' : Order) × Done m g p m' p' l g'
act-Done m g p shape f own e = subst (Does m g p) e (act-Does m g shape p f own)

-- The queue, and the call of each thread.
abbrev pub Ghost : Type 0
Ghost = Order × (ℕ → Call Request)

abbrev pub served : Ghost → Served Request (List ℤ)
served g = record { contents = contents g.0; calls = g.1 }

abbrev pub InvServed : System → Ghost → Type 0
InvServed s g = Inv s g.0 × ((j : ℕ) → g.1 j ≡ status (s.pc j))

-- Every step of any thread keeps the invariant, and is one that a queue accepts.
pub Step-Inv :
    (s : System) (g : Ghost) (l : ℕ × Kind Request) (t : System)
    → InvServed s g
    → Step s l t
    → (g' : Ghost) × InvServed t g' × (accepts queue l (served g) ≡ some (served g'))
unfolding grown
Step-Inv s (g, calls) l t (inv, same) (work i {m} {p} {l = k} e) =
    let (g', d) = act-Done s.mem g (s.pc i) inv.shape (inv.fits i) (inv.own i) e in
    let advances = subst (Advances (status (s.pc i))) e (act-Advances s.mem (s.pc i)) in
    (
      (g', update calls i (status p)),
      (Done-Inv inv i d, status-update status s.pc calls i p same),
      accepts-advance queue i (kind k) (contents g) calls (status (s.pc i)) (status p) (contents g')
          (same i) (advances (contents g) (contents g') d.accepted),
    )
Step-Inv s (g, calls) l t (inv, same) (call_enqueue i v n at ne unused) = (
  (g, update calls i (waiting (add v))),
  (call_Inv inv i v n ne unused, status-update status s.pc calls i (enq_last n v) same),
  accepts-start_call queue i (add v) (contents g) calls (same i ∙ ap status at),
)
Step-Inv s (g, calls) l t (inv, same) (call_dequeue i at) = (
  (g, update calls i (waiting remove)),
  (dequeue_Inv inv i, status-update status s.pc calls i deq_first same),
  accepts-start_call queue i remove (contents g) calls (same i ∙ ap status at),
)

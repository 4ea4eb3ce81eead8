-- ===== src/LfStack/Invariant.antt =====
-- The invariant of all threads together, and that every step keeps it.
use public_conc_exp.Common.{
  update, ℕ, ◌≡◌, ◌≢◌, refl, inl, inr, true, false, Option, none, some, [], ◌∷◌, arith, ℤ, ◌==◌, ok,
  Bool-cases, subst,
}
use public_conc_exp.LfStack.{
  Ptr, null, Node, node, Mem, Pc, push_load, push_link, push_cas, pop_load, pop_test, pop_cas,
  pop_value, Label, act, System, system, Step, work, call_push, call_pop, init,
}
use public_conc_exp.LfStack.Chain.{
  Cells, first, has_cell, IsChain, owns, reads, Fits, after, IsChain-frame, Fits-frame,
}
use public_conc_exp.LfStack.Local.{Done, Does, act-Does}
use public_conc_exp.LfStack.{kind}
use public_conc_exp.LfStack.Chain.{values}
use public_conc_exp.LfStack.Served.{stack, status, Advances, act-Advances}
use public_conc_exp.Common.{List, ap, ◌∙◌}
use public_conc_exp.Spec.Requests.{Request, add, remove}
use public_conc_exp.Spec.Calls.{
  Call, waiting, Kind, Served, accepts, accepts-advance, accepts-start_call, status-update,
}

-- `cells` is the abstract stack. No unpublished node has two owners, is on the stack, or is being
-- read by a thread in `pop`.
pub record Inv (s : System) (cells : Cells) : Type 0 where
  pub top : s.mem.top ≡ first cells
  pub chain : IsChain s.mem.heap cells
  pub fits : (i : ℕ) → Fits s.mem.heap cells (s.pc i)
  pub single : (i j a : ℕ) → owns (s.pc i) a ≡ true → owns (s.pc j) a ≡ true → i ≡ j
  pub apart : (i j a : ℕ) → reads (s.pc i) a ≡ true → owns (s.pc j) a ≡ false

pub Inv-init : Inv init []
Inv-init = record {
  top = refl;
  chain = tt;
  fits = λ i. tt;
  single = λ i j a h k. cc;
  apart = λ i j a h. cc;
}

-- What a thread owns is a node, and is not on the stack.
owned_node :
    (h : Ptr → Option Node) (cells : Cells) (p : Pc) (a : Ptr)
    → Fits h cells p
    → owns p a ≡ true
    → (has_cell a cells ≡ false) × ¬ (h a ≡ none)
owned_node h cells (push_load n v) a (ne, out, (q, e)) o = ground arith
owned_node h cells (push_link n v old) a (ne, out, (q, e)) o = ground arith
owned_node h cells (push_cas n v old) a (ne, out, e) o = ground arith
owned_node h cells p a f o = cc

read_node :
    (h : Ptr → Option Node) (cells : Cells) (p : Pc) (a : Ptr)
    → Fits h cells p
    → reads p a ≡ true
    → ¬ (h a ≡ none)
read_node h cells (pop_test old) a f o = elim (Bool-cases (old == null)) [
  | inl e ↦ absurd (ground arith)
  | inr e ↦ let ne : old ≢ null = ground arith in let held = (f ne).1 in ground arith
]
read_node h cells (pop_cas old next) a (ne, (v, e)) o = ground arith
read_node h cells (pop_value old v) a (q, e) o = ground arith
read_node h cells p a f o = cc

cell_node :
    (h : Ptr → Option Node) (cells : Cells) (a : Ptr)
    → IsChain h cells
    → has_cell a cells ≡ true
    → ¬ (h a ≡ none)
cell_node h [] a c i = cc
cell_node h ((b, v) ∷ cells) a (ne, e, c) i = ground (arith, cell_node h cells a c)

module _ {s : System} {cells : Cells} (inv : Inv s cells) (i : ℕ) where
  open inv use {top, chain, fits, single, apart}

  module _ {m : Mem} {p' : Pc} {l : Label} (d : Done s.mem cells (s.pc i) m p' l) where
    -- Thread `i` has moved; thread `j` is another.
    Fits-other : (j : ℕ) → (i == j) ≡ false → Fits m.heap (after l cells) (s.pc j)
    Fits-other j ne =
        Fits-frame s.mem.heap m.heap cells (after l cells) (s.pc j)
          (λ a o. ground (
            arith,
            single i j a,
            d.frame a,
            d.cells_kept a,
            owned_node s.mem.heap cells (s.pc j) a (fits j) o,
          ))
          (λ a r. d.frame a (apart j i a r)) (fits j)

    Fits-after : (j : ℕ) → Fits m.heap (after l cells) (update s.pc i p' j)
    Fits-after j = elim (Bool-cases (i == j)) [
      | inl e ↦ rw e d.fits
      | inr e ↦ rw e (Fits-other j e)
    ]

    single_after :
        (j k a : ℕ)
        → owns (update s.pc i p' j) a ≡ true
        → owns (update s.pc i p' k) a ≡ true
        → j ≡ k
    single_after j k a o o' = ground (arith, d.keeps a, single j k a, single i k a, single j i a)

    apart_after :
        (j k a : ℕ) → reads (update s.pc i p' j) a ≡ true → owns (update s.pc i p' k) a ≡ false
    apart_after j k a r = ground (
      arith,
      d.gains a,
      d.keeps a,
      apart j k a,
      apart j i a,
      apart i k a,
      apart i i a,
      owned_node s.mem.heap cells (s.pc k) a (fits k),
      owned_node s.mem.heap cells (s.pc i) a (fits i),
    )

    Done-Inv : Inv (system m (update s.pc i p')) (after l cells)
    Done-Inv = record {
      top = d.top;
      chain = d.chain;
      fits = Fits-after;
      single = single_after;
      apart = apart_after;
    }

  -- A call of `push`, with the new node `n`.
  module _ (v : ℤ) (n junk : Ptr) (ne : n ≢ null) (unused : s.mem.heap n ≡ none) where
    grown : Ptr → Option Node
    grown = update s.mem.heap n (some (node v junk))

    Fits-grown : (j : ℕ) → Fits grown cells (update s.pc i (push_load n v) j)
    unfolding grown
    Fits-grown j = elim (Bool-cases (i == j)) [
      | inl e ↦ rw e (ne, ground (arith, cell_node s.mem.heap cells n chain), (junk, ground arith))
      | inr e ↦ rw e (
          Fits-frame s.mem.heap grown cells cells (s.pc j)
            (λ a o. (ground (arith, owned_node s.mem.heap cells (s.pc j) a (fits j) o), refl))
            (λ a r. ground (arith, read_node s.mem.heap cells (s.pc j) a (fits j) r)) (fits j))
    ]

    push-Inv :
        Inv
          (system (record { top = s.mem.top; heap = grown }) (update s.pc i (push_load n v)))
          cells
    unfolding grown
    push-Inv = record {
      top = top;
      chain =
          IsChain-frame _ _ cells (λ a h. ground (arith, cell_node s.mem.heap cells a chain h))
            chain;
      fits = Fits-grown;
      single = λ j k a o o'. ground (
        arith,
        single j k a,
        owned_node s.mem.heap cells (s.pc j) a (fits j),
        owned_node s.mem.heap cells (s.pc k) a (fits k),
      );
      apart =
          λ j k a r. ground (arith, apart j k a, read_node s.mem.heap cells (s.pc j) a (fits j));
    }

  pop-Inv : Inv (system s.mem (update s.pc i pop_load)) cells
  pop-Inv = record {
    top = top;
    chain = chain;
    fits = λ j. elim (Bool-cases (i == j)) [ inl e ↦ rw e tt | inr e ↦ rw e (fits j) ];
    single = λ j k a o o'. ground (arith, single j k a);
    apart = λ j k a r. ground (arith, apart j k a);
  }

-- The step that `act` makes meets its promises.
act-Done :
    (m : Mem) (cells : Cells) (p : Pc) {m' : Mem} {p' : Pc} {l : Label}
    → m.top ≡ first cells
    → IsChain m.heap cells
    → Fits m.heap cells p
    → act m p ≡ ok (m', p', l)
    → Done m cells p m' p' l
act-Done m cells p top chain f e = subst (Does m cells p) e (act-Does m cells top chain p f)

-- The stack, and the call of each thread.
abbrev pub Ghost : Type 0
Ghost = Cells × (ℕ → Call Request)

abbrev pub served : Ghost → Served Request (List ℤ)
served g = record { contents = values g.0; calls = g.1 }

abbrev pub InvServed : System → Ghost → Type 0
InvServed s g = Inv s g.0 × ((j : ℕ) → g.1 j ≡ status (s.pc j))

-- Every step of any thread keeps the invariant, and is one that a stack accepts.
pub Step-Inv :
    (s : System) (g : Ghost) (l : ℕ × Kind Request) (t : System)
    → InvServed s g
    → Step s l t
    → (g' : Ghost) × InvServed t g' × (accepts stack l (served g) ≡ some (served g'))
unfolding grown
Step-Inv s (cells, calls) l t (inv, same) (work i {m} {p} {l = k} e) =
    let d = act-Done s.mem cells (s.pc i) inv.top inv.chain (inv.fits i) e in
    let advances =
      subst (Advances (status (s.pc i))) e (act-Advances s.mem cells (s.pc i) (inv.fits i)) in
    (
      (after k cells, update calls i (status p)),
      (Done-Inv inv i d, status-update status s.pc calls i p same),
      accepts-advance stack i (kind k) (values cells) calls (status (s.pc i)) (status p)
          (values (after k cells)) (same i)
          (advances (values cells) (values (after k cells)) d.accepted),
    )
Step-Inv s (cells, calls) l t (inv, same) (call_push i v n junk at ne unused) = (
  (cells, update calls i (waiting (add v))),
  (push-Inv inv i v n junk ne unused, status-update status s.pc calls i (push_load n v) same),
  accepts-start_call stack i (add v) (values cells) calls (same i ∙ ap status at),
)
Step-Inv s (cells, calls) l t (inv, same) (call_pop i at) = (
  (cells, update calls i (waiting remove)),
  (pop-Inv inv i, status-update status s.pc calls i pop_load same),
  accepts-start_call stack i remove (values cells) calls (same i ∙ ap status at),
)

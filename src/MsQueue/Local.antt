-- ===== src/MsQueue/Local.antt =====
-- What one step does, seen from the thread that takes it.
pub mod Moves
use public_conc_exp.Common.{
  update, ℕ, suc, ◌+◌, ◌-◌, ◌≤◌, ◌<◌, ◌≡◌, ◌≢◌, refl, sym, ap, ◌∙◌, ◌⊎◌, inl, inr, true, false,
  none, some, [], ◌∷◌, ◌++◌, arith, ℤ, ==ℤ_refl, ◌==◌, Run, ok, Bool-cases, subst, ltb,
}
use public_conc_exp.Spec.Numbered.{values_from, values_from-snoc}
use public_conc_exp.MsQueue.{
  Ptr, null, node, Heap, Mem, Pc, idle, enq_last, enq_next, enq_check, enq_link, enq_help,
  deq_first, deq_last, deq_next, deq_check, deq_help, deq_value, deq_cas, Label, silent, enqueued,
  dequeued, saw_empty, returned_empty, act,
}
use public_conc_exp.MsQueue.Chain.{
  Order, follower, contents, Shape, Extends, IsReached, IsNext, Fits, owned, IsOwned, spec,
}

-- Everything that a step of a thread from `p` to `p'` promises.
pub record Done (m : Mem) (g : Order) (p : Pc) (m' : Mem) (p' : Pc) (l : Label) (g' : Order)
    : Type 0 where
  pub shape : Shape m' g'
  pub extends : Extends g g'
  pub fits : Fits g' p'
  pub accepted : spec l (contents g) ≡ some (contents g')
  pub frame : (a : Ptr) → ((i : ℕ) → i < g.len → g.place i ≢ a) → m'.heap a ≡ m.heap a
  pub keeps : (n : Ptr) (v : ℤ) → owned p' ≡ some (n, v) → owned p ≡ some (n, v)
  pub gains :
      (i : ℕ)
      → i < g'.len
      → (i < g.len) ⊎ (((v : ℤ) × (owned p ≡ some (g'.place i, v))) × (owned p' ≡ none))

abbrev pub Does : Mem → Order → Pc → Run (Mem × Pc × Label) → Type 0
Does m g p (ok (m', p', l)) = (g' : Order) × Done m g p m' p' l g'
Does m g p _ = ⊥

module _ (m : Mem) (g : Order) (shape : Shape m g) where
  open shape use {nodes, solid, distinct, ordered, within, head, tail}

  -- A step that leaves memory and the abstract queue alone.
  stay :
      (p p' : Pc) (l : Label)
      → spec l (contents g) ≡ some (contents g)
      → Fits g p'
      → ((n : Ptr) (v : ℤ) → owned p' ≡ some (n, v) → owned p ≡ some (n, v))
      → (g' : Order) × Done m g p m p' l g'
  stay p p' l accepted fits keeps = (
    g,
    record {
      shape = shape;
      extends = record {
        places = λ i h. refl;
        values = λ i h. refl;
        longer = omega arith;
        firsts = omega arith;
        lasts = omega arith;
      };
      fits = fits;
      accepted = accepted;
      frame = λ a h. refl;
      keeps = keeps;
      gains = λ i h. inl h;
    },
  )

  -- `tail` moves on to the next node.
  help_Done :
      (p p' : Pc) (last next : Ptr) (k : ℕ)
      → IsReached g last k
      → IsNext g k next
      → m.tail ≡ last
      → Fits (record g { last = k + 1 }) p'
      → ((n : Ptr) (v : ℤ) → owned p' ≡ some (n, v) → owned p ≡ some (n, v))
      → (g' : Order) × Done m g p (record m { tail = next }) p' silent g'
  unfolding spec
  help_Done p p' last next k (le, at) (lt, at') e fits keeps =
      let same = distinct k g.last (omega (arith, lt)) within (ground arith) in
      (
        record g { last = k + 1 },
        record {
          shape = record {
            nodes = nodes;
            solid = solid;
            distinct = distinct;
            ordered = omega (arith, same, ordered);
            within = omega (arith, lt);
            head = head;
            tail = at';
          };
          extends = record {
            places = λ i h. refl;
            values = λ i h. refl;
            longer = omega arith;
            firsts = omega arith;
            lasts = omega (arith, same);
          };
          fits = fits;
          accepted = refl;
          frame = λ a h. refl;
          keeps = keeps;
          gains = λ i h. inl h;
        },
      )

  -- The new node is linked behind the node at `k`, which is the last one.
  module _ (n last : Ptr) (v : ℤ) (k : ℕ) (c : ℤ) (own : IsOwned m g n v)
      (reached : IsReached g last k) (held : m.heap last ≡ some (node c null)) where
    linked : Order
    linked = record g {
      place = update g.place g.len n;
      value = update g.value g.len v;
      len = g.len + 1;
    }

    linked_heap : Heap
    linked_heap = update m.heap last (some (node c n))

    k_last : k + 1 ≡ g.len
    k_last = ground (arith, nodes k, solid (k + 1), reached.0, reached.1, within)

    link_nodes :
        (i : ℕ)
        → i < linked.len
        → linked_heap (linked.place i) ≡ some (node (linked.value i) (follower linked i))
    unfolding linked linked_heap
    link_nodes i h =
        ground
          (arith, nodes i, nodes k, distinct i k, own.2 k, own.2 i, k_last, reached.0, reached.1)

    link_contents : contents g ++ v ∷ [] ≡ contents linked
    unfolding linked
    link_contents =
        sym (
          values_from-snoc g.value g.len (g.first + 1) (g.len - (g.first + 1)) v
            (omega (arith, ordered, within)))
        ∙ ap (values_from (update g.value g.len v) (g.first + 1)) {x = suc (g.len - (g.first + 1))}
            (omega (arith, ordered, within))

    link_Shape : Shape (record m { heap = linked_heap }) linked
    unfolding linked linked_heap
    link_Shape = record {
      nodes = link_nodes;
      solid = λ i h. ground (arith, solid i, own.0);
      distinct = λ i j h h' e. ground (arith, distinct i j, own.2 i, own.2 j);
      ordered = ordered;
      within = omega (arith, within);
      head = ground (arith, head, ordered, within);
      tail = ground (arith, tail, within);
    }

    link_Done :
        (p : Pc)
        → owned p ≡ some (n, v)
        → (g' : Order) × Done m g p (record m { heap = linked_heap }) idle (enqueued v) g'
    unfolding linked linked_heap spec
    link_Done p o = (
      linked,
      record {
        shape = link_Shape;
        extends = record {
          places = λ i h. ground arith;
          values = λ i h. ground arith;
          longer = omega arith;
          firsts = omega arith;
          lasts = omega arith;
        };
        fits = tt;
        accepted = ap some link_contents;
        frame = λ a h. ground (arith, h k, reached.1, k_last);
        keeps = λ a w e. cc;
        gains = λ i h. elim (Bool-cases (g.len == i)) [
          | inl e ↦ inr ((v, ground arith), refl)
          | inr e ↦ inl (ground arith)
        ];
      },
    )

  -- `head` moves on to the node behind it, whose value is taken.
  take_Done :
      (first next : Ptr) (v : ℤ) (k : ℕ)
      → k + 1 ≤ g.last
      → IsReached g first k
      → IsNext g k next
      → v ≡ g.value (k + 1)
      → m.head ≡ first
      → (g' : Order) × Done m g
          (deq_cas first next v)
          (record m { head = next })
          idle
          (dequeued v)
          g'
  unfolding spec
  take_Done first next v k le (le', at) (lt, at') is e =
      let same =
        distinct k g.first (omega (arith, lt)) (omega (arith, ordered, within)) (ground arith) in
      let front = ap (λ j. values_from g.value (j + 1) (g.len - (j + 1))) same in
      let more =
        ap (values_from g.value (k + 1)) {x = g.len - (k + 1)} {y = suc (g.len - (k + 1 + 1))}
          (omega (arith, lt)) in
      (
        record g { first = k + 1 },
        record {
          shape = record {
            nodes = nodes;
            solid = solid;
            distinct = distinct;
            ordered = le;
            within = within;
            head = at';
            tail = tail;
          };
          extends = record {
            places = λ i h. refl;
            values = λ i h. refl;
            longer = omega arith;
            firsts = omega (arith, same);
            lasts = omega arith;
          };
          fits = tt;
          accepted =
              subst
                (λ xs.
                  spec (dequeued v) xs
                  ≡ some (values_from g.value (k + 1 + 1) (g.len - (k + 1 + 1))))
                (sym more ∙ front) (ground (arith, is, ==ℤ_refl v));
          frame = λ a h. refl;
          keeps = λ n w o. cc;
          gains = λ i h. inl h;
        },
      )

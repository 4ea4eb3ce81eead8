-- ===== src/LfStack/Local.antt =====
-- What one step does, seen from the thread that takes it.
use public_conc_exp.Common.{
  update, ◌≡◌, ◌≢◌, refl, ◌⊎◌, inl, inr, true, false, some, [], ◌∷◌, arith, ℤ, ==ℤ_refl, ◌==◌,
  minus_one, Run, ok, Bool-cases,
}
use public_conc_exp.LfStack.{
  Ptr, null, node, Mem, Pc, idle, push_load, push_link, push_cas, pop_load, pop_test, pop_cas,
  pop_value, Label, silent, pushed, popped, saw_empty, returned, act,
}
use public_conc_exp.LfStack.Chain.{
  Cells, first, has_cell, IsChain, owns, reads, IsNode, Fits, after, spec, IsAccepted,
  IsChain-frame,
}

-- Everything that a step of a thread from `p` to `p'` promises.
pub record Done (m : Mem) (cells : Cells) (p : Pc) (m' : Mem) (p' : Pc) (l : Label) : Type 0 where
  pub top : m'.top ≡ first (after l cells)
  pub chain : IsChain m'.heap (after l cells)
  pub fits : Fits m'.heap (after l cells) p'
  pub accepted : IsAccepted l cells
  pub frame : (a : Ptr) → owns p a ≡ false → m'.heap a ≡ m.heap a
  pub keeps : (a : Ptr) → owns p' a ≡ true → owns p a ≡ true
  pub gains : (a : Ptr) → reads p' a ≡ true → (reads p a ≡ true) ⊎ (has_cell a cells ≡ true)
  pub cells_kept :
      (a : Ptr) → owns p a ≡ false → has_cell a (after l cells) ≡ true → has_cell a cells ≡ true

abbrev pub Does : Mem → Cells → Pc → Run (Mem × Pc × Label) → Type 0
Does m cells p (ok (m', p', l)) = Done m cells p m' p' l
Does m cells p _ = ⊥

module _ (m : Mem) (cells : Cells) (top : m.top ≡ first cells) (chain : IsChain m.heap cells) where
  -- A step that leaves memory and the abstract stack alone.
  stay :
      (p p' : Pc) (l : Label)
      → after l cells ≡ cells
      → IsAccepted l cells
      → Fits m.heap cells p'
      → ((a : Ptr) → owns p' a ≡ true → owns p a ≡ true)
      → ((a : Ptr) → reads p' a ≡ true → (reads p a ≡ true) ⊎ (has_cell a cells ≡ true))
      → Done m cells p m p' l
  stay p p' l same accepted fits keeps gains = record {
    top = rw same top;
    chain = rw same chain;
    fits = rw same fits;
    accepted = accepted;
    frame = λ a o. refl;
    keeps = keeps;
    gains = gains;
    cells_kept = λ a o. rw same (λ h. h);
  }

  top_mem : (a : Ptr) → a ≢ null → m.top ≡ a → (has_cell a cells ≡ true) × IsNode m.heap a
  top_mem a ne e = top_cell cells top chain
    where
      top_cell :
          (cs : Cells)
          → m.top ≡ first cs
          → IsChain m.heap cs
          → (has_cell a cs ≡ true) × IsNode m.heap a
      top_cell [] t c = absurd (ne (ground arith))
      top_cell ((b, v) ∷ cs) t c = (ground arith, (node v (first cs), ground arith))

  none-IsAccepted : (m.top == null) ≡ true → IsAccepted saw_empty cells
  unfolding spec
  none-IsAccepted e = empty_accepted cells top chain
    where
      empty_accepted : (cs : Cells) → m.top ≡ first cs → IsChain m.heap cs → IsAccepted saw_empty cs
      empty_accepted [] t c = refl
      empty_accepted ((a, v) ∷ cs) t c = absurd (c.0 (ground arith))

  link_Done :
      (n old : Ptr) (v : ℤ)
      → n ≢ null
      → has_cell n cells ≡ false
      → Done m cells
          (push_link n v old)
          (record m { heap = update m.heap n (some (node v old)) })
          (push_cas n v old)
          silent
  unfolding spec
  link_Done n old v ne out = record {
    top = top;
    chain = IsChain-frame _ _ cells (λ a i. ground arith) chain;
    fits = (ne, out, ground arith);
    accepted = refl;
    frame = λ a o. ground arith;
    keeps = λ a o. o;
    gains = λ a o. cc;
    cells_kept = λ a o h. h;
  }

  push_Done :
      (n old : Ptr) (v : ℤ)
      → n ≢ null
      → m.heap n ≡ some (node v old)
      → m.top ≡ old
      → Done m cells (push_cas n v old) (record m { top = n }) idle (pushed n v)
  unfolding spec
  push_Done n old v ne held e = record {
    top = refl;
    chain = (ne, ground arith, chain);
    fits = tt;
    accepted = refl;
    frame = λ a o. refl;
    keeps = λ a o. cc;
    gains = λ a o. cc;
    cells_kept = λ a o h. ground arith;
  }

  pop_Done :
      (old next : Ptr) (v : ℤ)
      → old ≢ null
      → m.heap old ≡ some (node v next)
      → m.top ≡ old
      → Done m cells (pop_cas old next) (record m { top = next }) (pop_value old v) (popped v)
  unfolding spec
  pop_Done old next v ne held e = pop_cell cells top chain
    where
      pop_cell :
          (cs : Cells)
          → m.top ≡ first cs
          → IsChain m.heap cs
          → Done m cs (pop_cas old next) (record m { top = next }) (pop_value old v) (popped v)
      pop_cell [] t c = absurd (ne (ground arith))
      pop_cell ((b, w) ∷ cs) t c = record {
        top = ground arith;
        chain = c.2;
        fits = (next, held);
        accepted = ground (arith, ==ℤ_refl v);
        frame = λ a o. refl;
        keeps = λ a o. o;
        gains = λ a o. inl o;
        cells_kept = λ a o h. ground arith;
      }

  -- Every step of a thread whose locals fit is made without a fault, and keeps its promises.
  pub act-Does : (p : Pc) → Fits m.heap cells p → Does m cells p (act m p)
  unfolding act spec
  act-Does idle f = stay idle idle silent refl refl tt (λ a o. o) (λ a o. inl o)
  act-Does (push_load n v) f = stay _ _ silent refl refl f (λ a o. o) (λ a o. cc)
  act-Does (push_link n v old) (ne, out, (q, e)) = rw (e, Does) (link_Done n old v ne out)
  act-Does (push_cas n v old) (ne, out, held) = elim (Bool-cases (m.top == old)) [
    | inl e ↦ rw (e, Does) (push_Done n old v ne held (ground arith))
    | inr e ↦ rw (e, Does) (stay _ _ silent refl refl (ne, out, (old, held)) (λ a o. o) (λ a o. cc))
  ]
  act-Does pop_load f = elim (Bool-cases (m.top == null)) [
    | inl e ↦
        rw (e, Does)
          (stay _ _ saw_empty refl (none-IsAccepted e) (λ ne. absurd (ground arith)) (λ a o. cc)
            (λ a o. ground arith))
    | inr e ↦
        rw (e, Does)
          (stay _ _ silent refl refl (λ ne. (top_mem m.top ne refl).1) (λ a o. cc)
            (λ a o. ground (arith, top_mem a)))
  ]
  act-Does (pop_test old) f = elim (Bool-cases (old == null)) [
    | inl e ↦ rw (e, Does) (stay _ _ (returned minus_one) refl refl tt (λ a o. cc) (λ a o. cc))
    | inr e ↦
        let ne : old ≢ null = ground arith in
        let (c, held) = f ne in
        rw (e, Does, held)
          (stay _ _ silent refl refl (ne, (c.value, held)) (λ a o. cc) (λ a o. ground arith))
  ]
  act-Does (pop_cas old next) (ne, (v, held)) = elim (Bool-cases (m.top == old)) [
    | inl e ↦ rw (e, Does, held) (pop_Done old next v ne held (ground arith))
    | inr e ↦ rw (e, Does) (stay _ _ silent refl refl tt (λ a o. cc) (λ a o. cc))
  ]
  act-Does (pop_value old v) (q, held) =
      rw (held, Does) (stay _ _ (returned v) refl refl tt (λ a o. cc) (λ a o. cc))

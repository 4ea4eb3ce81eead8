-- ===== src/MsQueue/Local/Moves.antt =====
-- Every step of a thread of the Michael-Scott queue: made without a fault, and as promised.
use public_conc_exp.Common.{
  ℕ, ◌+◌, ◌-◌, ◌≤◌, ◌≡◌, refl, sym, ap, ◌⊎◌, inl, inr, true, false, some, [], arith, ℤ, ◌==◌,
  Bool-cases, subst, ltb,
}
use public_conc_exp.Spec.Numbered.{values_from}
use public_conc_exp.MsQueue.{
  Ptr, null, node, Mem, Pc, idle, enq_last, enq_next, enq_check, enq_link, enq_help, deq_first,
  deq_last, deq_next, deq_check, deq_help, deq_value, deq_cas, silent, saw_empty, returned_empty,
  act,
}
use public_conc_exp.MsQueue.Chain.{
  Order, follower, contents, Shape, IsReached, IsNext, Fits, owned, IsOwned, spec,
}
use public_conc_exp.MsQueue.Local.{Does, stay, help_Done, take_Done, link_Done, linked, linked_heap}

module _ (m : Mem) (g : Order) (shape : Shape m g) where
  open shape use {nodes, solid, distinct, ordered, within, head, tail}

  empty_lem : (k : ℕ) → k ≤ g.first → g.len ≤ k + 1 → contents g ≡ []
  empty_lem k le ge =
      ap (values_from g.value (g.first + 1)) {x = g.len - (g.first + 1)} {y = 0}
        (omega (arith, le, ge))

  empty_accepted : contents g ≡ [] → spec saw_empty (contents g) ≡ some (contents g)
  unfolding spec
  empty_accepted e = subst (λ xs. spec saw_empty xs ≡ some xs) (sym e) refl

  -- The node at `k` and what its field `next` says.
  read-IsNext :
      (p : Ptr) (k : ℕ)
      → IsReached g p k
      → (c : ℤ) × (q : Ptr) × (m.heap p ≡ some (node c q))
        × (((q ≡ null) × (g.len ≤ k + 1)) ⊎ IsNext g k q)
  read-IsNext p k (le, at) = elim (Bool-cases (ltb (k + 1) g.len)) [
    | inl lt ↦ (g.value k, g.place (k + 1), ground (arith, nodes k, within), inr (ground arith))
    | inr ge ↦ (g.value k, null, ground (arith, nodes k, within), inl (ground arith))
  ]

  next_solid : (k : ℕ) (q : Ptr) → IsNext g k q → (q == null) ≡ false
  next_solid k q (lt, at) = ground (arith, solid (k + 1))

  -- Every step of a thread whose locals fit is made without a fault, and keeps its promises.
  pub act-Does :
      (p : Pc)
      → Fits g p
      → ((n : Ptr) (v : ℤ) → owned p ≡ some (n, v) → IsOwned m g n v)
      → Does m g p (act m p)
  unfolding act spec linked linked_heap
  act-Does idle f own = stay m g shape idle idle silent refl tt (λ n v o. o)
  act-Does (enq_last n v) f own =
      stay m g shape _ _ silent refl (g.last, (omega arith, tail)) (λ a w o. o)
  act-Does (enq_next n v last) (k, at) own =
      let (c, q, held, next) = read-IsNext last k at in
      rw (held, Does)
        (stay m g shape _ _ silent refl (k, at, elim next [ inl (z, ge) ↦ inl z | inr nx ↦ inr nx ])
          (λ a w o. o))
  act-Does (enq_check n v last next) (k, at, is) own = elim (Bool-cases (last == m.tail)) [
    | inr e ↦ rw (e, Does) (stay m g shape _ _ silent refl tt (λ a w o. o))
    | inl e ↦ elim is [
      | inl z ↦
          let z' : (next == null) ≡ true = ground arith in
          rw (e, Does, z') (stay m g shape _ _ silent refl (k, at) (λ a w o. o))
      | inr nx ↦
          rw (e, Does, next_solid k next nx)
            (stay m g shape _ _ silent refl (k, at, nx) (λ a w o. o))
    ]
  ]
  act-Does (enq_link n v last) (k, at) own =
      let (c, q, held, next) = read-IsNext last k at in
      elim next [
        | inl (z, ge) ↦
            let held' : m.heap last ≡ some (node c null) = ground arith in
            rw (held', Does)
              (link_Done m g shape n last v k c (own n v refl) at held' (enq_link n v last) refl)
        | inr nx ↦
            rw (held, Does, next_solid k q nx) (stay m g shape _ _ silent refl tt (λ a w o. o))
      ]
  act-Does (enq_help n v last next) (k, at, is) own = elim (Bool-cases (m.tail == last)) [
    | inl e ↦
        rw (e, Does) (help_Done m g shape _ _ last next k at is (ground arith) tt (λ a w o. o))
    | inr e ↦ rw (e, Does) (stay m g shape _ _ silent refl tt (λ a w o. o))
  ]
  act-Does deq_first f own =
      stay m g shape _ _ silent refl (g.first, omega arith, (ordered, head)) (λ a w o. o)
  act-Does (deq_last first) (k, le, at) own =
      stay m g shape _ _ silent refl
        (k, g.last, le, omega (arith, ordered), at, (omega arith, tail)) (λ a w o. o)
  act-Does (deq_next first last) (k, j, le, kj, at, at') own =
      let (c, q, held, next) = read-IsNext first k at in
      elim next [
        | inl (z, ge) ↦
            let held' : m.heap first ≡ some (node c null) = ground arith in
            let same : k ≡ j = omega (arith, ge, kj, at'.0, within) in
            rw (held', Does)
              (stay m g shape _ _ saw_empty (empty_accepted (empty_lem k le ge))
                (k, j, le, kj, at, at', inl (refl, same)) (λ a w o. o))
        | inr nx ↦
            rw (held, Does, next_solid k q nx)
              (stay m g shape _ _ silent refl (k, j, le, kj, at, at', inr nx) (λ a w o. o))
      ]
  act-Does (deq_check first last next) (k, j, le, kj, at, at', is) own =
      elim (Bool-cases (first == m.head)) [
        | inr e ↦ rw (e, Does) (stay m g shape _ _ silent refl tt (λ a w o. o))
        | inl e ↦ elim (Bool-cases (first == last)) [
          | inl e' ↦ elim is [
            | inl (z, same) ↦
                let z' : (next == null) ≡ true = ground arith in
                rw (e, Does, e', z') (stay m g shape _ _ returned_empty refl tt (λ a w o. o))
            | inr nx ↦
                rw (e, Does, e', next_solid k next nx)
                  (stay m g shape _ _ silent refl (k, ground arith, nx) (λ a w o. o))
          ]
          | inr e' ↦ elim is [
            | inl (z, same) ↦ absurd (ground arith)
            | inr nx ↦
                rw (e, Does, e')
                  (stay m g shape _ _ silent refl (k, ground arith, at, nx) (λ a w o. o))
          ]
        ]
      ]
  act-Does (deq_help last next) (k, at, is) own = elim (Bool-cases (m.tail == last)) [
    | inl e ↦
        rw (e, Does) (help_Done m g shape _ _ last next k at is (ground arith) tt (λ a w o. o))
    | inr e ↦ rw (e, Does) (stay m g shape _ _ silent refl tt (λ a w o. o))
  ]
  act-Does (deq_value first next) (k, le, at, (lt, at'')) own =
      let held : m.heap next ≡ some (node (g.value (k + 1)) (follower g (k + 1))) =
        ground (arith, nodes (k + 1)) in
      rw (held, Does) (stay m g shape _ _ silent refl (k, le, at, (lt, at''), refl) (λ a w o. o))
  act-Does (deq_cas first next v) (k, le, at, is, eq) own = elim (Bool-cases (m.head == first)) [
    | inl e ↦ rw (e, Does) (take_Done m g shape first next v k le at is eq (ground arith))
    | inr e ↦ rw (e, Does) (stay m g shape _ _ silent refl tt (λ a w o. o))
  ]

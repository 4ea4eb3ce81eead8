-- ===== src/HandList/Threads/Progress.antt =====
-- The hand-over-hand list is never deadlocked: locks are taken in the order of the nodes.
use public_conc_exp.Common.{
  ℕ, ◌≡◌, ◌≢◌, refl, sym, ap, ◌∙◌, subst, true, ◌⊎◌, inl, inr, Bool-cases, none, some, List, [],
  ◌∷◌, arith, ℤ, Run, ok, blocked, fault, spins,
}
use public_conc_exp.Spec.History.{Reach}
use public_conc_exp.Spec.Calls.{Kind}
use public_conc_exp.Spec.SetCalls.{SetRequest}
use public_conc_exp.Rows.{Ptr, null}
use public_conc_exp.Rows.Row.{Linked, In}
use public_conc_exp.HandList.Threads.{
  list, Mem, Pc, idle, ins_list, ins_walk, ins_test, ins_lock, ins_release, ins_link, ins_store,
  rem_list, rem_head, rem_lock_head, rem_test_head, rem_release, rem_walk, rem_test, rem_lock,
  rem_lock_next, rem_skip, rem_store, rem_unlock_next, pop_list, pop_head, pop_lock, pop_skip,
  pop_store, pop_unlock_node, pop_unlock_list, pop_data, leave, Label, acquire, act, System, Step,
  init,
}
use public_conc_exp.HandList.Threads.Shape.{lower, upper, At, Fits, Holds}
use public_conc_exp.HandList.Threads.Local.{Does}
use public_conc_exp.HandList.Threads.Moves.{act_Does}
use public_conc_exp.HandList.Threads.Invariant.{Inv}
use public_conc_exp.HandList.Threads.History.{reach_Inv}

-- From a node of a row, a row leads to null.
tail-Linked :
    (f : Ptr → Ptr) (p : Ptr) (xs : List Ptr) (c : Ptr)
    → Linked f p xs
    → In c xs
    → (ys : List Ptr) × Linked f c ys
tail-Linked f p [] c linked i = absurd i
tail-Linked f p (x ∷ xs) c (e, linked) (inl same) =
    (xs, subst (λ b. Linked f b xs) (sym same) linked)
tail-Linked f p (x ∷ xs) c (e, linked) (inr i) = tail-Linked f x xs c linked i

At-Linked :
    (f : Ptr → Ptr) (xs : List Ptr) (c : Ptr)
    → Linked f list xs
    → At xs c
    → (ys : List Ptr) × Linked f c ys
At-Linked f xs c linked (inl root) = (xs, subst (λ b. Linked f b xs) (sym root) linked)
At-Linked f xs c linked (inr i) = tail-Linked f list xs c linked i

-- The lock that a blocked thread waits for: that of the list, when it holds none, or that of the node
-- next to the only one that it holds.
abbrev Waits : Mem → List Ptr → Pc → Ptr → Type 0
Waits m xs p a =
    ((a ≡ list) × ((c : Ptr) → ¬ (Holds p c)) × (m.node_lock a ≡ true))
    ⊎ ((c : Ptr) × (lower p ≡ some c)
        × (upper p ≡ none)
        × At xs c
        × (m.next_node c ≡ a)
        × (a ≢ null)
        × (m.node_lock a ≡ true))

acquire_blocked : (m : Mem) (q : Ptr) (p : Pc) → acquire m q p ≡ blocked → m.node_lock q ≡ true
acquire_blocked m q p e = elim (Bool-cases (m.node_lock q)) [
  | inl h ↦ h
  | inr h ↦ absurd (ground arith)
]

module _ (data_of : Ptr → ℤ) where
  blocked-Waits :
      (m : Mem) (xs : List Ptr) (p : Pc)
      → Fits data_of m xs p
      → act data_of m p ≡ blocked
      → (a : Ptr) × Waits m xs p a
  unfolding act
  blocked-Waits m xs idle f e = absurd (ground arith)
  blocked-Waits m xs (ins_list v n) f e =
      (list, inl (refl, λ c h. absurd (ground (arith, h)), acquire_blocked m list _ e))
  blocked-Waits m xs (ins_walk v n c) f e = absurd (ground arith)
  blocked-Waits m xs (ins_test v n c q) f e = absurd (ground arith)
  blocked-Waits m xs (ins_lock v n c q) f e =
      (q, inr (c, refl, refl, f.at, f.ahead_of, f.found.0, acquire_blocked m q _ e))
  blocked-Waits m xs (ins_release v n c q) f e = absurd (ground arith)
  blocked-Waits m xs (ins_link v n c q) f e = absurd (ground arith)
  blocked-Waits m xs (ins_store v n c q) f e = absurd (ground arith)
  blocked-Waits m xs (rem_list v) f e =
      (list, inl (refl, λ c h. absurd (ground (arith, h)), acquire_blocked m list _ e))
  blocked-Waits m xs (rem_head v) f e = absurd (ground arith)
  blocked-Waits m xs (rem_lock_head v q) f e =
      (q, inr (list, refl, refl, f.at, f.ahead_of, f.found, acquire_blocked m q _ e))
  blocked-Waits m xs (rem_test_head v q) f e = absurd (ground arith)
  blocked-Waits m xs (rem_release b v c q) f e = absurd (ground arith)
  blocked-Waits m xs (rem_walk b v c) f e = absurd (ground arith)
  blocked-Waits m xs (rem_test b v c q) f e = absurd (ground arith)
  blocked-Waits m xs (rem_lock b v c q) f e =
      (q, inr (c, refl, refl, f.at, f.ahead_of, f.found.0, acquire_blocked m q _ e))
  blocked-Waits m xs (rem_lock_next v c q) f e =
      (q, inr (c, refl, refl, f.at, f.ahead_of, f.found.0, acquire_blocked m q _ e))
  blocked-Waits m xs (rem_skip v c q) f e = absurd (ground arith)
  blocked-Waits m xs (rem_store v c q r) f e = absurd (ground arith)
  blocked-Waits m xs (rem_unlock_next v c q) f e = absurd (ground arith)
  blocked-Waits m xs pop_list f e =
      (list, inl (refl, λ c h. absurd (ground (arith, h)), acquire_blocked m list _ e))
  blocked-Waits m xs pop_head f e = absurd (ground arith)
  blocked-Waits m xs (pop_lock q) f e =
      (q, inr (list, refl, refl, f.at, f.ahead_of, f.found, acquire_blocked m q _ e))
  blocked-Waits m xs (pop_skip q) f e = absurd (ground arith)
  blocked-Waits m xs (pop_store q r) f e = absurd (ground arith)
  blocked-Waits m xs (pop_unlock_node q) f e = absurd (ground arith)
  blocked-Waits m xs (pop_unlock_list q) f e = absurd (ground arith)
  blocked-Waits m xs (pop_data q) f e = absurd (ground arith)
  blocked-Waits m xs (leave c reply) f e = absurd (ground arith)

  Does-cases :
      (m : Mem) (xs : List Ptr) (p : Pc) (r : Run (Mem × Pc × Label))
      → Does data_of m xs p r
      → ((o : Mem × Pc × Label) × (r ≡ ok o)) ⊎ (r ≡ blocked)
  Does-cases m xs p (ok o) d = inl (o, refl)
  Does-cases m xs p blocked d = inr refl
  Does-cases m xs p fault d = absurd d
  Does-cases m xs p spins d = absurd d

  -- A thread in a call that can take its next step.
  abbrev pub CanMove : System → ℕ → Type 0
  CanMove s j = (s.pc j ≢ idle) × ((o : Mem × Pc × Label) × (act data_of s.mem (s.pc j) ≡ ok o))

  module _ {s : System} {xs : List Ptr} (inv : Inv data_of s xs) where
    -- A thread can move or waits.
    moves_or_Waits :
        (j : ℕ)
        → ((o : Mem × Pc × Label) × (act data_of s.mem (s.pc j) ≡ ok o))
          ⊎ ((a : Ptr) × Waits s.mem xs (s.pc j) a)
    moves_or_Waits j =
        elim (Does-cases s.mem xs (s.pc j) (act data_of s.mem (s.pc j))
          (act_Does data_of s.mem xs inv.shape (s.pc j) (inv.fits j) (inv.locked j))) [
            | inl moves ↦ inl moves
            | inr e ↦ inr (blocked-Waits s.mem xs (s.pc j) (inv.fits j) e)
          ]

    busy : (j : ℕ) (c : Ptr) → Holds (s.pc j) c → s.pc j ≢ idle
    busy j c h e = let h' = subst (λ p. Holds p c) e h in ground (arith, h')

    Waits-next_node :
        (j : ℕ) (c : Ptr)
        → Holds (s.pc j) c
        → (a : Ptr) → Waits s.mem xs (s.pc j) a
        → (b : Ptr) × (s.mem.next_node c ≡ b) × (b ≢ null) × ((k : ℕ) × Holds (s.pc k) b)
    Waits-next_node j c h a (inl (root, free, locked)) = absurd (free c h)
    Waits-next_node j c h a (inr (d, low, up, at, e, ne, locked)) =
        let same : c ≡ d = ground (arith, h, low, up) in
        (a, ap s.mem.next_node same ∙ e, ne, inv.holder a locked)

    -- A thread that holds the lock of `c` can move, or waits for the next node, whose lock some thread
    -- holds.
    moves_or_next :
        (j : ℕ) (c : Ptr)
        → Holds (s.pc j) c
        → CanMove s j
          ⊎ ((a : Ptr) × (s.mem.next_node c ≡ a) × (a ≢ null) × ((k : ℕ) × Holds (s.pc k) a))
    moves_or_next j c h = elim (moves_or_Waits j) [
      | inl moves ↦ inl (busy j c h, moves)
      | inr (a, w) ↦ inr (Waits-next_node j c h a w)
    ]

    -- The holder of a lock can move, or some thread further on can.
    ahead_moves :
        (ys : List Ptr) (c : Ptr)
        → Linked s.mem.next_node c ys
        → (j : ℕ) → Holds (s.pc j) c
        → (k : ℕ) × CanMove s k
    ahead_moves [] c linked j h = elim (moves_or_next j c h) [
      | inl moves ↦ (j, moves)
      | inr (a, e, ne, (k, held)) ↦ absurd (ne (sym e ∙ linked))
    ]
    ahead_moves (y ∷ ys) c (e', linked) j h = elim (moves_or_next j c h) [
      | inl moves ↦ (j, moves)
      | inr (a, e, ne, (k, held)) ↦
          ahead_moves ys y linked k (subst (λ b. Holds (s.pc k) b) (sym e ∙ e') held)
    ]

    some_moves : (i : ℕ) → s.pc i ≢ idle → (k : ℕ) × CanMove s k
    some_moves i ne = elim (moves_or_Waits i) [
      | inl moves ↦ (i, (ne, moves))
      | inr (a, inl (root, free, locked)) ↦
          let (k, held) = inv.holder a locked in
          ahead_moves xs list inv.shape.linked k (subst (λ b. Holds (s.pc k) b) root held)
      | inr (a, inr (c, low, up, in_list, e, nonnull, locked)) ↦
          let (ys, linked) = At-Linked s.mem.next_node xs c inv.shape.linked in_list in
          ahead_moves ys c linked i (inl low)
    ]

  -- Freedom from deadlock. If new nodes are zeroed, then in every state that `insert`, `remove` and
  -- `removeFirst` can lead to, if some thread is in a call, then some thread in a call can take its
  -- next step: it is not waiting for a lock.
  pub hand_progress :
      (junk : Ptr) {history : List (ℕ × Kind SetRequest)} {s : System}
      → Reach (Step data_of null) (init junk) history s
      → (i : ℕ) → s.pc i ≢ idle
      → (k : ℕ) × CanMove s k
  hand_progress junk r i ne =
      let ((xs, calls), (inv, same), e) = reach_Inv data_of junk r in some_moves inv i ne

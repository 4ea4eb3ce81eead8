-- ===== src/SkipList/Link.antt =====
-- The pointers after the loops of `insert` and `remove` that set them.
use public_conc_exp.Common.{
  ℕ, zero, suc, ◌+◌, ◌-◌, ◌≤◌, ◌<◌, ◌≡◌, ◌≢◌, refl, sym, ap, ◌∙◌, subst, Bool, true, false, ◌&&◌,
  inl, inr, Bool-cases, arith, ◌==◌, ==_refl, if◌then◌else◌,
}
use public_conc_exp.Rows.{Ptr}
use public_conc_exp.SkipList.{
  SkipList, store_level, randomlvl_from, randomlvl, link_upto, unlink_from,
}

module _ (lvls : Ptr → ℕ → Ptr) (p : Ptr) (i : ℕ) (q : Ptr) where
  store_level_here : store_level lvls p i q p i ≡ q
  store_level_here = ground arith

  store_level_other : (p' : Ptr) (j : ℕ) → p' ≢ p → store_level lvls p i q p' j ≡ lvls p' j
  store_level_other p' j ne = ground arith

  store_level_level : (p' : Ptr) (j : ℕ) → j ≢ i → store_level lvls p i q p' j ≡ lvls p' j
  store_level_level p' j ne = ground arith

==_eq : (k i : ℕ) → (k == i) ≡ true → k ≡ i
==_eq k i h = ground arith

==_ne : (k i : ℕ) → (k == i) ≡ false → i ≢ k
==_ne k i h = ground arith

module _ (update : ℕ → Ptr) (n : Ptr) (lvls : Ptr → ℕ → Ptr) where
  -- What one round of `insert` sets on its level.
  abbrev led : ℕ → Ptr → ℕ → Ptr
  led k = let before = link_upto k update n lvls in store_level before n k (before (update k) k)

  level_kept :
      (k i : ℕ) (p : Ptr)
      → i ≢ k
      → store_level (led k) (update k) k n p i ≡ link_upto k update n lvls p i
  level_kept k i p ne =
      let before = link_upto k update n lvls in
      store_level_level (led k) (update k) k n p i ne
      ∙ store_level_level before n k (before (update k) k) p i ne

  pub link_upto-above : (k i : ℕ) (p : Ptr) → k ≤ i → link_upto k update n lvls p i ≡ lvls p i
  unfolding link_upto
  link_upto-above zero i p le = refl
  link_upto-above (suc k) i p le =
      level_kept k i p (omega arith) ∙ link_upto-above k i p (omega arith)

  pub link_upto-update : (k i : ℕ) → i < k → link_upto k update n lvls (update i) i ≡ n
  unfolding link_upto
  link_upto-update zero i lt = absurd (omega arith)
  link_upto-update (suc k) i lt = elim (Bool-cases (k == i)) [
    | inl e ↦
        subst (λ m. store_level (led k) (update k) k n (update m) m ≡ n) (==_eq k i e)
          (store_level_here (led k) (update k) k n)
    | inr e ↦
        let ne = ==_ne k i e in
        level_kept k i (update i) ne ∙ link_upto-update k i (omega (arith, ne))
  ]

  pub link_upto-node :
      (k i : ℕ) → i < k → update i ≢ n → link_upto k update n lvls n i ≡ lvls (update i) i
  unfolding link_upto
  link_upto-node zero i lt ne = absurd (omega arith)
  link_upto-node (suc k) i lt ne = elim (Bool-cases (k == i)) [
    | inl e ↦
        let before = link_upto k update n lvls in
        let q = before (update k) k in
        let same = ==_eq k i e in
        store_level_other (led k) (update k) k n n i (λ h. ne (sym (h ∙ ap update same)))
        ∙ subst (λ m. store_level before n k q n m ≡ lvls (update m) m) same
            (store_level_here before n k q ∙ link_upto-above k k (update k) (omega arith))
    | inr e ↦
        let other = ==_ne k i e in
        level_kept k i n other ∙ link_upto-node k i (omega (arith, other)) ne
  ]

  pub link_upto-other :
      (k i : ℕ) (p : Ptr) → p ≢ n → p ≢ update i → link_upto k update n lvls p i ≡ lvls p i
  unfolding link_upto
  link_upto-other zero i p np nu = refl
  link_upto-other (suc k) i p np nu = elim (Bool-cases (k == i)) [
    | inl e ↦
        let before = link_upto k update n lvls in
        store_level_other (led k) (update k) k n p i (λ h. nu (h ∙ ap update (==_eq k i e)))
        ∙ store_level_other before n k (before (update k) k) p i np
        ∙ link_upto-other k i p np nu
    | inr e ↦ level_kept k i p (==_ne k i e) ∙ link_upto-other k i p np nu
  ]

randomlvl_from-le : (up : ℕ → Bool) (left lvl : ℕ) → randomlvl_from up left lvl ≤ lvl + left
unfolding randomlvl_from
randomlvl_from-le up zero lvl = omega arith
randomlvl_from-le up (suc left) lvl = ground (arith, randomlvl_from-le up left (lvl + 1))

-- The level of a new node is a level of the list, if the list has one.
pub randomlvl_lem : (up : ℕ → Bool) (s : SkipList) → 0 < s.levels → randomlvl up s < s.levels
unfolding randomlvl
randomlvl_lem up s lt = omega (arith, randomlvl_from-le up (s.levels - 1) 0)

-- A test that holds at a number if it holds at the next one fails from where it fails.
fails_on :
    (test : ℕ → Bool) (i j : ℕ)
    → ((k : ℕ) → i ≤ k → suc k ≤ j → test (suc k) ≡ true → test k ≡ true)
    → i ≤ j
    → test i ≡ false
    → test j ≡ false
fails_on test i zero down le e = subst (λ m. test m ≡ false) {x = i} {y = 0} (omega arith) e
fails_on test i (suc j) down le e = elim (Bool-cases (i == suc j)) [
  | inl h ↦ subst (λ m. test m ≡ false) (==_eq i (suc j) h) e
  | inr h ↦
      let ne = ==_ne i (suc j) h in
      let le' : i ≤ j = omega (arith, ne) in
      let before = fails_on test i j (λ k at lt. down k at (omega arith)) le' e in
      elim (Bool-cases (test (suc j))) [
        | inl t ↦ absurd (ground (arith, before, down j le' (omega arith) t))
        | inr f ↦ f
      ]
]

module _ (update : ℕ → Ptr) (x : Ptr) where
  -- Does the node stand behind the cut on a level?
  abbrev pub is_cut : (Ptr → ℕ → Ptr) → ℕ → Bool
  is_cut lvls j = lvls (update j) j == x

  -- Where it does, it does so on the levels below, down to the given one.
  abbrev pub Downward : (Ptr → ℕ → Ptr) → (left i : ℕ) → Type 0
  Downward lvls left i =
      (j : ℕ) → i ≤ j → suc j < i + left → is_cut lvls (suc j) ≡ true → is_cut lvls j ≡ true

  -- What the loop of `remove` leaves on a level.
  abbrev pub cut_out : (Ptr → ℕ → Ptr) → Ptr → ℕ → Ptr
  cut_out lvls p j = if is_cut lvls j && (update j == p) then lvls x j else lvls p j

  pub cut_out-here :
      (lvls : Ptr → ℕ → Ptr) (p : Ptr) (j : ℕ)
      → is_cut lvls j ≡ true
      → update j ≡ p
      → cut_out lvls p j ≡ lvls x j
  cut_out-here lvls p j c e = rw (c, e, ==_refl p)

  pub cut_out-other :
      (lvls : Ptr → ℕ → Ptr) (p : Ptr) (j : ℕ) → p ≢ update j → cut_out lvls p j ≡ lvls p j
  cut_out-other lvls p j ne = ground arith

  pub cut_out-kept :
      (lvls : Ptr → ℕ → Ptr) (p : Ptr) (j : ℕ) → is_cut lvls j ≡ false → cut_out lvls p j ≡ lvls p j
  cut_out-kept lvls p j c = rw c

  unlink_from-below :
      (left i : ℕ) (lvls : Ptr → ℕ → Ptr) (p : Ptr) (j : ℕ)
      → j < i
      → unlink_from left i update x lvls p j ≡ lvls p j
  unfolding unlink_from
  unlink_from-below zero i lvls p j lt = refl
  unlink_from-below (suc left) i lvls p j lt =
      let once = store_level lvls (update i) i (lvls x i) in
      elim (Bool-cases (is_cut lvls i)) [
        | inl e ↦ rw e (
            unlink_from-below left (i + 1) once p j (omega arith)
            ∙ store_level_level lvls (update i) i (lvls x i) p j (omega arith))
        | inr e ↦ rw e
      ]

  pub unlink_from_lem :
      (left i : ℕ) (lvls : Ptr → ℕ → Ptr)
      → Downward lvls left i
      → (p : Ptr) (j : ℕ) → i ≤ j
      → j < i + left
      → unlink_from left i update x lvls p j ≡ cut_out lvls p j
  unfolding unlink_from
  unlink_from_lem zero i lvls down p j le lt = absurd (omega arith)
  unlink_from_lem (suc left) i lvls down p j le lt =
      let once = store_level lvls (update i) i (lvls x i) in
      let other =
        λ (q : Ptr) (k : ℕ) (ne : k ≢ i). store_level_level lvls (update i) i (lvls x i) q k ne in
      elim (Bool-cases (is_cut lvls i)) [
        | inl e ↦ rw e (elim (Bool-cases (i == j)) [
          | inl h ↦
              subst (λ m. unlink_from left (i + 1) update x once p m ≡ cut_out lvls p m)
                (==_eq i j h)
                (unlink_from-below left (i + 1) once p i (omega arith)
                  ∙ rw (e, ==_refl i) (ground arith))
          | inr h ↦
              let ne = ==_ne i j h in
              unlink_from_lem left (i + 1) once
                (λ k at lt' c. rw (other (update k) k (omega arith)) (
                  down k (omega arith) (omega arith)
                    (rw (other (update (suc k)) (suc k) (omega arith)) at c)))
                p j (omega (arith, ne)) (omega arith)
              ∙ rw (other (update j) j ne, other x j ne, other p j ne)
        ])
        | inr e ↦
            rw (e, fails_on (λ k. is_cut lvls k) i j (λ k at lt'. down k at (omega arith)) le e)
      ]

-- ===== src/HandList/Threads/Invariant.antt =====
-- The invariant of all threads together, and that every step keeps it.
use public_conc_exp.Common.{
  update, update_here, ℕ, ◌≡◌, ◌≢◌, refl, sym, ap, ◌∙◌, subst, true, false, ◌⊎◌, inl, inr,
  Bool-cases, Option, none, some, List, arith, ℤ, ◌==◌,
}
use public_conc_exp.Rows.{Ptr}
use public_conc_exp.HandList.Threads.{list, Mem, Pc, Label, System, system}
use public_conc_exp.HandList.Threads.Shape.{
  lower, upper, fresh, ahead, beyond, aim, Each, Both, At, Shape, IsOwned, Fits, Holds,
}
use public_conc_exp.HandList.Threads.Local.{Done}

pub Each-imp :
    {A : Type 0} (o : Option A) (P Q : A → Type 0)
    → ((a : A) → o ≡ some a → P a → Q a)
    → Each o P
    → Each o Q
Each-imp none P Q f h = tt
Each-imp (some a) P Q f h = f a refl h

pub Both-imp :
    {A B : Type 0} (o : Option A) (b : Option B) (P Q : A → B → Type 0)
    → ((a : A) (c : B) → o ≡ some a → P a c → Q a c)
    → Both o b P
    → Both o b Q
Both-imp none b P Q f h = tt
Both-imp (some a) none P Q f h = tt
Both-imp (some a) (some c) P Q f h = f a c refl h

module _ (data_of : Ptr → ℤ) where
  -- No lock is held twice or by nobody, no new node has two owners, and no thread holds the lock of a new node.
  pub record Inv (s : System) (xs : List Ptr) : Type 0 where
    pub shape : Shape data_of s.mem xs
    pub fits : (i : ℕ) → Fits data_of s.mem xs (s.pc i)
    pub locked : (i : ℕ) (a : Ptr) → Holds (s.pc i) a → s.mem.node_lock a ≡ true
    pub single : (i j : ℕ) (a : Ptr) → Holds (s.pc i) a → Holds (s.pc j) a → i ≡ j
    pub sole :
        (i j : ℕ) (n : Ptr) (v w : ℤ)
        → fresh (s.pc i) ≡ some (n, v)
        → fresh (s.pc j) ≡ some (n, w)
        → i ≡ j
    pub apart : (i j : ℕ) (n : Ptr) (v : ℤ) → fresh (s.pc i) ≡ some (n, v) → ¬ (Holds (s.pc j) n)
    pub made : (i : ℕ) (a : Ptr) → Holds (s.pc i) a → (a ≡ list) ⊎ (s.mem.made a ≡ true)
    pub holder : (a : Ptr) → s.mem.node_lock a ≡ true → (i : ℕ) × Holds (s.pc i) a

  module _ {s : System} {xs : List Ptr} (inv : Inv s xs) (i : ℕ) where
    open inv use {shape, fits, locked, single, sole, apart, made, holder}

    pub owner-IsOwned : (j : ℕ) (o : Ptr × ℤ) → fresh (s.pc j) ≡ some o → IsOwned data_of s.mem xs o
    owner-IsOwned j o e = subst (λ f. Each f (IsOwned data_of s.mem xs)) e (fits j).own

    module _ {m : Mem} {p' : Pc} {l : Label} {xs' : List Ptr}
        (d : Done data_of s.mem xs (s.pc i) m p' l xs') where
      -- What holds of a thread that did not move still holds.
      keep_Fits : (j : ℕ) → j ≢ i → Fits data_of m xs' (s.pc j)
      keep_Fits j ne =
          let f = fits j in
          let free =
            λ (a : Ptr) (h : Holds (s.pc j) a) (h' : Holds (s.pc i) a). ne (single j i a h h') in
          let p = s.pc j in
          record {
            at = Each-imp (lower p) (At xs) (At xs') (λ a e h. d.kept a (free a (inl e)) h) f.at;
            ahead_of =
                Both-imp (lower p) (ahead p) (λ c q. s.mem.next_node c ≡ q)
                  (λ c q. m.next_node c ≡ q)
                  (λ c q e h. d.frame c (free c (inl e)) (λ v e'. apart i j c v e' (inl e)) ∙ h)
                  f.ahead_of;
            beyond_of =
                Both-imp (upper p) (beyond p) (λ c q. s.mem.next_node c ≡ q)
                  (λ c q. m.next_node c ≡ q)
                  (λ c q e h. d.frame c (free c (inr e)) (λ v e'. apart i j c v e' (inr e)) ∙ h)
                  f.beyond_of;
            aim_of =
                Both-imp (fresh p) (aim p) (λ o q. s.mem.next_node o.0 ≡ q)
                  (λ o q. m.next_node o.0 ≡ q)
                  (λ o q e h.
                    d.frame o.0 (λ held. apart j i o.0 o.1 e held)
                      (λ v e'. ne (sole j i o.0 o.1 v e e'))
                    ∙ h)
                  f.aim_of;
            found = f.found;
            own =
                Each-imp (fresh p) (IsOwned data_of s.mem xs) (IsOwned data_of m xs')
                  (λ o e h. (
                    h.0,
                    ap (λ g. g o.0) d.same_made ∙ h.1,
                    h.2,
                    λ at. elim (d.gained o.0 at) [
                      | inl before ↦ h.3 before
                      | inr (v, e') ↦ ne (sole j i o.0 o.1 v e e')
                    ],
                  ))
                  f.own;
          }

      Fits_after : (j : ℕ) → Fits data_of m xs' (update s.pc i p' j)
      Fits_after j = elim (Bool-cases (i == j)) [
        | inl e ↦ rw e d.fits
        | inr e ↦ rw e (keep_Fits j (λ h. ground arith))
      ]

      -- A lock that is held after the step was held before, or was free and is the moving thread's.
      held_before :
          (j : ℕ) (a : Ptr)
          → Holds (update s.pc i p' j) a
          → Holds (s.pc j) a ⊎ ((i ≡ j) × (s.mem.node_lock a ≡ false) × At xs a)
      held_before j a h = elim (Bool-cases (i == j)) [
        | inl e ↦
            let same : i ≡ j = ground arith in
            elim (d.takes a (rw e at h)) [
              | inl before ↦ inl (subst (λ k. Holds (s.pc k) a) same before)
              | inr (free, at) ↦ inr (same, free, at)
            ]
        | inr e ↦ inl (rw e at h)
      ]

      fresh_before :
          (j : ℕ) (o : Ptr × ℤ) → fresh (update s.pc i p' j) ≡ some o → fresh (s.pc j) ≡ some o
      fresh_before j o h = elim (Bool-cases (i == j)) [
        | inl e ↦
            let same : i ≡ j = ground arith in
            subst (λ k. fresh (s.pc k) ≡ some o) same (d.keeps o (rw e at h))
        | inr e ↦ rw e at h
      ]

      locked_after : (j : ℕ) (a : Ptr) → Holds (update s.pc i p' j) a → m.node_lock a ≡ true
      locked_after j a h = elim (Bool-cases (i == j)) [
        | inl e ↦ d.holds a (rw e at h)
        | inr e ↦
            let before = rw e at h in
            d.locks a (λ h'. absurd (ground (arith, single i j a h' before))) (locked j a before)
      ]

      single_after :
          (j k : ℕ) (a : Ptr) → Holds (update s.pc i p' j) a → Holds (update s.pc i p' k) a → j ≡ k
      single_after j k a h h' = elim (held_before j a h) [
        | inl before ↦ elim (held_before k a h') [
          | inl before' ↦ single j k a before before'
          | inr (same, free, at) ↦ absurd (ground (arith, free, locked j a before))
        ]
        | inr (same, free, at) ↦ elim (held_before k a h') [
          | inl before' ↦ absurd (ground (arith, free, locked k a before'))
          | inr (same', free', at') ↦ sym same ∙ same'
        ]
      ]

      apart_after :
          (j k : ℕ) (n : Ptr) (v : ℤ)
          → fresh (update s.pc i p' j) ≡ some (n, v)
          → ¬ (Holds (update s.pc i p' k) n)
      apart_after j k n v e h =
          let before = fresh_before j (n, v) e in
          let own = owner-IsOwned j (n, v) before in
          elim (held_before k n h) [
            | inl held ↦ apart j k n v before held
            | inr (same, free, at) ↦ elim at [ inl root ↦ own.0 root | inr i' ↦ own.3 i' ]
          ]

      made_after : (j : ℕ) (a : Ptr) → Holds (update s.pc i p' j) a → (a ≡ list) ⊎ (m.made a ≡ true)
      made_after j a h =
          let now = λ (e : s.mem.made a ≡ true). ap (λ g. g a) d.same_made ∙ e in
          elim (held_before j a h) [
            | inl before ↦ elim (made j a before) [ inl e ↦ inl e | inr e ↦ inr (now e) ]
            | inr (same, free, at) ↦ elim at [
              | inl e ↦ inl e
              | inr i' ↦ inr (now (shape.proper a i').1)
            ]
          ]

      holder_after : (a : Ptr) → m.node_lock a ≡ true → (j : ℕ) × Holds (update s.pc i p' j) a
      holder_after a e = elim (d.still a e) [
        | inl mine ↦ (i, subst (λ p. Holds p a) (sym (update_here s.pc i p')) mine)
        | inr (was, back) ↦
            let (j, h) = holder a was in
            elim (Bool-cases (i == j)) [
              | inl e' ↦
                  let same : j ≡ i = ground arith in
                  (
                    i,
                    subst (λ p. Holds p a) (sym (update_here s.pc i p'))
                        (back (subst (λ k. Holds (s.pc k) a) same h)),
                  )
              | inr e' ↦ (j, rw e' h)
            ]
      ]

      pub Done-Inv : Inv (system m (update s.pc i p')) xs'
      Done-Inv = record {
        shape = d.shape;
        fits = Fits_after;
        locked = locked_after;
        single = single_after;
        sole =
            λ j k n v w e e'. sole j k n v w (fresh_before j (n, v) e) (fresh_before k (n, w) e');
        apart = apart_after;
        made = made_after;
        holder = holder_after;
      }

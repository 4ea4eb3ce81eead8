-- ===== src/Rows/Drop.antt =====
-- Rows of nodes without the node of a key.
use public_conc_exp.Common.{
  ◌≡◌, ◌≢◌, refl, sym, ap, ◌∙◌, subst, true, false, inl, inr, Bool-cases, List, [], ◌∷◌, ◌++◌, map,
  arith, ℤ, ltb_ℤ, ◌==ℤ◌, ==ℤ_iff, ◌==◌, ==_refl, if◌then◌else◌,
}
use public_conc_exp.Spec.SortedSet.{IsAscending, drop_value}
use public_conc_exp.Rows.{Ptr, null}
use public_conc_exp.Rows.Row.{Linked, In, last, first, below, above, is_first, IsBelow-In}
use public_conc_exp.Rows.Change.{Apart, Linked-remove}

module _ (value : Ptr → ℤ) (key : ℤ) where
  abbrev pub rest : List Ptr → List Ptr
  rest [] = []
  rest (y ∷ ys) = if value y ==ℤ key then ys else y ∷ ys

  -- The row without the key's node.
  abbrev pub dropped : List Ptr → List Ptr
  dropped xs = below value key xs ++ rest (above value key xs)

  pub drop_value-dropped : (xs : List Ptr) → drop_value key (map value xs) ≡ map value (dropped xs)
  unfolding drop_value
  drop_value-dropped [] = refl
  drop_value-dropped (x ∷ xs) = elim (Bool-cases (ltb_ℤ (value x) key)) [
    | inl e ↦ rw e (ap (λ ys. value x ∷ ys) (drop_value-dropped xs))
    | inr e ↦ elim (Bool-cases (value x ==ℤ key)) [ inl h ↦ rw (e, h) | inr h ↦ rw (e, h) ]
  ]

  pub dropped-In :
      (q : Ptr) (xs : List Ptr)
      → IsAscending (map value xs)
      → In q (dropped xs)
      → In q xs × ((value q ==ℤ key) ≡ false)
  dropped-In q [] asc at = absurd at
  dropped-In q (x ∷ xs) (b, asc) at = elim (Bool-cases (ltb_ℤ (value x) key)) [
    | inl e ↦ elim (rw e at at) [
      | inl h ↦ (inl h, ground (arith, subst (λ m. ltb_ℤ (value m) key ≡ true) (sym h) e))
      | inr i ↦ let (j, ne) = dropped-In q xs asc i in (inr j, ne)
    ]
    | inr e ↦ elim (Bool-cases (value x ==ℤ key)) [
      | inl h ↦
          let i : In q xs = rw (e, h) at at in
          (inr i, ground (arith, IsBelow-In value (value x) q xs b i))
      | inr h ↦ elim (rw (e, h) at at) [
        | inl g ↦ (inl g, subst (λ m. (value m ==ℤ key) ≡ false) (sym g) h)
        | inr i ↦ (inr i, ground (arith, IsBelow-In value (value x) q xs b i))
      ]
    ]
  ]

  pub In-dropped :
      (q : Ptr) (xs : List Ptr) → In q xs → (value q ==ℤ key) ≡ false → In q (dropped xs)
  In-dropped q [] at ne = absurd at
  In-dropped q (x ∷ xs) at ne = elim (Bool-cases (ltb_ℤ (value x) key)) [
    | inl e ↦ rw e (elim at [ inl h ↦ inl h | inr i ↦ inr (In-dropped q xs i ne) ])
    | inr e ↦ elim (Bool-cases (value x ==ℤ key)) [
      | inl h ↦
          rw (e, h)
            (elim at [
              | inl g ↦ absurd (ground (arith, h, subst (λ m. (value m ==ℤ key) ≡ false) g ne))
              | inr i ↦ i
            ])
      | inr h ↦ rw (e, h) at
    ]
  ]

  -- In an ascending row the key's node is the first from the key on.
  pub first-above :
      (p : Ptr) (xs : List Ptr)
      → IsAscending (map value xs)
      → In p xs
      → value p ≡ key
      → first (above value key xs) ≡ p
  first-above p [] asc at e = absurd at
  first-above p (x ∷ xs) (b, asc) at e = elim (Bool-cases (ltb_ℤ (value x) key)) [
    | inl h ↦ rw h (elim at [
      | inl g ↦ absurd (ground (arith, h, subst (λ m. value m ≡ key) g e))
      | inr i ↦ first-above p xs asc i e
    ])
    | inr h ↦ rw h (elim at [
      | inl g ↦ sym g
      | inr i ↦ absurd (ground (arith, h, e, IsBelow-In value (value x) p xs b i))
    ])
  ]

  -- Where `x` is the only node that may have the key, the first node from the key on is `x` exactly if
  -- it has the key.
  pub first-is_first :
      (x : Ptr) (ys : List Ptr)
      → value x ≡ key
      → x ≢ null
      → ((q : Ptr) → In q ys → value q ≡ key → q ≡ x)
      → (first ys == x) ≡ is_first value key ys
  first-is_first x [] e ne only = ground arith
  first-is_first x (y ∷ ys) e ne only = elim (Bool-cases (value y ==ℤ key)) [
    | inl h ↦
        let same = only y (inl refl) (ground (arith, ==ℤ_iff (value y) key)) in
        rw (h, same, ==_refl x)
    | inr h ↦ elim (Bool-cases (y == x)) [
      | inl g ↦
          let same : y ≡ x = ground arith in
          absurd (ground (arith, h, e, subst (λ m. (value m ==ℤ key) ≡ false) same h))
      | inr g ↦ rw (g, h)
    ]
  ]

  -- The pointers that skip the key's node lead through the row without it.
  pub Linked-rest :
      (f g : Ptr → Ptr) (p x : Ptr) (xs ys : List Ptr)
      → Linked f p (xs ++ ys)
      → Apart p (xs ++ ys)
      → is_first value key ys ≡ true
      → first ys ≡ x
      → g (last p xs) ≡ f x
      → ((q : Ptr) → q ≢ last p xs → g q ≡ f q)
      → Linked g p (xs ++ rest ys)
  Linked-rest f g p x xs [] link apart h e there same = absurd (ground arith)
  Linked-rest f g p x xs (y ∷ ys) link apart h e there same =
      rw h (Linked-remove f g y p xs ys link apart (there ∙ ap f (sym e)) same)

  pub rest_other : (ys : List Ptr) → is_first value key ys ≡ false → rest ys ≡ ys
  rest_other [] h = refl
  rest_other (y ∷ ys) h = rw h

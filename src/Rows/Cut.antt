-- ===== src/Rows/Cut.antt =====
-- Where a walk along an ascending row has come to: a place with the lesser values behind it and the
-- others before it is where the key splits the row.
use public_conc_exp.Common.{
  ◌≡◌, ◌≢◌, refl, sym, ap, ◌∙◌, subst, true, false, not, ◌&&◌, ◌⊎◌, inl, inr, List, [], ◌∷◌, ◌++◌,
  map, arith, ℤ, ◌<ℤ◌, ltb_ℤ, ◌==ℤ◌, ◌==◌,
}
use public_conc_exp.Spec.SortedSet.{IsAscending, has, put}
use public_conc_exp.Rows.{Ptr, null}
use public_conc_exp.Rows.Row.{
  Linked, In, last, first, below, above, is_first, has-above, put-below, IsBelow-In, above-In,
}
use public_conc_exp.Rows.Change.{map-append}

-- A place in a row leads to a node of the row or to null.
pub next-In :
    (f : Ptr → Ptr) (p c q : Ptr) (xs : List Ptr)
    → Linked f p xs
    → (c ≡ p) ⊎ In c xs
    → f c ≡ q
    → q ≢ null
    → In q xs
next-In f p c q [] link (inl e) lead ne = absurd (ne (sym lead ∙ ap f e ∙ link))
next-In f p c q [] link (inr at) lead ne = absurd at
next-In f p c q (x ∷ xs) (h, link) (inl e) lead ne = inl (sym lead ∙ ap f e ∙ h)
next-In f p c q (x ∷ xs) (h, link) (inr at) lead ne = inr (next-In f x c q xs link at lead ne)

module _ (value : Ptr → ℤ) where
  -- A node leads to one with a greater value.
  pub next_greater :
      (f : Ptr → Ptr) (p c q : Ptr) (xs : List Ptr)
      → Linked f p xs
      → IsAscending (map value xs)
      → In c xs
      → f c ≡ q
      → q ≢ null
      → value c <ℤ value q
  next_greater f p c q [] link asc at lead ne = absurd at
  next_greater f p c q (x ∷ xs) (h, link) (b, asc) (inl e) lead ne =
      rw e (IsBelow-In value (value x) q xs b (next-In f x c q xs link (inl e) lead ne))
  next_greater f p c q (x ∷ xs) (h, link) (b, asc) (inr at) lead ne =
      next_greater f x c q xs link asc at lead ne

  module _ (key : ℤ) where
    -- The walk has come to where the key splits the row.
    pub walk_cut :
        (f : Ptr → Ptr) (p c q : Ptr) (xs : List Ptr)
        → Linked f p xs
        → IsAscending (map value xs)
        → ((a : Ptr) → In a xs → a ≢ null)
        → (c ≡ p) ⊎ (In c xs × (value c <ℤ key))
        → f c ≡ q
        → (q ≡ null) ⊎ (ltb_ℤ (value q) key ≡ false)
        → (last p (below value key xs) ≡ c) × (first (above value key xs) ≡ q)
    walk_cut f p c q [] link asc solid (inl e) lead stop = (sym e, sym link ∙ ap f (sym e) ∙ lead)
    walk_cut f p c q [] link asc solid (inr (at, lt)) lead stop = absurd at
    walk_cut f p c q (x ∷ xs) (h, link) (b, asc) solid (inl e) lead stop =
        let x_is : x ≡ q = sym h ∙ ap f (sym e) ∙ lead in
        elim stop [
          | inl null_q ↦ absurd (solid x (inl refl) (x_is ∙ null_q))
          | inr upper ↦
              let no_x = subst (λ a. ltb_ℤ (value a) key ≡ false) (sym x_is) upper in
              rw no_x (sym e, x_is)
        ]
    walk_cut f p c q (x ∷ xs) (h, link) (b, asc) solid (inr (inl e, lt)) lead stop =
        let less : ltb_ℤ (value x) key ≡ true = ground (arith, subst (λ a. value a <ℤ key) e lt) in
        rw less (walk_cut f x c q xs link asc (λ a i. solid a (inr i)) (inl e) lead stop)
    walk_cut f p c q (x ∷ xs) (h, link) (b, asc) solid (inr (inr at, lt)) lead stop =
        let less : ltb_ℤ (value x) key ≡ true =
          ground (arith, IsBelow-In value (value x) c xs b at) in
        rw less (walk_cut f x c q xs link asc (λ a i. solid a (inr i)) (inr (at, lt)) lead stop)

    first_key :
        (ys : List Ptr)
        → ((a : Ptr) → In a ys → a ≢ null)
        → is_first value key ys ≡ (not (first ys == null) && (value (first ys) ==ℤ key))
    first_key [] solid = refl
    first_key (y ∷ ys) solid =
        let ne : (y == null) ≡ false = ground (arith, solid y (inl refl)) in rw ne

    -- Whether a row has the key shows at its first node from the key on.
    pub has-first :
        (xs : List Ptr)
        → IsAscending (map value xs)
        → ((a : Ptr) → In a xs → a ≢ null)
        → has key (map value xs) ≡ (
            not (first (above value key xs) == null)
            && (value (first (above value key xs)) ==ℤ key))
    has-first xs asc solid =
        has-above value key xs asc
        ∙ first_key (above value key xs) (λ a i. solid a (above-In value key a xs i))

    -- A node with the key, linked in where the key splits a row without it, adds the key.
    pub contents-insert :
        (n : Ptr) (xs : List Ptr)
        → IsAscending (map value xs)
        → has key (map value xs) ≡ false
        → value n ≡ key
        → map value (below value key xs ++ n ∷ above value key xs) ≡ put key (map value xs)
    contents-insert n xs asc missing e =
        rw (map-append value (below value key xs) (n ∷ above value key xs), e)
          (sym (put-below value key xs (sym (has-above value key xs asc) ∙ missing)))

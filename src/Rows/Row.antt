-- ===== src/Rows/Row.antt =====
-- The nodes of a row, and where a key splits it.
use public_conc_exp.Common.{
  ◌≡◌, refl, sym, ap, subst, Bool, true, false, ◌⊎◌, inl, inr, Bool-cases, List, [], ◌∷◌, ◌++◌, map,
  arith, ℤ, ◌<ℤ◌, ltb_ℤ, ◌==ℤ◌, if◌then◌else◌,
}
use public_conc_exp.Spec.SortedSet.{IsBelow, IsAscending, has, put, has_before}
use public_conc_exp.Rows.{Ptr, null}

-- `f` leads from `p` through the nodes and then to null.
abbrev pub Linked : (f : Ptr → Ptr) → Ptr → List Ptr → Type 0
Linked f p [] = f p ≡ null
Linked f p (x ∷ xs) = (f p ≡ x) × Linked f x xs

abbrev pub In : Ptr → List Ptr → Type 0
In p [] = ⊥
In p (x ∷ xs) = (p ≡ x) ⊎ In p xs

-- The node that a row from `p` ends with.
abbrev pub last : Ptr → List Ptr → Ptr
last p [] = p
last p (x ∷ xs) = last x xs

-- The node that a row leads to, or null.
abbrev pub first : List Ptr → Ptr
first [] = null
first (x ∷ xs) = x

In-append : (p : Ptr) (xs ys : List Ptr) → In p (xs ++ ys) → In p xs ⊎ In p ys
In-append p [] ys i = inr i
In-append p (x ∷ xs) ys (inl e) = inl (inl e)
In-append p (x ∷ xs) ys (inr i) = elim (In-append p xs ys i) [ inl j ↦ inl (inr j) | inr j ↦ inr j ]

pub In-left : (p : Ptr) (xs ys : List Ptr) → In p xs → In p (xs ++ ys)
In-left p [] ys i = absurd i
In-left p (x ∷ xs) ys (inl e) = inl e
In-left p (x ∷ xs) ys (inr i) = inr (In-left p xs ys i)

In-right : (p : Ptr) (xs ys : List Ptr) → In p ys → In p (xs ++ ys)
In-right p [] ys i = i
In-right p (x ∷ xs) ys i = inr (In-right p xs ys i)

pub last-In : (p : Ptr) (xs : List Ptr) → (last p xs ≡ p) ⊎ In (last p xs) xs
last-In p [] = inl refl
last-In p (x ∷ xs) = elim (last-In x xs) [ inl e ↦ inr (inl e) | inr i ↦ inr (inr i) ]

-- The second part of a row starts where the first one ends.
pub Linked-last :
    (f : Ptr → Ptr) (p : Ptr) (xs ys : List Ptr) → Linked f p (xs ++ ys) → f (last p xs) ≡ first ys
Linked-last f p [] [] h = h
Linked-last f p [] (y ∷ ys) h = h.0
Linked-last f p (x ∷ xs) ys (e, h) = Linked-last f x xs ys h

-- A node in a row whose values are above `v` is above `v`.
pub IsBelow-In :
    (value : Ptr → ℤ) (v : ℤ) (p : Ptr) (xs : List Ptr)
    → IsBelow v (map value xs)
    → In p xs
    → v <ℤ value p
IsBelow-In value v p [] b i = absurd i
IsBelow-In value v p (x ∷ xs) (lt, b) (inl e) = rw e lt
IsBelow-In value v p (x ∷ xs) (lt, b) (inr i) = IsBelow-In value v p xs b i

module _ (value : Ptr → ℤ) (key : ℤ) where
  -- The nodes less than the key, and those from the key on.
  abbrev pub below : List Ptr → List Ptr
  below [] = []
  below (x ∷ xs) = if ltb_ℤ (value x) key then x ∷ below xs else []

  abbrev pub above : List Ptr → List Ptr
  above [] = []
  above (x ∷ xs) = if ltb_ℤ (value x) key then above xs else x ∷ xs

  abbrev pub IsLower : List Ptr → Type 0
  IsLower [] = Unit
  IsLower (x ∷ xs) = (ltb_ℤ (value x) key ≡ true) × IsLower xs

  abbrev pub IsUpper : List Ptr → Type 0
  IsUpper [] = Unit
  IsUpper (x ∷ xs) = (ltb_ℤ (value x) key ≡ false) × IsUpper xs

  pub below-above : (xs : List Ptr) → below xs ++ above xs ≡ xs
  below-above [] = refl
  below-above (x ∷ xs) = elim (Bool-cases (ltb_ℤ (value x) key)) [
    | inl e ↦ rw e (ap (λ ys. x ∷ ys) (below-above xs))
    | inr e ↦ rw e
  ]

  pub below-IsLower : (xs : List Ptr) → IsLower (below xs)
  below-IsLower [] = tt
  below-IsLower (x ∷ xs) = elim (Bool-cases (ltb_ℤ (value x) key)) [
    | inl e ↦ rw e (e, below-IsLower xs)
    | inr e ↦ rw e tt
  ]

  IsBelow-IsUpper :
      (v : ℤ) (xs : List Ptr) → ltb_ℤ v key ≡ false → IsBelow v (map value xs) → IsUpper xs
  IsBelow-IsUpper v [] h b = tt
  IsBelow-IsUpper v (x ∷ xs) h (lt, b) = (ground arith, IsBelow-IsUpper v xs h b)

  pub above-IsUpper : (xs : List Ptr) → IsAscending (map value xs) → IsUpper (above xs)
  above-IsUpper [] asc = tt
  above-IsUpper (x ∷ xs) (b, asc) = elim (Bool-cases (ltb_ℤ (value x) key)) [
    | inl e ↦ rw e (above-IsUpper xs asc)
    | inr e ↦ rw e (e, IsBelow-IsUpper (value x) xs e b)
  ]

  pub IsLower-In : (p : Ptr) (xs : List Ptr) → IsLower xs → In p xs → ltb_ℤ (value p) key ≡ true
  IsLower-In p [] h i = absurd i
  IsLower-In p (x ∷ xs) (l, h) (inl e) = rw e l
  IsLower-In p (x ∷ xs) (l, h) (inr i) = IsLower-In p xs h i

  IsUpper-In : (p : Ptr) (xs : List Ptr) → IsUpper xs → In p xs → ltb_ℤ (value p) key ≡ false
  IsUpper-In p [] h i = absurd i
  IsUpper-In p (x ∷ xs) (l, h) (inl e) = rw e l
  IsUpper-In p (x ∷ xs) (l, h) (inr i) = IsUpper-In p xs h i

  -- A node of an ascending row that is less than the key is among those below it.
  pub In-below :
      (p : Ptr) (xs : List Ptr)
      → IsAscending (map value xs)
      → In p xs
      → ltb_ℤ (value p) key ≡ true
      → In p (below xs)
  In-below p xs asc i lt =
      elim (In-append p (below xs) (above xs) (subst (In p) (sym (below-above xs)) i)) [
        | inl j ↦ j
        | inr j ↦ absurd (ground (arith, lt, IsUpper-In p (above xs) (above-IsUpper xs asc) j))
      ]

  pub below-In : (p : Ptr) (xs : List Ptr) → In p (below xs) → In p xs
  below-In p xs i = subst (In p) (below-above xs) (In-left p (below xs) (above xs) i)

  pub above-In : (p : Ptr) (xs : List Ptr) → In p (above xs) → In p xs
  above-In p xs i = subst (In p) (below-above xs) (In-right p (below xs) (above xs) i)

  -- Is the first node from the key on the key itself?
  abbrev pub is_first : List Ptr → Bool
  is_first [] = false
  is_first (x ∷ xs) = value x ==ℤ key

  pub has-above :
      (xs : List Ptr) → IsAscending (map value xs) → has key (map value xs) ≡ is_first (above xs)
  unfolding has
  has-above [] asc = refl
  has-above (x ∷ xs) (b, asc) = elim (Bool-cases (ltb_ℤ (value x) key)) [
    | inl e ↦ rw e (ground (arith, has-above xs asc))
    | inr e ↦ rw e (elim (Bool-cases (key ==ℤ value x)) [
      | inl f ↦ ground arith
      | inr f ↦ rw (f, has_before key (value x) (map value xs) (ground arith) b) (ground arith)
    ])
  ]

  -- Where the key is missing, `put` sets it between the two parts.
  pub put-below :
      (xs : List Ptr)
      → is_first (above xs) ≡ false
      → put key (map value xs) ≡ map value (below xs) ++ key ∷ map value (above xs)
  unfolding put
  put-below [] h = refl
  put-below (x ∷ xs) h = elim (Bool-cases (ltb_ℤ (value x) key)) [
    | inl e ↦ rw e (ap (λ ys. value x ∷ ys) (put-below xs (rw e at h)))
    | inr e ↦ rw (e, rw e at h)
  ]

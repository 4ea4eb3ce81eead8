-- ===== src/Rows/Change.antt =====
-- Rows of nodes under a change of the pointers: one node linked in, or one taken out.
use public_conc_exp.Common.{
  ◌≡◌, ◌≢◌, refl, sym, ap, ◌∙◌, subst, ◌<ℤ◌, ◌⊎◌, inl, inr, List, [], ◌∷◌, ◌++◌, map, ℤ, true,
  ◌==ℤ◌, arith,
}
use public_conc_exp.Spec.SortedSet.{IsAscending, has}
use public_conc_exp.Rows.{Ptr}
use public_conc_exp.Rows.Row.{Linked, In, last, first, last-In, In-left, is_first, IsBelow-In}

-- No node of a row from `p` comes again in it.
abbrev pub Apart : Ptr → List Ptr → Type 0
Apart p [] = Unit
Apart p (x ∷ xs) = ((q : Ptr) → In q (x ∷ xs) → q ≢ p) × Apart x xs

Linked-same :
    (f g : Ptr → Ptr) (p : Ptr) (xs : List Ptr)
    → g p ≡ f p
    → ((q : Ptr) → In q xs → g q ≡ f q)
    → Linked f p xs
    → Linked g p xs
Linked-same f g p [] e same link = e ∙ link
Linked-same f g p (x ∷ xs) e same (h, link) =
    (e ∙ h, Linked-same f g x xs (same x (inl refl)) (λ q i. same q (inr i)) link)

-- Pointers that change nowhere in a row keep it.
pub Linked-keep :
    (f g : Ptr → Ptr) (p : Ptr) (xs : List Ptr)
    → ((q : Ptr) → (q ≡ p) ⊎ In q xs → g q ≡ f q)
    → Linked f p xs
    → Linked g p xs
Linked-keep f g p xs same link =
    Linked-same f g p xs (same p (inl refl)) (λ q i. same q (inr i)) link

last-ne : (p x : Ptr) (xs ys : List Ptr) → Apart p (x ∷ xs ++ ys) → p ≢ last x xs
last-ne p x xs ys (apart, rest) e = elim (last-In x xs) [
  | inl h ↦ apart x (inl refl) (sym (e ∙ h))
  | inr i ↦ apart (last x xs) (inr (In-left (last x xs) xs ys i)) (sym e)
]

-- One node linked in behind the first part of a row.
pub Linked-insert :
    (f g : Ptr → Ptr) (n p : Ptr) (xs ys : List Ptr)
    → Linked f p (xs ++ ys)
    → Apart p (xs ++ ys)
    → n ≢ p
    → ((q : Ptr) → In q (xs ++ ys) → q ≢ n)
    → g (last p xs) ≡ n
    → g n ≡ first ys
    → ((q : Ptr) → q ≢ n → q ≢ last p xs → g q ≡ f q)
    → Linked g p (xs ++ n ∷ ys)
Linked-insert f g n p [] [] link apart np fresh there here same = (there, here)
Linked-insert f g n p [] (y ∷ ys) (e, link) (far, apart) np fresh there here same =
    (there, (here, Linked-keep f g y ys (λ q i. same q (fresh q i) (far q i)) link))
Linked-insert f g n p (x ∷ xs) ys (e, link) (far, apart) np fresh there here same = (
  same p (λ h. np (sym h)) (last-ne p x xs ys (far, apart)) ∙ e,
  Linked-insert f g n x xs ys link apart (λ h. fresh x (inl refl) (sym h)) (λ q i. fresh q (inr i))
      there here same,
)

-- One node taken out of a row.
pub Linked-remove :
    (f g : Ptr → Ptr) (n p : Ptr) (xs ys : List Ptr)
    → Linked f p (xs ++ n ∷ ys)
    → Apart p (xs ++ n ∷ ys)
    → g (last p xs) ≡ f n
    → ((q : Ptr) → q ≢ last p xs → g q ≡ f q)
    → Linked g p (xs ++ ys)
Linked-remove f g n p [] [] (e, link) (far, apart) there same = there ∙ link
Linked-remove f g n p [] (y ∷ ys) (e, (h, link)) (far, apart) there same =
    (there ∙ h, Linked-keep f g y ys (λ q i. same q (far q (inr i))) link)
Linked-remove f g n p (x ∷ xs) ys (e, link) (far, apart) there same = (
  same p (last-ne p x xs (n ∷ ys) (far, apart)) ∙ e,
  Linked-remove f g n x xs ys link apart there same,
)

-- A node is in the row with one node more exactly if it is that node or was there.
pub In-insert : (p n : Ptr) (xs ys : List Ptr) → In p (xs ++ n ∷ ys) → (p ≡ n) ⊎ In p (xs ++ ys)
In-insert p n [] ys i = i
In-insert p n (x ∷ xs) ys (inl e) = inr (inl e)
In-insert p n (x ∷ xs) ys (inr i) = elim (In-insert p n xs ys i) [
  | inl e ↦ inl e
  | inr j ↦ inr (inr j)
]

pub In-more : (p n : Ptr) (xs ys : List Ptr) → (p ≡ n) ⊎ In p (xs ++ ys) → In p (xs ++ n ∷ ys)
In-more p n [] ys i = i
In-more p n (x ∷ xs) ys (inl e) = inr (In-more p n xs ys (inl e))
In-more p n (x ∷ xs) ys (inr (inl e)) = inl e
In-more p n (x ∷ xs) ys (inr (inr i)) = inr (In-more p n xs ys (inr i))

-- The values of nodes only matter where the nodes are.
pub map-agree :
    (f g : Ptr → ℤ) (xs : List Ptr) → ((q : Ptr) → In q xs → f q ≡ g q) → map f xs ≡ map g xs
map-agree f g [] same = refl
map-agree f g (x ∷ xs) same = rw (same x (inl refl), map-agree f g xs (λ q i. same q (inr i)))

pub map-append : (f : Ptr → ℤ) (xs ys : List Ptr) → map f (xs ++ ys) ≡ map f xs ++ map f ys
map-append f [] ys = refl
map-append f (x ∷ xs) ys = rw (map-append f xs ys)

pub has-In :
    (value : Ptr → ℤ) (key : ℤ) (p : Ptr) (xs : List Ptr)
    → In p xs
    → value p ≡ key
    → has key (map value xs) ≡ true
unfolding has
has-In value key p [] i e = absurd i
has-In value key p (x ∷ xs) (inl h) e = ground (arith, sym (ap value h) ∙ e)
has-In value key p (x ∷ xs) (inr i) e = ground (arith, has-In value key p xs i e)

pub is_first-In :
    (value : Ptr → ℤ) (key : ℤ) (xs : List Ptr)
    → is_first value key xs ≡ true
    → (p : Ptr) × In p xs × ((value p ==ℤ key) ≡ true)
is_first-In value key [] h = absurd (ground arith)
is_first-In value key (x ∷ xs) h = (x, inl refl, h)

-- The nodes of an ascending row are apart.
pub Apart-ascending :
    (value : Ptr → ℤ) (p : Ptr) (xs : List Ptr)
    → ((q : Ptr) → In q xs → q ≢ p)
    → IsAscending (map value xs)
    → Apart p xs
Apart-ascending value p [] far asc = tt
Apart-ascending value p (x ∷ xs) far (b, asc) = (
  far,
  Apart-ascending value x xs
      (λ q i e.
        absurd
          (omega (arith, subst (λ m. value x <ℤ value m) e (IsBelow-In value (value x) q xs b i))))
      asc,
)

-- ===== src/SeqStack/Sort.antt =====
-- `mergeSort` ends and sorts.
use public_conc_exp.Common.{
  ℕ, zero, suc, ◌+◌, ◌/◌, ◌<◌, ◌≡◌, refl, ◌∙◌, sym, ap, inl, inr, Bool-cases, length-append, List,
  [], ◌∷◌, ◌++◌, arith, ℤ, ◌≤ℤ◌, ◌==ℤ◌, ltb_ℤ, if◌then◌else◌, Run, ok, ◌>>=◌, length,
}
use public_conc_exp.SeqStack.{Sll, split, merge, merge_sort_on, merge_sort}

-- How often a value occurs.
unfoldable pub count : ℤ → List ℤ → ℕ
count v [] = 0
count v (x ∷ xs) = if v ==ℤ x then suc (count v xs) else count v xs

-- `x` is at most the first value.
abbrev pub IsLeast : ℤ → List ℤ → Type 0
IsLeast x [] = Unit
IsLeast x (y ∷ ys) = x ≤ℤ y

abbrev pub IsSorted : List ℤ → Type 0
IsSorted [] = Unit
IsSorted (x ∷ xs) = IsLeast x xs × IsSorted xs

count-append : (v : ℤ) (xs ys : List ℤ) → count v (xs ++ ys) ≡ count v xs + count v ys
unfolding count
count-append v [] ys = omega arith
count-append v (x ∷ xs) ys = ground (arith, count-append v xs ys)

-- The two halves make up the list.
split-append : (slow fast : Sll) → (split slow fast).0 ++ (split slow fast).1 ≡ slow
unfolding split
split-append [] fast = refl
split-append (x ∷ slow) [] = refl
split-append (x ∷ slow) (f ∷ []) = refl
split-append (x ∷ slow) (f ∷ g ∷ fast) = ground (arith, split-append slow fast)

-- `slow` makes a step for every two of `fast`.
length-split :
    (slow fast : Sll) → length fast < length slow → length (split slow fast).0 ≡ 1 + length fast / 2
unfolding split
length-split [] fast h = absurd (omega arith)
length-split (x ∷ slow) [] h = omega arith
length-split (x ∷ slow) (f ∷ []) h = omega arith
length-split (x ∷ slow) (f ∷ g ∷ fast) h = omega (arith, length-split slow fast)

count-merge : (v : ℤ) (l r : Sll) → count v (merge l r) ≡ count v l + count v r
unfolding count merge
count-merge v [] r = omega arith
count-merge v (x ∷ l) [] = omega arith
count-merge v (x ∷ l) (y ∷ r) = ground (arith, count-merge v l (y ∷ r), count-merge v (x ∷ l) r)

merge-IsLeast : (z : ℤ) (l r : Sll) → IsLeast z l → IsLeast z r → IsLeast z (merge l r)
unfolding merge
merge-IsLeast z [] r h k = k
merge-IsLeast z (x ∷ l) [] h k = h
merge-IsLeast z (x ∷ l) (y ∷ r) h k = ground arith

merge-IsSorted : (l r : Sll) → IsSorted l → IsSorted r → IsSorted (merge l r)
unfolding merge
merge-IsSorted [] r h k = k
merge-IsSorted (x ∷ l) [] h k = h
merge-IsSorted (x ∷ l) (y ∷ r) h k = elim (Bool-cases (ltb_ℤ x y)) [
  | inl e ↦ rw e (merge-IsLeast x l (y ∷ r) h.0 (ground arith), merge-IsSorted l (y ∷ r) h.1 k)
  | inr e ↦ rw e (merge-IsLeast y (x ∷ l) r (ground arith) k.0, merge-IsSorted (x ∷ l) r h k.1)
]

-- What a sort of `xs` has to return.
abbrev pub Sorts : List ℤ → Run Sll → Type 0
Sorts xs (ok ys) = IsSorted ys × ((v : ℤ) → count v ys ≡ count v xs)
Sorts xs _ = ⊥

merge-Sorts :
    (xs l r : Sll) (left right : Run Sll)
    → l ++ r ≡ xs
    → Sorts l left
    → Sorts r right
    → Sorts xs (do ys ← left; zs ← right; ok (merge ys zs))
merge-Sorts xs l r (ok ys) (ok zs) e (sl, cl) (sr, cr) = (
  merge-IsSorted ys zs sl sr,
  λ v. rw (← e) (omega (arith, count-merge v ys zs, cl v, cr v, count-append v l r)),
)
merge-Sorts xs l r (ok ys) _ e h k = absurd k
merge-Sorts xs l r _ _ e h k = absurd h

merge_sort_on_lem : (fuel : ℕ) (xs : Sll) → length xs < fuel → Sorts xs (merge_sort_on fuel xs)
unfolding merge_sort_on
merge_sort_on_lem zero xs h = absurd (omega arith)
merge_sort_on_lem (suc fuel) [] h = (tt, λ v. refl)
merge_sort_on_lem (suc fuel) (x ∷ []) h = ((tt, tt), λ v. refl)
merge_sort_on_lem (suc fuel) (x ∷ y ∷ n) h =
    let whole : Sll = x ∷ y ∷ n in
    let halves = split whole (y ∷ n) in
    let joined : halves.0 ++ halves.1 ≡ whole = split-append whole (y ∷ n) in
    let left = length-split whole (y ∷ n) (omega arith) in
    let both : length halves.0 + length halves.1 ≡ length whole =
      sym (length-append halves.0 halves.1) ∙ ap length joined in
    merge-Sorts whole halves.0 halves.1 _ _ joined (merge_sort_on_lem fuel halves.0 (omega arith))
      (merge_sort_on_lem fuel halves.1 (omega arith))

-- `mergeSort` ends on every list, and leaves an ascending list with the same values, each as often
-- as before.
pub merge_sort_lem :
    (xs : Sll)
    → (ys : Sll) × (merge_sort xs ≡ ok ys) × IsSorted ys × ((v : ℤ) → count v ys ≡ count v xs)
unfolding merge_sort
merge_sort_lem xs = sorted (merge_sort xs) (merge_sort_on_lem (suc (length xs)) xs (omega arith))
  where
    sorted :
        (r : Run Sll)
        → Sorts xs r
        → (ys : Sll) × (r ≡ ok ys) × IsSorted ys × ((v : ℤ) → count v ys ≡ count v xs)
    sorted (ok ys) (s, c) = (ys, refl, s, c)
    sorted _ h = absurd h

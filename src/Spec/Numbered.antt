-- ===== src/Spec/Numbered.antt =====
-- The values of numbered elements in a row, as a list.
use public_conc_exp.Common.{
  ℕ, zero, suc, ◌+◌, ◌≡◌, refl, ap, List, [], ◌∷◌, ◌++◌, arith, ◌==◌, if◌then◌else◌, length,
}

abbrev pub values_from {ℓ} : {A : Type ℓ} → (ℕ → A) → ℕ → ℕ → List A
values_from value i zero = []
values_from value i (suc k) = value i ∷ values_from value (i + 1) k

module _ {ℓ} {A : Type ℓ} where
  -- One more value at the end.
  pub values_from-snoc :
      (value : ℕ → A) (at i k : ℕ) (v : A)
      → at ≡ i + k
      → values_from (λ j. if at == j then v else value j) i (suc k)
        ≡ values_from value i k ++ v ∷ []
  values_from-snoc value at i zero v e = ground arith
  values_from-snoc value at i (suc k) v e =
      ground (arith, values_from-snoc value at (i + 1) k v (omega arith))

  pub length-values_from : (value : ℕ → A) (i k : ℕ) → length (values_from value i k) ≡ k
  length-values_from value i zero = refl
  length-values_from value i (suc k) = ap suc (length-values_from value (i + 1) k)

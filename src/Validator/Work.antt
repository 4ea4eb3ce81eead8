-- ===== src/Validator/Work.antt =====
-- How many elements the work of a thread leaves in the structure, and what that gives for any
-- interleaving.
use public_conc_exp.Common.{
  update, ℕ, zero, suc, ◌+◌, ◌-◌, ◌*◌, ◌≡◌, ◌<◌, ◌≤◌, ◌⊎◌, inl, inr, refl, List, [], ◌∷◌, arith,
  ◌==◌, if◌then◌else◌, sym, subst, Bool-cases,
}
use native.Mathlib.Nat.{suc-mul}
use public_conc_exp.Validator.{Methods, Call, call_add, call_remove, IsInterleaving, run}

-- From `h` elements of its own, a thread never removes more than it has added, and leaves `e`.
abbrev pub IsLeaving : ℕ → ℕ → List Call → Type 0
IsLeaving e h [] = h ≡ e
IsLeaving e h (call_add v ∷ cs) = IsLeaving e (suc h) cs
IsLeaving e h (call_remove ∷ cs) = (0 < h) × IsLeaving e (h - 1) cs

abbrev pub total : ℕ → (ℕ → ℕ) → ℕ
total zero f = 0
total (suc n) f = f n + total n f

ltb_cases : (i n : ℕ) → (i < n) ⊎ (n ≤ i)
ltb_cases i n = omega arith

total-update_out : (n i v : ℕ) (f : ℕ → ℕ) → n ≤ i → total n (update f i v) ≡ total n f
total-update_out zero i v f h = refl
total-update_out (suc n) i v f h = ground (arith, total-update_out n i v f (omega arith))

pub total-update_in : (n i v : ℕ) (f : ℕ → ℕ) → i < n → total n (update f i v) + f i ≡ total n f + v
total-update_in zero i v f h = absurd (omega arith)
total-update_in (suc n) i v f h = elim (ltb_cases i n) [
  | inl lt ↦ ground (arith, total-update_in n i v f lt)
  | inr ge ↦ ground (arith, total-update_out n i v f ge)
]

pub total_const : (n e : ℕ) (f : ℕ → ℕ) → ((i : ℕ) → i < n → f i ≡ e) → total n f ≡ n * e
total_const zero e f h = omega arith
total_const (suc n) e f h =
    let here = h n (omega arith) in
    let rest = total_const n e f (λ i lt. h i (omega arith)) in
    omega (arith, here, rest, suc-mul n e)

-- What holds of the work of each thread survives a step of one of them that keeps it.
pub kept-update :
    (P : ℕ → List Call → Type 0) (n i k : ℕ) (cs : List Call) (work : ℕ → List Call) (h : ℕ → ℕ)
    → P k cs
    → ((j : ℕ) → j < n → P (h j) (work j))
    → (j : ℕ) → j < n
    → P (update h i k j) (update work i cs j)
kept-update P n i k cs work h mine leaves j lt = elim (Bool-cases (i == j)) [
  | inl same ↦ subst (λ b. P (if b then k else h j) (if b then cs else work j)) (sym same) mine
  | inr other ↦
      subst (λ b. P (if b then k else h j) (if b then cs else work j)) (sym other) (leaves j lt)
]

-- What a structure promises whose size is `base` when it is empty: the size counts additions, and
-- removals as long as the structure is not empty.
pub record IsCounting {S : Type 0} (ds : Methods S) (base : ℕ) : Type 0 where
  pub size_empty : (s : S) → ds.size (ds.empty s) ≡ base
  pub size_add : (v : ℕ) (s : S) → ds.size (ds.add v s) ≡ ds.size s + 1
  pub size_remove : (s : S) → base < ds.size s → ds.size (ds.remove s).0 + 1 ≡ ds.size s

module _ {S : Type 0} {ds : Methods S} {base : ℕ} (container : IsCounting ds base) where
  open container use {size_add, size_remove}

  pub size-run :
      (n e : ℕ) (work : ℕ → List Call) (trace : List Call) (h : ℕ → ℕ) (s : S)
      → IsInterleaving n work trace
      → ((i : ℕ) → i < n → IsLeaving e (h i) (work i))
      → ds.size s ≡ base + total n h
      → ds.size (run ds trace s) ≡ base + n * e
  unfolding run
  size-run n e work [] h s done leaves held =
      omega (
        arith,
        held,
        total_const n e h (λ i lt. subst (IsLeaving e (h i)) (done i lt) (leaves i lt)),
      )
  size-run n e work (call_add v ∷ trace) h s (i, cs, lt, at_i, rest) leaves held =
      let mine = subst (IsLeaving e (h i)) at_i (leaves i lt) in
      size-run n e (update work i cs) trace (update h i (suc (h i))) (ds.add v s) rest
        (kept-update (IsLeaving e) n i (suc (h i)) cs work h mine leaves)
        (omega (arith, held, size_add v s, total-update_in n i (suc (h i)) h lt))
  size-run n e work (call_remove ∷ trace) h s (i, cs, lt, at_i, rest) leaves held =
      let (some_, mine) = subst (IsLeaving e (h i)) at_i (leaves i lt) in
      let sums = total-update_in n i (h i - 1) h lt in
      let less = size_remove s (omega (arith, held, sums, some_)) in
      size-run n e (update work i cs) trace (update h i (h i - 1)) (ds.remove s).0 rest
        (kept-update (IsLeaving e) n i (h i - 1) cs work h mine leaves)
        (omega (arith, held, less, sums, some_))

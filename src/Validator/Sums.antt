-- ===== src/Validator/Sums.antt =====
-- `Test_4`: the sum that the threads count, against the sum of what comes out of the structure.
use public_conc_exp.Common.{
  true, as_int, as_int_large, sym, ◌∙◌, ◌>>=◌, fault, update, ℕ, zero, suc, ◌+◌, ◌*◌, ◌^◌, ◌≡◌, ◌<◌,
  ◌≤◌, refl, List, [], ◌∷◌, arith, ltb, ◌==◌, ap, if◌then◌else◌, subst, ok, Bool-cases, ltb→lt, inl,
  inr,
}
use public_conc_exp.Validator.{
  Methods, Call, call_add, call_remove, add_loop, rounds, thread_add, IsInterleaving, run,
  count_loop, global_buff, drain_loop, test_4,
}
use public_conc_exp.Validator.Work.{
  total, total-update_in, kept-update, IsCounting, IsLeaving, size-run, total_const,
}
use public_conc_exp.Validator.Laws.{rounds_lem, adds-IsLeaving}

-- 1 + 2 + ... + m
abbrev pub sum_up_to : ℕ → ℕ
sum_up_to zero = 0
sum_up_to (suc m) = suc m + sum_up_to m

-- The sum of what `add_loop first n` adds.
abbrev pub span : ℕ → ℕ → ℕ
span first zero = 0
span first (suc n) = (first + 1) + span (first + 1) n

same_sum : {a b : ℕ} → a ≡ b → sum_up_to a ≡ sum_up_to b
same_sum e = ap sum_up_to e

sum_up_to_suc : (m : ℕ) → sum_up_to (m + 1) ≡ m + 1 + sum_up_to m
sum_up_to_suc m = omega (arith, same_sum {a = m + 1} {b = suc m} (omega arith))

span_lem : (first n : ℕ) → span first n + sum_up_to first ≡ sum_up_to (first + n)
span_lem first zero = omega (arith, same_sum {a = first} {b = first + 0} (omega arith))
span_lem first (suc n) = omega (
  arith,
  span_lem (first + 1) n,
  sum_up_to_suc first,
  same_sum {a = first + 1 + n} {b = first + suc n} (omega arith),
)

-- An addition of two ints that may have overflowed.
as_int-add : (a b : ℕ) → (do x ← as_int a; y ← as_int b; as_int (x + y)) ≡ as_int (a + b)
as_int-add a b = elim (Bool-cases (ltb a (2 ^ 31))) [
  | inr e ↦ rw e (sym (as_int_large (a + b) (ground (arith, e))))
  | inl e ↦ elim (Bool-cases (ltb b (2 ^ 31))) [
    | inl h ↦ rw (e, h) refl
    | inr h ↦ rw (e, h) (sym (as_int_large (a + b) (ground (arith, h))))
  ]
]

count_loop_lem : (b first n : ℕ) → b < 2 ^ 31 → count_loop b first n ≡ as_int (b + span first n)
unfolding count_loop
count_loop_lem b first zero lt = ground (arith, lt)
count_loop_lem b first (suc n) lt = elim (Bool-cases (ltb (b + (first + 1)) (2 ^ 31))) [
  | inl e ↦
      rw e (
        count_loop_lem (b + (first + 1)) (first + 1) n (ground (arith, e))
        ∙ ap as_int (omega arith))
  | inr e ↦ rw e (sym (as_int_large _ (ground (arith, e))))
]

spans : (p n : ℕ) → total n (λ i. span (p * i) (rounds p i)) ≡ sum_up_to (p * n)
spans p zero = omega (arith, same_sum {a = p * 0} {b = 0} (omega arith))
spans p (suc n) = omega (
  arith,
  spans p n,
  span_lem (p * n) (rounds p n),
  same_sum {a = p * n + rounds p n} {b = p * suc n} (omega (arith, rounds_lem p n)),
)

global_buff_lem : (p n : ℕ) → global_buff p n ≡ as_int (total n (λ i. span (p * i) (rounds p i)))
unfolding global_buff
global_buff_lem p zero = refl
global_buff_lem p (suc n) =
    rw (global_buff_lem p n, count_loop_lem 0 (p * n) (rounds p n) (omega arith))
      (as_int-add (total n (λ i. span (p * i) (rounds p i))) (0 + span (p * n) (rounds p n))
        ∙ ap as_int (omega arith))

-- Work that only adds, `k` in all.
abbrev pub IsAdding : ℕ → List Call → Type 0
IsAdding k [] = k ≡ 0
IsAdding k (call_add v ∷ cs) = (k' : ℕ) × (k ≡ v + k') × IsAdding k' cs
IsAdding k (call_remove ∷ cs) = k < 0

add_loop-IsAdding : (first n : ℕ) → IsAdding (span first n) (add_loop first n)
unfolding add_loop
add_loop-IsAdding first zero = refl
add_loop-IsAdding first (suc n) = (span (first + 1) n, refl, add_loop-IsAdding (first + 1) n)

sentinel_lem : (size base : ℕ) → size ≡ base → base < 2 → (if size == 1 then 1 else 0) ≡ base
sentinel_lem size base e small = ground arith

-- A structure that hands out what was added, in any order: `sum` is what it holds.
pub record IsKeeping {S : Type 0} (ds : Methods S) (base : ℕ) (sum : S → ℕ) : Type 0 where
  pub sum_empty : (s : S) → ds.size s ≡ base → sum s ≡ 0
  pub sum_add : (v : ℕ) (s : S) → sum (ds.add v s) ≡ sum s + v
  pub sum_remove : (s : S) → base < ds.size s → sum (ds.remove s).0 + (ds.remove s).1 ≡ sum s

module _ {S : Type 0} {ds : Methods S} {base : ℕ} {sum : S → ℕ} (container : IsCounting ds base)
    (keeping : IsKeeping ds base sum) where
  open container use {size_empty, size_remove}
  open keeping use {sum_empty, sum_add, sum_remove}

  sum-run :
      (n : ℕ) (work : ℕ → List Call) (calls : List Call) (h : ℕ → ℕ) (s : S)
      → IsInterleaving n work calls
      → ((i : ℕ) → i < n → IsAdding (h i) (work i))
      → sum (run ds calls s) ≡ sum s + total n h
  unfolding run
  sum-run n work [] h s done adds =
      omega (arith, total_const n 0 h (λ i lt. subst (IsAdding (h i)) (done i lt) (adds i lt)))
  sum-run n work (call_add v ∷ calls) h s (i, cs, lt, at_i, rest) adds =
      let (k, eq, mine) = subst (IsAdding (h i)) at_i (adds i lt) in
      omega (
        arith,
        sum-run n (update work i cs) calls (update h i k) (ds.add v s) rest
            (kept-update IsAdding n i k cs work h mine adds),
        sum_add v s,
        total-update_in n i k h lt,
        eq,
      )
  sum-run n work (call_remove ∷ calls) h s (i, cs, lt, at_i, rest) adds =
      absurd (omega (arith, subst (IsAdding (h i)) at_i (adds i lt)))

  drain_loop_lem :
      (fuel real : ℕ) (s : S)
      → base ≤ ds.size s
      → ds.size s < fuel + base
      → (t : S) × (drain_loop ds fuel base real s ≡ ok (t, real + sum s))
  unfolding drain_loop
  drain_loop_lem zero real s ge lt = absurd (omega arith)
  drain_loop_lem (suc fuel) real s ge lt = elim (Bool-cases (ltb base (ds.size s))) [
    | inl more ↦
        let lt' = ltb→lt base (ds.size s) more in
        let less = size_remove s lt' in
        let (t, ends) =
          drain_loop_lem fuel (real + (ds.remove s).1) (ds.remove s).0 (omega (arith, less, lt'))
            (omega (arith, less, lt)) in
        (t, ground (arith, ends, sum_remove s lt'))
    | inr done ↦ (s, ground (arith, sum_empty s (ground arith)))
  ]

  -- If `size` counts the additions and removals exactly, from the 0 or 1 elements that `empty` leaves, and
  -- the structure hands out what was added to it, in any order, then in every interleaving of the
  -- threads `Test_4` ends and accepts if the sum of all added numbers fits an int; if it does not, an
  -- int overflows, which is undefined.
  pub test_4_lem :
      (partitions curr_thread : ℕ) (calls : List Call) (s : S)
      → base < 2
      → IsInterleaving curr_thread (thread_add partitions) calls
      → (t : S) × (test_4 ds partitions curr_thread calls s
          ≡ (if ltb (sum_up_to (partitions * curr_thread)) (2 ^ 31) then ok (t, true) else fault))
  unfolding test_4
  test_4_lem p n calls s small order =
      let whole = spans p n in
      let buff = global_buff_lem p n ∙ ap as_int whole in
      let end = run ds calls (ds.empty s) in
      let none_held = total_const n 0 (λ _. 0) (λ i lt. refl) in
      let grown =
        size-run container n p (thread_add p) calls (λ _. 0) (ds.empty s) order
          (λ i lt.
            subst (λ k. IsLeaving k 0 (thread_add p i)) (omega (arith, rounds_lem p i))
              (adds-IsLeaving 0 (p * i) (rounds p i)))
          (omega (arith, none_held, size_empty s)) in
      let summed =
        sum-run n (thread_add p) calls (λ i. span (p * i) (rounds p i)) (ds.empty s) order
          (λ i lt. add_loop-IsAdding (p * i) (rounds p i)) in
      let empty_sum = sum_empty (ds.empty s) (size_empty s) in
      let (t, ends) =
        drain_loop_lem (suc (ds.size end)) 0 end (omega (arith, grown)) (omega arith) in
      let same : sum_up_to (p * n) ≡ 0 + sum end = omega (arith, summed, whole, empty_sum) in
      (
        t,
        elim (Bool-cases (ltb (sum_up_to (p * n)) (2 ^ 31))) [
          | inl e ↦
              rw (buff, e, sentinel_lem (ds.size (ds.empty s)) base (size_empty s) small, ends)
                (ground (arith, same))
          | inr e ↦ rw (buff, e) refl
        ],
      )

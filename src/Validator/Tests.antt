-- ===== src/Validator/Tests.antt =====
-- The tests of the validator on a counter of elements, with two threads.
use public_conc_exp.Common.{
  fault, if◌then◌else◌, ok, length, ltb, ◌*◌, ◌^◌, ℕ, ◌+◌, ◌-◌, ◌/◌, ◌≡◌, refl, true, List, [], ◌∷◌,
  arith, ◌<◌,
}
use public_conc_exp.Validator.{
  Methods, Call, call_add, call_remove, add_loop, remove_loop, add_remove_loop, thread_add,
  thread_add_remove, thread_add_one_remove_one, IsInterleaving, test_1, test_2, test_3, test_4,
}
use public_conc_exp.Validator.Work.{IsCounting}
use public_conc_exp.Validator.Sums.{IsKeeping, sum_up_to, test_4_lem}
use public_conc_exp.Validator.Laws.{test_1_lem, test_2_lem, test_3_lem}

abbrev counter : Methods ℕ
counter = record { add = λ v s. s + 1; remove = λ s. (s - 1, 0); size = λ s. s; empty = λ s. 0 }

counter-IsCounting : IsCounting counter 0
counter-IsCounting = record {
  size_empty = λ s. refl;
  size_add = λ v s. refl;
  size_remove = λ s h. omega arith;
}

-- The second thread is ahead of the first one.
abbrev adds : List Call
adds = call_add 3 ∷ call_add 1 ∷ call_add 4 ∷ call_add 2 ∷ []

adds-IsInterleaving : IsInterleaving 2 (thread_add (5 / 2)) adds
unfolding add_loop
adds-IsInterleaving = (
  1,
  _,
  ground arith,
  refl,
  (
    0,
    _,
    ground arith,
    refl,
    (1, _, ground arith, refl, (0, _, ground arith, refl, λ i lt. ground arith)),
  ),
)

test_1_lem_example : (test_1 counter 5 2 adds 7).1 ≡ true
test_1_lem_example = test_1_lem counter-IsCounting 5 2 adds 7 adds-IsInterleaving

abbrev blocks : List Call
blocks = call_add 1 ∷ call_add 2 ∷ call_remove ∷ call_remove ∷ []

blocks-IsInterleaving : IsInterleaving 2 (thread_add_remove 1) blocks
unfolding add_loop remove_loop
blocks-IsInterleaving = (
  0,
  _,
  ground arith,
  refl,
  (
    1,
    _,
    ground arith,
    refl,
    (0, _, ground arith, refl, (1, _, ground arith, refl, λ i lt. ground arith)),
  ),
)

test_2_run : (test_2 counter blocks 7).1 ≡ true
test_2_run = test_2_lem counter-IsCounting 1 2 blocks 7 blocks-IsInterleaving

blocks_of_pairs : IsInterleaving 2 (thread_add_one_remove_one 1) blocks
unfolding add_remove_loop
blocks_of_pairs = (
  0,
  _,
  ground arith,
  refl,
  (
    1,
    _,
    ground arith,
    refl,
    (0, _, ground arith, refl, (1, _, ground arith, refl, λ i lt. ground arith)),
  ),
)

test_3_run : (test_3 counter blocks 7).1 ≡ true
test_3_run = test_3_lem counter-IsCounting 1 2 blocks 7 blocks_of_pairs

abbrev pile : Methods (List ℕ)
pile = record {
  add = λ v s. v ∷ s;
  remove = λ s. elim s [ [] ↦ ([], 0) | x ∷ xs ↦ (xs, x) ];
  size = λ s. length s;
  empty = λ s. [];
}

abbrev sum : List ℕ → ℕ
sum [] = 0
sum (x ∷ xs) = x + sum xs

remove-length : (s : List ℕ) → 0 < length s → pile.size (pile.remove s).0 + 1 ≡ pile.size s
remove-length [] h = absurd (omega arith)
remove-length (x ∷ xs) h = omega arith

pile-IsCounting : IsCounting pile 0
pile-IsCounting = record {
  size_empty = λ s. refl;
  size_add = λ v s. omega arith;
  size_remove = λ s h. remove-length s h;
}

sum-none : (s : List ℕ) → length s ≡ 0 → sum s ≡ 0
sum-none [] h = refl
sum-none (x ∷ xs) h = absurd (omega arith)

sum-remove : (s : List ℕ) → 0 < length s → sum (pile.remove s).0 + (pile.remove s).1 ≡ sum s
sum-remove [] h = absurd (omega arith)
sum-remove (x ∷ xs) h = omega arith

pile-IsKeeping : IsKeeping pile 0 sum
pile-IsKeeping = record {
  sum_empty = λ s h. sum-none s h;
  sum_add = λ v s. omega arith;
  sum_remove = λ s h. sum-remove s h;
}

test_4_lem_example :
    (t : List ℕ) × (test_4 pile 2 2 adds (9 ∷ [])
      ≡ (if ltb (sum_up_to (2 * 2)) (2 ^ 31) then ok (t, true) else fault))
test_4_lem_example =
    test_4_lem pile-IsCounting pile-IsKeeping 2 2 adds (9 ∷ []) (ground arith) adds-IsInterleaving

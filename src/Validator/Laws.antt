-- ===== src/Validator/Laws.antt =====
-- The tests that compare sizes accept every container, in every interleaving.
use public_conc_exp.Common.{
  ℕ, zero, suc, ◌+◌, ◌-◌, ◌*◌, ◌/◌, ◌≡◌, refl, true, List, ◌++◌, arith, subst,
}
use native.Mathlib.Nat.{mod-add-div}
use public_conc_exp.Validator.{
  Methods, Call, add_loop, remove_loop, add_remove_loop, rounds, thread_add, thread_add_remove,
  thread_add_one_remove_one, IsInterleaving, run, test_1, test_2, test_3,
}
use public_conc_exp.Validator.Work.{IsLeaving, total_const, IsCounting, size-run}

pub rounds_lem : (p t : ℕ) → rounds p t ≡ p
rounds_lem p t = omega arith

add_loop-IsLeaving :
    (e h first n : ℕ) (calls : List Call)
    → IsLeaving e (h + n) calls
    → IsLeaving e h (add_loop first n ++ calls)
unfolding add_loop
add_loop-IsLeaving e h first zero calls leaves =
    subst (λ k. IsLeaving e k calls) (omega arith) leaves
add_loop-IsLeaving e h first (suc n) calls leaves =
    add_loop-IsLeaving e (suc h) (first + 1) n calls
      (subst (λ k. IsLeaving e k calls) (omega arith) leaves)

pub adds-IsLeaving : (h first n : ℕ) → IsLeaving (h + n) h (add_loop first n)
unfolding add_loop
adds-IsLeaving h first zero = omega arith
adds-IsLeaving h first (suc n) =
    subst (λ k. IsLeaving k (suc h) (add_loop (first + 1) n)) (omega arith)
      (adds-IsLeaving (suc h) (first + 1) n)

remove_loop-IsLeaving : (h n : ℕ) → h ≡ n → IsLeaving 0 h (remove_loop n)
unfolding remove_loop
remove_loop-IsLeaving h zero eq = eq
remove_loop-IsLeaving h (suc n) eq = (omega arith, remove_loop-IsLeaving (h - 1) n (omega arith))

add_remove_loop-IsLeaving : (first n : ℕ) → IsLeaving 0 0 (add_remove_loop first n)
unfolding add_remove_loop
add_remove_loop-IsLeaving first zero = refl
add_remove_loop-IsLeaving first (suc n) = (omega arith, add_remove_loop-IsLeaving (first + 1) n)

module _ {S : Type 0} {ds : Methods S} {base : ℕ} (container : IsCounting ds base) where
  -- `test_1` accepts every structure whose size counts its additions, and its removals while it is
  -- not empty, in whatever order the calls of the threads take effect: the size grows by the number
  -- of actions, less the remainder of its division by the number of threads.
  pub test_1_lem :
      (actions curr_thread : ℕ) (calls : List Call) (s : S)
      → IsInterleaving curr_thread (thread_add (actions / curr_thread)) calls
      → (test_1 ds actions curr_thread calls s).1 ≡ true
  unfolding test_1
  test_1_lem actions curr_thread calls s order =
      let p = actions / curr_thread in
      let none_held = total_const curr_thread 0 (λ _. 0) (λ i lt. refl) in
      let empty_size = container.size_empty s in
      let grown =
        size-run container curr_thread p (thread_add p) calls (λ _. 0) (ds.empty s) order
          (λ i lt.
            subst (λ k. IsLeaving k 0 (thread_add p i)) (omega (arith, rounds_lem p i))
              (adds-IsLeaving 0 (p * i) (rounds p i)))
          (omega (arith, none_held, empty_size)) in
      ground (arith, grown, empty_size, mod-add-div actions curr_thread)

  -- What threads whose removals never outnumber their additions, and which remove all they add,
  -- leave of the size.
  size-balanced :
      (curr_thread : ℕ) (work : ℕ → List Call) (calls : List Call) (s : S)
      → IsInterleaving curr_thread work calls
      → ((i : ℕ) → IsLeaving 0 0 (work i))
      → ds.size (run ds calls (ds.empty s)) ≡ ds.size (ds.empty s)
  size-balanced curr_thread work calls s order leaves =
      let none_held = total_const curr_thread 0 (λ _. 0) (λ i lt. refl) in
      let kept =
        size-run container curr_thread 0 work calls (λ _. 0) (ds.empty s) order (λ i lt. leaves i)
          (omega (arith, none_held, container.size_empty s)) in
      omega (arith, kept, container.size_empty s)

  -- `test_2` accepts every structure whose size counts its additions, and its removals while it is
  -- not empty, in whatever order the calls of the threads take effect.
  pub test_2_lem :
      (partitions curr_thread : ℕ) (calls : List Call) (s : S)
      → IsInterleaving curr_thread (thread_add_remove partitions) calls
      → (test_2 ds calls s).1 ≡ true
  unfolding test_2
  test_2_lem partitions curr_thread calls s order =
      let kept = size-balanced curr_thread (thread_add_remove partitions) calls s order (λ i.
        add_loop-IsLeaving 0 0 (partitions * i) (rounds partitions i)
          (remove_loop (rounds partitions i))
          (remove_loop-IsLeaving (0 + rounds partitions i) (rounds partitions i) (omega arith))) in
      ground (arith, kept)

  -- `test_3` accepts every structure whose size counts its additions, and its removals while it is
  -- not empty, in whatever order the calls of the threads take effect.
  pub test_3_lem :
      (partitions curr_thread : ℕ) (calls : List Call) (s : S)
      → IsInterleaving curr_thread (thread_add_one_remove_one partitions) calls
      → (test_3 ds calls s).1 ≡ true
  unfolding test_3
  test_3_lem partitions curr_thread calls s order =
      let kept =
        size-balanced curr_thread (thread_add_one_remove_one partitions) calls s order
          (λ i. add_remove_loop-IsLeaving (partitions * i) (rounds partitions i)) in
      ground (arith, kept)

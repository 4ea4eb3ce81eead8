-- ===== src/Validator.antt =====
-- The validator, lib/includes/validator.hpp (`Validator`), with `methods` of
-- lib/includes/helpers.hpp: the work of its threads, and `Test_1` to `Test_4`. The tested structure
-- is a parameter, of which each call takes effect at one moment; the work of the threads is
-- interleaved in every way. Thread pinning and the barrier only restrict the interleavings. In
-- `Test_4` an overflow of the int sums, which is undefined, is a `fault`; other counts stay below 2 ^ 31.
pub mod Work
pub mod Laws
pub mod Sums
mod Tests
use public_conc_exp.Common.{
  update, ℕ, zero, suc, ◌+◌, ◌-◌, ◌*◌, ◌/◌, ◌%◌, ◌^◌, ◌≡◌, ◌<◌, Bool, true, false, List, [], ◌∷◌,
  ◌++◌, ltb, ◌==◌, if◌then◌else◌, Run, ok, as_int, spins, ◌>>=◌,
}

-- The methods that the tests call, each as a function of the structure's state.
pub record Methods (S : Type 0) : Type 0 where
  pub add : ℕ → S → S
  pub remove : S → S × ℕ
  pub size : S → ℕ
  pub empty : S → S

-- A call of a thread to the structure.
pub data Call : Type 0 where
  call_add : ℕ → Call
  call_remove : Call

-- `for(i=first; i<first+n; i++) add(i+1)`
unfoldable pub add_loop : ℕ → ℕ → List Call
add_loop first zero = []
add_loop first (suc n) = call_add (first + 1) ∷ add_loop (first + 1) n

unfoldable pub remove_loop : ℕ → List Call
remove_loop zero = []
remove_loop (suc n) = call_remove ∷ remove_loop n

unfoldable pub add_remove_loop : ℕ → ℕ → List Call
add_remove_loop first zero = []
add_remove_loop first (suc n) = call_add (first + 1) ∷ call_remove ∷ add_remove_loop (first + 1) n

-- The rounds of a loop from `partitions*thread_num` to `partitions*(thread_num+1)`.
abbrev pub rounds : ℕ → ℕ → ℕ
rounds partitions thread_num = partitions * (thread_num + 1) - partitions * thread_num

abbrev pub thread_add : ℕ → ℕ → List Call
thread_add partitions thread_num = add_loop (partitions * thread_num) (rounds partitions thread_num)

abbrev pub thread_add_remove : ℕ → ℕ → List Call
thread_add_remove partitions thread_num =
    add_loop (partitions * thread_num) (rounds partitions thread_num)
    ++ remove_loop (rounds partitions thread_num)

abbrev pub thread_add_one_remove_one : ℕ → ℕ → List Call
thread_add_one_remove_one partitions thread_num =
    add_remove_loop (partitions * thread_num) (rounds partitions thread_num)

-- The orders in which the calls of the threads 0 to n - 1 can take effect.
abbrev pub IsInterleaving : ℕ → (ℕ → List Call) → List Call → Type 0
IsInterleaving n work [] = (i : ℕ) → i < n → work i ≡ []
IsInterleaving n work (c ∷ calls) =
    (i : ℕ) × (cs : List Call) × (i < n)
    × (work i ≡ c ∷ cs)
    × IsInterleaving n (update work i cs) calls

module _ {S : Type 0} (ds : Methods S) where
  open ds use {add, remove, size, empty}

  unfoldable pub run : List Call → S → S
  run [] s = s
  run (call_add v ∷ cs) s = run cs (add v s)
  run (call_remove ∷ cs) s = run cs (remove s).0

  -- `calls` is what the threads have done when all have been joined.
  unfoldable pub test_1 : (actions curr_thread : ℕ) → List Call → S → S × Bool
  unfolding run
  test_1 actions curr_thread calls s =
      let curr_size = size (empty s) in
      let t = run calls (empty s) in
      let goal_elements = actions + curr_size - actions % curr_thread in
      (t, goal_elements == size t)

  unfoldable pub test_2 : List Call → S → S × Bool
  unfolding run
  test_2 calls s =
      let prev_actions = size (empty s) in
      let t = run calls (empty s) in (t, size t == prev_actions)

  unfoldable pub test_3 : List Call → S → S × Bool
  unfolding run
  test_3 calls s =
      let prev_actions = size (empty s) in
      let t = run calls (empty s) in (t, size t == prev_actions)

-- `localbuf += (i+1)` in each round; both are ints, and `i` is below the sum.
unfoldable pub count_loop : ℕ → ℕ → ℕ → Run ℕ
count_loop localbuf first zero = ok localbuf
count_loop localbuf first (suc n) = do
  longer ← as_int (localbuf + (first + 1))
  count_loop longer (first + 1) n

-- The int `globalBuff` when the threads 0 to n - 1 of `Test_4` have added their `localbuf`.
unfoldable pub global_buff : ℕ → ℕ → Run ℕ
unfolding count_loop
global_buff partitions zero = ok 0
global_buff partitions (suc n) = do
  buff ← global_buff partitions n
  localbuf ← count_loop 0 (partitions * n) (rounds partitions n)
  as_int (buff + localbuf)

module _ {S : Type 0} (ds : Methods S) where
  open ds use {remove, size, empty}

  -- `while(size() > sentinel) realCounter += remove()`, on fuel
  unfoldable pub drain_loop : ℕ → ℕ → ℕ → S → Run (S × ℕ)
  drain_loop zero sentinel real_counter s = spins
  drain_loop (suc fuel) sentinel real_counter s = elim (ltb sentinel (size s)) [
    | false ↦ ok (s, real_counter)
    | true ↦ drain_loop fuel sentinel (real_counter + (remove s).1) (remove s).0
  ]

  -- The comparison of the int `globalBuff` with the long long `realCounter`.
  unfoldable pub test_4 : (partitions curr_thread : ℕ) → List Call → S → Run (S × Bool)
  unfolding run drain_loop
  test_4 partitions curr_thread calls s =
      let sentinel = if size (empty s) == 1 then 1 else 0 in
      let t = run ds calls (empty s) in
      do
        buff ← global_buff partitions curr_thread
        (u, real_counter) ← drain_loop (suc (size t)) sentinel 0 t
        ok (u, buff == real_counter)

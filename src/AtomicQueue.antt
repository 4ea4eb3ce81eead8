-- ===== src/AtomicQueue.antt =====
-- The array queue with atomic counters, lib/DS/Queues/atomic_queue/atomic_queue.hpp (`atomic_queue`), at
-- X = int, one operation at a time. A read or write outside the array is a `fault`. The cells of a new
-- array are the argument `junk`, for the code leaves them unset. `count` (atomic)
-- and `capacityVar` are ints: an overflow of `capacityVar` is undefined, and one of `count` would make it
-- negative; both are a `fault` here. `index` is a size_t, and wraps around.
pub mod Laws
pub mod Requests
mod Tests
use public_conc_exp.Common.{
  ℕ, zero, suc, ◌+◌, ◌-◌, ◌*◌, ◌/◌, Bool, false, true, none, some, List, [], ◌∷◌, ◌++◌, ℤ, pos,
  minus_one, Run, ok, as_int, fault, blocked, spins, ◌>>=◌, get_elem?, set, take, length,
  if◌then◌else◌, ◌==◌, ◌==ℤ◌, ltb,
}

pub record AtomicQueue : Type 0 where
  pub arr : List ℤ
  pub capacity_var : ℕ
  pub count : ℕ
  pub index : ℕ
  pub array_lock : Bool

-- 2 ^ 64 - 1
abbrev pub size_max : ℕ
size_max = 18446744073709551615

-- `fetch_add(1)` and `fetch_sub(1)` on a size_t.
abbrev pub fetch_add : ℕ → ℕ
fetch_add i = if i == size_max then 0 else i + 1

abbrev pub fetch_sub : ℕ → ℕ
fetch_sub i = if i == 0 then size_max else i - 1

-- `new X[n]`, from cell `i` on.
abbrev pub new_cells : (ℕ → ℤ) → ℕ → ℕ → List ℤ
new_cells junk i zero = []
new_cells junk i (suc n) = junk i ∷ new_cells junk (i + 1) n

-- The constructor; `index` starts at -1.
abbrev pub new_queue : (ℕ → ℤ) → AtomicQueue
new_queue junk = record {
  arr = new_cells junk 0 4;
  capacity_var = 4;
  count = 0;
  index = size_max;
  array_lock = false;
}

unfoldable pub is_empty : AtomicQueue → Bool
is_empty s = s.index == 0

unfoldable pub full : AtomicQueue → Bool
full s = s.count == s.capacity_var

-- An array of another size, into which the first `count` cells are copied.
unfoldable pub resize : (ℕ → ℤ) → ℕ → AtomicQueue → AtomicQueue
resize junk capacity s = record s {
  capacity_var = capacity;
  arr = take s.count s.arr ++ new_cells junk s.count (capacity - s.count);
}

-- `enqueue` behind the growth of the array.
unfoldable pub put_cell : ℤ → AtomicQueue → Run (AtomicQueue × Bool)
put_cell x s =
    let i = fetch_add s.index in
    elim (get_elem? s.arr i) [
      | none ↦ fault
      | some old ↦ do
        count ← as_int (s.count + 1)
        ok (record s { index = i; arr = set s.arr i x; count = count }, true)
    ]

-- The growth of the array.
unfoldable pub double : (ℕ → ℤ) → AtomicQueue → Run AtomicQueue
unfolding resize
double junk s = do capacity ← as_int (s.capacity_var * 2); ok (resize junk capacity s)

unfoldable pub enqueue : (ℕ → ℤ) → ℤ → AtomicQueue → Run (AtomicQueue × Bool)
unfolding full put_cell double
enqueue junk x s =
    if s.array_lock then blocked else do s' ← if full s then double junk s else ok s; put_cell x s'

-- `dequeue` behind the shrinking of the array.
unfoldable pub take_cell : AtomicQueue → Run (AtomicQueue × ℤ)
take_cell s =
    let i = fetch_sub s.index in
    elim (get_elem? s.arr i) [
      | none ↦ fault
      | some v ↦ ok (record s { index = i; arr = set s.arr i (pos 0); count = s.count - 1 }, v)
    ]

unfoldable pub dequeue : (ℕ → ℤ) → AtomicQueue → Run (AtomicQueue × ℤ)
unfolding is_empty take_cell
dequeue junk s =
    if is_empty s
    then ok (s, minus_one)
    else if s.array_lock
    then blocked
    else take_cell
        (if ltb s.count (s.capacity_var / 2) then resize junk (s.capacity_var / 2) s else s)

-- The `while` of `empty`, on fuel.
unfoldable pub empty_loop : (ℕ → ℤ) → ℕ → AtomicQueue → Run AtomicQueue
unfolding dequeue
empty_loop junk zero s = spins
empty_loop junk (suc fuel) s = do
  (s', v) ← dequeue junk s
  if v ==ℤ minus_one then ok s' else empty_loop junk fuel s'

-- The `for` of `find`, from cell `i` on, with `n` cells left before `size()`.
unfoldable pub find_loop : List ℤ → ℤ → ℕ → ℕ → Run ℤ
find_loop arr v i zero = ok minus_one
find_loop arr v i (suc n) = elim (get_elem? arr i) [
  | none ↦ fault
  | some w ↦ if w ==ℤ v then ok w else find_loop arr v (i + 1) n
]

unfoldable pub find : ℤ → AtomicQueue → Run ℤ
unfolding find_loop
find v s = find_loop s.arr v 0 s.count

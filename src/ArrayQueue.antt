-- ===== src/ArrayQueue.antt =====
-- The queue in an array under one lock, lib/DS/Queues/Queue_Array/queueArray.hpp (`QueueArray`), at
-- X = int, one operation at a time. A read or write outside the array is a `fault`. The cells of a
-- new array are the argument `junk`, for the code leaves them unset. The counts stay below 2 ^ 31.
pub mod Laws
mod Tests
use public_conc_exp.Common.{
  ℕ, zero, suc, ◌+◌, ◌-◌, ◌*◌, ◌%◌, Bool, false, true, not, none, some, List, [], ◌∷◌, ◌++◌, ℤ, pos,
  negsuc, minus_one, Run, ok, fault, blocked, ◌>>=◌, get_elem?, set, take, if◌then◌else◌, ◌&&◌,
  ◌==◌, ◌==ℤ◌, ltb,
}

pub record QueueArray : Type 0 where
  pub front_index : ℤ
  pub back_index : ℤ
  pub arr : List ℤ
  pub capacity_var : ℕ
  pub count : ℕ
  pub array_lock : Bool

-- `new X[n]`
abbrev pub new_cells : (ℕ → ℤ) → ℕ → ℕ → List ℤ
new_cells junk i zero = []
new_cells junk i (suc n) = junk i ∷ new_cells junk (i + 1) n

-- The constructor; `count` starts at 4.
abbrev pub new_queue : (ℕ → ℤ) → QueueArray
new_queue junk = record {
  front_index = minus_one;
  back_index = minus_one;
  arr = new_cells junk 0 4;
  capacity_var = 4;
  count = 4;
  array_lock = false;
}

-- `frontIndex == -1 && backIndex -1`
unfoldable pub is_empty : QueueArray → Bool
is_empty s = (s.front_index ==ℤ minus_one) && not (s.back_index ==ℤ pos 1)

unfoldable pub full : QueueArray → Bool
full s = s.count == s.capacity_var

abbrev pub read_at : List ℤ → ℤ → Run ℤ
read_at xs (pos i) = elim (get_elem? xs i) [ none ↦ fault | some v ↦ ok v ]
read_at xs (negsuc i) = fault

abbrev pub write_at : List ℤ → ℤ → ℤ → Run (List ℤ)
write_at xs (pos i) v = elim (get_elem? xs i) [ none ↦ fault | some w ↦ ok (set xs i v) ]
write_at xs (negsuc i) v = fault

-- `(index+1) % capacity`, with the sign of C's remainder.
abbrev pub next_index : ℤ → ℕ → ℤ
next_index (pos i) capacity = pos ((i + 1) % capacity)
next_index (negsuc zero) capacity = pos 0
next_index (negsuc (suc i)) capacity =
    if (i + 1) % capacity == 0 then pos 0 else negsuc ((i + 1) % capacity - 1)

-- The array doubled: the first `count` cells are copied.
unfoldable pub grow : (ℕ → ℤ) → QueueArray → QueueArray
grow junk s = record s {
  capacity_var = s.capacity_var * 2;
  arr = take s.count s.arr ++ new_cells junk s.count (s.capacity_var * 2 - s.count);
}

-- `enqueue` behind the growth of the array.
unfoldable pub enqueue_cell : ℤ → QueueArray → Run (QueueArray × Bool)
unfolding is_empty
enqueue_cell x s =
    let back = if is_empty s then pos 0 else next_index s.back_index s.capacity_var in
    let front = if is_empty s then pos 0 else s.front_index in
    do
      cells ← write_at s.arr back x
      ok (
        record s { front_index = front; back_index = back; arr = cells; count = s.count + 1 },
        true,
      )

unfoldable pub enqueue : (ℕ → ℤ) → ℤ → QueueArray → Run (QueueArray × Bool)
enqueue junk x s =
    if s.array_lock then blocked else enqueue_cell x (if full s then grow junk s else s)

-- Both returns behind the removal read the array at the new `frontIndex`.
unfoldable pub dequeue_cell : QueueArray → Run (QueueArray × ℤ)
dequeue_cell s =
    let last = s.front_index ==ℤ s.back_index in
    let front = if last then minus_one else next_index s.front_index s.capacity_var in
    let back = if last then minus_one else s.back_index in
    do
      v ← read_at s.arr front
      ok (record s { front_index = front; back_index = back; count = s.count - 1 }, v)

unfoldable pub dequeue : QueueArray → Run (QueueArray × ℤ)
unfolding is_empty dequeue_cell
dequeue s = if s.array_lock then blocked else if is_empty s then ok (s, pos 0) else dequeue_cell s

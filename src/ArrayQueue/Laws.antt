-- ===== src/ArrayQueue/Laws.antt =====
-- What `enqueue` and `dequeue` do to the values in the array.
use public_conc_exp.Common.{
  ℕ, suc, ◌+◌, ◌≡◌, ◌≢◌, refl, false, true, some, List, [], ◌∷◌, ◌++◌, arith, ℤ, pos, ok, fault,
  get_elem?, get_elem?-at, set-at, ap, ◌∙◌, sym, ◌-◌, set, length, length-append,
}
use native.Mathlib.Nat.{mod-eq_of_lt}
use public_conc_exp.ArrayQueue.{
  QueueArray, dequeue_cell, is_empty, full, enqueue_cell, enqueue, dequeue,
}

-- The values `x ∷ xs` stand in a row behind the cells `before`, and the lock is free.
pub record IsRow (s : QueueArray) (before : List ℤ) (x : ℤ) (xs behind : List ℤ) : Type 0 where
  pub cells : s.arr ≡ before ++ x ∷ (xs ++ behind)
  pub front : s.front_index ≡ pos (length before)
  pub back : s.back_index ≡ pos (length before + length xs)
  pub capacity : s.capacity_var ≡ length s.arr
  pub free : s.array_lock ≡ false

get_elem?-second :
    (before : List ℤ) (x y : ℤ) (ys : List ℤ)
    → get_elem? (before ++ x ∷ y ∷ ys) (length before + 1) ≡ some y
get_elem?-second [] x y ys = refl
get_elem?-second (b ∷ before) x y ys =
    ap (get_elem? (b ∷ before ++ x ∷ y ∷ ys)) {y = suc (length before + 1)} (omega arith)
    ∙ get_elem?-second before x y ys

append_assoc : (before xs ys : List ℤ) → before ++ (xs ++ ys) ≡ (before ++ xs) ++ ys
append_assoc [] xs ys = refl
append_assoc (b ∷ before) xs ys = ap (λ r. b ∷ r) (append_assoc before xs ys)

dequeue_cell_lem :
    (s : QueueArray) (before : List ℤ) (x y : ℤ) (ys behind : List ℤ)
    → IsRow s before x (y ∷ ys) behind
    → dequeue_cell s
      ≡ ok (record s { front_index = pos (length before + 1); count = s.count - 1 }, y)
unfolding dequeue_cell
dequeue_cell_lem s before x y ys behind row =
    let within = ap length row.cells ∙ length-append before (x ∷ y ∷ (ys ++ behind)) in
    let moved =
      mod-eq_of_lt {n = length before + 1} {m = s.capacity_var}
        (omega (arith, within, row.capacity)) in
    let read =
      ap (λ xs. get_elem? xs (length before + 1)) row.cells
      ∙ get_elem?-second before x y (ys ++ behind) in
    ground (arith, moved, read, row.front, row.back)

-- On two or more values in a row `dequeue` removes the first value and hands out the one behind it.
pub dequeue-IsRow :
    (s : QueueArray) (before : List ℤ) (x y : ℤ) (ys behind : List ℤ)
    → IsRow s before x (y ∷ ys) behind
    → (t : QueueArray) × (dequeue s ≡ ok (t, y)) × IsRow t (before ++ x ∷ []) y ys behind
unfolding dequeue is_empty
dequeue-IsRow s before x y ys behind row =
    let longer = length-append before (x ∷ []) in
    (
      record s { front_index = pos (length before + 1); count = s.count - 1 },
      ground (arith, dequeue_cell_lem s before x y ys behind row, row.front, row.free),
      record {
        cells = row.cells ∙ append_assoc before (x ∷ []) (y ∷ (ys ++ behind));
        front = ap pos (omega (arith, longer));
        back = row.back ∙ ap pos (omega (arith, longer));
        capacity = row.capacity;
        free = row.free;
      },
    )

-- On a single value `dequeue` reads outside the array.
pub dequeue_last_faults :
    (s : QueueArray) (before : List ℤ) (x : ℤ) (behind : List ℤ)
    → IsRow s before x [] behind
    → dequeue s ≡ fault
unfolding dequeue is_empty dequeue_cell
dequeue_last_faults s before x behind row = ground (arith, row.front, row.back, row.free)

enqueue_cell_lem :
    (s : QueueArray) (before : List ℤ) (x : ℤ) (xs : List ℤ) (h v : ℤ) (behind : List ℤ)
    → IsRow s before x xs (h ∷ behind)
    → enqueue_cell v s
      ≡ ok (
        record s {
          back_index = pos (length before + length xs + 1);
          arr = before ++ x ∷ (xs ++ v ∷ behind);
          count = s.count + 1;
        },
        true,
      )
unfolding enqueue_cell is_empty
enqueue_cell_lem s before x xs h v behind row =
    let pre = before ++ x ∷ xs in
    let whole = row.cells ∙ append_assoc before (x ∷ xs) (h ∷ behind) in
    let size = length-append before (x ∷ xs) in
    let at_back : length before + length xs + 1 ≡ length pre = omega (arith, size) in
    let within = ap length whole ∙ length-append pre (h ∷ behind) in
    let moved =
      mod-eq_of_lt {n = length before + length xs + 1} {m = s.capacity_var}
        (omega (arith, within, size, row.capacity)) in
    let read =
      ap (λ cells. get_elem? cells (length before + length xs + 1)) whole
      ∙ ap (get_elem? (pre ++ h ∷ behind)) at_back
      ∙ get_elem?-at pre h behind in
    let written =
      ap (λ cells. set cells (length before + length xs + 1) v) whole
      ∙ ap (λ k. set (pre ++ h ∷ behind) k v) at_back
      ∙ set-at pre h v behind
      ∙ sym (append_assoc before (x ∷ xs) (v ∷ behind)) in
    ground (arith, moved, read, written, row.front, row.back)

full_lem : (s : QueueArray) → s.count ≢ s.capacity_var → full s ≡ false
unfolding full
full_lem s room = ground arith

-- While there is a cell behind the row and the array is not full, `enqueue` puts its value behind the
-- others.
enqueue-IsRow :
    (junk : ℕ → ℤ) (s : QueueArray) (before : List ℤ) (x : ℤ) (xs : List ℤ) (h v : ℤ)
    (behind : List ℤ)
    → IsRow s before x xs (h ∷ behind)
    → s.count ≢ s.capacity_var
    → (t : QueueArray) × (enqueue junk v s ≡ ok (t, true)) × IsRow t before x (xs ++ v ∷ []) behind
unfolding enqueue
enqueue-IsRow junk s before x xs h v behind row room =
    let size : length (before ++ x ∷ (xs ++ h ∷ behind))
        ≡ length (before ++ x ∷ (xs ++ v ∷ behind)) =
      omega (
        arith,
        length-append before (x ∷ (xs ++ h ∷ behind)),
        length-append before (x ∷ (xs ++ v ∷ behind)),
        length-append xs (h ∷ behind),
        length-append xs (v ∷ behind),
      ) in
    let not_full = full_lem s room in
    let put = enqueue_cell_lem s before x xs h v behind row in
    (
      record s {
        back_index = pos (length before + length xs + 1);
        arr = before ++ x ∷ (xs ++ v ∷ behind);
        count = s.count + 1;
      },
      ground (arith, row.free, not_full, put),
      record {
        cells = ap (λ r. before ++ x ∷ r) (append_assoc xs (v ∷ []) behind);
        front = row.front;
        back = ap pos (omega (arith, length-append xs (v ∷ [])));
        capacity = row.capacity ∙ ap length row.cells ∙ size;
        free = row.free;
      },
    )

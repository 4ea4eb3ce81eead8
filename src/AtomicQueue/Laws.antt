-- ===== src/AtomicQueue/Laws.antt =====
-- What `enqueue` and `dequeue` do to the values in the array.
use public_conc_exp.Common.{
  ℕ, zero, suc, ◌+◌, ◌-◌, ◌*◌, ◌<◌, ◌≡◌, refl, sym, ap, ◌∙◌, false, true, some, List, [], ◌∷◌, ◌++◌,
  arith, ℤ, pos, minus_one, ok, ◌^◌, as_int_small, get_elem?, set, take, length, length-append,
  get_elem?-at, set-at, take-length, ◌==◌,
}
use mathlib.Core.List.{append_assoc}
use public_conc_exp.AtomicQueue.{
  AtomicQueue, double, fetch_add, fetch_sub, new_cells, full, resize, put_cell, enqueue, take_cell,
}

-- 2 ^ 30 - 1: with fewer values than that, the double of the capacity of a full array fits an int.
abbrev pub most : ℕ
most = 1073741823

-- The values `x ∷ xs` stand at the front of the array, the cells `behind` follow, and the lock is free.
pub record IsRow (s : AtomicQueue) (x : ℤ) (xs behind : List ℤ) : Type 0 where
  pub cells : s.arr ≡ (x ∷ xs) ++ behind
  pub count : s.count ≡ suc (length xs)
  pub index : s.index ≡ length xs
  pub capacity : s.capacity_var ≡ length s.arr
  pub free : s.array_lock ≡ false

length-new_cells : (junk : ℕ → ℤ) (i n : ℕ) → length (new_cells junk i n) ≡ n
length-new_cells junk i zero = refl
length-new_cells junk i (suc n) = ap suc (length-new_cells junk (i + 1) n)

-- Another size that the row fits in keeps the row.
pub resize-IsRow :
    (junk : ℕ → ℤ) (s : AtomicQueue) (x : ℤ) (xs behind : List ℤ) (k : ℕ)
    → IsRow s x xs behind
    → IsRow (resize junk (suc (length xs) + k) s) x xs (new_cells junk (suc (length xs)) k)
unfolding resize
resize-IsRow junk s x xs behind k row =
    let room : suc (length xs) + k - s.count ≡ k = omega (arith, row.count) in
    let kept : take s.count s.arr ≡ x ∷ xs =
      ap (λ n. take n s.arr) row.count
      ∙ ap (take (suc (length xs))) row.cells
      ∙ take-length (x ∷ xs) behind in
    let whole : take s.count s.arr ++ new_cells junk s.count (suc (length xs) + k - s.count)
        ≡ (x ∷ xs) ++ new_cells junk (suc (length xs)) k =
      ap (λ r. r ++ new_cells junk s.count (suc (length xs) + k - s.count)) kept
      ∙ ap (λ n. (x ∷ xs) ++ new_cells junk n (suc (length xs) + k - s.count)) row.count
      ∙ ap (λ n. (x ∷ xs) ++ new_cells junk (suc (length xs)) n) room in
    record {
      cells = whole;
      count = row.count;
      index = row.index;
      capacity = sym (
          ap length whole
          ∙ length-append (x ∷ xs) (new_cells junk (suc (length xs)) k)
          ∙ ap (λ n. suc (length xs) + n) (length-new_cells junk (suc (length xs)) k));
      free = row.free;
    }

pub put_cell-IsRow :
    (s : AtomicQueue) (x : ℤ) (xs : List ℤ) (h v : ℤ) (behind : List ℤ)
    → IsRow s x xs (h ∷ behind)
    → length xs < most
    → (t : AtomicQueue) × (put_cell v s ≡ ok (t, true)) × IsRow t x (xs ++ v ∷ []) behind
unfolding put_cell
put_cell-IsRow s x xs h v behind row small =
    let at : fetch_add s.index ≡ length (x ∷ xs) = ap fetch_add row.index ∙ ground (arith, small) in
    let read : get_elem? s.arr (fetch_add s.index) ≡ some h =
      ap (get_elem? s.arr) at
      ∙ ap (λ r. get_elem? r (length (x ∷ xs))) row.cells
      ∙ get_elem?-at (x ∷ xs) h behind in
    let written : set s.arr (fetch_add s.index) v ≡ (x ∷ (xs ++ v ∷ [])) ++ behind =
      ap (λ i. set s.arr i v) at
      ∙ ap (λ r. set r (length (x ∷ xs)) v) row.cells
      ∙ set-at (x ∷ xs) h v behind
      ∙ ap (λ r. x ∷ r) (sym (append_assoc xs (v ∷ []) behind)) in
    let longer = length-append xs (v ∷ []) in
    let size = length-append (x ∷ xs) (h ∷ behind) in
    let size' = length-append (x ∷ (xs ++ v ∷ [])) behind in
    (
      record s {
        index = fetch_add s.index;
        arr = set s.arr (fetch_add s.index) v;
        count = s.count + 1;
      },
      rw (read, as_int_small (s.count + 1) (omega (arith, row.count, small)), put_cell) refl,
      record {
        cells = written;
        count = omega (arith, row.count, longer);
        index = at ∙ omega (arith, longer);
        capacity =
            omega
              (arith, row.capacity, ap length row.cells, ap length written, longer, size, size');
        free = row.free;
      },
    )

enqueue-full :
    (junk : ℕ → ℤ) (s : AtomicQueue) (v : ℤ)
    → s.array_lock ≡ false
    → (s.count == s.capacity_var) ≡ true
    → s.capacity_var * 2 < 2 ^ 31
    → enqueue junk v s ≡ put_cell v (resize junk (s.capacity_var * 2) s)
unfolding enqueue full double
enqueue-full junk s v free is_full small =
    rw (free, is_full, as_int_small (s.capacity_var * 2) small) refl

pub enqueue_roomy :
    (junk : ℕ → ℤ) (s : AtomicQueue) (v : ℤ)
    → s.array_lock ≡ false
    → (s.count == s.capacity_var) ≡ false
    → enqueue junk v s ≡ put_cell v s
unfolding enqueue full
enqueue_roomy junk s v free roomy = rw (free, roomy) refl

-- While there are fewer than 2 ^ 30 values, `enqueue` puts its value behind the others.
pub enqueue-IsRow :
    (junk : ℕ → ℤ) (s : AtomicQueue) (x : ℤ) (xs : List ℤ) (v : ℤ) (behind : List ℤ)
    → IsRow s x xs behind
    → length xs < most
    → (t : AtomicQueue) × (behind' : List ℤ) × (enqueue junk v s ≡ ok (t, true))
      × IsRow t x (xs ++ v ∷ []) behind'
enqueue-IsRow junk s x xs v [] row small =
    let size = ap length row.cells ∙ length-append (x ∷ xs) [] in
    let twice : s.capacity_var * 2 ≡ suc (length xs) + suc (length xs) =
      omega (arith, row.capacity, size) in
    let bigger = resize-IsRow junk s x xs [] (suc (length xs)) row in
    let (t, run, row') =
      put_cell-IsRow (resize junk (suc (length xs) + suc (length xs)) s) x xs
        (junk (suc (length xs))) v (new_cells junk (suc (length xs) + 1) (length xs)) bigger
        small in
    let is_full : (s.count == s.capacity_var) ≡ true =
      ground (arith, row.count, row.capacity, size) in
    (
      t,
      _,
      enqueue-full junk s v row.free is_full (omega (arith, twice, small))
          ∙ ap (λ k. put_cell v (resize junk k s)) twice
          ∙ run,
      row',
    )
enqueue-IsRow junk s x xs v (h ∷ behind) row small =
    let size = ap length row.cells ∙ length-append (x ∷ xs) (h ∷ behind) in
    let (t, run, row') = put_cell-IsRow s x xs h v behind row small in
    let roomy : (s.count == s.capacity_var) ≡ false =
      ground (arith, row.count, row.capacity, size) in
    (t, behind, enqueue_roomy junk s v row.free roomy ∙ run, row')

-- What a removal does to the values: the last one is lost, the last but one is handed out, and 0 stands
-- in its place. From a single value nothing is removed.
unfoldable pub take_last : ℤ → List ℤ → List ℤ × ℤ
take_last x [] = (x ∷ [], minus_one)
take_last x (y ∷ []) = (pos 0 ∷ [], x)
take_last x (y ∷ z ∷ zs) = let (kept, got_) = take_last y (z ∷ zs) in (x ∷ kept, got_)

-- Where that happens in the cells.
take_last-cells :
    (x y : ℤ) (ys behind : List ℤ)
    → (get_elem? (x ∷ (y ∷ ys) ++ behind) (length ys) ≡ some (take_last x (y ∷ ys)).1)
      × ((w : ℤ) × (ws : List ℤ) × (b : ℤ) × ((take_last x (y ∷ ys)).0 ≡ w ∷ ws)
          × (length ws ≡ length ys)
          × (set (x ∷ (y ∷ ys) ++ behind) (length ys) (pos 0) ≡ (w ∷ ws) ++ b ∷ behind))
unfolding take_last
take_last-cells x y [] behind = (refl, (pos 0, [], y, refl, refl, refl))
take_last-cells x y (z ∷ zs) behind =
    let (read, (w, ws, b, kept, size, written)) = take_last-cells y z zs behind in
    (read, (x, w ∷ ws, b, ap (λ r. x ∷ r) kept, ap suc size, ap (λ r. x ∷ r) written))

-- On two or more values.
pub take_cell-IsRow :
    (s : AtomicQueue) (x y : ℤ) (ys behind : List ℤ)
    → IsRow s x (y ∷ ys) behind
    → (t : AtomicQueue) × (w : ℤ) × (ws : List ℤ) × (b : ℤ) × (take_cell s
        ≡ ok (t, (take_last x (y ∷ ys)).1))
      × ((take_last x (y ∷ ys)).0 ≡ w ∷ ws)
      × IsRow t w ws (b ∷ behind)
unfolding take_cell
take_cell-IsRow s x y ys behind row =
    let (there, (w, ws, b, kept, size, put)) = take_last-cells x y ys behind in
    let at : fetch_sub s.index ≡ length ys = ap fetch_sub row.index ∙ ground (arith) in
    let read : get_elem? s.arr (fetch_sub s.index) ≡ some (take_last x (y ∷ ys)).1 =
      ap (get_elem? s.arr) at ∙ ap (λ r. get_elem? r (length ys)) row.cells ∙ there in
    let written : set s.arr (fetch_sub s.index) (pos 0) ≡ (w ∷ ws) ++ b ∷ behind =
      ap (λ i. set s.arr i (pos 0)) at ∙ ap (λ r. set r (length ys) (pos 0)) row.cells ∙ put in
    let whole = length-append (x ∷ y ∷ ys) behind in
    let whole' = length-append (w ∷ ws) (b ∷ behind) in
    (
      record s {
        index = fetch_sub s.index;
        arr = set s.arr (fetch_sub s.index) (pos 0);
        count = s.count - 1;
      },
      w,
      ws,
      b,
      rw (read, take_cell) refl,
      kept,
      record {
        cells = written;
        count = omega (arith, row.count, size);
        index = at ∙ sym size;
        capacity =
            omega
              (arith, row.capacity, ap length row.cells, ap length written, whole, whole', size);
        free = row.free;
      },
    )

-- ===== src/AtomicQueue/Requests.antt =====
-- Any enqueues and dequeues, from the constructor on.
use public_conc_exp.Common.{
  ℕ, suc, ◌+◌, ◌-◌, ◌/◌, ◌<◌, ◌≡◌, refl, ap, ◌∙◌, false, true, inl, inr, Bool-cases, List, [], ◌∷◌,
  ◌++◌, arith, ℤ, minus_one, Run, ok, ◌>>=◌, length, length-append, ltb,
}
use public_conc_exp.Spec.Requests.{Request, add, remove, Reply, done, got, serve}
use public_conc_exp.AtomicQueue.{
  AtomicQueue, new_cells, new_queue, is_empty, resize, put_cell, enqueue, take_cell, dequeue,
}
use public_conc_exp.AtomicQueue.Laws.{
  IsRow, most, resize-IsRow, enqueue_roomy, enqueue-IsRow, take_last, take_cell-IsRow,
}

dequeue_single : (junk : ℕ → ℤ) (s : AtomicQueue) → s.index ≡ 0 → dequeue junk s ≡ ok (s, minus_one)
unfolding dequeue is_empty
dequeue_single junk s e = ground (arith, e)

dequeue-small :
    (junk : ℕ → ℤ) (s : AtomicQueue) (n : ℕ)
    → s.index ≡ suc n
    → s.array_lock ≡ false
    → ltb s.count (s.capacity_var / 2) ≡ true
    → dequeue junk s ≡ take_cell (resize junk (s.capacity_var / 2) s)
unfolding dequeue is_empty
dequeue-small junk s n e free small = ground (arith, e, free, small)

dequeue-take_cell :
    (junk : ℕ → ℤ) (s : AtomicQueue) (n : ℕ)
    → s.index ≡ suc n
    → s.array_lock ≡ false
    → ltb s.count (s.capacity_var / 2) ≡ false
    → dequeue junk s ≡ take_cell s
unfolding dequeue is_empty
dequeue-take_cell junk s n e free large = ground (arith, e, free, large)

-- `dequeue` does to a row what `take_last` does to its values, whether the array shrinks or not.
dequeue-IsRow :
    (junk : ℕ → ℤ) (s : AtomicQueue) (x : ℤ) (xs behind : List ℤ)
    → IsRow s x xs behind
    → (t : AtomicQueue) × (w : ℤ) × (ws behind' : List ℤ) × (dequeue junk s
        ≡ ok (t, (take_last x xs).1))
      × ((take_last x xs).0 ≡ w ∷ ws)
      × IsRow t w ws behind'
unfolding take_last
dequeue-IsRow junk s x [] behind row =
    (s, x, [], behind, dequeue_single junk s row.index, refl, row)
dequeue-IsRow junk s x (y ∷ ys) behind row = elim (Bool-cases (ltb s.count (s.capacity_var / 2))) [
  | inl e ↦
      let k = s.capacity_var / 2 - suc (length (y ∷ ys)) in
      let half : s.capacity_var / 2 ≡ suc (length (y ∷ ys)) + k = ground (arith, e, row.count) in
      let smaller = resize-IsRow junk s x (y ∷ ys) behind k row in
      let (t, w, ws, b, run, kept, row') =
        take_cell-IsRow (resize junk (suc (length (y ∷ ys)) + k) s) x y ys _ smaller in
      (
        t,
        w,
        ws,
        _,
        dequeue-small junk s (length ys) row.index row.free e
            ∙ ap (λ n. take_cell (resize junk n s)) half
            ∙ run,
        kept,
        row',
      )
  | inr e ↦
      let (t, w, ws, b, run, kept, row') = take_cell-IsRow s x y ys behind row in
      (t, w, ws, _, dequeue-take_cell junk s (length ys) row.index row.free e ∙ run, kept, row')
]

-- One request.
unfoldable pub request : (ℕ → ℤ) → Request → AtomicQueue → Run (AtomicQueue × Reply)
request junk (add v) s = do (s', r) ← enqueue junk v s; ok (s', done r)
request junk remove s = do (s', v) ← dequeue junk s; ok (s', got v)

unfoldable pub requests : (ℕ → ℤ) → List Request → AtomicQueue → Run (AtomicQueue × List Reply)
requests junk [] s = ok (s, [])
requests junk (r ∷ rs) s = do
  (s', reply) ← request junk r s
  (t, replies) ← requests junk rs s'
  ok (t, reply ∷ replies)

-- What the code does to the values: no queue, and no stack either.
unfoldable pub row_step : Request → List ℤ → List ℤ × Reply
row_step (add v) xs = (xs ++ v ∷ [], done true)
row_step remove [] = ([], got minus_one)
row_step remove (x ∷ xs) = ((take_last x xs).0, got (take_last x xs).1)

length-take_last : (x : ℤ) (xs : List ℤ) → length (take_last x xs).0 < suc (suc (length xs))
unfolding take_last
length-take_last x [] = omega arith
length-take_last x (y ∷ []) = omega arith
length-take_last x (y ∷ z ∷ zs) = omega (arith, length-take_last y (z ∷ zs))

requests-IsRow :
    (junk : ℕ → ℤ) (rs : List Request) (s : AtomicQueue) (x : ℤ) (xs behind : List ℤ)
    → IsRow s x xs behind
    → length xs + length rs < most
    → (t : AtomicQueue) × (w : ℤ) × (ws behind' : List ℤ) × (requests junk rs s
        ≡ ok (t, (serve row_step rs (x ∷ xs)).1))
      × ((serve row_step rs (x ∷ xs)).0 ≡ w ∷ ws)
      × IsRow t w ws behind'
unfolding requests request serve row_step
requests-IsRow junk [] s x xs behind row small = (s, x, xs, behind, refl, refl, row)
requests-IsRow junk (add v ∷ rs) s x xs behind row small =
    let (t, behind', run, row') = enqueue-IsRow junk s x xs v behind row (omega (arith, small)) in
    let (u, w, ws, rest, runs, kept, end) =
      requests-IsRow junk rs t x (xs ++ v ∷ []) behind' row'
        (omega (arith, small, length-append xs (v ∷ []))) in
    (u, w, ws, rest, rw (run, runs) refl, kept, end)
requests-IsRow junk (remove ∷ rs) s x xs behind row small =
    let (t, y, ys, behind', run, kept, row') = dequeue-IsRow junk s x xs behind row in
    let shorter = length-take_last x xs in
    let (u, w, ws, rest, runs, kept', end) =
      requests-IsRow junk rs t y ys behind' row' (omega (arith, small, shorter, ap length kept)) in
    let same : serve row_step rs (take_last x xs).0 ≡ serve row_step rs (y ∷ ys) =
      ap (serve row_step rs) kept in
    (u, w, ws, rest, rw (run, runs) (rw same refl), ap (λ o. o.0) same ∙ kept', end)

first_enqueue :
    (junk : ℕ → ℤ) (v : ℤ)
    → (t : AtomicQueue) × (behind : List ℤ) × (enqueue junk v (new_queue junk) ≡ ok (t, true))
      × IsRow t v [] behind
unfolding put_cell
first_enqueue junk v = (
  record {
    arr = v ∷ new_cells junk 1 3;
    capacity_var = 4;
    count = 1;
    index = 0;
    array_lock = false;
  },
  new_cells junk 1 3,
  enqueue_roomy junk (new_queue junk) v refl refl ∙ refl,
  record { cells = refl; count = refl; index = refl; capacity = refl; free = refl },
)

-- From the constructor on, an `enqueue` and then any fewer than 2 ^ 30 - 1 enqueues and dequeues never
-- read or write outside the array, whether it grows or shrinks, and treat the values as `row_step` says:
-- an `enqueue` puts its value last; a `dequeue` of two or more values hands out the last but one, puts 0
-- in its place and loses the last, and of one value returns -1 and leaves it.
pub atomic_requests :
    (junk : ℕ → ℤ) (v : ℤ) (rs : List Request)
    → length rs < most
    → (t : AtomicQueue) × (w : ℤ) × (ws behind : List ℤ) × (requests junk
          (add v ∷ rs)
          (new_queue junk)
        ≡ ok (t, done true ∷ (serve row_step rs (v ∷ [])).1))
      × ((serve row_step rs (v ∷ [])).0 ≡ w ∷ ws)
      × IsRow t w ws behind
unfolding requests request
atomic_requests junk v rs small =
    let (s, behind, run, row) = first_enqueue junk v in
    let (t, w, ws, rest, runs, kept, end) =
      requests-IsRow junk rs s v [] behind row (omega (arith, small)) in
    (t, w, ws, rest, rw (run, runs) refl, kept, end)

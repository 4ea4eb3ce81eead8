-- ===== src/AtomicQueue/Tests.antt =====
-- The array queue with atomic counters on small inputs.
use public_conc_exp.Common.{
  ℕ, ◌≡◌, refl, true, List, [], ◌∷◌, arith, ℤ, pos, minus_one, ok, fault, ◌>>=◌,
}
use public_conc_exp.Spec.Requests.{Request, add, remove, done, serve}
use public_conc_exp.AtomicQueue.{AtomicQueue, new_queue, resize, enqueue, dequeue, empty_loop, find}
use public_conc_exp.AtomicQueue.Laws.{IsRow}
use public_conc_exp.AtomicQueue.Requests.{requests, row_step, atomic_requests}

abbrev zeros : ℕ → ℤ
zeros i = pos 0

-- Five more values, so that the array grows, and two removals.
abbrev traffic : List Request
traffic = add (pos 4) ∷ add (pos 5) ∷ add (pos 6) ∷ add (pos 7) ∷ add (pos 8) ∷ remove ∷ remove ∷ []

atomic_requests_example :
    (t : AtomicQueue) × (w : ℤ) × (ws behind : List ℤ) × (requests zeros
        (add (pos 3) ∷ traffic)
        (new_queue zeros)
      ≡ ok (t, done true ∷ (serve row_step traffic (pos 3 ∷ [])).1))
    × ((serve row_step traffic (pos 3 ∷ [])).0 ≡ w ∷ ws)
    × IsRow t w ws behind
atomic_requests_example = atomic_requests zeros (pos 3) traffic (omega arith)

-- A new queue does not count as empty: `dequeue` reads outside the array.
dequeue-new_queue : dequeue zeros (new_queue zeros) ≡ fault
unfolding dequeue resize
dequeue-new_queue = refl

-- 3 and 4 are put in, and one is taken out: 4 is lost.
lost_value :
    (do
      (s, a) ← enqueue zeros (pos 3) (new_queue zeros)
      (t, b) ← enqueue zeros (pos 4) s
      (u, v) ← dequeue zeros t
      find (pos 4) u)
    ≡ ok minus_one
unfolding enqueue dequeue resize find
lost_value = refl

-- `empty` stops at the last value.
empty_loop-one_value :
    (do (s, a) ← enqueue zeros (pos 3) (new_queue zeros); t ← empty_loop zeros 5 s; find (pos 3) t)
    ≡ ok (pos 3)
unfolding enqueue empty_loop find
empty_loop-one_value = refl

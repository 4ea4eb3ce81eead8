-- ===== src/HandQueue/Laws.antt =====
-- `enqueue` and `dequeue` make an ascending priority queue without repetitions; `find` does not end.
use public_conc_exp.Common.{
  ℕ, zero, suc, ◌<◌, ◌≡◌, ◌≢◌, refl, inl, inr, true, false, not, ◌||◌, Bool-cases, ltb_ℤ, subst,
  List, [], ◌∷◌, map, arith, ℤ, ◌==ℤ◌, ==ℤ_iff, minus_one, ok, spins, ◌>>=◌, length,
}
use public_conc_exp.Spec.SortedSet.{
  has, IsBelow, IsAscending, put, has_below, has_before, put-IsAscending, has-put,
}
use public_conc_exp.HandQueue.{
  QueueSll, new_node, unlocked, enqueue_after, enqueue, dequeue, empty_loop, find_loop,
}

abbrev pub quiet : List ℤ → QueueSll
quiet xs = unlocked (map new_node xs)

enqueue_after_lem :
    (v x : ℤ) (xs : List ℤ)
    → IsAscending xs
    → enqueue_after v (record { value = x; locked = true }) (map new_node xs)
      ≡ ok (new_node x ∷ map new_node (put v xs), not (has v xs))
unfolding enqueue_after put has
enqueue_after_lem v x [] s = refl
enqueue_after_lem v x (y ∷ xs) s = ground (
  arith,
  enqueue_after_lem v y xs s.1,
  ==ℤ_iff y v,
  ==ℤ_iff v y,
  has_before v y xs,
  has_below y xs s.0,
)

-- On a quiet, strictly ascending queue, with memory that the allocator hands out zeroed, `enqueue`
-- ends with all locks free, holds `put v xs`, and returns whether the value was new.
pub enqueue-put :
    (v : ℤ) (xs : List ℤ)
    → IsAscending xs
    → enqueue [] v (quiet xs) ≡ ok (quiet (put v xs), not (has v xs))
unfolding enqueue put has
enqueue-put v [] s = refl
enqueue-put v (x ∷ xs) s =
    ground (arith, enqueue_after_lem v x xs s.1, ==ℤ_iff x v, has_before v x xs, has_below x xs s.0)

pub dequeue_cons : (x : ℤ) (xs : List ℤ) → dequeue (quiet (x ∷ xs)) ≡ ok (quiet xs, x)
unfolding dequeue
dequeue_cons x [] = refl
dequeue_cons x (y ∷ xs) = refl

put_cons : (v : ℤ) (xs : List ℤ) → (least : ℤ) × (rest : List ℤ) × (put v xs ≡ least ∷ rest)
unfolding put
put_cons v [] = (v, [], refl)
put_cons v (x ∷ xs) = elim (Bool-cases (ltb_ℤ x v)) [
  | inl e ↦ (x, put v xs, rw e)
  | inr e ↦ elim (Bool-cases (x ==ℤ v)) [
    | inl same ↦ (x, xs, rw (e, same))
    | inr other ↦ (v, x ∷ xs, rw (e, other))
  ]
]

-- `dequeue` behind `enqueue` on an ascending queue hands out the least of all its values, the
-- new one included, and leaves the others in ascending order.
pub enqueue-dequeue :
    (v : ℤ) (xs : List ℤ)
    → IsAscending xs
    → (least : ℤ) × (rest : List ℤ) × ((do (q, fresh) ← enqueue [] v (quiet xs); dequeue q)
        ≡ ok (quiet rest, least))
      × IsBelow least rest
      × IsAscending rest
      × ((w : ℤ) → has w (least ∷ rest) ≡ ((w ==ℤ v) || has w xs))
enqueue-dequeue v xs s =
    let (least, rest, e) = put_cons v xs in
    let ascending = subst IsAscending e (put-IsAscending v xs s) in
    (
      least,
      rest,
      rw (enqueue-put v xs s, e) (dequeue_cons least rest),
      ascending.0,
      ascending.1,
      λ w. rw e at (has-put w v xs),
    )

-- `empty` ends with one round more than there are nodes, and leaves the queue empty, if no stored
-- value is -1.
pub empty_loop_lem :
    (fuel : ℕ) (xs : List ℤ)
    → length xs < fuel
    → has minus_one xs ≡ false
    → empty_loop fuel (quiet xs) ≡ ok (quiet [])
unfolding empty_loop has
empty_loop_lem zero xs h q = absurd (omega arith)
empty_loop_lem (suc fuel) [] h q = refl
empty_loop_lem (suc fuel) (x ∷ []) h q = ground (arith, empty_loop_lem fuel [], ==ℤ_iff x minus_one)
empty_loop_lem (suc fuel) (x ∷ y ∷ xs) h q =
    ground (arith, empty_loop_lem fuel (y ∷ xs), ==ℤ_iff x minus_one)

-- `find` never returns for a value that is not the first, on any nonempty queue: no amount of
-- fuel is enough.
find_loop_spins :
    (fuel : ℕ) (v x : ℤ) (xs : List ℤ) → x ≢ v → find_loop fuel v (map new_node (x ∷ xs)) ≡ spins
unfolding find_loop
find_loop_spins zero v x xs ne = refl
find_loop_spins (suc fuel) v x xs ne = ground (arith, find_loop_spins fuel v x xs ne, ==ℤ_iff x v)

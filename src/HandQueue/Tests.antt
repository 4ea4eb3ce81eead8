-- ===== src/HandQueue/Tests.antt =====
-- The hand-over-hand queue on small inputs.
use public_conc_exp.Common.{◌≡◌, refl, ◌||◌, List, [], ◌∷◌, arith, ℤ, pos, ◌==ℤ◌, ok, ◌>>=◌}
use public_conc_exp.Spec.SortedSet.{has, IsBelow, IsAscending}
use public_conc_exp.HandQueue.{enqueue, dequeue}
use public_conc_exp.HandQueue.Laws.{quiet, enqueue-dequeue}

abbrev sample : List ℤ
sample = pos 2 ∷ pos 5 ∷ []

-- The queue is not first in, first out: the value enqueued last leaves first if it is the least.
least_first :
    (do (q, fresh) ← enqueue [] (pos 1) (quiet sample); dequeue q) ≡ ok (quiet sample, pos 1)
unfolding enqueue dequeue
least_first = refl

enqueue-dequeue_example :
    (least : ℤ) × (rest : List ℤ) × ((do (q, fresh) ← enqueue [] (pos 3) (quiet sample); dequeue q)
      ≡ ok (quiet rest, least))
    × IsBelow least rest
    × IsAscending rest
    × ((w : ℤ) → has w (least ∷ rest) ≡ ((w ==ℤ pos 3) || has w sample))
enqueue-dequeue_example = enqueue-dequeue (pos 3) sample (omega arith)

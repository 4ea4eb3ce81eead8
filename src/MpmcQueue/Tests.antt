-- ===== src/MpmcQueue/Tests.antt =====
-- A queue of three slots.
use public_conc_exp.Common.{ℕ, ◌≡◌, refl, List, [], ◌∷◌, arith, ℤ, pos, ok, fault, ◌>>=◌}
use public_conc_exp.Spec.Requests.{Request, add, remove, Reply, queue_step, serve}
use public_conc_exp.MpmcQueue.{MpmcQueue, new, minus_64, push, pop}
use public_conc_exp.MpmcQueue.Laws.{Inv, new-Inv, contents, requests, mpmc_requests}

abbrev junk : ℕ → ℤ
junk i = pos 9

abbrev traffic : List Request
traffic = remove ∷ add (pos 1) ∷ add (pos 2) ∷ remove ∷ []

mpmc_requests_example :
    (t : MpmcQueue) × (replies : List Reply) × (requests traffic (new junk 3) ≡ ok (t, replies))
    × Inv t
    × ((contents t, replies) ≡ serve queue_step traffic (contents (new junk 3)))
unfolding new
mpmc_requests_example =
    mpmc_requests traffic (new junk 3) (new-Inv junk 3 (omega arith)) (omega arith)

-- One slot, pushed to, emptied and pushed to again: the slot is free, but `tail` is outside.
used_once : (do (s, b) ← push (new junk 1) (pos 1); (t, v) ← pop s; push t (pos 2)) ≡ fault
unfolding new push pop minus_64
used_once = refl

-- ===== src/FcQueue/Tests.antt =====
-- The queue under the flat-combining queue on small inputs.
use public_conc_exp.Common.{◌≡◌, refl, none, List, [], ◌∷◌, arith, pos, ok}
use public_conc_exp.Spec.Requests.{Request, add, remove, queue_step, serve}
use public_conc_exp.FcQueue.{Ptr, node, FcQueueStruct, new_struct, update, serial_enqueue, size}
use public_conc_exp.FcQueue.Path.{IsHolding}
use public_conc_exp.FcQueue.Laws.{
  requests, asked, IsFree, enqueue-dequeue-serve, serial_enqueue-size, size_after,
}

abbrev fresh : FcQueueStruct
fresh = new_struct (λ _. none)

abbrev traffic : List (Ptr × Request)
traffic = (1, add (pos 3)) ∷ (2, remove) ∷ (3, add (pos 4)) ∷ (4, add (pos 5)) ∷ (5, remove) ∷ []

traffic-IsFree : IsFree fresh.heap traffic
traffic-IsFree = ground arith

enqueue-dequeue-serve_example :
    (t : FcQueueStruct) × (requests traffic fresh ≡ ok (t, (serve queue_step (asked traffic) []).1))
    × IsHolding t (serve queue_step (asked traffic) []).0
enqueue-dequeue-serve_example = enqueue-dequeue-serve traffic fresh [] (refl, refl) traffic-IsFree

-- The queue with 3 in it, by one node that leads to null.
abbrev one_node : FcQueueStruct
one_node = record { first = 1; last = 1; heap = update (λ _. none) 1 (node (pos 3) 0) }

serial_enqueue-size_example :
    (t : FcQueueStruct) × (serial_enqueue 2 (pos 4) one_node ≡ ok (t, pos 0))
    × (size 5 t ≡ size_after (pos 3 ∷ []))
serial_enqueue-size_example =
    serial_enqueue-size one_node (pos 3 ∷ []) 2 (pos 4) 5 (refl, ground arith, (0, refl))
      (ground arith) refl (ground arith)

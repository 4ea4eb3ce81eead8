-- ===== src/Spec/Requests.antt =====
-- Requests to a stack or a queue and the replies to them: the contract that the sequential stacks
-- and queues of the library implement. An empty container replies -1 to a removal.
use public_conc_exp.Common.{Bool, true, Option, none, some, List, [], ◌∷◌, ◌++◌, ℤ, minus_one}

pub data Request : Type 0 where
  add : ℤ → Request
  remove : Request

pub data Reply : Type 0 where
  done : Bool → Reply
  got : ℤ → Reply

-- The last added is removed first.
unfoldable pub stack_step : Request → List ℤ → List ℤ × Reply
stack_step (add v) xs = (v ∷ xs, done true)
stack_step remove [] = ([], got minus_one)
stack_step remove (x ∷ xs) = (xs, got x)

-- The first added is removed first.
unfoldable pub queue_step : Request → List ℤ → List ℤ × Reply
queue_step (add v) xs = (xs ++ v ∷ [], done true)
queue_step remove [] = ([], got minus_one)
queue_step remove (x ∷ xs) = (xs, got x)

-- All requests in turn: the final contents, and every reply.
unfoldable pub serve :
    (Request → List ℤ → List ℤ × Reply) → List Request → List ℤ → List ℤ × List Reply
serve step [] xs = (xs, [])
serve step (r ∷ rs) xs =
    let (ys, reply) = step r xs in let (zs, replies) = serve step rs ys in (zs, reply ∷ replies)

-- A removal from an empty container leaves it as it is.
abbrev pub empty_reply : Request → List ℤ → Option Reply
empty_reply remove [] = some (got minus_one)
empty_reply _ _ = none

-- ===== src/HandQueue.antt =====
-- The hand-over-hand locked queue, lib/DS/Queues/QueueSLL/queueSLL.hpp (`Node`, `QueueSll`), at
-- T = int. `enqueue` inserts in ascending order and refuses a value that is there; `dequeue` takes
-- the first node. Nodes, locks and `junk` are as in HandList.
pub mod Laws
mod Tests
use public_conc_exp.Common.{
  ℕ, zero, suc, ◌+◌, Bool, true, false, List, [], ◌∷◌, ℤ, ltb_ℤ, ◌==ℤ◌, minus_one, if◌then◌else◌,
  Run, ok, blocked, spins, ◌>>=◌,
}

pub record Node : Type 0 where
  pub value : ℤ
  pub locked : Bool

pub record QueueSll : Type 0 where
  pub queue_lock : Bool
  pub chain : List Node

abbrev pub new_node : ℤ → Node
new_node item = record { value = item; locked = false }

abbrev pub acquire : Node → Run Node
acquire n = if n.locked then blocked else ok (record n { locked = true })

abbrev pub release : Node → Node
release n = record n { locked = false }

abbrev pub unlocked : List Node → QueueSll
unlocked nodes = record { queue_lock = false; chain = nodes }

-- The `while` of `enqueue` and what follows it.
unfoldable pub enqueue_after : ℤ → Node → List Node → Run (List Node × Bool)
enqueue_after item current [] = ok (release current ∷ new_node item ∷ [], true)
enqueue_after item current (next ∷ rest) =
    if ltb_ℤ next.value item
    then (do
      held ← acquire next
      (nodes, done) ← enqueue_after item held rest
      ok (release current ∷ nodes, done))
    else if next.value ==ℤ item
    then ok (release current ∷ next ∷ rest, false)
    else ok (release current ∷ new_node item ∷ next ∷ rest, true)

enqueue_locked : List Node → ℤ → List Node → Run (QueueSll × Bool)
enqueue_locked junk item [] = ok (unlocked (new_node item ∷ junk), true)
enqueue_locked junk item (head ∷ rest) =
    if head.value ==ℤ item
    then ok (unlocked (head ∷ rest), false)
    else if ltb_ℤ item head.value
    then ok (unlocked (new_node item ∷ head ∷ rest), true)
    else do
      current ← acquire head
      (nodes, done) ← enqueue_after item current rest
      ok (unlocked nodes, done)

unfoldable pub enqueue : List Node → ℤ → QueueSll → Run (QueueSll × Bool)
unfolding enqueue_locked enqueue_after
enqueue junk item s = if s.queue_lock then blocked else enqueue_locked junk item s.chain

-- `dequeue` takes no node's lock.
dequeue_locked : List Node → QueueSll × ℤ
dequeue_locked [] = (unlocked [], minus_one)
dequeue_locked (current ∷ next ∷ rest) = (unlocked (next ∷ rest), current.value)
dequeue_locked (current ∷ []) = (unlocked [], current.value)

unfoldable pub dequeue : QueueSll → Run (QueueSll × ℤ)
unfolding dequeue_locked
dequeue s = if s.queue_lock then blocked else ok (dequeue_locked s.chain)

-- `while(this->dequeue() != -1){}`, on fuel
unfoldable pub empty_loop : ℕ → QueueSll → Run QueueSll
unfolding dequeue
empty_loop zero s = spins
empty_loop (suc fuel) s = do
  (s', got) ← dequeue s
  let again = empty_loop fuel s'
  if got ==ℤ minus_one then ok s' else again

size_from : ℕ → List Node → ℕ
size_from counter [] = counter
size_from counter (current ∷ rest) = size_from (counter + 1) rest

unfoldable pub size : QueueSll → ℕ
unfolding size_from
size s = size_from 0 s.chain

-- The loop of `find` on fuel: `current` is tested, and is never moved on.
unfoldable pub find_loop : ℕ → ℤ → List Node → Run ℤ
find_loop zero item current = spins
find_loop (suc fuel) item [] = ok minus_one
find_loop (suc fuel) item (current ∷ rest) =
    let again = find_loop fuel item (current ∷ rest) in
    if current.value ==ℤ item then ok current.value else again

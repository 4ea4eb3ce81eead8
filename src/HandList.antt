-- ===== src/HandList.antt =====
-- The hand-over-hand locked list, lib/DS/SLLs/SLL_HOHL/SLL_HOHL.hpp (`Node`, `SLL_hand`), at
-- T = int. The nodes that the list reaches from `head` are a list; each carries its mutex, and the
-- list carries `listLock`. A wait for a lock that is already held is the outcome `blocked`.
-- The constructor of `Node` leaves `nextNode` unset: `junk` is the chain that the indeterminate
-- pointer happens to lead to, an argument of the operations that allocate.
pub mod Quiet
pub mod Insert
pub mod Remove
pub mod Observe
pub mod Threads
mod Tests
use public_conc_exp.Common.{
  ℕ, zero, suc, ◌+◌, Bool, true, false, List, [], ◌∷◌, ℤ, ltb_ℤ, ◌==ℤ◌, minus_one, if◌then◌else◌,
  Run, ok, blocked, spins, ◌>>=◌, length,
}

pub record Node : Type 0 where
  pub value : ℤ
  pub locked : Bool

pub record HandList : Type 0 where
  pub list_lock : Bool
  pub chain : List Node

-- `new Node<T>(data)`, with its mutex free.
abbrev pub new_node : ℤ → Node
new_node item = record { value = item; locked = false }

-- `nodeLock.lock()` and `nodeLock.unlock()`
abbrev pub acquire : Node → Run Node
acquire n = if n.locked then blocked else ok (record n { locked = true })

abbrev pub release : Node → Node
release n = record n { locked = false }

-- The list with `listLock` free again, over the given nodes.
abbrev pub unlocked : List Node → HandList
unlocked nodes = record { list_lock = false; chain = nodes }

-- The `while` of `insert` and what follows it: `current` is held, `rest` is what its `nextNode`
-- leads to. The next node is locked before the current one is released.
unfoldable pub insert_after : ℤ → Node → List Node → Run (List Node × Bool)
insert_after item current [] = ok (release current ∷ new_node item ∷ [], true)
insert_after item current (next ∷ rest) =
    if ltb_ℤ next.value item
    then (do
      held ← acquire next
      (nodes, done) ← insert_after item held rest
      ok (release current ∷ nodes, done))
    else if next.value ==ℤ item
    then ok (release current ∷ next ∷ rest, false)
    else ok (release current ∷ new_node item ∷ next ∷ rest, true)

-- `insert` once `listLock` is held.
insert_locked : List Node → ℤ → List Node → Run (HandList × Bool)
insert_locked junk item [] = ok (unlocked (new_node item ∷ junk), true)
insert_locked junk item (head ∷ rest) =
    if head.value ==ℤ item
    then ok (unlocked (head ∷ rest), false)
    else if ltb_ℤ item head.value
    then ok (unlocked (new_node item ∷ head ∷ rest), true)
    else do
      current ← acquire head
      (nodes, done) ← insert_after item current rest
      ok (unlocked nodes, done)

unfoldable pub insert : List Node → ℤ → HandList → Run (HandList × Bool)
unfolding insert_locked insert_after
insert junk item s = if s.list_lock then blocked else insert_locked junk item s.chain

-- The `while` of `remove` and what follows it.
unfoldable pub remove_after : ℤ → Node → List Node → Run (List Node × ℤ)
remove_after item current [] = ok (release current ∷ [], minus_one)
remove_after item current (next ∷ rest) =
    if ltb_ℤ next.value item
    then (do
      held ← acquire next
      (nodes, got) ← remove_after item held rest
      ok (release current ∷ nodes, got))
    else if next.value ==ℤ item
    then (do victim ← acquire next; ok (release current ∷ rest, item))
    else ok (release current ∷ next ∷ rest, minus_one)

remove_locked : ℤ → List Node → Run (HandList × ℤ)
remove_locked item [] = ok (unlocked [], minus_one)
remove_locked item (head ∷ rest) = do
  current ← acquire head
  if head.value ==ℤ item
      then ok (unlocked rest, item)
      else (do (nodes, got) ← remove_after item current rest; ok (unlocked nodes, got))

unfoldable pub remove : ℤ → HandList → Run (HandList × ℤ)
unfolding remove_locked remove_after
remove item s = if s.list_lock then blocked else remove_locked item s.chain

remove_first_locked : List Node → Run (HandList × ℤ)
remove_first_locked [] = ok (unlocked [], minus_one)
remove_first_locked (head ∷ rest) = do current ← acquire head; ok (unlocked rest, current.value)

unfoldable pub remove_first : HandList → Run (HandList × ℤ)
unfolding remove_first_locked
remove_first s = if s.list_lock then blocked else remove_first_locked s.chain

-- `while(this->removeFirst()!=-1){}`
unfoldable pub empty_loop : ℕ → HandList → Run HandList
empty_loop zero s = spins
empty_loop (suc fuel) s = do
  (s', got) ← remove_first s
  let again = empty_loop fuel s'
  if got ==ℤ minus_one then ok s' else again

-- Each round but the last takes one node, so one round more than there are nodes is enough.
unfoldable pub empty : HandList → Run HandList
unfolding empty_loop
empty s = empty_loop (length s.chain + 1) s

-- `search` takes no lock.
search_from : ℤ → List Node → ℤ
search_from item [] = minus_one
search_from item (current ∷ rest) =
    if current.value ==ℤ item then current.value else search_from item rest

unfoldable pub search : ℤ → HandList → ℤ
unfolding search_from
search item s = search_from item s.chain

size_from : ℕ → List Node → ℕ
size_from counter [] = counter
size_from counter (current ∷ rest) = size_from (counter + 1) rest

unfoldable pub size : HandList → ℕ
unfolding size_from
size s = size_from 0 s.chain

-- ===== src/ShTable/Bucket.antt =====
-- The ordered list of a bucket: the class `SLL_hand` of SH_HashTable.hpp. It is made with one
-- sentinel node of value -1, which the first `insert` replaces. `Node` sets `nextNode` to null.
use public_conc_exp.Common.{
  ℕ, ◌+◌, Bool, true, false, List, [], ◌∷◌, ℤ, ltb_ℤ, ◌==ℤ◌, minus_one, if◌then◌else◌, Run, ok,
  fault, blocked, ◌>>=◌,
}

pub record Node : Type 0 where
  pub value : ℤ
  pub locked : Bool

pub record SllHand : Type 0 where
  pub list_lock : Bool
  pub chain : List Node

abbrev pub new_node : ℤ → Node
new_node item = record { value = item; locked = false }

abbrev pub acquire : Node → Run Node
acquire n = if n.locked then blocked else ok (record n { locked = true })

abbrev pub release : Node → Node
release n = record n { locked = false }

abbrev pub unlocked : List Node → SllHand
unlocked nodes = record { list_lock = false; chain = nodes }

-- The constructor `SLL_hand()`
abbrev pub new_list : SllHand
new_list = unlocked (new_node minus_one ∷ [])

-- The `while` of `insert` and what follows it.
unfoldable pub insert_after : ℤ → Node → List Node → Run (List Node × Bool)
insert_after item current [] = ok (release current ∷ new_node item ∷ [], true)
insert_after item current (next ∷ rest) =
    if ltb_ℤ next.value item
    then (do
      held ← acquire next
      (nodes, done) ← insert_after item held rest
      ok (release current ∷ nodes, done))
    else if next.value ==ℤ item
    then ok (release current ∷ next ∷ rest, false)
    else ok (release current ∷ new_node item ∷ next ∷ rest, true)

-- `head->data` is read with no test of `head`. A head of value -1 is replaced, with all behind it.
insert_locked : ℤ → List Node → Run (SllHand × Bool)
insert_locked item [] = fault
insert_locked item (head ∷ rest) =
    if head.value ==ℤ minus_one
    then ok (unlocked (new_node item ∷ []), true)
    else if head.value ==ℤ item
    then ok (unlocked (head ∷ rest), false)
    else if ltb_ℤ item head.value
    then ok (unlocked (new_node item ∷ head ∷ rest), true)
    else do
      current ← acquire head
      (nodes, done) ← insert_after item current rest
      ok (unlocked nodes, done)

unfoldable pub insert : ℤ → SllHand → Run (SllHand × Bool)
unfolding insert_locked insert_after
insert item s = if s.list_lock then blocked else insert_locked item s.chain

unfoldable pub remove_after : ℤ → Node → List Node → Run (List Node × ℤ)
remove_after item current [] = ok (release current ∷ [], minus_one)
remove_after item current (next ∷ rest) =
    if ltb_ℤ next.value item
    then (do
      held ← acquire next
      (nodes, got) ← remove_after item held rest
      ok (release current ∷ nodes, got))
    else if next.value ==ℤ item
    then (do victim ← acquire next; ok (release current ∷ rest, item))
    else ok (release current ∷ next ∷ rest, minus_one)

remove_locked : ℤ → List Node → Run (SllHand × ℤ)
remove_locked item [] = ok (unlocked [], minus_one)
remove_locked item (head ∷ rest) = do
  current ← acquire head
  if head.value ==ℤ item
      then ok (unlocked rest, item)
      else (do (nodes, got) ← remove_after item current rest; ok (unlocked nodes, got))

unfoldable pub remove : ℤ → SllHand → Run (SllHand × ℤ)
unfolding remove_locked remove_after
remove item s = if s.list_lock then blocked else remove_locked item s.chain

remove_first_locked : List Node → Run (SllHand × ℤ)
remove_first_locked [] = ok (unlocked [], minus_one)
remove_first_locked (head ∷ rest) = do current ← acquire head; ok (unlocked rest, current.value)

unfoldable pub remove_first : SllHand → Run (SllHand × ℤ)
unfolding remove_first_locked
remove_first s = if s.list_lock then blocked else remove_first_locked s.chain

unfoldable pub search_from : ℤ → List Node → ℤ
search_from item [] = minus_one
search_from item (current ∷ rest) =
    if current.value ==ℤ item then current.value else search_from item rest

unfoldable pub search : ℤ → SllHand → ℤ
unfolding search_from
search item s = search_from item s.chain

unfoldable pub size_from : ℕ → List Node → ℕ
size_from counter [] = counter
size_from counter (current ∷ rest) = size_from (counter + 1) rest

unfoldable pub size : SllHand → ℕ
unfolding size_from
size s = size_from 0 s.chain

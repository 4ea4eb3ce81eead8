-- ===== src/SeqStack.antt =====
-- The sequential stack with merge sort, lib/DS/Stacks/seq_stack/SLL.hpp (`Node`, `SLL`): the object
-- that the Psim construction makes concurrent. The nodes that `head` leads to are the list of
-- their values; every `nextNode` is set, so a chain is exclusively the list's own.
pub mod Contents
pub mod Sort
mod Tests
use public_conc_exp.Common.{
  ℕ, zero, suc, ◌+◌, Bool, true, false, List, [], ◌∷◌, ◌++◌, ℤ, pos, ltb_ℤ, ◌==ℤ◌, minus_one,
  if◌then◌else◌, Run, ok, fault, spins, ◌>>=◌, length,
}

-- The class `SLL`: its field `head`.
abbrev pub Sll : Type 0
Sll = List ℤ

unfoldable pub insert : ℤ → Sll → Sll × ℤ
insert item head = (item ∷ head, pos 1)

unfoldable pub remove : Sll → Sll × ℤ
remove [] = ([], minus_one)
remove (del_node ∷ rest) = (rest, del_node)

size_from : ℕ → Sll → ℕ
size_from count [] = count
size_from count (current ∷ rest) = size_from (count + 1) rest

unfoldable pub size : Sll → ℕ
unfolding size_from
size head = size_from 0 head

-- The `while` of `count_doubles_in_seq`: `x` stands at a node with the value `x`, and `ys` is what
-- `y` leads to.
unfoldable pub doubles_from : ℕ → ℤ → List ℤ → ℕ
doubles_from count x [] = count
doubles_from count x (y ∷ ys) =
    doubles_from (if x ==ℤ y then count + 1 else count) (if x ==ℤ y then x else y) ys

-- `head->nextNode` is read before anything is tested.
unfoldable pub count_doubles_in_seq : Sll → Run ℕ
unfolding doubles_from
count_doubles_in_seq [] = fault
count_doubles_in_seq (x ∷ ys) = ok (doubles_from 0 x ys)

-- The `while` of `copy`: `new` is the chain built so far.
copy_from : Sll → Sll → Sll
copy_from new [] = new
copy_from new (current_old ∷ rest) = copy_from (new ++ current_old ∷ []) rest

unfoldable pub copy : Sll → Sll
unfolding copy_from
copy [] = []
copy (head ∷ rest) = copy_from (head ∷ []) rest

-- `slow` and `fast` run down the list, `fast` two nodes at a time; the list is cut behind `slow`.
unfoldable pub split : (slow fast : Sll) → Sll × Sll
split (x ∷ slow) (f ∷ g ∷ fast) = let (left, right) = split slow fast in (x ∷ left, right)
split (x ∷ slow) fast = (x ∷ [], slow)
split [] fast = ([], [])

-- The nodes that `merge` links behind `dummy`, in their order.
unfoldable pub merge : (l1 l2 : Sll) → Sll
merge [] l2 = l2
merge (x ∷ l1) [] = x ∷ l1
merge (x ∷ l1) (y ∷ l2) =
    let from_l1 = x ∷ merge l1 (y ∷ l2) in
    let from_l2 = y ∷ merge (x ∷ l1) l2 in if ltb_ℤ x y then from_l1 else from_l2

-- `mergeSort(Node*)` on fuel, one unit for each level of the recursion.
unfoldable pub merge_sort_on : ℕ → Sll → Run Sll
unfolding split merge
merge_sort_on zero n = spins
merge_sort_on (suc fuel) [] = ok []
merge_sort_on (suc fuel) (x ∷ []) = ok (x ∷ [])
merge_sort_on (suc fuel) (x ∷ y ∷ n) =
    let (left, right) = split (x ∷ y ∷ n) (y ∷ n) in
    do l ← merge_sort_on fuel left; r ← merge_sort_on fuel right; ok (merge l r)

-- Each half is shorter than the list, so its length is enough fuel.
unfoldable pub merge_sort : Sll → Run Sll
unfolding merge_sort_on
merge_sort head = merge_sort_on (suc (length head)) head

-- ===== src/LockStack.antt =====
-- The stack under one lock, lib/DS/Stacks/StackSLL/stackSll.hpp (`Node`, `StackSll`), at T = int.
-- The nodes that `Top` leads to are the list of their values; no operation takes a node's own
-- mutex. The constructor of `Node` leaves `next` unset, and the first `push` on an empty stack does
-- not set it either: `junk` is the chain that the indeterminate pointer happens to lead to.
pub mod Laws
mod Tests
use public_conc_exp.Common.{
  ℕ, zero, suc, ◌+◌, Bool, true, false, List, [], ◌∷◌, ℤ, ◌==ℤ◌, minus_one, if◌then◌else◌, Run, ok,
  fault, blocked, spins, ◌>>=◌,
}

pub record StackSll : Type 0 where
  pub stack_lock : Bool
  pub top : List ℤ

abbrev pub unlocked : List ℤ → StackSll
unlocked nodes = record { stack_lock = false; top = nodes }

push_locked : List ℤ → ℤ → List ℤ → StackSll × Bool
push_locked junk item [] = (unlocked (item ∷ junk), true)
push_locked junk item (head ∷ rest) = (unlocked (item ∷ head ∷ rest), true)

unfoldable pub push : List ℤ → ℤ → StackSll → Run (StackSll × Bool)
unfolding push_locked
push junk item s = if s.stack_lock then blocked else ok (push_locked junk item s.top)

pop_locked : List ℤ → StackSll × ℤ
pop_locked [] = (unlocked [], minus_one)
pop_locked (current ∷ next ∷ rest) = (unlocked (next ∷ rest), current)
pop_locked (current ∷ []) = (unlocked [], current)

unfoldable pub pop : StackSll → Run (StackSll × ℤ)
unfolding pop_locked
pop s = if s.stack_lock then blocked else ok (pop_locked s.top)

size_from : ℕ → List ℤ → ℕ
size_from counter [] = counter
size_from counter (current ∷ rest) = size_from (counter + 1) rest

unfoldable pub size : StackSll → ℕ
unfolding size_from
size s = size_from 0 s.top

-- `while(this->pop()!= -1){}`, on fuel
unfoldable pub empty_loop : ℕ → StackSll → Run StackSll
unfolding pop
empty_loop zero s = spins
empty_loop (suc fuel) s = do
  (s', got) ← pop s
  let again = empty_loop fuel s'
  if got ==ℤ minus_one then ok s' else again

-- `temp->next` is read before `temp` is tested, and the last node is not looked at.
find_from : ℤ → List ℤ → Run ℤ
find_from item [] = fault
find_from item (temp ∷ []) = ok minus_one
find_from item (temp ∷ next ∷ rest) =
    if temp ==ℤ item then ok item else find_from item (next ∷ rest)

unfoldable pub find : ℤ → StackSll → Run ℤ
unfolding find_from
find item s = find_from item s.top

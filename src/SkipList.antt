-- ===== src/SkipList.antt =====
-- The skip list, lib/DS/SkipList/SkipList.hpp (`Node`, `SkipList`), at X = int, one operation at a time.
-- A node is an address; memory gives its `data` and its `lvlsArray`. Nodes are never given back, and
-- the code moves to a pointer only after a test that it is not null. `levels` is `maxlvl + 1`, the
-- length of the array `update`; a call that would make an array of no elements is a `fault`. What
-- `rand` says and the address of a new node are arguments.
pub mod Shape
pub mod Find
pub mod Link
pub mod Insert
pub mod Remove
pub mod Laws
mod Tests
use public_conc_exp.Common.{
  update as store, ℕ, zero, suc, ◌+◌, ◌-◌, Bool, true, false, ◌&&◌, ◌||◌, not, ◌==◌, ℤ, leb, ltb_ℤ,
  ◌==ℤ◌, if◌then◌else◌, Run, ok, fault, spins, ◌>>=◌,
}
use public_conc_exp.Rows.{Ptr, null}

-- The address of the sentinel.
abbrev pub sentinel : Ptr
sentinel = 1

pub record SkipList : Type 0 where
  pub levels : ℕ
  pub data_of : Ptr → ℤ
  pub lvls_array : Ptr → ℕ → Ptr

-- The constructor, in memory whose nodes hold `junk`.
unfoldable pub new : (Ptr → ℤ) → ℕ → SkipList
new junk maxlvl = record { levels = maxlvl + 1; data_of = junk; lvls_array = λ p i. null }

-- `p->lvlsArray[i] = q`.
abbrev pub store_level : (Ptr → ℕ → Ptr) → Ptr → ℕ → Ptr → Ptr → ℕ → Ptr
store_level lvls p i q p' i' = if (p == p') && (i == i') then q else lvls p' i'

-- `while (random < prop && lvl < maxlvl) lvl++`, where `up k` says whether the k-th random number is
-- less than `prop`, and `left` is what `lvl` has left to `maxlvl`.
unfoldable pub randomlvl_from : (up : ℕ → Bool) → (left lvl : ℕ) → ℕ
randomlvl_from up zero lvl = lvl
randomlvl_from up (suc left) lvl =
    let more = randomlvl_from up left (lvl + 1) in if up lvl then more else lvl

unfoldable pub randomlvl : (up : ℕ → Bool) → SkipList → ℕ
unfolding randomlvl_from
randomlvl up s = randomlvl_from up (s.levels - 1) 0

-- The inner `while` of a search: on level `i`, up to the last node less than `key`.
unfoldable pub walk : ℕ → SkipList → ℤ → ℕ → Ptr → Run Ptr
walk zero s key i current = spins
walk (suc fuel) s key i current =
    let next = s.lvls_array current i in
    let on = walk fuel s key i next in
    if not (next == null) && ltb_ℤ (s.data_of next) key then on else ok current

-- The outer `for` of a search, from the level below the given one down to 0.
unfoldable pub descend :
    ℕ → SkipList → ℤ → ℕ → (current : Ptr) → (update : ℕ → Ptr) → Run (Ptr × (ℕ → Ptr))
unfolding walk
descend fuel s key zero current update = ok (current, update)
descend fuel s key (suc i) current update = do
  reached ← walk fuel s key i current
  descend fuel s key i reached (store update i reached)

abbrev pub search : ℕ → SkipList → ℤ → Run (Ptr × (ℕ → Ptr))
search fuel s key = descend fuel s key s.levels sentinel (λ _. null)

-- `current != NULL && current->data == data`
abbrev pub is_key : SkipList → ℤ → Ptr → Bool
is_key s key p = not (p == null) && (s.data_of p ==ℤ key)

unfoldable pub find : ℕ → SkipList → ℤ → Run Ptr
unfolding descend
find fuel s key = do
  (reached, update) ← search fuel s key
  let current = s.lvls_array reached 0
  ok (if is_key s key current then current else null)

-- `for (i = 0; i <= randomLevel; i++)`, up to the given level.
unfoldable pub link_upto : ℕ → (update : ℕ → Ptr) → (n : Ptr) → (Ptr → ℕ → Ptr) → Ptr → ℕ → Ptr
link_upto zero update n lvls = lvls
link_upto (suc i) update n lvls =
    let before = link_upto i update n lvls in
    let led = store_level before n i (before (update i) i) in store_level led (update i) i n

-- `new Node<X>(data, level)` at the address `n`.
abbrev pub new_node : SkipList → ℤ → Ptr → SkipList
new_node s key n = record s {
  data_of = store s.data_of n key;
  lvls_array = store s.lvls_array n (λ i. null);
}

-- A level above `maxlvl` would be an index outside `update`.
unfoldable pub insert : ℕ → (up : ℕ → Bool) → (n : Ptr) → SkipList → ℤ → Run (SkipList × Bool)
unfolding descend link_upto randomlvl
insert fuel up n s key = if s.levels == 0 then fault else do
  (reached, update) ← search fuel s key
  let current = s.lvls_array reached 0
  let random_level = randomlvl up s
  let t = new_node s key n
  if is_key s key current
      then ok (s, false)
      else if leb s.levels random_level
      then fault
      else ok (record t { lvls_array = link_upto (suc random_level) update n t.lvls_array }, true)

-- `for (i = 0; i <= level; i++)` with its `break`, from the level `i` on.
unfoldable pub unlink_from :
    (left i : ℕ) → (update : ℕ → Ptr) → (current : Ptr) → (Ptr → ℕ → Ptr) → Ptr → ℕ → Ptr
unlink_from zero i update current lvls = lvls
unlink_from (suc left) i update current lvls =
    let on =
      unlink_from left (i + 1) update current (store_level lvls (update i) i (lvls current i)) in
    if lvls (update i) i == current then on else lvls

-- The `while` behind the loop only changes a local variable; `maxlvl` falls with each removal.
unfoldable pub remove : ℕ → SkipList → ℤ → Run (SkipList × Ptr)
unfolding descend unlink_from
remove fuel s key = if s.levels == 0 then fault else do
  (reached, update) ← search fuel s key
  let current = s.lvls_array reached 0
  ok (
      if is_key s key current
      then (
        record s {
          levels = s.levels - 1;
          lvls_array = unlink_from s.levels 0 update current s.lvls_array;
        },
        current,
      )
      else (s, null))

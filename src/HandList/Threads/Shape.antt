-- ===== src/HandList/Threads/Shape.antt =====
-- The set that the list holds, what each thread holds and knows, and the events of a set.
use public_conc_exp.Common.{
  ◌≡◌, ◌≢◌, Bool, true, false, not, ◌⊎◌, Option, none, some, List, [], ◌∷◌, map, ℤ, ◌<ℤ◌, ◌==ℤ◌,
  if◌then◌else◌,
}
use public_conc_exp.Spec.SortedSet.{IsAscending, has, put, drop_value}
use public_conc_exp.Rows.{Ptr, null}
use public_conc_exp.Rows.Row.{Linked, In}
use public_conc_exp.HandList.Threads.{
  list, Mem, Pc, ins_list, ins_walk, ins_test, ins_lock, ins_release, ins_link, ins_store, rem_head,
  rem_lock_head, rem_test_head, rem_release, rem_walk, rem_test, rem_lock, rem_lock_next, rem_skip,
  rem_store, rem_unlock_next, pop_head, pop_lock, pop_skip, pop_store, pop_unlock_node,
  pop_unlock_list, leave, Label, inserted, removed, took,
}

abbrev pub same_bool : Bool → Bool → Bool
same_bool true b = b
same_bool false b = not b

-- The events that a set accepts: an insertion tells whether the value was missing, a removal whether
-- it was there, and `removeFirst` takes the least value.
unfoldable pub spec : Label → List ℤ → Option (List ℤ)
spec (inserted v b) xs = if same_bool b (not (has v xs)) then some (put v xs) else none
spec (removed v b) xs = if same_bool b (has v xs) then some (drop_value v xs) else none
spec (took none) [] = some []
spec (took (some v)) (x ∷ xs) = if x ==ℤ v then some xs else none
spec (took _) _ = none
spec _ xs = some xs

-- The node, or the list, whose lock a thread holds behind its walk.
abbrev pub lower : Pc → Option Ptr
lower (ins_walk v n c) = some c
lower (ins_test v n c q) = some c
lower (ins_lock v n c q) = some c
lower (ins_release v n c q) = some c
lower (ins_link v n c q) = some c
lower (ins_store v n c q) = some c
lower (rem_head v) = some list
lower (rem_lock_head v q) = some list
lower (rem_test_head v q) = some list
lower (rem_release passed v c q) = some c
lower (rem_walk passed v c) = some c
lower (rem_test passed v c q) = some c
lower (rem_lock passed v c q) = some c
lower (rem_lock_next v c q) = some c
lower (rem_skip v c q) = some c
lower (rem_store v c q r) = some c
lower (rem_unlock_next v c q) = some c
lower pop_head = some list
lower (pop_lock q) = some list
lower (pop_skip q) = some list
lower (pop_store q r) = some list
lower (pop_unlock_node q) = some list
lower (pop_unlock_list q) = some list
lower (leave c reply) = some c
lower _ = none

-- The node that it holds in front.
abbrev pub upper : Pc → Option Ptr
upper (ins_release v n c q) = some q
upper (rem_test_head v q) = some q
upper (rem_release passed v c q) = some q
upper (rem_skip v c q) = some q
upper (rem_store v c q r) = some q
upper (rem_unlock_next v c q) = some q
upper (pop_skip q) = some q
upper (pop_store q r) = some q
upper (pop_unlock_node q) = some q
upper _ = none

-- The node that a thread has made and not linked.
abbrev pub fresh : Pc → Option (Ptr × ℤ)
fresh (ins_list v n) = some (n, v)
fresh (ins_walk v n c) = some (n, v)
fresh (ins_test v n c q) = some (n, v)
fresh (ins_lock v n c q) = some (n, v)
fresh (ins_release v n c q) = some (n, v)
fresh (ins_link v n c q) = some (n, v)
fresh (ins_store v n c q) = some (n, v)
fresh _ = none

-- Where the lower one leads, as the thread has read it.
abbrev pub ahead : Pc → Option Ptr
ahead (ins_test v n c q) = some q
ahead (ins_lock v n c q) = some q
ahead (ins_release v n c q) = some q
ahead (ins_link v n c q) = some q
ahead (ins_store v n c q) = some q
ahead (rem_lock_head v q) = some q
ahead (rem_test_head v q) = some q
ahead (rem_release passed v c q) = some q
ahead (rem_test passed v c q) = some q
ahead (rem_lock passed v c q) = some q
ahead (rem_lock_next v c q) = some q
ahead (rem_skip v c q) = some q
ahead (rem_store v c q r) = some q
ahead (pop_lock q) = some q
ahead (pop_skip q) = some q
ahead (pop_store q r) = some q
ahead _ = none

-- Where the upper one leads.
abbrev pub beyond : Pc → Option Ptr
beyond (rem_store v c q r) = some r
beyond (pop_store q r) = some r
beyond _ = none

-- Where the thread's own node leads.
abbrev pub aim : Pc → Option Ptr
aim (ins_list v n) = some null
aim (ins_walk v n c) = some null
aim (ins_test v n c q) = some null
aim (ins_lock v n c q) = some null
aim (ins_release v n c q) = some null
aim (ins_link v n c q) = some null
aim (ins_store v n c q) = some q
aim _ = none

abbrev pub Each {ℓ} : {A : Type ℓ} → Option A → (A → Type 0) → Type 0
Each none P = Unit
Each (some a) P = P a

abbrev pub Both {ℓ κ} : {A : Type ℓ} {B : Type κ} → Option A → Option B → (A → B → Type 0) → Type 0
Both (some a) (some b) P = P a b
Both _ _ P = Unit

-- The list itself or one of its nodes.
abbrev pub At : List Ptr → Ptr → Type 0
At xs c = (c ≡ list) ⊎ In c xs

module _ (data_of : Ptr → ℤ) where
  abbrev pub contents : List Ptr → List ℤ
  contents xs = map data_of xs

  -- The nodes in their order.
  pub record Shape (m : Mem) (xs : List Ptr) : Type 0 where
    pub linked : Linked m.next_node list xs
    pub ascending : IsAscending (contents xs)
    pub proper : (q : Ptr) → In q xs → (q ≢ null) × (m.made q ≡ true)

  -- A value that belongs behind `c`.
  abbrev pub Behind : ℤ → Ptr → Type 0
  Behind v c = (c ≡ list) ⊎ (data_of c <ℤ v)

  -- A value that belongs before `q`.
  abbrev pub Before : ℤ → Ptr → Type 0
  Before v q = (q ≡ null) ⊎ (v <ℤ data_of q)

  -- On which side of a node the value is.
  abbrev pub Side : Bool → ℤ → Ptr → Type 0
  Side true v q = v <ℤ data_of q
  Side false v q = data_of q <ℤ v

  -- What a thread has found out that no step can change.
  abbrev pub Found : Pc → Type 0
  Found (ins_walk v n c) = Behind v c
  Found (ins_test v n c q) = Behind v c × (q ≢ null)
  Found (ins_lock v n c q) = (q ≢ null) × (data_of q <ℤ v)
  Found (ins_release v n c q) = (q ≢ null) × (data_of q <ℤ v)
  Found (ins_link v n c q) = Behind v c × Before v q
  Found (ins_store v n c q) = Behind v c × Before v q
  Found (rem_lock_head v q) = q ≢ null
  Found (rem_test_head v q) = q ≢ null
  Found (rem_release passed v c q) = (q ≢ null) × Side passed v q
  Found (rem_walk passed v c) = (c ≢ list) × Side passed v c
  Found (rem_test passed v c q) = (q ≢ null) × (c ≢ list) × Side passed v c
  Found (rem_lock passed v c q) = (q ≢ null) × Side passed v q
  Found (rem_lock_next v c q) = (q ≢ null) × (data_of q ≡ v)
  Found (rem_skip v c q) = (q ≢ null) × (data_of q ≡ v)
  Found (rem_store v c q r) = (q ≢ null) × (data_of q ≡ v)
  Found (rem_unlock_next v c q) = c ≢ q
  Found (pop_lock q) = q ≢ null
  Found (pop_skip q) = q ≢ null
  Found (pop_store q r) = q ≢ null
  Found (pop_unlock_node q) = q ≢ null
  Found _ = Unit

  -- A node that is made and not linked.
  abbrev pub IsOwned : Mem → List Ptr → Ptr × ℤ → Type 0
  IsOwned m xs (n, v) = (n ≢ null) × (m.made n ≡ true) × (data_of n ≡ v) × ¬ (In n xs)

  -- What holds of one thread.
  pub record Fits (m : Mem) (xs : List Ptr) (p : Pc) : Type 0 where
    pub at : Each (lower p) (At xs)
    pub ahead_of : Both (lower p) (ahead p) (λ c q. m.next_node c ≡ q)
    pub beyond_of : Both (upper p) (beyond p) (λ q r. m.next_node q ≡ r)
    pub aim_of : Both (fresh p) (aim p) (λ o q. m.next_node o.0 ≡ q)
    pub found : Found p
    pub own : Each (fresh p) (IsOwned m xs)

-- A thread holds a lock.
abbrev pub Holds : Pc → Ptr → Type 0
Holds p a = (lower p ≡ some a) ⊎ (upper p ≡ some a)

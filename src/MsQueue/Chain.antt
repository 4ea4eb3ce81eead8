-- ===== src/MsQueue/Chain.antt =====
-- The nodes in the order in which they were linked, from the first node on, and what the locals of
-- a thread say of their places.
use public_conc_exp.Common.{
  ℕ, ◌+◌, ◌-◌, ◌≤◌, ◌<◌, ◌≡◌, ◌≢◌, ◌⊎◌, inl, inr, Option, none, some, List, [], ◌∷◌, ◌++◌, arith, ℤ,
  ◌==ℤ◌, if◌then◌else◌, ltb,
}
use public_conc_exp.Spec.Numbered.{values_from}
use public_conc_exp.MsQueue.{
  Ptr, null, node, Mem, Pc, enq_last, enq_next, enq_check, enq_link, enq_help, deq_last, deq_next,
  deq_check, deq_help, deq_value, deq_cas, Label, silent, enqueued, dequeued, saw_empty,
  returned_empty,
}

-- The ghost state: the `len` nodes linked so far, with their values; `head` and `tail` stand at the
-- places `first` and `last`.
pub record Order : Type 0 where
  pub place : ℕ → Ptr
  pub value : ℕ → ℤ
  pub len : ℕ
  pub first : ℕ
  pub last : ℕ

abbrev pub follower : Order → ℕ → Ptr
follower g i = if ltb (i + 1) g.len then g.place (i + 1) else null

-- The abstract queue: the values behind the node at `first`.
abbrev pub contents : Order → List ℤ
contents g = values_from g.value (g.first + 1) (g.len - (g.first + 1))

pub record Shape (m : Mem) (g : Order) : Type 0 where
  pub nodes : (i : ℕ) → i < g.len → m.heap (g.place i) ≡ some (node (g.value i) (follower g i))
  pub solid : (i : ℕ) → i < g.len → g.place i ≢ null
  pub distinct : (i j : ℕ) → i < g.len → j < g.len → g.place i ≡ g.place j → i ≡ j
  pub ordered : g.first ≤ g.last
  pub within : g.last < g.len
  pub head : m.head ≡ g.place g.first
  pub tail : m.tail ≡ g.place g.last

-- What a later state keeps of the places.
pub record Extends (g g' : Order) : Type 0 where
  pub places : (i : ℕ) → i < g.len → g'.place i ≡ g.place i
  pub values : (i : ℕ) → i < g.len → g'.value i ≡ g.value i
  pub longer : g.len ≤ g'.len
  pub firsts : g.first ≤ g'.first
  pub lasts : g.last ≤ g'.last

-- `p` is the node at `k`, at or before the place of `tail`.
abbrev pub IsReached : Order → Ptr → ℕ → Type 0
IsReached g p k = (k ≤ g.last) × (p ≡ g.place k)

abbrev pub IsNext : Order → ℕ → Ptr → Type 0
IsNext g k q = (k + 1 < g.len) × (q ≡ g.place (k + 1))

-- What the locals of a thread say.
abbrev pub Fits : Order → Pc → Type 0
Fits g (enq_next n v last) = (k : ℕ) × IsReached g last k
Fits g (enq_check n v last next) = (k : ℕ) × IsReached g last k × ((next ≡ null) ⊎ IsNext g k next)
Fits g (enq_link n v last) = (k : ℕ) × IsReached g last k
Fits g (enq_help n v last next) = (k : ℕ) × IsReached g last k × IsNext g k next
Fits g (deq_last first) = (k : ℕ) × (k ≤ g.first) × IsReached g first k
Fits g (deq_next first last) =
    (k : ℕ) × (j : ℕ) × (k ≤ g.first) × (k ≤ j) × IsReached g first k × IsReached g last j
Fits g (deq_check first last next) =
    (k : ℕ) × (j : ℕ) × (k ≤ g.first)
    × (k ≤ j)
    × IsReached g first k
    × IsReached g last j
    × (((next ≡ null) × (k ≡ j)) ⊎ IsNext g k next)
Fits g (deq_help last next) = (k : ℕ) × IsReached g last k × IsNext g k next
Fits g (deq_value first next) = (k : ℕ) × (k + 1 ≤ g.last) × IsReached g first k × IsNext g k next
Fits g (deq_cas first next v) =
    (k : ℕ) × (k + 1 ≤ g.last) × IsReached g first k × IsNext g k next × (v ≡ g.value (k + 1))
Fits g _ = Unit

-- The node that a thread in `enqueue` has allocated and not yet linked.
abbrev pub owned : Pc → Option (Ptr × ℤ)
owned (enq_last n v) = some (n, v)
owned (enq_next n v last) = some (n, v)
owned (enq_check n v last next) = some (n, v)
owned (enq_link n v last) = some (n, v)
owned (enq_help n v last next) = some (n, v)
owned _ = none

abbrev pub IsOwned : Mem → Order → Ptr → ℤ → Type 0
IsOwned m g n v =
    (n ≢ null) × (m.heap n ≡ some (node v null)) × ((i : ℕ) → i < g.len → g.place i ≢ n)

-- The specification: a queue of integers, and which events it accepts in a state.
unfoldable pub spec : Label → List ℤ → Option (List ℤ)
spec silent xs = some xs
spec (enqueued v) xs = some (xs ++ v ∷ [])
spec (dequeued v) [] = none
spec (dequeued v) (x ∷ xs) = if x ==ℤ v then some xs else none
spec saw_empty [] = some []
spec saw_empty (x ∷ xs) = none
spec returned_empty xs = some xs

pub Fits-mono : (g g' : Order) (p : Pc) → Extends g g' → g.last < g.len → Fits g p → Fits g' p
Fits-mono g g' (enq_next n v last) e w (k, at) = (k, ground (arith, e.places k))
Fits-mono g g' (enq_check n v last next) e w (k, at, inl z) = (k, ground (arith, e.places k), inl z)
Fits-mono g g' (enq_check n v last next) e w (k, at, inr q) =
    (k, ground (arith, e.places k), inr (ground (arith, e.places (k + 1))))
Fits-mono g g' (enq_link n v last) e w (k, at) = (k, ground (arith, e.places k))
Fits-mono g g' (enq_help n v last next) e w (k, at, q) =
    (k, ground (arith, e.places k), ground (arith, e.places (k + 1)))
Fits-mono g g' (deq_last first) e w (k, le, at) = (k, ground arith, ground (arith, e.places k))
Fits-mono g g' (deq_next first last) e w (k, j, le, kj, at, at') =
    (k, j, ground arith, kj, ground (arith, e.places k), ground (arith, e.places j))
Fits-mono g g' (deq_check first last next) e w (k, j, le, kj, at, at', inl z) =
    (k, j, ground arith, kj, ground (arith, e.places k), ground (arith, e.places j), inl z)
Fits-mono g g' (deq_check first last next) e w (k, j, le, kj, at, at', inr q) = (
  k,
  j,
  ground arith,
  kj,
  ground (arith, e.places k),
  ground (arith, e.places j),
  inr (ground (arith, e.places (k + 1))),
)
Fits-mono g g' (deq_help last next) e w (k, at, q) =
    (k, ground (arith, e.places k), ground (arith, e.places (k + 1)))
Fits-mono g g' (deq_value first next) e w (k, le, at, q) =
    (k, ground arith, ground (arith, e.places k), ground (arith, e.places (k + 1)))
Fits-mono g g' (deq_cas first next v) e w (k, le, at, q, is) = (
  k,
  ground arith,
  ground (arith, e.places k),
  ground (arith, e.places (k + 1)),
  ground (arith, e.values (k + 1)),
)
Fits-mono g g' p e w f = tt

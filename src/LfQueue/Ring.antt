-- ===== src/LfQueue/Ring.antt =====
-- The slots of the ring and the tickets that they stand for.
use public_conc_exp.Common.{
  ℕ, ◌+◌, ◌-◌, ◌%◌, ◌≤◌, ◌<◌, ◌≡◌, ◌≢◌, ◌∙◌, ap, ◌⊎◌, Option, none, some, List, [], ◌∷◌, ◌++◌,
  arith, ℤ, if◌then◌else◌, length, ltb,
}
use native.Mathlib.Nat.{mod-add-div, mod-eq-sub-mod}
use public_conc_exp.Spec.Numbered.{values_from}
use public_conc_exp.LfQueue.{
  Node, Mem, Pc, enq_cas, enq_item, enq_publish, deq_test, deq_cas, deq_release, write, Label,
  silent, enqueued, dequeued, returned, refused,
}

-- Tickets less than one turn of the ring apart that meet in a slot are the same.
pub same_ticket : (a b n : ℕ) → a ≤ b → b < a + n → a % n ≡ b % n → a ≡ b
same_ticket a b n le lt e = grind (arith, mod-add-div a n, mod-add-div b n)

pub next_turn : (a n : ℕ) → (a + n) % n ≡ a % n
next_turn a n = mod-eq-sub-mod {n = a + n} {m = n} (omega arith) ∙ ap (λ k. k % n) (omega arith)

-- The ghost state: the value of each ticket, and the tickets `first` to `last` - 1 in the queue.
pub record Line : Type 0 where
  pub value : ℕ → ℤ
  pub first : ℕ
  pub last : ℕ

abbrev pub contents : Line → List ℤ
contents g = values_from g.value g.first (g.last - g.first)

-- The ticket whose slot a thread may write to.
abbrev pub ticket : Pc → Option ℕ
ticket (enq_item v t) = some t
ticket (enq_publish t) = some t
ticket (deq_release t) = some t
ticket _ = none

-- The specification: a queue of at most `capacity` integers, and which events it accepts.
unfoldable pub spec : ℕ → Label → List ℤ → Option (List ℤ)
spec capacity silent xs = some xs
spec capacity (enqueued v) xs = if ltb (length xs) capacity then some (xs ++ v ∷ []) else none
spec capacity dequeued [] = none
spec capacity dequeued (x ∷ xs) = some xs
spec capacity (returned b) xs = some xs
spec capacity (refused b) xs = some xs

module _ (capacity : ℕ) where
  abbrev pub slot : Mem → ℕ → Node
  slot m t = m.queue (t % capacity)

  abbrev pub written : Mem → ℕ → Node → Mem
  written m u c = record m { queue = write capacity m.queue u c }

  -- The slot at `j` is at the ticket in its `tail`; `head` shows that ticket once it is published,
  -- and until then the one before.
  pub record IsTurned (g : Line) (j : ℕ) (c : Node) : Type 0 where
    pub turn : c.tail % capacity ≡ j
    pub low : g.last ≤ c.tail + capacity
    pub high : c.tail < g.first + capacity
    pub stamped : (h : ℕ) → c.head ≡ some h → (h ≡ c.tail) ⊎ (h + capacity ≡ c.tail)
    pub stored : c.head ≡ some c.tail → (c.tail < g.last) × (c.item ≡ g.value c.tail)

  pub record Shape (m : Mem) (g : Line) : Type 0 where
    pub head : m.head ≡ g.first
    pub tail : m.tail ≡ g.last
    pub ordered : g.first ≤ g.last
    pub bounded : g.last ≤ g.first + capacity
    pub turned : (j : ℕ) → j < capacity → IsTurned g j (m.queue j)

  -- What the locals of a thread say.
  abbrev pub Fits : Mem → Line → Pc → Type 0
  Fits m g (enq_cas v t) = t ≤ (slot m t).tail
  Fits m g (enq_item v t) =
      (g.first ≤ t)
      × (t < g.last)
      × ((slot m t).tail ≡ t)
      × ((slot m t).head ≢ some t)
      × (g.value t ≡ v)
  Fits m g (enq_publish t) =
      (g.first ≤ t)
      × (t < g.last)
      × ((slot m t).tail ≡ t)
      × ((slot m t).head ≢ some t)
      × ((slot m t).item ≡ g.value t)
  Fits m g (deq_test h) = h ≤ g.first
  Fits m g (deq_cas h) =
      (h ≤ g.first) × (h ≡ g.first → ((slot m h).tail ≡ h) × ((slot m h).head ≡ some h))
  Fits m g (deq_release h) = (h < g.first) × ((slot m h).tail ≡ h) × ((slot m h).head ≡ some h)
  Fits m g _ = Unit

  -- A ticket whose holder has not made its last store: given up but not released, or given out but not
  -- published.
  abbrev pub IsOpen : Mem → Line → ℕ → Type 0
  IsOpen m g t =
      (((slot m t).tail ≡ t) × (t < g.first))
      ⊎ ((g.first ≤ t) × (t < g.last) × ((slot m t).head ≢ some t))

  -- A thread that may write stands at the current ticket of its slot.
  pub ticket-slot :
      (m : Mem) (g : Line) (p : Pc) (t : ℕ) → Fits m g p → ticket p ≡ some t → (slot m t).tail ≡ t
  ticket-slot m g (enq_item v u) t f e = ground arith
  ticket-slot m g (enq_publish u) t f e = ground arith
  ticket-slot m g (deq_release u) t f e = ground arith
  ticket-slot m g p t f e = cc

  -- The tickets that threads hold have been given out.
  pub ticket_given :
      (m : Mem) (g : Line) (p : Pc) (t : ℕ)
      → g.first ≤ g.last
      → Fits m g p
      → ticket p ≡ some t
      → t < g.last
  ticket_given m g (enq_item v u) t le f e = ground arith
  ticket_given m g (enq_publish u) t le f e = ground arith
  ticket_given m g (deq_release u) t le f e = ground arith
  ticket_given m g p t le f e = cc

  -- A published ticket that is still in the queue is held by no thread.
  pub published_free :
      (m : Mem) (g : Line) (p : Pc)
      → (slot m g.first).head ≡ some g.first
      → Fits m g p
      → ticket p ≢ some g.first
  published_free m g (enq_item v u) pub_ f = λ e. ground arith
  published_free m g (enq_publish u) pub_ f = λ e. ground arith
  published_free m g (deq_release u) pub_ f = λ e. ground arith
  published_free m g p pub_ f = λ e. cc

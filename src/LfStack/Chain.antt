-- ===== src/LfStack/Chain.antt =====
-- The nodes that `Top` leads to, and what the locals of a thread promise about memory.
use public_conc_exp.Common.{
  ◌≡◌, ◌≢◌, Bool, true, false, ◌||◌, Option, none, some, List, [], ◌∷◌, arith, ℤ, ◌==ℤ◌, ◌==◌,
  if◌then◌else◌,
}
use public_conc_exp.LfStack.{
  Ptr, null, Node, node, Pc, idle, push_load, push_link, push_cas, pop_load, pop_test, pop_cas,
  pop_value, Label, silent, pushed, popped, saw_empty, returned,
}

-- Address and value of each node on the stack, from the top down.
abbrev pub Cells : Type 0
Cells = List (Ptr × ℤ)

abbrev pub first : Cells → Ptr
first [] = null
first ((a, v) ∷ cells) = a

abbrev pub values : Cells → List ℤ
values [] = []
values ((a, v) ∷ cells) = v ∷ values cells

abbrev pub has_cell : Ptr → Cells → Bool
has_cell p [] = false
has_cell p ((a, v) ∷ cells) = (p == a) || has_cell p cells

-- Each node holds its value and leads to the next one, the last to null.
abbrev pub IsChain : (Ptr → Option Node) → Cells → Type 0
IsChain h [] = Unit
IsChain h ((a, v) ∷ cells) = (a ≢ null) × (h a ≡ some (node v (first cells))) × IsChain h cells

-- A node that a thread in `push` has allocated and not yet published.
abbrev pub owns : Pc → Ptr → Bool
owns (push_load n v) p = n == p
owns (push_link n v old) p = n == p
owns (push_cas n v old) p = n == p
owns _ p = false

-- A node that a thread in `pop` holds a pointer to and will read.
abbrev pub reads : Pc → Ptr → Bool
reads (pop_test old) p = if old == null then false else old == p
reads (pop_cas old next) p = old == p
reads (pop_value old v) p = old == p
reads _ p = false

abbrev pub IsNode : (Ptr → Option Node) → Ptr → Type 0
IsNode h p = (c : Node) × (h p ≡ some c)

abbrev pub Fits : (Ptr → Option Node) → Cells → Pc → Type 0
Fits h cells (push_load n v) =
    (n ≢ null) × (has_cell n cells ≡ false) × ((q : Ptr) × (h n ≡ some (node v q)))
Fits h cells (push_link n v old) =
    (n ≢ null) × (has_cell n cells ≡ false) × ((q : Ptr) × (h n ≡ some (node v q)))
Fits h cells (push_cas n v old) =
    (n ≢ null) × (has_cell n cells ≡ false) × (h n ≡ some (node v old))
Fits h cells (pop_test old) = old ≢ null → IsNode h old
Fits h cells (pop_cas old next) = (old ≢ null) × ((v : ℤ) × (h old ≡ some (node v next)))
Fits h cells (pop_value old v) = (q : Ptr) × (h old ≡ some (node v q))
Fits h cells _ = Unit

-- The abstract stack after a step.
abbrev pub after : Label → Cells → Cells
after (pushed n v) cells = (n, v) ∷ cells
after (popped v) ((a, w) ∷ cells) = cells
after _ cells = cells

-- A chain survives any change that spares its nodes.
pub IsChain-frame :
    (h g : Ptr → Option Node) (cells : Cells)
    → ((a : Ptr) → has_cell a cells ≡ true → g a ≡ h a)
    → IsChain h cells
    → IsChain g cells
IsChain-frame h g [] same c = tt
IsChain-frame h g ((a, v) ∷ cells) same (ne, e, c) =
    (ne, ground (arith, same a), IsChain-frame h g cells (λ b i. same b (ground arith)) c)

-- The promise to one thread survives a step of another that writes to none of its nodes.
pub Fits-frame :
    (h g : Ptr → Option Node) (cells after_step : Cells) (p : Pc)
    → ((a : Ptr) → owns p a ≡ true → (g a ≡ h a) × (has_cell a after_step ≡ has_cell a cells))
    → ((a : Ptr) → reads p a ≡ true → g a ≡ h a)
    → Fits h cells p
    → Fits g after_step p
Fits-frame h g cells cs idle own rd f = tt
Fits-frame h g cells cs (push_load n v) own rd (ne, out, (q, e)) =
    (ne, ground (arith, own n), (q, ground (arith, own n)))
Fits-frame h g cells cs (push_link n v old) own rd (ne, out, (q, e)) =
    (ne, ground (arith, own n), (q, ground (arith, own n)))
Fits-frame h g cells cs (push_cas n v old) own rd (ne, out, e) =
    (ne, ground (arith, own n), ground (arith, own n))
Fits-frame h g cells cs pop_load own rd f = tt
Fits-frame h g cells cs (pop_test old) own rd f = λ ne. ((f ne).0, ground (arith, rd old, (f ne).1))
Fits-frame h g cells cs (pop_cas old next) own rd (ne, (v, e)) = (ne, (v, ground (arith, rd old)))
Fits-frame h g cells cs (pop_value old v) own rd (q, e) = (q, ground (arith, rd old))

-- The specification: a stack of integers, and which events it accepts in a state.
unfoldable pub spec : Label → List ℤ → Option (List ℤ)
spec silent xs = some xs
spec (pushed n v) xs = some (v ∷ xs)
spec (popped v) [] = none
spec (popped v) (x ∷ xs) = if x ==ℤ v then some xs else none
spec saw_empty [] = some []
spec saw_empty (x ∷ xs) = none
spec (returned v) xs = some xs

-- The event is one that the specification accepts, with the same next state.
abbrev pub IsAccepted : Label → Cells → Type 0
IsAccepted l cells = spec l (values cells) ≡ some (values (after l cells))

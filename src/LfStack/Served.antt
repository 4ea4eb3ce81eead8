-- ===== src/LfStack/Served.antt =====
-- The steps of the lock-free stack as steps of calls of a stack.
use public_conc_exp.Common.{
  ◌≡◌, inl, inr, Bool-cases, Option-cases, some, List, [], ◌∷◌, arith, ℤ, ◌==◌, if◌then◌else◌,
  minus_one, Run, ok,
}
use public_conc_exp.Spec.Requests.{Request, add, remove, got, stack_step, empty_reply}
use public_conc_exp.Spec.Calls.{Call, free, waiting, noted, decided, Object, advance, note, decide}
use public_conc_exp.LfStack.{
  null, Mem, Pc, idle, push_load, push_link, push_cas, pop_load, pop_test, pop_cas, pop_value,
  Label, act, kind, saw_empty, popped,
}
use public_conc_exp.LfStack.Chain.{Cells, Fits, spec}

-- A stack; a removal from the empty stack returns -1 without effect.
abbrev pub stack : Object Request (List ℤ)
stack = record { step = λ q xs. some (stack_step q xs); peek = empty_reply }

-- The call of a thread that stands at `p`.
abbrev pub status : Pc → Call Request
status idle = free
status (push_load n v) = waiting (add v)
status (push_link n v old) = waiting (add v)
status (push_cas n v old) = waiting (add v)
status pop_load = waiting remove
status (pop_test old) = if old == null then noted remove (got minus_one) else waiting remove
status (pop_cas old next) = waiting remove
status (pop_value old v) = decided (got v)

saw_empty-note :
    (xs xs' : List ℤ)
    → spec saw_empty xs ≡ some xs'
    → advance stack note (waiting remove) xs ≡ some (noted remove (got minus_one), xs')
unfolding spec advance
saw_empty-note [] xs' e = ground (arith, e)
saw_empty-note (x ∷ xs) xs' e = absurd (ground (arith, e))

popped-decide :
    (v : ℤ) (xs xs' : List ℤ)
    → spec (popped v) xs ≡ some xs'
    → advance stack decide (waiting remove) xs ≡ some (decided (got v), xs')
unfolding spec advance stack_step
popped-decide v [] xs' e = absurd (ground (arith, e))
popped-decide v (x ∷ xs) xs' e = ground (arith, e)

abbrev pub Advances : Call Request → Run (Mem × Pc × Label) → Type 0
Advances c (ok (m', p', l)) =
    (xs xs' : List ℤ) → spec l xs ≡ some xs' → advance stack (kind l) c xs ≡ some (status p', xs')
Advances c _ = Unit

pub act-Advances :
    (m : Mem) (cells : Cells) (p : Pc) → Fits m.heap cells p → Advances (status p) (act m p)
unfolding act spec advance stack_step
act-Advances m cells idle f = λ xs xs' e. ground (arith, e)
act-Advances m cells (push_load n v) f = λ xs xs' e. ground (arith, e)
act-Advances m cells (push_link n v old) f = elim (Option-cases (m.heap n)) [
  | inl e ↦ rw (e, Advances) tt
  | inr (c, e) ↦ rw (e, Advances) (λ xs xs' e'. ground (arith, e'))
]
act-Advances m cells (push_cas n v old) f = elim (Bool-cases (m.top == old)) [
  | inl e ↦ rw (e, Advances) (λ xs xs' e'. ground (arith, e'))
  | inr e ↦ rw (e, Advances) (λ xs xs' e'. ground (arith, e'))
]
act-Advances m cells pop_load f = elim (Bool-cases (m.top == null)) [
  | inl e ↦ rw (e, Advances) saw_empty-note
  | inr e ↦ rw (e, Advances) (λ xs xs' e'. ground (arith, e'))
]
act-Advances m cells (pop_test old) f = elim (Bool-cases (old == null)) [
  | inl e ↦ rw (e, Advances) (λ xs xs' e'. ground (arith, e'))
  | inr e ↦ elim (Option-cases (m.heap old)) [
    | inl h ↦ rw (e, h, Advances) tt
    | inr (c, h) ↦ rw (e, h, Advances) (λ xs xs' e'. ground (arith, e'))
  ]
]
act-Advances m cells (pop_cas old next) f = elim (Bool-cases (m.top == old)) [
  | inl e ↦ elim (Option-cases (m.heap old)) [
    | inl h ↦ rw (e, h, Advances) tt
    | inr (c, h) ↦ rw (e, h, Advances) (popped-decide c.value)
  ]
  | inr e ↦ rw (e, Advances) (λ xs xs' e'. ground (arith, e'))
]
act-Advances m cells (pop_value old v) (q, held) =
    rw (held, Advances) (λ xs xs' e'. ground (arith, e'))

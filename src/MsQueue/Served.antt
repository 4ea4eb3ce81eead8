-- ===== src/MsQueue/Served.antt =====
-- The steps of the Michael-Scott queue as steps of calls of a queue.
use public_conc_exp.Common.{
  ◌≡◌, inl, inr, Bool-cases, Option-cases, some, List, [], ◌∷◌, arith, ℤ, ◌==◌, if◌then◌else◌,
  minus_one, Run, ok,
}
use public_conc_exp.Spec.Requests.{Request, add, remove, got, queue_step, empty_reply}
use public_conc_exp.Spec.Calls.{Call, free, waiting, noted, Object, advance, note, finish}
use public_conc_exp.MsQueue.{
  null, Mem, Pc, idle, enq_last, enq_next, enq_check, enq_link, enq_help, deq_first, deq_last,
  deq_next, deq_check, deq_help, deq_value, deq_cas, Label, saw_empty, dequeued, act, kind,
}
use public_conc_exp.MsQueue.Chain.{spec}

-- A queue; a removal from the empty queue returns -1 without effect.
abbrev pub queue : Object Request (List ℤ)
queue = record { step = λ q xs. some (queue_step q xs); peek = empty_reply }

-- The call of a thread that stands at `p`.
abbrev pub status : Pc → Call Request
status idle = free
status (enq_last n v) = waiting (add v)
status (enq_next n v last) = waiting (add v)
status (enq_check n v last next) = waiting (add v)
status (enq_link n v last) = waiting (add v)
status (enq_help n v last next) = waiting (add v)
status (deq_check first last next) =
    if next == null then noted remove (got minus_one) else waiting remove
status _ = waiting remove

abbrev pub Advances : Call Request → Run (Mem × Pc × Label) → Type 0
Advances c (ok (m', p', l)) =
    (xs xs' : List ℤ) → spec l xs ≡ some xs' → advance queue (kind l) c xs ≡ some (status p', xs')
Advances c _ = Unit

saw_empty-note :
    (xs xs' : List ℤ)
    → spec saw_empty xs ≡ some xs'
    → advance queue note (waiting remove) xs ≡ some (noted remove (got minus_one), xs')
unfolding spec advance
saw_empty-note [] xs' e = ground (arith, e)
saw_empty-note (x ∷ xs) xs' e = absurd (ground (arith, e))

dequeued-finish :
    (v : ℤ) (xs xs' : List ℤ)
    → spec (dequeued v) xs ≡ some xs'
    → advance queue (finish (got v)) (waiting remove) xs ≡ some (free, xs')
unfolding spec advance queue_step
dequeued-finish v [] xs' e = absurd (ground (arith, e))
dequeued-finish v (x ∷ xs) xs' e = ground (arith, e)

pub act-Advances : (m : Mem) (p : Pc) → Advances (status p) (act m p)
unfolding act spec advance queue_step
act-Advances m idle = λ xs xs' e. ground (arith, e)
act-Advances m (enq_last n v) = λ xs xs' e. ground (arith, e)
act-Advances m (enq_next n v last) = elim (Option-cases (m.heap last)) [
  | inl e ↦ rw (e, Advances) tt
  | inr (c, e) ↦ rw (e, Advances) (λ xs xs' e'. ground (arith, e'))
]
act-Advances m (enq_check n v last next) = elim (Bool-cases (last == m.tail)) [
  | inr e ↦ rw (e, Advances) (λ xs xs' e'. ground (arith, e'))
  | inl e ↦ elim (Bool-cases (next == null)) [
    | inl h ↦ rw (e, h, Advances) (λ xs xs' e'. ground (arith, e'))
    | inr h ↦ rw (e, h, Advances) (λ xs xs' e'. ground (arith, e'))
  ]
]
act-Advances m (enq_link n v last) = elim (Option-cases (m.heap last)) [
  | inl e ↦ rw (e, Advances) tt
  | inr (c, e) ↦ elim (Bool-cases (c.next == null)) [
    | inl h ↦ rw (e, h, Advances) (λ xs xs' e'. ground (arith, e'))
    | inr h ↦ rw (e, h, Advances) (λ xs xs' e'. ground (arith, e'))
  ]
]
act-Advances m (enq_help n v last next) = elim (Bool-cases (m.tail == last)) [
  | inl e ↦ rw (e, Advances) (λ xs xs' e'. ground (arith, e'))
  | inr e ↦ rw (e, Advances) (λ xs xs' e'. ground (arith, e'))
]
act-Advances m deq_first = λ xs xs' e. ground (arith, e)
act-Advances m (deq_last first) = λ xs xs' e. ground (arith, e)
act-Advances m (deq_next first last) = elim (Option-cases (m.heap first)) [
  | inl e ↦ rw (e, Advances) tt
  | inr (c, e) ↦ elim (Bool-cases (c.next == null)) [
    | inl h ↦ rw (e, h, Advances) saw_empty-note
    | inr h ↦ rw (e, h, Advances) (λ xs xs' e'. ground (arith, e'))
  ]
]
act-Advances m (deq_check first last next) = elim (Bool-cases (first == m.head)) [
  | inr e ↦ elim (Bool-cases (next == null)) [
    | inl h ↦ rw (e, h, Advances) (λ xs xs' e'. ground (arith, e'))
    | inr h ↦ rw (e, h, Advances) (λ xs xs' e'. ground (arith, e'))
  ]
  | inl e ↦ elim (Bool-cases (first == last)) [
    | inl k ↦ elim (Bool-cases (next == null)) [
      | inl h ↦ rw (e, k, h, Advances) (λ xs xs' e'. ground (arith, e'))
      | inr h ↦ rw (e, k, h, Advances) (λ xs xs' e'. ground (arith, e'))
    ]
    | inr k ↦ elim (Bool-cases (next == null)) [
      | inl h ↦ rw (e, k, h, Advances) (λ xs xs' e'. ground (arith, e'))
      | inr h ↦ rw (e, k, h, Advances) (λ xs xs' e'. ground (arith, e'))
    ]
  ]
]
act-Advances m (deq_help last next) = elim (Bool-cases (m.tail == last)) [
  | inl e ↦ rw (e, Advances) (λ xs xs' e'. ground (arith, e'))
  | inr e ↦ rw (e, Advances) (λ xs xs' e'. ground (arith, e'))
]
act-Advances m (deq_value first next) = elim (Option-cases (m.heap next)) [
  | inl e ↦ rw (e, Advances) tt
  | inr (c, e) ↦ rw (e, Advances) (λ xs xs' e'. ground (arith, e'))
]
act-Advances m (deq_cas first next v) = elim (Bool-cases (m.head == first)) [
  | inl e ↦ rw (e, Advances) (dequeued-finish v)
  | inr e ↦ rw (e, Advances) (λ xs xs' e'. ground (arith, e'))
]

-- ===== src/LfStack/Solo.antt =====
-- A thread of the lock-free stack that is left alone ends its call.
use public_conc_exp.Common.{
  ℕ, zero, suc, ◌<◌, ◌≡◌, ◌≢◌, refl, sym, subst, sym, ◌⊎◌, inl, inr, Bool-cases, Option-cases, List,
  arith, ◌==◌, if◌then◌else◌, Run, ok, fault, blocked, spins, ◌>>=◌,
}
use public_conc_exp.LfStack.{
  null, Mem, Pc, idle, push_load, push_link, push_cas, pop_load, pop_test, pop_cas, pop_value,
  Label, act, System,
}
use public_conc_exp.LfStack.Chain.{Cells, first, IsChain, Fits, after}
use public_conc_exp.LfStack.Local.{Does, act-Does}
use public_conc_exp.LfStack.History.{reach_Inv}
use public_conc_exp.Spec.History.{Reach}
use public_conc_exp.Spec.Requests.{Request}
use public_conc_exp.Spec.Calls.{Kind}
use public_conc_exp.LfStack.{Step, init}

-- The next `n` steps of a thread while no other thread moves.
unfoldable pub alone : ℕ → Mem → Pc → Run (Mem × Pc)
alone zero m p = ok (m, p)
alone (suc n) m p = do (m', p', l) ← act m p; alone n m' p'

-- How many steps of its own a thread has left: more if `Top` is not the one that it has loaded.
rank : Mem → Pc → ℕ
rank m idle = 0
rank m (push_load n v) = 3
rank m (push_link n v old) = if m.top == old then 2 else 5
rank m (push_cas n v old) = if m.top == old then 1 else 4
rank m pop_load = 4
rank m (pop_test old) = if old == null then 1 else if m.top == old then 3 else 6
rank m (pop_cas old next) = if m.top == old then 2 else 5
rank m (pop_value old v) = 1

abbrev Drops : ℕ → Run (Mem × Pc × Label) → Type 0
Drops k (ok (m', p', l)) = rank m' p' < k
Drops k _ = Unit

act-Drops : (m : Mem) (p : Pc) → p ≢ idle → Drops (rank m p) (act m p)
unfolding act rank
act-Drops m idle ne = absurd (ne refl)
act-Drops m (push_load n v) ne = ground arith
act-Drops m (push_link n v old) ne = elim (Option-cases (m.heap n)) [
  | inl e ↦ rw (e, Drops) tt
  | inr (c, e) ↦ rw (e, Drops) (ground arith)
]
act-Drops m (push_cas n v old) ne = elim (Bool-cases (m.top == old)) [
  | inl e ↦ rw (e, Drops) (ground (arith, e))
  | inr e ↦ rw (e, Drops) (ground (arith, e))
]
act-Drops m pop_load ne = ground arith
act-Drops m (pop_test old) ne = elim (Bool-cases (old == null)) [
  | inl e ↦ rw (e, Drops) (ground (arith, e))
  | inr e ↦ elim (Option-cases (m.heap old)) [
    | inl h ↦ rw (e, h, Drops) tt
    | inr (c, h) ↦ rw (e, h, Drops) (ground arith)
  ]
]
act-Drops m (pop_cas old next) ne = elim (Bool-cases (m.top == old)) [
  | inl e ↦ elim (Option-cases (m.heap old)) [
    | inl h ↦ rw (e, h, Drops) tt
    | inr (c, h) ↦ rw (e, h, Drops) (ground (arith, e))
  ]
  | inr e ↦ rw (e, Drops) (ground (arith, e))
]
act-Drops m (pop_value old v) ne = elim (Option-cases (m.heap old)) [
  | inl h ↦ rw (h, Drops) tt
  | inr (c, h) ↦ rw (h, Drops) (omega arith)
]

rank-positive : (m : Mem) (p : Pc) → p ≢ idle → 0 < rank m p
unfolding rank
rank-positive m idle ne = absurd (ne refl)
rank-positive m (push_load n v) ne = omega arith
rank-positive m (push_link n v old) ne = ground arith
rank-positive m (push_cas n v old) ne = ground arith
rank-positive m pop_load ne = omega arith
rank-positive m (pop_test old) ne = ground arith
rank-positive m (pop_cas old next) ne = ground arith
rank-positive m (pop_value old v) ne = omega arith

idle_or_not : (p : Pc) → (p ≡ idle) ⊎ (p ≢ idle)
idle_or_not idle = inl refl
idle_or_not (push_load n v) = inr (λ e. absurd (ground (arith, e)))
idle_or_not (push_link n v old) = inr (λ e. absurd (ground (arith, e)))
idle_or_not (push_cas n v old) = inr (λ e. absurd (ground (arith, e)))
idle_or_not pop_load = inr (λ e. absurd (ground (arith, e)))
idle_or_not (pop_test old) = inr (λ e. absurd (ground (arith, e)))
idle_or_not (pop_cas old next) = inr (λ e. absurd (ground (arith, e)))
idle_or_not (pop_value old v) = inr (λ e. absurd (ground (arith, e)))

rank_max : (m : Mem) (p : Pc) → rank m p < 7
unfolding rank
rank_max m idle = omega arith
rank_max m (push_load n v) = omega arith
rank_max m (push_link n v old) = ground arith
rank_max m (push_cas n v old) = ground arith
rank_max m pop_load = omega arith
rank_max m (pop_test old) = ground arith
rank_max m (pop_cas old next) = ground arith
rank_max m (pop_value old v) = omega arith

alone-idle : (n : ℕ) (m : Mem) → alone n m idle ≡ ok (m, idle)
unfolding alone act
alone-idle zero m = refl
alone-idle (suc n) m = alone-idle n m

-- One step, and what is known after it.
step_alone :
    (m : Mem) (cells : Cells) (p : Pc) (k : ℕ) (r : Run (Mem × Pc × Label))
    → Does m cells p r
    → Drops k r
    → (m' : Mem) × (p' : Pc) × (l : Label) × (r ≡ ok (m', p', l))
      × Does m cells p (ok (m', p', l))
      × (rank m' p' < k)
step_alone m cells p k (ok (m', p', l)) d h = (m', p', l, refl, d, h)
step_alone m cells p k fault d h = absurd d
step_alone m cells p k blocked d h = absurd d
step_alone m cells p k spins d h = absurd d

alone-rank :
    (n : ℕ) (m : Mem) (cells : Cells) (p : Pc)
    → m.top ≡ first cells
    → IsChain m.heap cells
    → Fits m.heap cells p
    → rank m p < suc n
    → (m' : Mem) × (alone n m p ≡ ok (m', idle))
unfolding alone
alone-rank zero m cells p top chain fits small = elim (idle_or_not p) [
  | inl e ↦ (m, rw e refl)
  | inr ne ↦ let more = rank-positive m p ne in absurd (omega (arith, more, small))
]
alone-rank (suc n) m cells p top chain fits small = elim (idle_or_not p) [
  | inl e ↦ (m, subst (λ q. alone (suc n) m q ≡ ok (m, idle)) (sym e) (alone-idle (suc n) m))
  | inr ne ↦
      let (m', p', l, e, d, drop) =
        step_alone m cells p (rank m p) (act m p) (act-Does m cells top chain p fits)
          (act-Drops m p ne) in
      let (m'', run) =
        alone-rank n m' (after l cells) p' d.top d.chain d.fits (omega (arith, drop, small)) in
      (m'', rw e run)
]

-- Solo termination. In every reachable state, a thread that is left alone has ended its `push` or
-- `pop` after six steps.
pub alone_returns :
    {history : List (ℕ × Kind Request)} {s : System}
    → Reach Step init history s
    → (i : ℕ) → (m : Mem) × (alone 6 s.mem (s.pc i) ≡ ok (m, idle))
alone_returns {s} r i =
    let ((cells, calls), (inv, same), e) = reach_Inv r in
    alone-rank 6 s.mem cells (s.pc i) inv.top inv.chain (inv.fits i) (rank_max s.mem (s.pc i))

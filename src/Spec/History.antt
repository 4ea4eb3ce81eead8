-- ===== src/Spec/History.antt =====
-- Histories: the events of a step relation, accepted one by one by a specification.
use public_conc_exp.Common.{
  ◌≡◌, refl, ◌∙◌, inl, inr, Option, none, some, List, [], ◌∷◌, ◌++◌, arith, Option-cases,
}

-- The specification `spec` run over a history, the latest event last.
unfoldable pub replay : {L A : Type 0} → (L → A → Option A) → List L → A → Option A
replay spec [] a = some a
replay spec (l ∷ history) a = elim (spec l a) [ none ↦ none | some b ↦ replay spec history b ]

-- The states that the steps lead to from `init`, with the history of events.
pub data Reach {L S : Type 0} (Step : S → L → S → Type 0) (init : S) : List L → S → Type 0 where
  start : Reach Step init [] init
  later :
      {history : List L} {s t : S} {l : L}
      → Reach Step init history s
      → Step s l t
      → Reach Step init (history ++ l ∷ []) t

pub replay-append :
    {L A : Type 0} (spec : L → A → Option A) (history : List L) (l : L) (a b : A)
    → replay spec history a ≡ some b
    → replay spec (history ++ l ∷ []) a ≡ replay spec (l ∷ []) b
unfolding replay
replay-append spec [] l a b h = ground arith
replay-append spec (k ∷ history) l a b h = elim (Option-cases (spec k a)) [
  | inl e ↦ absurd (ground arith)
  | inr (c, e) ↦ rw (e, replay) (replay-append spec history l c b (rw (e, replay) at h))
]

-- If every step keeps an invariant over a ghost state, and is an event that the specification
-- accepts from the ghost state's view to the next one's, then so is every history.
pub replay-Reach :
    {L S A G : Type 0} {Step : S → L → S → Type 0} {init : S} (spec : L → A → Option A)
    (Inv : S → G → Type 0) (view : G → A) (g0 : G)
    → Inv init g0
    → ((s : S) (g : G) (l : L) (t : S)
        → Inv s g
        → Step s l t
        → (g' : G) × Inv t g' × (spec l (view g) ≡ some (view g')))
    → {history : List L} {s : S} → Reach Step init history s
    → (g : G) × Inv s g × (replay spec history (view g0) ≡ some (view g))
unfolding replay
replay-Reach spec Inv view g0 inv0 keep start = (g0, inv0, refl)
replay-Reach spec Inv view g0 inv0 keep (later {history} {s} {t} {l} r step) =
    let (g, inv, e) = replay-Reach spec Inv view g0 inv0 keep r in
    let (g', inv', accepted) = keep s g l t inv step in
    (g', inv', replay-append spec history l (view g0) (view g) e ∙ rw (accepted, replay))

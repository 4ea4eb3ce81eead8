-- ===== src/SkipList/Shape.antt =====
-- When memory is a skip list: on each level a row of nodes from the sentinel, strictly ascending, and
-- every node of a row is in the row below it.
use public_conc_exp.Common.{arith, ◌≤◌, ℕ, suc, ◌<◌, ◌≢◌, List, map, ℤ, length}
use public_conc_exp.Spec.SortedSet.{IsAscending}
use public_conc_exp.Rows.{Ptr, null}
use public_conc_exp.SkipList.{sentinel, SkipList}
use public_conc_exp.Rows.Row.{Linked, In}

pub record Shape (s : SkipList) (rows : ℕ → List Ptr) : Type 0 where
  pub linked : (i : ℕ) → i < s.levels → Linked (λ p. s.lvls_array p i) sentinel (rows i)
  pub ascending : (i : ℕ) → i < s.levels → IsAscending (map s.data_of (rows i))
  pub nested : (i : ℕ) → suc i < s.levels → (p : Ptr) → In p (rows (suc i)) → In p (rows i)
  pub proper : (i : ℕ) → i < s.levels → (p : Ptr) → In p (rows i) → (p ≢ null) × (p ≢ sentinel)

-- The rows below a level.
pub lower-Shape :
    (s : SkipList) (rows : ℕ → List Ptr) (k : ℕ)
    → k ≤ s.levels
    → Shape s rows
    → Shape (record s { levels = k }) rows
lower-Shape s rows k le shape = record {
  linked = λ i lt. shape.linked i (omega (arith, le, lt));
  ascending = λ i lt. shape.ascending i (omega (arith, le, lt));
  nested = λ i lt. shape.nested i (omega (arith, le, lt));
  proper = λ i lt. shape.proper i (omega (arith, le, lt));
}

-- What the list holds: the values of the lowest row.
abbrev pub contents : SkipList → (ℕ → List Ptr) → List ℤ
contents s rows = map s.data_of (rows 0)

-- More fuel than any row has nodes.
abbrev pub IsEnough : ℕ → SkipList → (ℕ → List Ptr) → Type 0
IsEnough fuel s rows = (i : ℕ) → i < s.levels → length (rows i) < fuel

-- An address that no node has.
abbrev pub IsNew : Ptr → SkipList → (ℕ → List Ptr) → Type 0
IsNew n s rows =
    (n ≢ null) × (n ≢ sentinel) × ((i : ℕ) → i < s.levels → (q : Ptr) → In q (rows i) → q ≢ n)

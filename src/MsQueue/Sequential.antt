-- ===== src/MsQueue/Sequential.antt =====
-- `size` and `find` of `MsQueue`, while no thread is at work.
use public_conc_exp.Common.{
  ℕ, zero, suc, ◌+◌, ◌-◌, ◌<◌, ◌≡◌, refl, true, false, none, some, arith, ℤ, ◌==ℤ◌, minus_one, ◌==◌,
  Run, ok, fault, spins, length,
}
use public_conc_exp.Spec.Numbered.{length-values_from}
use public_conc_exp.MsQueue.{Ptr, null, Heap, Mem}
use public_conc_exp.MsQueue.Chain.{Order, contents, Shape}

-- The `while` of `size`, on fuel.
unfoldable pub size_from : ℕ → Heap → ℕ → Ptr → Run ℕ
size_from zero h counter current = spins
size_from (suc fuel) h counter current = elim (current == null) [
  | true ↦ ok counter
  | false ↦ elim (h current) [ none ↦ fault | some c ↦ size_from fuel h (counter + 1) c.next ]
]

unfoldable pub size : ℕ → Mem → Run ℕ
unfolding size_from
size fuel m = size_from fuel m.heap 0 m.head

-- The `while` of `find`, on fuel: `current` is never moved on.
unfoldable pub find_loop : ℕ → ℤ → Heap → Ptr → Run ℤ
find_loop zero v h current = spins
find_loop (suc fuel) v h current = elim (current == null) [
  | true ↦ ok minus_one
  | false ↦ elim (h current) [
    | none ↦ fault
    | some c ↦ elim (c.item ==ℤ v) [ true ↦ ok c.item | false ↦ find_loop fuel v h current ]
  ]
]

unfoldable pub find : ℕ → ℤ → Mem → Run ℤ
unfolding find_loop
find fuel v m = find_loop fuel v m.heap m.head

module _ (m : Mem) (g : Order) (shape : Shape m g) where
  open shape use {nodes, solid, ordered, within, head}

  size_from_lem :
      (fuel counter k rest : ℕ)
      → k + rest + 1 ≡ g.len
      → rest + 1 < fuel
      → size_from fuel m.heap counter (g.place k) ≡ ok (counter + rest + 1)
  unfolding size_from
  size_from_lem zero counter k rest e h = absurd (omega arith)
  size_from_lem (suc zero) counter k rest e h = absurd (omega arith)
  size_from_lem (suc (suc fuel)) counter k zero e h = ground (arith, nodes k, solid k)
  size_from_lem (suc fuel) counter k (suc rest) e h =
      ground (arith, nodes k, solid k, size_from_lem fuel (counter + 1) (k + 1) rest)

  -- `size` counts one node more than the queue has values: with enough rounds it returns the length
  -- of the contents and one.
  pub size_lem : (fuel : ℕ) → g.len < fuel → size fuel m ≡ ok (length (contents g) + 1)
  unfolding size
  size_lem fuel h = ground (
    arith,
    head,
    size_from_lem fuel 0 g.first (g.len - (g.first + 1)),
    length-values_from g.value (g.first + 1) (g.len - (g.first + 1)),
    ordered,
    within,
  )

  find_loop_lem :
      (v : ℤ)
      → (g.value g.first ==ℤ v) ≡ false
      → (fuel : ℕ) → find_loop fuel v m.heap (g.place g.first) ≡ spins
  unfolding find_loop
  find_loop_lem v ne zero = refl
  find_loop_lem v ne (suc fuel) =
      ground (arith, find_loop_lem v ne fuel, nodes g.first, solid g.first, ordered, within)

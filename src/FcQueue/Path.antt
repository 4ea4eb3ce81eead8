-- ===== src/FcQueue/Path.antt =====
-- The nodes from `first` to `last`, and what `serialEnqueue` does to them.
use public_conc_exp.Common.{
  ℕ, zero, suc, ◌+◌, ◌<◌, ◌≡◌, ◌≢◌, refl, none, some, List, [], ◌∷◌, ◌++◌, arith, ℤ, ok, spins,
  length,
}
use public_conc_exp.FcQueue.{Ptr, null, node, Heap, FcQueueStruct, size_from}

-- From `p` along `next` to `q`, by nodes that hold `v ∷ vs`. What stands in `next` of the node at
-- `q` is left open.
abbrev pub IsPath : Heap → Ptr → ℤ → List ℤ → Ptr → Type 0
IsPath h p v [] q = (p ≡ q) × (p ≢ null) × ((n : Ptr) × (h p ≡ some (node v n)))
IsPath h p v (w ∷ vs) q =
    (p ≢ q) × (p ≢ null) × ((n : Ptr) × (h p ≡ some (node v n)) × IsPath h n w vs q)

abbrev pub IsHolding : FcQueueStruct → List ℤ → Type 0
IsHolding s [] = (s.first ≡ null) × (s.last ≡ null)
IsHolding s (v ∷ vs) = IsPath s.heap s.first v vs s.last

pub path_last :
    (h : Heap) (p : Ptr) (v : ℤ) (vs : List ℤ) (q : Ptr)
    → IsPath h p v vs q
    → (q ≢ null) × ((u : ℤ) × (n : Ptr) × (h q ≡ some (node u n)))
path_last h p v [] q (e, ne, (n, here)) = (ground (arith), (v, n, ground (arith)))
path_last h p v (w ∷ vs) q (ne, nn, (n, here, rest)) = path_last h n w vs q rest

-- The memory `g` has, against `h`, a new node at `n`, to which the node at `q` now leads.
pub IsPath-grown :
    (h g : Heap) (q n : Ptr) (x : ℤ)
    → ((a : Ptr) → a ≢ q → a ≢ n → g a ≡ h a)
    → ((u : ℤ) (c : Ptr) → h q ≡ some (node u c) → g q ≡ some (node u n))
    → g n ≡ some (node x null)
    → h n ≡ none
    → n ≢ null
    → (p : Ptr) (v : ℤ) (vs : List ℤ) → IsPath h p v vs q
    → IsPath g p v (vs ++ x ∷ []) n
IsPath-grown h g q n x same led new_ free nn p v [] (e, ne, (c, here)) =
    (ground (arith), ne, (n, ground (arith, led v c), (refl, nn, (null, new_))))
IsPath-grown h g q n x same led new_ free nn p v (w ∷ vs) (ne, np, (c, here, rest)) = (
  ground (arith),
  np,
  (c, ground (arith, same p), IsPath-grown h g q n x same led new_ free nn c w vs rest),
)

-- With one round more than there are nodes `size` counts a path that ends in null.
pub size_from-path :
    (h : Heap) (fuel count : ℕ) (p : Ptr) (v : ℤ) (vs : List ℤ) (q : Ptr)
    → IsPath h p v vs q
    → ((u : ℤ) × (h q ≡ some (node u null)))
    → length vs + 1 < fuel
    → size_from fuel h count p ≡ ok (count + (length vs + 1))
unfolding size_from
size_from-path h zero count p v vs q path end enough = absurd (omega arith)
size_from-path h (suc zero) count p v vs q path end enough = absurd (omega arith)
size_from-path h (suc (suc fuel)) count p v [] q (e, ne, (n, here)) (u, end) enough = ground arith
size_from-path h (suc fuel) count p v (w ∷ vs) q (e, ne, (n, here, rest)) end enough =
    ground (arith, size_from-path h fuel (count + 1) n w vs q rest end)

-- It never ends on a node that leads to itself.
pub size_from-loop :
    (h : Heap) (fuel count : ℕ) (p : Ptr) (v : ℤ)
    → p ≢ null
    → h p ≡ some (node v p)
    → size_from fuel h count p ≡ spins
unfolding size_from
size_from-loop h zero count p v ne here = refl
size_from-loop h (suc fuel) count p v ne here =
    ground (arith, size_from-loop h fuel (count + 1) p v ne here)

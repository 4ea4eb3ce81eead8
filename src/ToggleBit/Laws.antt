-- ===== src/ToggleBit/Laws.antt =====
-- What the loops over the bits compute.
use public_conc_exp.Common.{
  ℕ, zero, suc, ◌+◌, ◌<◌, ◌≡◌, refl, subst, sym, ap, ◌∙◌, Bool, true, false, not, some, List, [],
  ◌∷◌, arith, ℤ, pos, minus_one, ok, get_elem?, set, length, if◌then◌else◌, length-set,
}
use public_conc_exp.ToggleBit.{
  ToggleBit, toggle, find_first_loop, find_first, differs, find_active_loop, find_active,
}

-- The places, from `i` on, at which two lists differ.
abbrev pub differences : ℕ → List Bool → List Bool → List ℕ
differences i [] bits = []
differences i (c ∷ cs) [] = []
differences i (c ∷ cs) (b ∷ bs) =
    let rest = differences (i + 1) cs bs in if differs c b then i ∷ rest else rest

shift :
    (bits : List Bool) (i : ℕ) (b : Bool) (bs : List Bool)
    → ((k : ℕ) → get_elem? bits (i + k) ≡ get_elem? (b ∷ bs) k)
    → (k : ℕ) → get_elem? bits (i + 1 + k) ≡ get_elem? bs k
shift bits i b bs at_i k = ap (get_elem? bits) {y = i + suc k} (omega arith) ∙ at_i (suc k)

start :
    (bits : List Bool) (i : ℕ) (b : Bool) (bs : List Bool)
    → ((k : ℕ) → get_elem? bits (i + k) ≡ get_elem? (b ∷ bs) k)
    → get_elem? bits i ≡ some b
start bits i b bs at_i = ap (get_elem? bits) {y = i + 0} (omega arith) ∙ at_i 0

find_active_loop_lem :
    (i : ℕ) (cur bits cs bs : List Bool)
    → ((k : ℕ) → get_elem? cur (i + k) ≡ get_elem? cs k)
    → ((k : ℕ) → get_elem? bits (i + k) ≡ get_elem? bs k)
    → length cs ≡ length bs
    → find_active_loop (length bs) i cur bits ≡ ok (differences i cs bs)
unfolding find_active_loop
find_active_loop_lem i cur bits [] [] at_c at_b same = refl
find_active_loop_lem i cur bits [] (b ∷ bs) at_c at_b same = absurd (omega arith)
find_active_loop_lem i cur bits (c ∷ cs) [] at_c at_b same = absurd (omega arith)
find_active_loop_lem i cur bits (c ∷ cs) (b ∷ bs) at_c at_b same = ground (
  arith,
  start cur i c cs at_c,
  start bits i b bs at_b,
  find_active_loop_lem (i + 1) cur bits cs bs (shift cur i c cs at_c) (shift bits i b bs at_b)
      (omega arith),
)

differences-same : (i : ℕ) (bs : List Bool) → differences i bs bs ≡ []
differences-same i [] = refl
differences-same i (true ∷ bs) = differences-same (i + 1) bs
differences-same i (false ∷ bs) = differences-same (i + 1) bs

differences-set :
    (i j : ℕ) (bs : List Bool) (b : Bool)
    → get_elem? bs j ≡ some b
    → differences i bs (set bs j (not b)) ≡ (i + j) ∷ []
differences-set i j [] b e = cc
differences-set i zero (true ∷ bs) b e = ground (arith, differences-same (i + 1) bs)
differences-set i zero (false ∷ bs) b e = ground (arith, differences-same (i + 1) bs)
differences-set i (suc j) (true ∷ bs) b e =
    differences-set (i + 1) j bs b e ∙ ap (λ k. k ∷ []) (omega arith)
differences-set i (suc j) (false ∷ bs) b e =
    differences-set (i + 1) j bs b e ∙ ap (λ k. k ∷ []) (omega arith)

-- A well-formed state has one bit for each thread.
abbrev pub IsSized : ToggleBit → Type 0
IsSized s = length s.bool_array ≡ s.thread_num

from_zero : (bits : List Bool) (k : ℕ) → get_elem? bits (0 + k) ≡ get_elem? bits k
from_zero bits k = ap (get_elem? bits) {y = k} (omega arith)

get_elem?-some :
    (bits : List Bool) (i : ℕ) → i < length bits → (b : Bool) × (get_elem? bits i ≡ some b)
get_elem?-some [] i lt = absurd (omega arith)
get_elem?-some (b ∷ bs) zero lt = (b, refl)
get_elem?-some (b ∷ bs) (suc i) lt = get_elem?-some bs i (omega arith)

set-restores :
    (bits : List Bool) (i : ℕ) (b c : Bool)
    → get_elem? bits i ≡ some b
    → get_elem? (set bits i (not b)) i ≡ some c
    → set (set bits i (not b)) i (not c) ≡ bits
set-restores [] i b c e f = refl
set-restores (x ∷ bs) zero true c e f = ground arith
set-restores (x ∷ bs) zero false c e f = ground arith
set-restores (x ∷ bs) (suc i) b c e f = ap (λ r. x ∷ r) (set-restores bs i b c e f)

find_active_lem :
    (s : ToggleBit) (cur : List Bool)
    → IsSized s
    → length cur ≡ s.thread_num
    → find_active cur s ≡ ok (differences 0 cur s.bool_array)
unfolding find_active
find_active_lem s cur sized same =
    subst (λ n. find_active_loop n 0 cur s.bool_array ≡ ok (differences 0 cur s.bool_array)) sized
      (find_active_loop_lem 0 cur s.bool_array cur s.bool_array (from_zero cur)
        (from_zero s.bool_array) (same ∙ sym sized))

toggle_lem :
    (s : ToggleBit) (i : ℕ)
    → IsSized s
    → i < s.thread_num
    → (b : Bool) × (get_elem? s.bool_array i ≡ some b)
      × (toggle i s ≡ ok (record s { bool_array = set s.bool_array i (not b) }))
unfolding toggle
toggle_lem s i sized lt =
    let (b, here) = get_elem?-some s.bool_array i (omega (arith, sized, lt)) in
    (b, here, ground (arith, here))

-- A thread that toggles its bit is the only one that `findActive` finds against a copy from before,
-- and toggling it again restores the bits.
pub toggle-find_active :
    (s : ToggleBit) (i : ℕ)
    → IsSized s
    → i < s.thread_num
    → (t : ToggleBit) × (toggle i s ≡ ok t)
      × (find_active s.bool_array t ≡ ok (i ∷ []))
      × (find_active s.bool_array s ≡ ok [])
      × (toggle i t ≡ ok s)
toggle-find_active s i sized lt =
    let (b, here, toggled) = toggle_lem s i sized lt in
    let t = record s { bool_array = set s.bool_array i (not b) } in
    let still = length-set s.bool_array i (not b) ∙ sized in
    let (c, there, again) = toggle_lem t i still lt in
    (
      t,
      toggled,
      find_active_lem t s.bool_array still sized
          ∙ ap ok (differences-set 0 i s.bool_array b here ∙ ap (λ k. k ∷ []) (omega arith)),
      find_active_lem s s.bool_array sized sized ∙ ap ok (differences-same 0 s.bool_array),
      again
          ∙ ap (λ bits. ok (record s { bool_array = bits }))
              (set-restores s.bool_array i b c here there),
    )

-- A copy of the bits from before any was set.
abbrev pub all_false : List Bool → List Bool
all_false [] = []
all_false (b ∷ bs) = false ∷ all_false bs

length-all_false : (bs : List Bool) → length (all_false bs) ≡ length bs
length-all_false [] = refl
length-all_false (b ∷ bs) = ap suc (length-all_false bs)

abbrev pub first_of : List ℕ → ℤ
first_of [] = minus_one
first_of (j ∷ js) = pos j

find_first_loop_lem :
    (i : ℕ) (bits bs : List Bool)
    → ((k : ℕ) → get_elem? bits (i + k) ≡ get_elem? bs k)
    → find_first_loop (length bs) i bits ≡ ok (first_of (differences i (all_false bs) bs))
unfolding find_first_loop
find_first_loop_lem i bits [] at_b = refl
find_first_loop_lem i bits (true ∷ bs) at_b = ground (arith, start bits i true bs at_b)
find_first_loop_lem i bits (false ∷ bs) at_b = ground (
  arith,
  start bits i false bs at_b,
  find_first_loop_lem (i + 1) bits bs (shift bits i false bs at_b),
)

-- `findFirst` returns the first index that `findActive` lists against a copy with no bit set, and
-- -1 if it lists none.
pub find_first-find_active :
    (s : ToggleBit)
    → IsSized s
    → (active : List ℕ) × (find_active (all_false s.bool_array) s ≡ ok active)
      × (find_first s ≡ ok (first_of active))
unfolding find_first
find_first-find_active s sized =
    let active = differences 0 (all_false s.bool_array) s.bool_array in
    (
      active,
      find_active_lem s (all_false s.bool_array) sized (length-all_false s.bool_array ∙ sized),
      subst (λ n. find_first_loop n 0 s.bool_array ≡ ok (first_of active)) sized
          (find_first_loop_lem 0 s.bool_array s.bool_array (from_zero s.bool_array)),
    )

-- ===== src/FcStack/Combine.antt =====
-- What one call of `apply_op` does to the stack and to the requests of all threads.
use public_conc_exp.Common.{
  ℕ, zero, suc, ◌≡◌, refl, ◌∙◌, Bool, true, false, not, ◌||◌, ◌&&◌, Bool-cases, inl, inr, subst,
  List, [], ◌∷◌, arith, ℤ, ◌==◌, if◌then◌else◌, ok, ap,
}
use public_conc_exp.FcStack.{
  FcRequest, FcStruct, update, serial_push_pop, serve_entry, combine_pass, combine_rounds, cleanup,
  announce, join, apply_op,
}

abbrev pub has_pid : ℕ → List ℕ → Bool
has_pid p [] = false
has_pid p (q ∷ qs) = (p == q) || has_pid p qs

abbrev pub IsDistinct : List ℕ → Type 0
IsDistinct [] = Unit
IsDistinct (p ∷ ps) = (has_pid p ps ≡ false) × IsDistinct ps

-- How many of the listed threads have a request pending.
abbrev pub waiting : (ℕ → FcRequest) → List ℕ → ℕ
waiting nodes [] = 0
waiting nodes (p ∷ ps) = if (nodes p).pending then suc (waiting nodes ps) else waiting nodes ps

-- The serial operation, so many times.
unfoldable pub repeat : ℕ → ℤ → List ℤ → List ℤ
repeat zero value top = top
repeat (suc n) value top = repeat n value (serial_push_pop value top).0

waiting-update :
    (nodes : ℕ → FcRequest) (p : ℕ) (r : FcRequest) (ps : List ℕ)
    → has_pid p ps ≡ false
    → waiting (update nodes p r) ps ≡ waiting nodes ps
waiting-update nodes p r [] h = refl
waiting-update nodes p r (q ∷ ps) h = ground (arith, waiting-update nodes p r ps)

pub serve_entry_top :
    (value : ℤ) (p : ℕ) (s : FcStruct)
    → (s.nodes p).pending ≡ true
    → (serve_entry value p s).top ≡ (serial_push_pop value s.top).0
unfolding serve_entry
serve_entry_top value p s e = rw e

serve_entry_skip :
    (value : ℤ) (p : ℕ) (s : FcStruct) → (s.nodes p).pending ≡ false → serve_entry value p s ≡ s
unfolding serve_entry
serve_entry_skip value p s e = rw e

pub serve_entry_value :
    (value : ℤ) (p : ℕ) (s : FcStruct)
    → (s.nodes p).pending ≡ true
    → ((serve_entry value p s).nodes p).value ≡ (serial_push_pop value s.top).1
unfolding serve_entry
serve_entry_value value p s e = rw e (ground arith)

waiting-serve_entry :
    (value : ℤ) (p : ℕ) (ps : List ℕ) (s : FcStruct)
    → (s.nodes p).pending ≡ true
    → has_pid p ps ≡ false
    → waiting (serve_entry value p s).nodes ps ≡ waiting s.nodes ps
unfolding serve_entry
waiting-serve_entry value p ps s e h = rw e (waiting-update s.nodes p _ ps h)

pub combine_pass-top :
    (value : ℤ) (ps : List ℕ) (s : FcStruct)
    → IsDistinct ps
    → (combine_pass value ps s).top ≡ repeat (waiting s.nodes ps) value s.top
unfolding combine_pass repeat
combine_pass-top value [] s d = refl
combine_pass-top value (p ∷ ps) s d = elim (Bool-cases (s.nodes p).pending) [
  | inl e ↦ rw e (
      combine_pass-top value ps (serve_entry value p s) d.1
      ∙ rw (serve_entry_top value p s e, waiting-serve_entry value p ps s e d.0))
  | inr e ↦
      ap (λ t. (combine_pass value ps t).top) (serve_entry_skip value p s e)
      ∙ combine_pass-top value ps s d.1
      ∙ rw e
]

-- After a pass no listed request is pending; the others are as they were.
pub combine_pass-pending :
    (value : ℤ) (ps : List ℕ) (s : FcStruct) (q : ℕ)
    → ((combine_pass value ps s).nodes q).pending ≡ (not (has_pid q ps) && (s.nodes q).pending)
unfolding combine_pass serve_entry
combine_pass-pending value [] s q = refl
combine_pass-pending value (p ∷ ps) s q =
    ground (arith, combine_pass-pending value ps (serve_entry value p s) q)

pub combine_pass_kept :
    (value : ℤ) (ps : List ℕ) (s : FcStruct)
    → ((combine_pass value ps s).head ≡ s.head)
      × ((combine_pass value ps s).count ≡ s.count)
      × ((combine_pass value ps s).lock ≡ s.lock)
      × ((q : ℕ) → ((combine_pass value ps s).nodes q).active ≡ (s.nodes q).active)
unfolding combine_pass serve_entry
combine_pass_kept value [] s = (refl, refl, refl, λ q. refl)
combine_pass_kept value (p ∷ ps) s =
    let ih = combine_pass_kept value ps (serve_entry value p s) in
    (ground (arith, ih.0), ground (arith, ih.1), ground (arith, ih.2), λ q. ground (arith, ih.3 q))

-- A pass over requests of which none is pending does nothing.
idle_pass :
    (value : ℤ) (ps : List ℕ) (s : FcStruct)
    → ((q : ℕ) → has_pid q ps ≡ true → (s.nodes q).pending ≡ false)
    → combine_pass value ps s ≡ s
unfolding combine_pass
idle_pass value [] s quiet = refl
idle_pass value (p ∷ ps) s quiet =
    rw (serve_entry_skip value p s (quiet p (ground arith)))
      (idle_pass value ps s λ q h. quiet q (ground arith))

-- A pass in which only one listed request is pending serves that one.
pub combine_alone :
    (value : ℤ) (p : ℕ) (ps : List ℕ) (s : FcStruct)
    → has_pid p ps ≡ true
    → ((q : ℕ) → (s.nodes q).pending ≡ (q == p))
    → combine_pass value ps s ≡ serve_entry value p s
unfolding combine_pass
combine_alone value p [] s h only = cc
combine_alone value p (q ∷ ps) s h only = elim (Bool-cases (q == p)) [
  | inl e ↦
      let same : q ≡ p = ground arith in
      rw same (
        idle_pass value ps (serve_entry value p s)
          λ r i. unfold serve_entry in ground (arith, only r, only p))
  | inr e ↦
      rw (serve_entry_skip value q s (only q ∙ e)) (combine_alone value p ps s (ground arith) only)
]

-- The first of the combining rounds does all the work.
pub combine_rounds_lem :
    (n : ℕ) (value : ℤ) (s : FcStruct)
    → combine_rounds (suc n) value s ≡ combine_pass value s.head s
unfolding combine_rounds
combine_rounds_lem n value s = more n (combine_pass value s.head s) quiet
  where
    quiet :
        (q : ℕ)
        → has_pid q (combine_pass value s.head s).head ≡ true
        → ((combine_pass value s.head s).nodes q).pending ≡ false
    quiet q h =
        let here : has_pid q s.head ≡ true =
          subst (λ l. has_pid q l ≡ true) (combine_pass_kept value s.head s).0 h in
        combine_pass-pending value s.head s q ∙ rw here

    more :
        (k : ℕ) (t : FcStruct)
        → ((q : ℕ) → has_pid q t.head ≡ true → (t.nodes q).pending ≡ false)
        → combine_rounds k value t ≡ t
    more zero t h = refl
    more (suc k) t h = rw (idle_pass value t.head t h) (more k t h)

-- The requests as the combiner finds them: its own announced, and on the list.
abbrev pub gathered : ℕ → ℤ → FcStruct → FcStruct
gathered pid value s = record (join pid (record (announce pid value s) { lock = 1 })) { count = 1 }

-- The clean-up never runs: the count is 1 in every call.
cleanup_skip : (s : FcStruct) → s.count ≡ 1 → cleanup s ≡ ok s
unfolding cleanup
cleanup_skip s e = ground arith

pub apply_op-pass :
    (pid : ℕ) (value : ℤ) (s : FcStruct)
    → let t = combine_pass value (gathered pid value s).head (gathered pid value s) in
      apply_op pid value s ≡ ok (record t { lock = 0 }, (t.nodes pid).value)
unfolding apply_op
apply_op-pass pid value s =
    let g = gathered pid value s in
    let counted = (combine_pass_kept value g.head g).1 in
    rw (combine_rounds_lem 2 value g, cleanup_skip (combine_pass value g.head g) counted)

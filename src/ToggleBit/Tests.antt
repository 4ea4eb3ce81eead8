-- ===== src/ToggleBit/Tests.antt =====
-- The bits of three threads.
use public_conc_exp.Common.{ℕ, ◌≡◌, refl, true, false, List, [], ◌∷◌, ok, arith}
use public_conc_exp.ToggleBit.{ToggleBit, toggle, reset_all, find_first, find_active}
use public_conc_exp.ToggleBit.Laws.{first_of, all_false, toggle-find_active, find_first-find_active}

abbrev three : ToggleBit
three = record { bool_array = false ∷ true ∷ false ∷ []; thread_num = 3 }

toggle-find_active_example :
    (t : ToggleBit) × (toggle 2 three ≡ ok t)
    × (find_active three.bool_array t ≡ ok (2 ∷ []))
    × (find_active three.bool_array three ≡ ok [])
    × (toggle 2 t ≡ ok three)
toggle-find_active_example = toggle-find_active three 2 refl (ground arith)

find_first_run :
    (active : List ℕ) × (find_active (all_false three.bool_array) three ≡ ok active)
    × (find_first three ≡ ok (first_of active))
find_first_run = find_first-find_active three refl

reset_three :
    reset_all three ≡ ok (record { bool_array = false ∷ false ∷ false ∷ []; thread_num = 3 })
unfolding reset_all
reset_three = refl

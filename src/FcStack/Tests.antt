-- ===== src/FcStack/Tests.antt =====
-- The flat-combining stack on small inputs.
use public_conc_exp.Common.{ℕ, ◌≡◌, refl, true, false, List, [], ◌∷◌, arith, ℤ, pos, ok}
use public_conc_exp.Spec.Requests.{Request, add, remove, stack_step, serve}
use public_conc_exp.FcStack.{FcRequest, FcStruct, update, new_struct, announce, join, apply_op}
use public_conc_exp.FcStack.Combine.{has_pid, IsDistinct, waiting, repeat, gathered}
use public_conc_exp.FcStack.Uses.{
  IsQuiet, turns, asked, new_struct-IsQuiet, turns-serve, apply_op_crowd,
}

abbrev zeroed : FcRequest
zeroed = record { value = pos 0; age = 0; active = false; pending = false }

abbrev traffic : List (ℕ × Request)
traffic = (0, add (pos 3)) ∷ (1, add (pos 4)) ∷ (0, remove) ∷ []

turns-serve_example :
    (u : FcStruct) × (turns traffic (new_struct zeroed)
      ≡ ok (u, (serve stack_step (asked traffic) []).1))
    × (u.top ≡ (serve stack_step (asked traffic) []).0)
    × IsQuiet u
turns-serve_example =
    turns-serve traffic (new_struct zeroed) (omega arith) (new_struct-IsQuiet zeroed refl)

-- Thread 1 waits with a push of 7.
abbrev waiting_push : FcStruct
waiting_push = record {
  head = 1 ∷ [];
  lock = 0;
  nodes = update (λ _. zeroed) 1 (record { value = pos 7; age = 0; active = true; pending = true });
  count = 1;
  top = [];
}

-- Thread 0 pushes 5: the stack gets 5 twice, and 7 never.
crowd_of_two : (gathered 0 (pos 5) waiting_push).head ≡ 0 ∷ 1 ∷ []
unfolding announce join
crowd_of_two = refl

crowd-IsDistinct : IsDistinct (gathered 0 (pos 5) waiting_push).head
unfolding announce join
crowd-IsDistinct = (refl, (refl, tt))

apply_op_crowd_example :
    (t : FcStruct) × (answer : ℤ) × (apply_op 0 (pos 5) waiting_push ≡ ok (t, answer))
    × (t.top
        ≡ repeat
            (waiting (gathered 0 (pos 5) waiting_push).nodes (gathered 0 (pos 5) waiting_push).head)
            (pos 5)
            [])
    × ((q : ℕ)
        → has_pid q (gathered 0 (pos 5) waiting_push).head ≡ true
        → (t.nodes q).pending ≡ false)
apply_op_crowd_example = apply_op_crowd 0 (pos 5) waiting_push crowd-IsDistinct

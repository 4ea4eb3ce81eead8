-- ===== src/LockStack/Tests.antt =====
-- The stack under one lock on small inputs.
use public_conc_exp.Common.{◌≡◌, refl, true, List, [], ◌∷◌, pos, ok}
use public_conc_exp.Spec.Requests.{Request, add, remove, stack_step, serve}
use public_conc_exp.LockStack.{unlocked, push}
use public_conc_exp.LockStack.Laws.{requests, push-pop-serve}

abbrev traffic : List Request
traffic = remove ∷ add (pos 3) ∷ add (pos 4) ∷ remove ∷ []

push-pop-serve_example :
    requests traffic (unlocked [])
    ≡ ok (unlocked (serve stack_step traffic []).0, (serve stack_step traffic []).1)
push-pop-serve_example = push-pop-serve traffic []

-- A first `push` into memory that is not zeroed.
push_junk : push (pos 8 ∷ []) (pos 3) (unlocked []) ≡ ok (unlocked (pos 3 ∷ pos 8 ∷ []), true)
unfolding push
push_junk = refl

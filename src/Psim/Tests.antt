-- ===== src/Psim/Tests.antt =====
-- Psim over the sequential stack, with two threads.
use public_conc_exp.Common.{ℕ, ◌≡◌, refl, List, [], ◌∷◌, pos, minus_one, map, arith}
use public_conc_exp.Spec.Requests.{Request, add, remove, stack_step, serve}
use public_conc_exp.SeqStack.{Sll, insert, remove as remove_sll, copy}
use public_conc_exp.SeqStack.Contents.{copy_lem}
use public_conc_exp.Psim as Psim
use public_conc_exp.Psim.{Psim as State, current, new, announce, attempt, psim_apply_op}
use public_conc_exp.Psim.Waiting as Waiting
use public_conc_exp.Psim.Attempt.{Attempted, attempt-Attempted}
use public_conc_exp.Psim.Alone.{Calls, apply_all, apply_all-serve}
use public_conc_exp.Psim.Stack.{make_pointers, call, code, ByThreads, psim_stack}

abbrev empty : State Sll
empty = new [] 2

abbrev insert_5 : Psim.Request
insert_5 = (call (0, add (pos 5))).1

abbrev insert_7 : Psim.Request
insert_7 = (call (0, add (pos 7))).1

-- Both threads have announced an insertion, and none has made one.
abbrev two_waiting : State Sll
two_waiting = announce make_pointers (announce make_pointers empty insert_5 0) insert_7 1

two_made : (current (attempt make_pointers two_waiting 1)).object ≡ pos 7 ∷ pos 5 ∷ []
unfolding new announce attempt insert copy
two_made = refl

attempt-Attempted_example :
    Attempted make_pointers two_waiting (attempt make_pointers two_waiting 1)
attempt-Attempted_example = attempt-Attempted make_pointers copy_lem two_waiting 1

abbrev calls : List (ℕ × Request)
calls = (1, add (pos 5)) ∷ (0, remove) ∷ (1, remove) ∷ (0, add (pos 7)) ∷ []

calls-ByThreads : ByThreads 2 calls
calls-ByThreads = (omega arith, (omega arith, (omega arith, (omega arith, tt))))

psim_stack_example :
    let (q, replies) = apply_all make_pointers (map call calls) (new [] 2) in
    let (contents, expected) = serve stack_step (map (λ c. c.1) calls) [] in
    ((current q).object ≡ contents) × (map (λ r. r.1) replies ≡ map code expected)
psim_stack_example = psim_stack 2 calls calls-ByThreads

made : Calls 2 (map call calls)
made = (omega arith, tt, (omega arith, tt, (omega arith, tt, (omega arith, tt, tt))))

apply_all-serve_example :
    let (q, replies) = apply_all make_pointers (map call calls) (new [] 2) in
    ((current q).object, replies) ≡ Waiting.serve make_pointers (map call calls) []
apply_all-serve_example = apply_all-serve make_pointers copy_lem [] 2 (map call calls) made

-- Thread 1 announces a removal; thread 0 makes it together with its own insertion of 5, and the 5 is
-- removed for thread 1. Thread 1 then finds nothing to do, makes its own state current, and reads the
-- -1 that this holds.
abbrev seven : State Sll
seven = new (pos 7 ∷ []) 2

abbrev take_one : Psim.Request
take_one = (call (1, remove)).1

abbrev helped : State Sll
helped = (psim_apply_op make_pointers (announce make_pointers seven take_one 1) insert_5 0).0

helped_reply :
    ((current helped).rvals 1 ≡ pos 5)
    × ((current (attempt make_pointers helped 1)).rvals 1 ≡ minus_one)
    × ((current (attempt make_pointers helped 1)).object ≡ pos 7 ∷ [])
unfolding psim_apply_op new announce attempt insert remove_sll copy
helped_reply = (refl, refl, refl)

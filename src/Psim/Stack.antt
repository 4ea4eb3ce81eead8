-- ===== src/Psim/Stack.antt =====
-- Psim over the sequential stack of lib/DS/Stacks/seq_stack/SLL.hpp: a stack for many threads.
use public_conc_exp.Common.{
  ℕ, ◌<◌, ◌≡◌, refl, ap, ◌∙◌, List, [], ◌∷◌, map, ℤ, pos, minus_one, if◌then◌else◌,
}
use public_conc_exp.Spec.Requests.{Request, add, remove, Reply, done, got, stack_step, serve}
use public_conc_exp.SeqStack as SeqStack
use public_conc_exp.SeqStack.{Sll}
use public_conc_exp.SeqStack.Contents.{copy_lem}
use public_conc_exp.Psim as Psim
use public_conc_exp.Psim.{FuncArray, add_type, remove_type, current, new}
use public_conc_exp.Psim.Waiting as Waiting
use public_conc_exp.Psim.Alone.{Calls, apply_all, apply_all-serve}

-- `make_pointers` on a stack.
abbrev pub make_pointers : FuncArray Sll
make_pointers = record {
  add = λ item s. SeqStack.insert item s;
  remove = λ s. SeqStack.remove s;
  copy = λ s. SeqStack.copy s;
}

abbrev pub call : ℕ × Request → ℕ × Psim.Request
call (pid, add v) = (pid, record { func = add_type; args = v })
call (pid, remove) = (pid, record { func = remove_type; args = minus_one })

-- The `int` that stands for a reply.
abbrev pub code : Reply → ℤ
code (done b) = if b then pos 1 else pos 0
code (got v) = v

-- Every call is by a thread below `n`.
abbrev pub ByThreads : ℕ → List (ℕ × Request) → Type 0
ByThreads n [] = Unit
ByThreads n ((pid, r) ∷ calls) = (pid < n) × ByThreads n calls

call-Calls : (n : ℕ) (calls : List (ℕ × Request)) → ByThreads n calls → Calls n (map call calls)
call-Calls n [] h = tt
call-Calls n ((pid, add v) ∷ calls) (lt, h) = (lt, tt, call-Calls n calls h)
call-Calls n ((pid, remove) ∷ calls) (lt, h) = (lt, tt, call-Calls n calls h)

abbrev Agree : Sll × List (ℕ × ℤ) → Sll × List Reply → Type 0
Agree (s, replies) (t, expected) = (s ≡ t) × (map (λ r. r.1) replies ≡ map code expected)

serve_stack :
    (calls : List (ℕ × Request)) (s : Sll)
    → Agree
        (Waiting.serve make_pointers (map call calls) s)
        (serve stack_step (map (λ c. c.1) calls) s)
unfolding Waiting.serve serve stack_step SeqStack.insert SeqStack.remove
serve_stack [] s = (refl, refl)
serve_stack ((pid, add v) ∷ calls) s =
    let (e, f) = serve_stack calls (v ∷ s) in (e, ap (λ replies. pos 1 ∷ replies) f)
serve_stack ((pid, remove) ∷ calls) [] =
    let (e, f) = serve_stack calls [] in (e, ap (λ replies. minus_one ∷ replies) f)
serve_stack ((pid, remove) ∷ calls) (x ∷ s) =
    let (e, f) = serve_stack calls s in (e, ap (λ replies. x ∷ replies) f)

-- The construction over an empty sequential stack, called by any threads one after the other, holds
-- the contents and gives the replies of a stack.
pub psim_stack :
    (nthreads : ℕ) (calls : List (ℕ × Request))
    → ByThreads nthreads calls
    → let (q, replies) = apply_all make_pointers (map call calls) (new [] nthreads) in
      let (contents, expected) = serve stack_step (map (λ c. c.1) calls) [] in
      ((current q).object ≡ contents) × (map (λ r. r.1) replies ≡ map code expected)
psim_stack nthreads calls h =
    let e =
      apply_all-serve make_pointers copy_lem [] nthreads (map call calls)
        (call-Calls nthreads calls h) in
    let (s, f) = serve_stack calls [] in (ap (λ w. w.0) e ∙ s, ap (λ w. map (λ r. r.1) w.1) e ∙ f)

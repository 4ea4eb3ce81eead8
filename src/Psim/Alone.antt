-- ===== src/Psim/Alone.antt =====
-- `PsimApplyOp`, each call run to its end before the next: any threads in any order. `contains` is
-- what a client sees of a construction in which no request waits.
use public_conc_exp.Common.{
  update, ℕ, zero, suc, ◌<◌, ◌≡◌, refl, sym, ap, ◌∙◌, subst, Bool, true, false, not, inl, inr,
  Bool-cases, List, [], ◌∷◌, arith, ℤ, ◌==◌,
}
use public_conc_exp.Psim.{
  FuncType, add_type, remove_type, none_type, FuncArray, Request, Psim, new, differ, current,
  attempt, announce, psim_apply_op,
}
use public_conc_exp.Psim.Waiting.{waiting, Replied, with_reply, with_reply-append, serve_one, serve}
use public_conc_exp.Psim.Attempt.{Attempted, attempt-Attempted}

-- A request that is not the `None` of the constructor.
abbrev IsMade : FuncType → Type 0
IsMade none_type = ⊥
IsMade _ = Unit

-- Every call is by a thread below `n` and makes a request.
abbrev pub Calls : ℕ → List (ℕ × Request) → Type 0
Calls n [] = Unit
Calls n ((pid, r) ∷ calls) = (pid < n) × IsMade r.func × Calls n calls

waiting-none :
    (n : ℕ) (announced : ℕ → Request) (t a : ℕ → Bool)
    → ((i : ℕ) → i < n → t i ≡ a i)
    → waiting n announced t a ≡ []
unfolding waiting
waiting-none zero announced t a h = refl
waiting-none (suc n) announced t a h =
    ground (arith, h n, waiting-none n announced t a (λ i lt. h i (omega arith)))

differ-not : (b : Bool) → differ (not b) b ≡ true
differ-not true = refl
differ-not false = refl

-- Where no request waits, the one that a thread announces is all that waits then.
waiting-update :
    (n : ℕ) (announced : ℕ → Request) (t a : ℕ → Bool) (pid : ℕ) (r : Request)
    → ((i : ℕ) → i < n → t i ≡ a i)
    → pid < n
    → waiting n (update announced pid r) (update t pid (not (t pid))) a ≡ (pid, r) ∷ []
unfolding waiting
waiting-update zero announced t a pid r h lt = absurd (omega arith)
waiting-update (suc n) announced t a pid r h lt = elim (Bool-cases (pid == n)) [
  | inl e ↦
      let below =
        waiting-none n (update announced pid r) (update t pid (not (t pid))) a
          (λ i lt'. ground (arith, h i)) in
      rw below (ground (arith, h n, differ-not (t n)))
  | inr e ↦
      ground (
        arith,
        h n,
        waiting-update n announced t a pid r (λ i lt'. h i (omega arith)) (ground arith),
      )
]

module _ {S : Type 0} (funcs : FuncArray S) where
  one_reply :
      (rvals : ℕ → ℤ) (n pid : ℕ) (func : FuncType) (args : ℤ) (s : S)
      → IsMade func
      → Replied rvals n (with_reply pid (serve_one funcs func args s).1 [])
      → (pid, rvals pid) ∷ [] ≡ with_reply pid (serve_one funcs func args s).1 []
  unfolding serve_one with_reply
  one_reply rvals n pid none_type args s made h = absurd made
  one_reply rvals n pid add_type args s made (lt, e, h) = rw e
  one_reply rvals n pid remove_type args s made (lt, e, h) = rw e

  -- The calls one after the other, each with its reply.
  unfoldable pub apply_all : List (ℕ × Request) → Psim S → Psim S × List (ℕ × ℤ)
  apply_all [] p = (p, [])
  apply_all ((pid, r) ∷ calls) p =
      let (q, v) = psim_apply_op funcs p r pid in
      let (end, replies) = apply_all calls q in (end, (pid, v) ∷ replies)

  -- No request waits.
  abbrev pub Quiet : Psim S → Type 0
  Quiet p = (i : ℕ) → i < p.nthreads → p.toggles i ≡ (current p).applied i

  -- What one call does.
  record Called (p q : Psim S) (pid : ℕ) (r : Request) (v : ℤ) : Type 0 where
    same_nthreads : q.nthreads ≡ p.nthreads
    quiet : Quiet q
    object : (current q).object ≡ (serve funcs ((pid, r) ∷ []) (current p).object).0
    reply : (pid, v) ∷ [] ≡ (serve funcs ((pid, r) ∷ []) (current p).object).1

  Attempted-Called :
      (p q : Psim S) (pid : ℕ) (r : Request)
      → Quiet p
      → pid < p.nthreads
      → IsMade r.func
      → Attempted funcs (announce funcs p r pid) q
      → Called p q pid r ((current q).rvals pid)
  unfolding announce serve
  Attempted-Called p q pid r quiet lt made a =
      let one =
        waiting-update p.nthreads p.announce_array p.toggles (current p).applied pid r quiet lt in
      record {
        same_nthreads = a.same_nthreads;
        quiet =
            λ i lt'. rw a.same_toggles (sym (a.applied i (subst (λ n. i < n) a.same_nthreads lt')));
        object = rw one at a.object;
        reply =
            one_reply (current q).rvals p.nthreads pid r.func r.args (current p).object made
              (rw one at a.replied);
      }

  serve-cons :
      (pid : ℕ) (r : Request) (v : ℤ) (calls : List (ℕ × Request)) (s t : S)
      → t ≡ (serve funcs ((pid, r) ∷ []) s).0
      → (pid, v) ∷ [] ≡ (serve funcs ((pid, r) ∷ []) s).1
      → serve funcs ((pid, r) ∷ calls) s
        ≡ (let (u, replies) = serve funcs calls t in (u, (pid, v) ∷ replies))
  unfolding serve
  serve-cons pid r v calls s t e f =
      let (u, o) = serve_one funcs r.func r.args s in
      rw (e, with_reply-append pid o [] (serve funcs calls u).1, sym f)

  module _ (copy_same : (s : S) → funcs.copy s ≡ s) where
    psim_apply_op-Called :
        (p : Psim S) (pid : ℕ) (r : Request)
        → Quiet p
        → pid < p.nthreads
        → IsMade r.func
        → Called p (psim_apply_op funcs p r pid).0 pid r (psim_apply_op funcs p r pid).1
    unfolding psim_apply_op
    psim_apply_op-Called p pid r quiet lt made =
        Attempted-Called p (attempt funcs (announce funcs p r pid) pid) pid r quiet lt made
          (attempt-Attempted funcs copy_same (announce funcs p r pid) pid)

    apply_all-Quiet :
        (calls : List (ℕ × Request)) (p : Psim S)
        → Quiet p
        → Calls p.nthreads calls
        → let (q, replies) = apply_all calls p in
          Quiet q × (((current q).object, replies) ≡ serve funcs calls (current p).object)
    unfolding apply_all serve
    apply_all-Quiet [] p quiet made = (quiet, refl)
    apply_all-Quiet ((pid, r) ∷ calls) p quiet (lt, made, rest) =
        let c = psim_apply_op-Called p pid r quiet lt made in
        let (q, v) = psim_apply_op funcs p r pid in
        let (quiet', e) =
          apply_all-Quiet calls q c.quiet (subst (λ n. Calls n calls) (sym c.same_nthreads) rest) in
        (
          quiet',
          ap (λ w. (w.0, (pid, v) ∷ w.1)) e
              ∙ sym
                  (serve-cons pid r v calls (current p).object (current q).object c.object c.reply),
        )

    -- If `copy` yields an equal object, any threads below `nthreads` that make requests other than
    -- `None`, one call after the other, from the constructor on, leave the object and get the replies
    -- of the sequential object.
    pub apply_all-serve :
        (object : S) (nthreads : ℕ) (calls : List (ℕ × Request))
        → Calls nthreads calls
        → let (q, replies) = apply_all calls (new object nthreads) in
          ((current q).object, replies) ≡ serve funcs calls object
    unfolding new
    apply_all-serve object nthreads calls made =
        (apply_all-Quiet calls (new object nthreads) (λ i lt. refl) made).1

-- ===== src/Psim/Attempt.antt =====
-- `Psim::Attempt`: what one run of it does with the requests that wait.
use public_conc_exp.Common.{
  update, ℕ, zero, suc, ◌+◌, ◌%◌, subst, ◌<◌, ◌≡◌, refl, sym, ◌∙◌, Bool, true, false, inl, inr,
  Bool-cases, List, [], ◌++◌, arith, ℤ, ==_refl,
}
use mathlib.Core.List.{append-nil}
use public_conc_exp.Psim.{
  FuncType, add_type, remove_type, none_type, FuncArray, Request, SimStruct, Psim, differ,
  store_upto, current, my_index, perform, apply_upto, prepare, round, attempt_on, attempt,
}
use public_conc_exp.Psim.Waiting.{
  waiting, Replied, Replied-more, Replied-snoc, with_reply, serve_one, serve, serve-append,
}

-- A loop of stores has stored what it read.
store_upto_lem : (n : ℕ) (from to : ℕ → Bool) (i : ℕ) → i < n → store_upto n from to i ≡ from i
store_upto_lem zero from to i lt = absurd (omega arith)
store_upto_lem (suc n) from to i lt = ground (arith, store_upto_lem n from to i)

-- Only the flags of the threads below `n` matter.
waiting-agree :
    (n : ℕ) (announced : ℕ → Request) (t t' a a' : ℕ → Bool)
    → ((i : ℕ) → i < n → t i ≡ t' i)
    → ((i : ℕ) → i < n → a i ≡ a' i)
    → waiting n announced t a ≡ waiting n announced t' a'
unfolding waiting
waiting-agree zero announced t t' a a' ht ha = refl
waiting-agree (suc n) announced t t' a a' ht ha = rw (
  ht n (omega arith),
  ha n (omega arith),
  waiting-agree n announced t t' a a' (λ i lt. ht i (omega arith)) (λ i lt. ha i (omega arith)),
)

module _ {S : Type 0} (funcs : FuncArray S) where
  perform-applied :
      (i : ℕ) (func : FuncType) (args : ℤ) (c : SimStruct S)
      → (perform funcs i func args c).applied ≡ c.applied
  unfolding perform
  perform-applied i none_type args c = refl
  perform-applied i add_type args c = refl
  perform-applied i remove_type args c = refl

  perform-object :
      (i : ℕ) (func : FuncType) (args : ℤ) (c : SimStruct S)
      → (perform funcs i func args c).object ≡ (serve_one funcs func args c.object).0
  unfolding perform serve_one
  perform-object i none_type args c = refl
  perform-object i add_type args c = refl
  perform-object i remove_type args c = refl

  perform-Replied :
      (i : ℕ) (func : FuncType) (args : ℤ) (c : SimStruct S) (rs : List (ℕ × ℤ))
      → Replied c.rvals i rs
      → Replied
          (perform funcs i func args c).rvals
          (suc i)
          (rs ++ with_reply i (serve_one funcs func args c.object).1 [])
  unfolding perform serve_one with_reply
  perform-Replied i none_type args c rs h = rw (append-nil rs) (Replied-more c.rvals i rs h)
  perform-Replied i add_type args c rs h = Replied-snoc c.rvals i (funcs.add args c.object).1 rs h
  perform-Replied i remove_type args c rs h = Replied-snoc c.rvals i (funcs.remove c.object).1 rs h

  apply_upto-applied :
      (n : ℕ) (announced : ℕ → Request) (t : ℕ → Bool) (c : SimStruct S)
      → (apply_upto funcs n announced t c).applied ≡ c.applied
  unfolding apply_upto
  apply_upto-applied zero announced t c = refl
  apply_upto-applied (suc n) announced t c =
      let before = apply_upto funcs n announced t c in
      let rest = apply_upto-applied n announced t c in
      elim (Bool-cases (differ (t n) (before.applied n))) [
        | inl e ↦ rw e (perform-applied n (announced n).func (announced n).args before ∙ rest)
        | inr e ↦ rw e rest
      ]

  -- What the loop over the threads leaves.
  abbrev Served : ℕ → (ℕ → Request) → (t a : ℕ → Bool) → S → SimStruct S → Type 0
  Served n announced t a s d =
      (d.object ≡ (serve funcs (waiting n announced t a) s).0)
      × Replied d.rvals n (serve funcs (waiting n announced t a) s).1

  apply_upto-Served :
      (n : ℕ) (announced : ℕ → Request) (t : ℕ → Bool) (c : SimStruct S)
      → Served n announced t c.applied c.object (apply_upto funcs n announced t c)
  unfolding apply_upto waiting serve
  apply_upto-Served zero announced t c = (refl, tt)
  apply_upto-Served (suc n) announced t c =
      let before = apply_upto funcs n announced t c in
      let (same, replied) = apply_upto-Served n announced t c in
      let r = announced n in
      let ws = waiting n announced t c.applied in
      elim (Bool-cases (differ (t n) (before.applied n))) [
        | inl e ↦
            rw
              (
                e,
                rw (apply_upto-applied n announced t c) at e,
                serve-append funcs ws n r c.object,
                sym same,
              )
              (
                perform-object n r.func r.args before,
                perform-Replied n r.func r.args before (serve funcs ws c.object).1 replied,
              )
        | inr e ↦
            rw (e, rw (apply_upto-applied n announced t c) at e)
              (same, Replied-more before.rvals n (serve funcs ws c.object).1 replied)
      ]

  -- What a successful `attempt` of a thread leaves: the object with every waiting request made of it,
  -- in the order of the threads, their replies, and no request waiting.
  pub record Attempted (p q : Psim S) : Type 0 where
    pub object :
        (current q).object
        ≡ (serve funcs
            (waiting p.nthreads p.announce_array p.toggles (current p).applied)
            (current p).object).0
    pub replied :
        Replied
          (current q).rvals
          p.nthreads
          (serve funcs
            (waiting p.nthreads p.announce_array p.toggles (current p).applied)
            (current p).object).1
    pub applied : (i : ℕ) → i < p.nthreads → (current q).applied i ≡ p.toggles i
    pub same_toggles : q.toggles ≡ p.toggles
    pub same_nthreads : q.nthreads ≡ p.nthreads
    pub next_seq : q.seq ≡ p.seq + 1

  module _ (copy_same : (s : S) → funcs.copy s ≡ s) where
    prepare-Served :
        (p : Psim S) (pid : ℕ)
        → Served p.nthreads p.announce_array p.toggles
            (current p).applied
            (current p).object
            (prepare funcs p pid)
    unfolding prepare
    prepare-Served p pid =
        let old = current p in
        let n = p.nthreads in
        let mine = p.st (my_index p pid) in
        let local_toggles = store_upto n p.toggles (λ _. false) in
        let seen = store_upto n old.applied mine.applied in
        let c = record mine { object = funcs.copy old.object; applied = seen } in
        let served = apply_upto-Served n p.announce_array local_toggles c in
        subst (λ s. Served n p.announce_array p.toggles old.applied s (prepare funcs p pid))
          (copy_same old.object)
          (rw
            (waiting-agree n p.announce_array local_toggles p.toggles seen old.applied
              (store_upto_lem n p.toggles (λ _. false)) (store_upto_lem n old.applied mine.applied))
            at served)

    prepare-applied :
        (p : Psim S) (pid i : ℕ) → i < p.nthreads → (prepare funcs p pid).applied i ≡ p.toggles i
    unfolding prepare
    prepare-applied p pid i lt =
        store_upto_lem p.nthreads (store_upto p.nthreads p.toggles (λ _. false)) _ i lt
        ∙ store_upto_lem p.nthreads p.toggles (λ _. false) i lt

    -- The state after a round's swap.
    abbrev swapped : Psim S → ℕ → Psim S
    swapped p pid = record p {
      st = update p.st (my_index p pid) (prepare funcs p pid);
      state = my_index p pid;
      seq = p.seq + 1;
      cas_suc = p.cas_suc + 1;
      local_index = update p.local_index pid ((p.local_index pid + 1) % 2);
    }

    round-swapped : (p : Psim S) (pid : ℕ) → round funcs p pid ≡ (swapped p pid, true)
    unfolding round
    round-swapped p pid = rw (==_refl p.state, ==_refl p.seq)

    -- If `copy` yields an equal object, one `attempt`, run while no other thread moves, makes all
    -- waiting requests of the object, each once and in the order of the threads, leaves the replies in
    -- `rvals` and none waiting, keeps the toggles and the number of threads, and adds one to `seq`.
    pub attempt-Attempted : (p : Psim S) (pid : ℕ) → Attempted p (attempt funcs p pid)
    unfolding attempt attempt_on
    attempt-Attempted p pid = rw (round-swapped p pid) (record {
      object = rw (==_refl (my_index p pid)) (prepare-Served p pid).0;
      replied = rw (==_refl (my_index p pid)) (prepare-Served p pid).1;
      applied = λ i lt. rw (==_refl (my_index p pid)) (prepare-applied p pid i lt);
      same_toggles = refl;
      same_nthreads = refl;
      next_seq = refl;
    })

-- ===== src/FcStack/Threads/Hand.antt =====
-- The steps by which the combiner serves a request: the operation, its answer, and the sign that it is
-- done.
use public_conc_exp.Common.{
  update, update_here, update_other, ℕ, ◌≡◌, ◌≢◌, refl, sym, ap, ◌∙◌, subst, true, false, inl, inr,
  Bool-cases, none, some, List, ℤ, ◌==◌, arith,
}
use public_conc_exp.FcStack.{serial_push_pop}
use public_conc_exp.FcStack.Threads.{Mem, serve, put_value, put_done, advance, served, act}
use public_conc_exp.FcStack.Threads.Combining.{
  Ghost, Combined, Stage, out, early, inside, late, spec, answer_call, argument, Answered, waiting,
  answered, Settled, Handed, Fits, Global,
}
use public_conc_exp.FcStack.Threads.Local.{Does, fit}
use public_conc_exp.FcStack.Threads.Serve.{SameList, combiner_others, waiting_of, argument_of}

spec-served :
    (c : Combined) (i q : ℕ) (v w : ℤ) (top : List ℤ)
    → argument (c.calls i) ≡ some v
    → c.calls q ≡ waiting w
    → top ≡ c.stack
    → spec (served i q (serial_push_pop v top).1) c
      ≡ some (record {
        stack = (serial_push_pop v top).0;
        calls = update c.calls q (answered w (serial_push_pop v top).1);
      })
unfolding spec
spec-served c i q v w top arg calls same =
    rw same (rw (arg, spec) (rw (calls, answer_call) (ground arith)))

waiting-ne : (v w r : ℤ) → waiting v ≡ answered w r → ⊥
waiting-ne v w r e = absurd (ground (arith, e))

module _ (m : Mem) (g : Ghost) (globe : Global m g) (i : ℕ) where
  module _ (cur : ℕ) (r : ℤ) (w : ℤ) (top : List ℤ) where
    -- The operation is done, and its answer is that of `cur`.
    handing : Ghost
    handing = record g {
      combined = record { stack = top; calls = update g.combined.calls cur (answered w r) };
      serving = some (cur, r);
    }

    serve-Settled :
        m.pending cur ≡ true
        → g.combined.calls cur ≡ waiting w
        → g.serving ≡ none
        → (j : ℕ) (st : Stage) → Settled m g j st
        → Settled (record m { top = top }) handing j st
    unfolding handing
    serve-Settled pend calls unserved j st h = elim (Bool-cases (cur == j)) [
      | inl e ↦
          let is : cur ≡ j = ground arith in
          subst (λ k. Settled (record m { top = top }) handing k st) is
            (here st (subst (λ k. Settled m g k st) (sym is) h))
      | inr e ↦ there st h (ground arith)
    ]
      where
        here : (s : Stage) → Settled m g cur s → Settled (record m { top = top }) handing cur s
        here out (e, f) = absurd (ground (arith, f, pend))
        here (early v) (e, f) = absurd (ground (arith, f, pend))
        here (late v) (e, f) = absurd (ground (arith, f, pend))
        here (inside v) (inl (e, f)) =
            let same : some w ≡ some v = ap argument (sym calls ∙ e) in
            inr (
              inr (
                r,
                update_here g.combined.calls cur (answered w r)
                    ∙ ap (λ u. answered u r) (ground (arith, same)),
                f,
                refl,
              ))
        here (inside v) (inr (inl (e, f))) = absurd (ground (arith, f, pend))
        here (inside v) (inr (inr (r', e, f, s))) = absurd (ground (arith, unserved, s))

        there :
            (s : Stage) → Settled m g j s → j ≢ cur → Settled (record m { top = top }) handing j s
        there out (e, f) ne = (update_other g.combined.calls cur (answered w r) j ne ∙ e, f)
        there (early v) (e, f) ne = (update_other g.combined.calls cur (answered w r) j ne ∙ e, f)
        there (late v) (e, f) ne = (update_other g.combined.calls cur (answered w r) j ne ∙ e, f)
        there (inside v) (inl (e, f)) ne =
            inl (update_other g.combined.calls cur (answered w r) j ne ∙ e, f)
        there (inside v) (inr (inl (e, f))) ne =
            inr (inl (update_other g.combined.calls cur (answered w r) j ne ∙ e, f))
        there (inside v) (inr (inr (r', e, f, s))) ne = absurd (ground (arith, unserved, s))

  pub serve-Does :
      (n : ℕ) (v : ℤ) (cur : ℕ)
      → (st : Stage) × Settled m g cur st
      → Fits m g i (serve n v cur)
      → Does m g i (act i m (serve n v cur))
  unfolding act spec handing
  serve-Does n v cur (st, known) f =
      let (w, calls) = waiting_of m g cur st known f.combines.2 f.combines.0 in
      let out_ = serial_push_pop v m.top in
      let g' = handing cur out_.1 w out_.0 in
      let m' : Mem = record m { top = out_.0 } in
      let same : SameList m g m' g' = record {
        active = refl;
        next = refl;
        listed = refl;
        owner = refl;
      } in
      let settle = serve-Settled cur out_.1 w out_.0 f.combines.2 calls f.combines.0 in
      let p' = put_value n v cur out_.1 in
      (
        g',
        record {
          globe = record {
            stack = refl;
            path = globe.path;
            locked = globe.locked;
            unused = λ e. absurd (ground (arith, e, f.owns));
          };
          fits = fit m' g' i p' (settle i (inside v) f.settled) f.joined f.owns (
            (refl, f.combines.2, (w, update_here g.combined.calls cur (answered w out_.1))),
            f.combines.1,
          );
          accepted =
              spec-served g.combined i cur v w m.top (argument_of m g i v f.settled) calls
                globe.stack;
          others = combiner_others m g m' g' same i f.owns settle;
        },
      )

  put_value-Answered :
      (cur : ℕ) (r : ℤ)
      → m.pending cur ≡ true
      → (j : ℕ) (v : ℤ) → Answered m g j v
      → Answered (record m { value = update m.value cur r }) g j v
  put_value-Answered cur r pend j v (e, f) =
      let ne : j ≢ cur =
        λ is. absurd (ground (arith, f, subst (λ k. m.pending k ≡ true) (sym is) pend)) in
      (e ∙ ap (answered v) (sym (update_other m.value cur r j ne)), f)

  put_value-Settled :
      (cur : ℕ) (r : ℤ)
      → m.pending cur ≡ true
      → (j : ℕ) (st : Stage) → Settled m g j st
      → Settled (record m { value = update m.value cur r }) g j st
  put_value-Settled cur r pend j out h = h
  put_value-Settled cur r pend j (early v) h = h
  put_value-Settled cur r pend j (inside v) (inl h) = inl h
  put_value-Settled cur r pend j (inside v) (inr (inr h)) = inr (inr h)
  put_value-Settled cur r pend j (inside v) (inr (inl (e, f))) =
      inr (inl (put_value-Answered cur r pend j v (e, f)))
  put_value-Settled cur r pend j (late v) h = put_value-Answered cur r pend j v h

  pub put_value_Does :
      (n : ℕ) (v : ℤ) (cur : ℕ) (r : ℤ)
      → Fits m g i (put_value n v cur r)
      → Does m g i (act i m (put_value n v cur r))
  unfolding act spec
  put_value_Does n v cur r f =
      let m' : Mem = record m { value = update m.value cur r } in
      let same : SameList m g m' g = record {
        active = refl;
        next = refl;
        listed = refl;
        owner = refl;
      } in
      let settle = put_value-Settled cur r f.combines.0.1 in
      let now = update_here m.value cur r in
      (
        g,
        record {
          globe = record {
            stack = globe.stack;
            path = globe.path;
            locked = globe.locked;
            unused = globe.unused;
          };
          fits =
              fit m' g i (put_done n v cur) (settle i (inside v) f.settled) f.joined f.owns
                (subst (Handed m' g cur) (sym now) f.combines.0, f.combines.1);
          accepted = refl;
          others = combiner_others m g m' g same i f.owns settle;
        },
      )

  put_done-Settled :
      (cur : ℕ)
      → Handed m g cur (m.value cur)
      → (j : ℕ) (st : Stage) → Settled m g j st
      → Settled
          (record m { pending = update m.pending cur false })
          (record g { serving = none })
          j
          st
  put_done-Settled cur (s, pend, (w, c)) j out (e, f) = (e, ground (arith, f))
  put_done-Settled cur (s, pend, (w, c)) j (early v) (e, f) = (e, ground (arith, f))
  put_done-Settled cur (s, pend, (w, c)) j (late v) (e, f) = (e, ground (arith, f))
  put_done-Settled cur (s, pend, (w, c)) j (inside v) (inr (inl (e, f))) =
      inr (inl (e, ground (arith, f)))
  put_done-Settled cur (s, pend, (w, c)) j (inside v) (inl (e, f)) =
      let ne : j ≢ cur = λ is. waiting-ne v w (m.value cur) (sym e ∙ ap g.combined.calls is ∙ c) in
      inl (e, update_other m.pending cur false j ne ∙ f)
  put_done-Settled cur (s, pend, (w, c)) j (inside v) (inr (inr (r, e, f, s'))) =
      let same : some (cur, m.value cur) ≡ some (j, r) = sym s ∙ s' in
      let is : cur ≡ j = ap (λ o. elim o [ none ↦ j | some a ↦ a.0 ]) same in
      let told : m.value cur ≡ r = ap (λ o. elim o [ none ↦ r | some a ↦ a.1 ]) same in
      inr (
        inl (
          e ∙ ap (answered v) (sym told ∙ ap m.value is),
          subst (λ k. update m.pending cur false k ≡ false) is (update_here m.pending cur false),
        ))

  pub put_done_Does :
      (n : ℕ) (v : ℤ) (cur : ℕ)
      → Fits m g i (put_done n v cur)
      → Does m g i (act i m (put_done n v cur))
  unfolding act spec
  put_done_Does n v cur f =
      let m' : Mem = record m { pending = update m.pending cur false } in
      let g' : Ghost = record g { serving = none } in
      let same : SameList m g m' g' = record {
        active = refl;
        next = refl;
        listed = refl;
        owner = refl;
      } in
      let settle = put_done-Settled cur f.combines.0 in
      let (on, (ys, path, sub, own)) = f.combines.1 in
      (
        g',
        record {
          globe = record {
            stack = globe.stack;
            path = globe.path;
            locked = globe.locked;
            unused = λ e. refl;
          };
          fits = fit m' g' i (advance n v cur) (settle i (inside v) f.settled) f.joined f.owns (
            refl,
            (on, (ys, path, sub, λ e. own (ground (arith, e)))),
            λ e is. ground (arith, e, is),
          );
          accepted = refl;
          others = combiner_others m g m' g' same i f.owns settle;
        },
      )

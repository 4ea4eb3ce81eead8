-- ===== src/FcStack/Threads/Frame.antt =====
-- What a step of one thread leaves to the others.
use public_conc_exp.Common.{
  ℕ, ◌≡◌, ◌≢◌, sym, ap, ◌∙◌, subst, true, inl, inr, Bool-cases, Option, some, List, [], ◌∷◌, ℤ,
  ◌==◌, arith,
}
use public_conc_exp.FcStack.Combine.{has_pid}
use public_conc_exp.FcStack.Threads.{Mem, Pc}
use public_conc_exp.FcStack.Threads.Combining.{
  answered, Ghost, Stage, out, early, inside, late, stage, Settled, Joining, unmarked, marked,
  linking, settled_in, joining, Joined, Leads, Cursor, Handed, Duty, none_held, entering, at_round,
  at_visit, at_serve, at_value, at_done, at_advance, duty, is_owner, Combines, Fits,
}

pub Leads-keep :
    (f h : ℕ → Option ℕ) (c : Option ℕ) (ys : List ℕ)
    → ((q : ℕ) → has_pid q ys ≡ true → h q ≡ f q)
    → Leads f c ys
    → Leads h c ys
Leads-keep f h c [] same path = path
Leads-keep f h c (y ∷ ys) same (e, path) = (
  e,
  Leads-keep f h (h y) ys (λ q i. same q (ground arith))
      (subst (λ d. Leads f d ys) (sym (same y (ground arith))) path),
)

-- What a step of thread `i` leaves as it was, if it is not one by which a combiner serves a request.
pub record Quiet (m : Mem) (g : Ghost) (i : ℕ) (m' : Mem) (g' : Ghost) : Type 0 where
  pub calls : (j : ℕ) → j ≢ i → g'.combined.calls j ≡ g.combined.calls j
  pub pending : (j : ℕ) → j ≢ i → m'.pending j ≡ m.pending j
  pub value : (j : ℕ) → j ≢ i → m'.value j ≡ m.value j
  pub active : (j : ℕ) → j ≢ i → m'.active j ≡ m.active j
  pub next : (j : ℕ) → j ≢ i → m'.next j ≡ m.next j
  pub listed : (j : ℕ) → j ≢ i → has_pid j g'.listed ≡ has_pid j g.listed
  pub owner : (j : ℕ) → j ≢ i → is_owner g'.owner j ≡ is_owner g.owner j
  pub serving : g'.serving ≡ g.serving
  pub still_listed : (q : ℕ) → has_pid q g.listed ≡ true → has_pid q g'.listed ≡ true
  pub still_next : (q : ℕ) → has_pid q g.listed ≡ true → m'.next q ≡ m.next q
  pub still_pending :
      m.pending i ≡ true
      → (m'.pending i ≡ true)
        × (m'.value i ≡ m.value i)
        × (g'.combined.calls i ≡ g.combined.calls i)

module _ (m : Mem) (g : Ghost) (i : ℕ) (m' : Mem) (g' : Ghost) (quiet : Quiet m g i m' g') where
  module _ (j : ℕ) (ne : j ≢ i) where
    quiet-Settled : (st : Stage) → Settled m g j st → Settled m' g' j st
    quiet-Settled out (e, f) = (quiet.calls j ne ∙ e, quiet.pending j ne ∙ f)
    quiet-Settled (early v) (e, f) = (quiet.calls j ne ∙ e, quiet.pending j ne ∙ f)
    quiet-Settled (late v) (e, f) =
        (quiet.calls j ne ∙ e ∙ ap (answered v) (sym (quiet.value j ne)), quiet.pending j ne ∙ f)
    quiet-Settled (inside v) (inl (e, f)) = inl (quiet.calls j ne ∙ e, quiet.pending j ne ∙ f)
    quiet-Settled (inside v) (inr (inl (e, f))) = inr (
        inl
          (quiet.calls j ne ∙ e ∙ ap (answered v) (sym (quiet.value j ne)), quiet.pending j ne ∙ f))
    quiet-Settled (inside v) (inr (inr (r, e, f, s))) =
        inr (inr (r, quiet.calls j ne ∙ e, quiet.pending j ne ∙ f, quiet.serving ∙ s))

    quiet-Joined : (st : Joining) → Joined m g j st → Joined m' g' j st
    quiet-Joined unmarked (e, f) = (quiet.active j ne ∙ e, quiet.listed j ne ∙ f)
    quiet-Joined marked (e, f) = (quiet.active j ne ∙ e, quiet.listed j ne ∙ f)
    quiet-Joined (linking h) (e, f, n) =
        (quiet.active j ne ∙ e, quiet.listed j ne ∙ f, quiet.next j ne ∙ n)
    quiet-Joined settled_in e = quiet.active j ne ∙ e ∙ sym (quiet.listed j ne)

    quiet-Cursor : (cur : Option ℕ) → Cursor m g j cur → Cursor m' g' j cur
    quiet-Cursor cur (on, (ys, path, sub, own)) = (
      quiet.still_listed j on,
      (
        ys,
        Leads-keep m.next m'.next cur ys (λ q h. quiet.still_next q (sub q h)) path,
        λ q h. quiet.still_listed q (sub q h),
        λ e. own (sym (quiet.pending j ne) ∙ e),
      ),
    )

    pending_after :
        (q : ℕ)
        → m.pending q ≡ true
        → (m'.pending q ≡ true)
          × (m'.value q ≡ m.value q)
          × (g'.combined.calls q ≡ g.combined.calls q)
    pending_after q e = elim (Bool-cases (q == i)) [
      | inl same ↦
          let is : i ≡ q = ground arith in
          subst
            (λ k.
              (m'.pending k ≡ true)
              × (m'.value k ≡ m.value k)
              × (g'.combined.calls k ≡ g.combined.calls k))
            is (quiet.still_pending (subst (λ k. m.pending k ≡ true) (sym is) e))
      | inr other ↦
          let nq : q ≢ i = ground arith in
          (quiet.pending q nq ∙ e, quiet.value q nq, quiet.calls q nq)
    ]

    quiet-Handed : (cur : ℕ) (r : ℤ) → Handed m g cur r → Handed m' g' cur r
    quiet-Handed cur r (s, e, (w, c)) =
        let after = pending_after cur e in (quiet.serving ∙ s, after.0, (w, after.2 ∙ c))

    quiet-Combines : (d : Duty) → Combines m g j d → Combines m' g' j d
    quiet-Combines none_held h = tt
    quiet-Combines entering s = quiet.serving ∙ s
    quiet-Combines (at_round n) (s, on, inl e) = (quiet.serving ∙ s, quiet.still_listed j on, inl e)
    quiet-Combines (at_round n) (s, on, inr e) =
        (quiet.serving ∙ s, quiet.still_listed j on, inr (quiet.pending j ne ∙ e))
    quiet-Combines (at_visit cur) (s, c) = (quiet.serving ∙ s, quiet-Cursor cur c)
    quiet-Combines (at_serve cur) (s, c, e) =
        (quiet.serving ∙ s, quiet-Cursor (some cur) c, (pending_after cur e).0)
    quiet-Combines (at_value cur r) (h, c) = (quiet-Handed cur r h, quiet-Cursor (some cur) c)
    quiet-Combines (at_done cur) (h, c) =
        let after = pending_after cur h.1 in
        (
          subst (Handed m' g' cur) (sym after.1) (quiet-Handed cur (m.value cur) h),
          quiet-Cursor (some cur) c,
        )
    quiet-Combines (at_advance cur) (s, c, e) =
        (quiet.serving ∙ s, quiet-Cursor (some cur) c, λ h. e (sym (quiet.pending j ne) ∙ h))

    pub quiet-Fits : (p : Pc) → Fits m g j p → Fits m' g' j p
    quiet-Fits p f = record {
      settled = quiet-Settled (stage p) f.settled;
      joined = quiet-Joined (joining p) f.joined;
      owns = f.owns ∙ sym (quiet.owner j ne);
      combines = quiet-Combines (duty p) f.combines;
    }

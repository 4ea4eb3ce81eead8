-- ===== src/FcStack/Threads/Serve.antt =====
-- The steps of the thread that combines.
use public_conc_exp.Common.{
  ℕ, zero, suc, ◌≡◌, ◌≢◌, sym, ap, ◌∙◌, subst, true, false, inl, inr, Bool-cases, Option, none,
  some, List, [], ◌∷◌, ℤ, arith,
}
use public_conc_exp.FcStack.Combine.{has_pid}
use public_conc_exp.FcStack.Threads.{Mem, Pc, round, visit, serve, advance, release, act}
use public_conc_exp.FcStack.Threads.Combining.{
  Ghost, Stage, out, early, inside, late, stage, argument, waiting, Settled, Joined, Joining,
  unmarked, marked, linking, settled_in, joining, Leads, Duty, entering, none_held, at_round,
  at_visit, at_serve, at_value, at_done, at_advance, duty, combining, is_owner, Combines, Fits,
  Global,
}
use public_conc_exp.FcStack.Threads.Local.{Does, fit, stay, stay_if, Settled-Answered}
use public_conc_exp.FcStack.Threads.Lock.{other_owner}

free_Combines : (m : Mem) (g : Ghost) (j : ℕ) (d : Duty) → combining d ≡ false → Combines m g j d
free_Combines m g j none_held e = tt
free_Combines m g j entering e = absurd (ground (arith, e))
free_Combines m g j (at_round n) e = absurd (ground (arith, e))
free_Combines m g j (at_visit c) e = absurd (ground (arith, e))
free_Combines m g j (at_serve c) e = absurd (ground (arith, e))
free_Combines m g j (at_value c r) e = absurd (ground (arith, e))
free_Combines m g j (at_done c) e = absurd (ground (arith, e))
free_Combines m g j (at_advance c) e = absurd (ground (arith, e))

-- The list and the marks of the requests are as they were.
pub record SameList (m : Mem) (g : Ghost) (m' : Mem) (g' : Ghost) : Type 0 where
  pub active : m'.active ≡ m.active
  pub next : m'.next ≡ m.next
  pub listed : g'.listed ≡ g.listed
  pub owner : g'.owner ≡ g.owner

module _ (m : Mem) (g : Ghost) (m' : Mem) (g' : Ghost) (same : SameList m g m' g') where
  same-Joined : (j : ℕ) (st : Joining) → Joined m g j st → Joined m' g' j st
  same-Joined j unmarked (e, f) = (ap (λ a. a j) same.active ∙ e, ap (has_pid j) same.listed ∙ f)
  same-Joined j marked (e, f) = (ap (λ a. a j) same.active ∙ e, ap (has_pid j) same.listed ∙ f)
  same-Joined j (linking h) (e, f, n) =
      (ap (λ a. a j) same.active ∙ e, ap (has_pid j) same.listed ∙ f, ap (λ a. a j) same.next ∙ n)
  same-Joined j settled_in e = ap (λ a. a j) same.active ∙ e ∙ sym (ap (has_pid j) same.listed)

  -- What a step of the combiner `i` leaves to another thread.
  pub combiner_others :
      (i : ℕ)
      → true ≡ is_owner g.owner i
      → ((j : ℕ) (st : Stage) → Settled m g j st → Settled m' g' j st)
      → (j : ℕ) → j ≢ i
      → (q : Pc) → Fits m g j q
      → Fits m' g' j q
  combiner_others i mine settle j ne q f =
      let none_here = f.owns ∙ other_owner g.owner i j mine ne in
      fit m' g' j q (settle j (stage q) f.settled) (same-Joined j (joining q) f.joined)
        (f.owns ∙ sym (ap (λ o. is_owner o j) same.owner))
        (free_Combines m' g' j (duty q) none_here)

-- A request that is pending and not being served waits.
pub waiting_of :
    (m : Mem) (g : Ghost) (j : ℕ) (st : Stage)
    → Settled m g j st
    → m.pending j ≡ true
    → g.serving ≡ none
    → (w : ℤ) × (g.combined.calls j ≡ waiting w)
waiting_of m g j out (e, f) h s = absurd (ground (arith, f, h))
waiting_of m g j (early v) (e, f) h s = absurd (ground (arith, f, h))
waiting_of m g j (late v) (e, f) h s = absurd (ground (arith, f, h))
waiting_of m g j (inside v) (inl (e, f)) h s = (v, e)
waiting_of m g j (inside v) (inr (inl (e, f))) h s = absurd (ground (arith, f, h))
waiting_of m g j (inside v) (inr (inr (r, e, f, s'))) h s = absurd (ground (arith, s, s'))

pub argument_of :
    (m : Mem) (g : Ghost) (j : ℕ) (v : ℤ)
    → Settled m g j (inside v)
    → argument (g.combined.calls j) ≡ some v
argument_of m g j v (inl (e, f)) = ap argument e
argument_of m g j v (inr (inl (e, f))) = ap argument e
argument_of m g j v (inr (inr (r, e, f, s))) = ap argument e

tail-Leads :
    (next : ℕ → Option ℕ) (cur : ℕ) (ys : List ℕ)
    → Leads next (some cur) ys
    → (zs : List ℕ) × (ys ≡ cur ∷ zs) × Leads next (next cur) zs
tail-Leads next cur [] e = absurd (ground (arith, e))
tail-Leads next cur (y ∷ ys) (e, path) =
    let is : y ≡ cur = ground (arith, e) in
    (ys, ap (λ k. k ∷ ys) is, subst (λ k. Leads next (next k) ys) is path)

end-Leads :
    (next : ℕ → Option ℕ) (ys : List ℕ) (j : ℕ) → Leads next none ys → has_pid j ys ≡ true → ⊥
end-Leads next [] j e h = ground (arith, h)
end-Leads next (y ∷ ys) j (e, path) h = ground (arith, e)

module _ (m : Mem) (g : Ghost) (globe : Global m g) (i : ℕ) where
  pub round-Does : (n : ℕ) (v : ℤ) → Fits m g i (round n v) → Does m g i (act i m (round n v))
  unfolding act
  round-Does zero v f =
      let told : m.pending i ≡ false = elim f.combines.2 [
        | inl e ↦ absurd (ground (arith, e))
        | inr e ↦ e
      ] in
      stay m g globe i (release v) (
        fit m g i (release v) (Settled-Answered m g i v f.settled told) f.joined f.owns
          f.combines.0)
  round-Does (suc n) v f = stay m g globe i (visit n v m.head) (
      fit m g i (visit n v m.head) f.settled f.joined f.owns
        (f.combines.0, (f.combines.1, (g.listed, globe.path, λ q h. h, λ e. f.combines.1))))

  pub visit_Does :
      (n : ℕ) (v : ℤ) (cur : Option ℕ)
      → Fits m g i (visit n v cur)
      → Does m g i (act i m (visit n v cur))
  unfolding act
  visit_Does n v none f =
      let (on, (ys, path, sub, own)) = f.combines.1 in
      let told : m.pending i ≡ false = elim (Bool-cases (m.pending i)) [
        | inl e ↦ absurd (end-Leads m.next ys i path (own e))
        | inr e ↦ e
      ] in
      stay m g globe i (round n v)
        (fit m g i (round n v) f.settled f.joined f.owns (f.combines.0, on, inr told))
  visit_Does n v (some cur) f =
      stay_if m g globe i (m.pending cur) (serve n v cur) (advance n v cur)
        (λ e. fit m g i (serve n v cur) f.settled f.joined f.owns (f.combines.0, f.combines.1, e))
        (λ e. fit m g i (advance n v cur) f.settled f.joined f.owns (
          f.combines.0,
          f.combines.1,
          λ h is. absurd (ground (arith, h, subst (λ k. m.pending k ≡ false) is e)),
        ))

  pub advance-Does :
      (n : ℕ) (v : ℤ) (cur : ℕ)
      → Fits m g i (advance n v cur)
      → Does m g i (act i m (advance n v cur))
  unfolding act
  advance-Does n v cur f =
      let (on, (ys, path, sub, own)) = f.combines.1 in
      let (zs, is, rest) = tail-Leads m.next cur ys path in
      let p' = visit n v (m.next cur) in
      stay m g globe i p' (
        fit m g i p' f.settled f.joined f.owns (
          f.combines.0,
          (
            on,
            (
              zs,
              rest,
              λ q h. sub q (rw is (ground (arith, h))),
              λ e.
                  let ne = f.combines.2 e in
                  let at : has_pid i (cur ∷ zs) ≡ true =
                    subst (λ l. has_pid i l ≡ true) is (own e) in
                  ground (arith, ne, at),
            ),
          ),
        ))

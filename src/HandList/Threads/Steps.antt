-- ===== src/HandList/Threads/Steps.antt =====
-- The calls, the start, and that every step keeps the invariant.
use public_conc_exp.Common.{
  update, update_here, update_other, ℕ, ◌≡◌, ◌≢◌, refl, sym, ap, ◌∙◌, subst, true, false, ◌⊎◌, inl,
  inr, Bool-cases, none, some, List, [], arith, ℤ, ◌==◌,
}
use public_conc_exp.Rows.{Ptr, null}
use public_conc_exp.Rows.Row.{In}
use public_conc_exp.Rows.Change.{Linked-keep}
use public_conc_exp.HandList.Threads.{
  list, Mem, Pc, idle, ins_list, rem_list, pop_list, silent, System, system, Step, work,
  call_insert, call_remove, call_remove_first, lead_to, init,
}
use public_conc_exp.HandList.Threads.Shape.{
  spec, lower, upper, fresh, ahead, beyond, aim, contents, Shape, IsOwned, Fits, Holds,
}
use public_conc_exp.HandList.Threads.Local.{Does, fit, stay_Done, owns_none}
use public_conc_exp.HandList.Threads.Moves.{act_Does}
use public_conc_exp.HandList.Threads.Invariant.{Each-imp, Both-imp, Inv, owner-IsOwned, Done-Inv}
use public_conc_exp.HandList.Threads.{kind}
use public_conc_exp.HandList.Threads.Served.{status, Advances, act-Advances}
use public_conc_exp.Spec.SetCalls.{SetRequest, insert, remove, remove_first, set}
use public_conc_exp.Spec.Calls.{
  Call, waiting, Kind, start_call, Served, accepts, accepts-advance, accepts-start_call,
  status-update,
}

module _ (data_of : Ptr → ℤ) where
  module _ {s : System} {xs : List Ptr} (inv : Inv data_of s xs) (i : ℕ) (at : s.pc i ≡ idle) where
    open inv use {shape, fits, locked, single, sole, apart, made, holder}

    holds_none : (a : Ptr) → ¬ (Holds (s.pc i) a)
    holds_none a h = let h' = subst (λ p. Holds p a) at h in ground (arith, h')

    -- A call that makes no node.
    plain_Inv :
        (p' : Pc)
        → Fits data_of s.mem xs p'
        → ((a : Ptr) → Holds p' a → ⊥)
        → fresh p' ≡ none
        → Inv data_of (system s.mem (update s.pc i p')) xs
    unfolding spec
    plain_Inv p' fits' unheld owns = Done-Inv data_of inv i (
        stay_Done data_of s.mem xs shape (s.pc i) (locked i) p' silent refl fits'
          (λ a h. absurd (unheld a h)) (λ a h. absurd (holds_none a h))
          (λ o e. owns_none (s.pc i) o (sym owns ∙ e)))

    -- A call of `insert`, with the new node `n`.
    module _ (v : ℤ) (n : Ptr) (ne : n ≢ null) (unmade : s.mem.made n ≡ false)
        (value : data_of n ≡ v) where
      grown : Mem
      grown = record (lead_to s.mem n null) { made = update s.mem.made n true }

      not_made : (a : Ptr) → s.mem.made a ≡ true → a ≢ n
      not_made a e h = ground (arith, unmade, subst (λ b. s.mem.made b ≡ true) h e)

      not_in : (a : Ptr) → In a xs → a ≢ n
      not_in a j = not_made a (shape.proper a j).1

      not_held : (j : ℕ) (a : Ptr) → Holds (s.pc j) a → a ≢ n
      not_held j a h = elim (made j a h) [
        | inl root ↦ λ e. ne (sym e ∙ root)
        | inr e ↦ not_made a e
      ]

      not_owned : (j : ℕ) (o : Ptr × ℤ) → fresh (s.pc j) ≡ some o → o.0 ≢ n
      not_owned j o e = not_made o.0 (owner-IsOwned data_of inv i j o e).1

      still_made : (a : Ptr) → s.mem.made a ≡ true → grown.made a ≡ true
      unfolding grown
      still_made a e = update_other s.mem.made n true a (not_made a e) ∙ e

      grown-Shape : Shape data_of grown xs
      unfolding grown
      grown-Shape = record {
        linked =
            Linked-keep s.mem.next_node (update s.mem.next_node n null) list xs
              (λ a at.
                update_other s.mem.next_node n null a
                  (elim at [ inl root ↦ λ e. ne (sym e ∙ root) | inr j ↦ not_in a j ]))
              shape.linked;
        ascending = shape.ascending;
        proper = λ a j. ((shape.proper a j).0, still_made a (shape.proper a j).1);
      }

      grown_Fits : (j : ℕ) → Fits data_of grown xs (s.pc j)
      unfolding grown
      grown_Fits j =
          let f = fits j in
          let p = s.pc j in
          let old = s.mem.next_node in
          let now = update s.mem.next_node n null in
          record {
            at = f.at;
            ahead_of =
                Both-imp (lower p) (ahead p) (λ c q. old c ≡ q) (λ c q. now c ≡ q)
                  (λ c q e h. update_other old n null c (not_held j c (inl e)) ∙ h) f.ahead_of;
            beyond_of =
                Both-imp (upper p) (beyond p) (λ c q. old c ≡ q) (λ c q. now c ≡ q)
                  (λ c q e h. update_other old n null c (not_held j c (inr e)) ∙ h) f.beyond_of;
            aim_of =
                Both-imp (fresh p) (aim p) (λ o q. old o.0 ≡ q) (λ o q. now o.0 ≡ q)
                  (λ o q e h. update_other old n null o.0 (not_owned j o e) ∙ h) f.aim_of;
            found = f.found;
            own =
                Each-imp (fresh p) (IsOwned data_of s.mem xs) (IsOwned data_of grown xs)
                  (λ o e h. (h.0, still_made o.0 h.1, h.2, h.3)) f.own;
          }

      new_Fits : Fits data_of grown xs (ins_list v n)
      unfolding grown
      new_Fits =
          fit data_of grown xs (ins_list v n) tt tt tt (update_here s.mem.next_node n null) tt
            (ne, update_here s.mem.made n true, value, λ at. not_in n at refl)

      -- The caller holds no lock, and what another thread holds or owns it did before.
      before : (j : ℕ) (a : Ptr) → Holds (update s.pc i (ins_list v n) j) a → Holds (s.pc j) a
      before j a h = elim (Bool-cases (i == j)) [
        | inl e ↦ let h' : Holds (ins_list v n) a = rw e at h in absurd (ground (arith, h'))
        | inr e ↦ rw e at h
      ]

      owns :
          (j : ℕ) (o : Ptr × ℤ)
          → fresh (update s.pc i (ins_list v n) j) ≡ some o
          → ((i ≡ j) × (o.0 ≡ n)) ⊎ (fresh (s.pc j) ≡ some o)
      owns j o h = elim (Bool-cases (i == j)) [
        | inl e ↦
            let h' : some (n, v) ≡ some o = rw e at h in
            inl (ground arith, sym (ap (λ f. elim f [ none ↦ n | some b ↦ b.0 ]) h'))
        | inr e ↦ inr (rw e at h)
      ]

      call_Inv : Inv data_of (system grown (update s.pc i (ins_list v n))) xs
      unfolding grown
      call_Inv = record {
        shape = grown-Shape;
        fits =
            λ j. elim (Bool-cases (i == j)) [ inl e ↦ rw e new_Fits | inr e ↦ rw e (grown_Fits j) ];
        locked = λ j a h. locked j a (before j a h);
        single = λ j k a h h'. single j k a (before j a h) (before k a h');
        sole = λ j k b w w' e e'. elim (owns j (b, w) e) [
          | inl (same, is) ↦ elim (owns k (b, w') e') [
            | inl (same', is') ↦ sym same ∙ same'
            | inr old ↦ absurd (not_owned k (b, w') old is)
          ]
          | inr old ↦ elim (owns k (b, w') e') [
            | inl (same', is') ↦ absurd (not_owned j (b, w) old is')
            | inr old' ↦ sole j k b w w' old old'
          ]
        ];
        apart = λ j k b w e h. elim (owns j (b, w) e) [
          | inl (same, is) ↦ not_held k b (before k b h) is
          | inr old ↦ apart j k b w old (before k b h)
        ];
        made = λ j a h. elim (made j a (before j a h)) [
          | inl root ↦ inl root
          | inr e ↦ inr (still_made a e)
        ];
        holder = λ a e.
            let (j, h) = holder a e in
            elim (Bool-cases (i == j)) [
              | inl e' ↦
                  let same : j ≡ i = ground arith in
                  absurd (holds_none a (subst (λ k. Holds (s.pc k) a) same h))
              | inr e' ↦ (j, rw e' h)
            ];
      }

  pub Inv-init : (junk : Ptr) → Inv data_of (init junk) []
  Inv-init junk = record {
    shape = record {
      linked = update_here (λ p. junk) list null;
      ascending = tt;
      proper = λ q at. absurd at;
    };
    fits = λ i. fit data_of (init junk).mem [] idle tt tt tt tt tt tt;
    locked = λ i a h. absurd (ground (arith, h));
    single = λ i j a h h'. absurd (ground (arith, h));
    sole = λ i j n v w e e'. cc;
    apart = λ i j n v e h. absurd (ground (arith, h));
    made = λ i a h. absurd (ground (arith, h));
    holder = λ a e. absurd (ground (arith, e));
  }

  -- The contents of the list, and the call of each thread.
  abbrev pub Ghost : Type 0
  Ghost = List Ptr × (ℕ → Call SetRequest)

  abbrev pub served : Ghost → Served SetRequest (List ℤ)
  served g = record { contents = contents data_of g.0; calls = g.1 }

  abbrev pub InvServed : System → Ghost → Type 0
  InvServed s g = Inv data_of s g.0 × ((j : ℕ) → g.1 j ≡ status data_of (s.pc j))

  start-InvServed :
      (s : System) (xs : List Ptr) (calls : ℕ → Call SetRequest) (i : ℕ) (q : SetRequest)
      → ((j : ℕ) → calls j ≡ status data_of (s.pc j))
      → s.pc i ≡ idle
      → (m : Mem) (p : Pc) → status data_of p ≡ waiting q
      → Inv data_of (system m (update s.pc i p)) xs
      → (g' : Ghost) × InvServed (system m (update s.pc i p)) g'
        × (accepts set (i, start_call q) (served (xs, calls)) ≡ some (served g'))
  start-InvServed s xs calls i q same at m p e inv = (
    (xs, update calls i (waiting q)),
    (
      inv,
      λ j.
          ap (λ c. update calls i c j) (sym e)
          ∙ status-update (status data_of) s.pc calls i p same j,
    ),
    accepts-start_call set i q (contents data_of xs) calls (same i ∙ ap (status data_of) at),
  )

  -- Every step of any thread keeps the invariant, and is one that a set accepts.
  pub Step-Inv :
      (s : System) (g : Ghost) (l : ℕ × Kind SetRequest) (t : System)
      → InvServed s g
      → Step data_of null s l t
      → (g' : Ghost) × InvServed t g' × (accepts set l (served g) ≡ some (served g'))
  unfolding grown
  Step-Inv s (xs, calls) l t (inv, same) (work i {m} {p} {l = k} e) =
      let at = s.pc i in
      let (xs', d) =
        subst (Does data_of s.mem xs at) e
          (act_Does data_of s.mem xs inv.shape at (inv.fits i) (inv.locked i)) in
      let advances =
        subst (Advances data_of (status data_of at)) e
          (act-Advances data_of s.mem xs inv.shape at (inv.fits i)) in
      let now = contents data_of xs in
      let then_ = contents data_of xs' in
      (
        (xs', update calls i (status data_of p)),
        (Done-Inv data_of inv i d, status-update (status data_of) s.pc calls i p same),
        accepts-advance set i (kind k) now calls (status data_of at) (status data_of p) then_
            (same i) (advances now then_ d.accepted),
      )
  Step-Inv s (xs, calls) l t (inv, same) (call_insert i v n at ne unmade value) =
      start-InvServed s xs calls i (insert v) same at _ (ins_list v n) refl
        (call_Inv inv i at v n ne unmade value)
  Step-Inv s (xs, calls) l t (inv, same) (call_remove i v at) =
      start-InvServed s xs calls i (remove v) same at s.mem (rem_list v) refl (
        plain_Inv inv i at (rem_list v) (fit data_of s.mem xs (rem_list v) tt tt tt tt tt tt)
          (λ a h. absurd (ground (arith, h))) refl)
  Step-Inv s (xs, calls) l t (inv, same) (call_remove_first i at) =
      start-InvServed s xs calls i remove_first same at s.mem pop_list refl (
        plain_Inv inv i at pop_list (fit data_of s.mem xs pop_list tt tt tt tt tt tt)
          (λ a h. absurd (ground (arith, h))) refl)

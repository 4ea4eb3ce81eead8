-- ===== src/HandList/Threads/Local.antt =====
-- What the steps of a thread have in common: those that read, lock, unlock and store.
use public_conc_exp.Common.{
  update, ◌≡◌, ◌≢◌, refl, subst, Bool, true, false, ◌⊎◌, inl, inr, Bool-cases, none, some, List,
  arith, ℤ, ◌==◌, Run, ok, blocked,
}
use public_conc_exp.Rows.{Ptr}
use public_conc_exp.Rows.Row.{In}
use public_conc_exp.HandList.Threads.{Mem, Pc, Label, unlock, acquire, act}
use public_conc_exp.HandList.Threads.Shape.{
  spec, lower, upper, fresh, ahead, beyond, aim, Each, Both, At, contents, Shape, Found, IsOwned,
  Fits, Holds,
}

-- A thread that has nothing of its own got it from nowhere.
pub owns_none : (p : Pc) (o : Ptr × ℤ) → none ≡ some o → fresh p ≡ some o
owns_none p o e = cc

module _ (data_of : Ptr → ℤ) where
  -- Everything that a step of a thread from `p` to `p'` promises.
  pub record Done (m : Mem) (xs : List Ptr) (p : Pc) (m' : Mem) (p' : Pc) (l : Label)
      (xs' : List Ptr) : Type 0 where
    pub shape : Shape data_of m' xs'
    pub fits : Fits data_of m' xs' p'
    pub accepted : spec l (contents data_of xs) ≡ some (contents data_of xs')
    pub frame :
        (a : Ptr)
        → ¬ (Holds p a)
        → ((v : ℤ) → ¬ (fresh p ≡ some (a, v)))
        → m'.next_node a ≡ m.next_node a
    pub kept : (a : Ptr) → ¬ (Holds p a) → At xs a → At xs' a
    pub gained : (a : Ptr) → In a xs' → In a xs ⊎ ((v : ℤ) × (fresh p ≡ some (a, v)))
    pub same_made : m'.made ≡ m.made
    pub locks : (a : Ptr) → ¬ (Holds p a) → m.node_lock a ≡ true → m'.node_lock a ≡ true
    pub holds : (a : Ptr) → Holds p' a → m'.node_lock a ≡ true
    pub takes : (a : Ptr) → Holds p' a → Holds p a ⊎ ((m.node_lock a ≡ false) × At xs a)
    pub still :
        (a : Ptr)
        → m'.node_lock a ≡ true
        → Holds p' a ⊎ ((m.node_lock a ≡ true) × (Holds p a → Holds p' a))
    pub keeps : (o : Ptr × ℤ) → fresh p' ≡ some o → fresh p ≡ some o

  abbrev pub Does : Mem → List Ptr → Pc → Run (Mem × Pc × Label) → Type 0
  Does m xs p (ok (m', p', l)) = (xs' : List Ptr) × Done m xs p m' p' l xs'
  Does m xs p blocked = Unit
  Does m xs p _ = ⊥

  -- What a step from `p` is given, and owes.
  abbrev pub Given : Mem → List Ptr → Pc → Type 0
  Given m xs p =
      Fits data_of m xs p
      → ((a : Ptr) → Holds p a → m.node_lock a ≡ true)
      → Does m xs p (act data_of m p)

  -- What is known of a thread, in the order of the fields.
  abbrev pub fit :
      (m : Mem) (xs : List Ptr) (p : Pc)
      → Each (lower p) (At xs)
      → Both (lower p) (ahead p) (λ c q. m.next_node c ≡ q)
      → Both (upper p) (beyond p) (λ q r. m.next_node q ≡ r)
      → Both (fresh p) (aim p) (λ o q. m.next_node o.0 ≡ q)
      → Found data_of p
      → Each (fresh p) (IsOwned data_of m xs)
      → Fits data_of m xs p
  fit m xs p a b c d e f = record {
    at = a;
    ahead_of = b;
    beyond_of = c;
    aim_of = d;
    found = e;
    own = f;
  }

  module _ (m : Mem) (xs : List Ptr) (shape : Shape data_of m xs) (p : Pc)
      (locked : (a : Ptr) → Holds p a → m.node_lock a ≡ true) where
    -- A step that leaves memory alone.
    pub stay_Done :
        (p' : Pc) (l : Label)
        → spec l (contents data_of xs) ≡ some (contents data_of xs)
        → Fits data_of m xs p'
        → ((a : Ptr) → Holds p' a → Holds p a)
        → ((a : Ptr) → Holds p a → Holds p' a)
        → ((o : Ptr × ℤ) → fresh p' ≡ some o → fresh p ≡ some o)
        → Done m xs p m p' l xs
    stay_Done p' l accepted fits holds back keeps = record {
      shape = shape;
      fits = fits;
      accepted = accepted;
      frame = λ a h g. refl;
      kept = λ a h at. at;
      gained = λ a at. inl at;
      same_made = refl;
      locks = λ a h e. e;
      holds = λ a h. locked a (holds a h);
      takes = λ a h. inl (holds a h);
      still = λ a e. inr (e, back a);
      keeps = keeps;
    }

    pub stay :
        (p' : Pc) (l : Label)
        → spec l (contents data_of xs) ≡ some (contents data_of xs)
        → Fits data_of m xs p'
        → ((a : Ptr) → Holds p' a → Holds p a)
        → ((a : Ptr) → Holds p a → Holds p' a)
        → ((o : Ptr × ℤ) → fresh p' ≡ some o → fresh p ≡ some o)
        → (xs' : List Ptr) × Done m xs p m p' l xs'
    stay p' l accepted fits holds back keeps = (xs, stay_Done p' l accepted fits holds back keeps)

    -- Only locks change.
    same_Shape : (f : Ptr → Bool) → Shape data_of (record m { node_lock = f }) xs
    same_Shape f = record {
      linked = shape.linked;
      ascending = shape.ascending;
      proper = shape.proper;
    }

    same_Fits :
        (f : Ptr → Bool) (p' : Pc)
        → Fits data_of m xs p'
        → Fits data_of (record m { node_lock = f }) xs p'
    same_Fits f p' h = record {
      at = h.at;
      ahead_of = h.ahead_of;
      beyond_of = h.beyond_of;
      aim_of = h.aim_of;
      found = h.found;
      own = h.own;
    }

    pub acquire-Does :
        (q : Ptr) (p' : Pc)
        → At xs q
        → Fits data_of m xs p'
        → ((a : Ptr) → Holds p' a → Holds p a ⊎ (a ≡ q))
        → ((a : Ptr) → Holds p a ⊎ (a ≡ q) → Holds p' a)
        → ((o : Ptr × ℤ) → fresh p' ≡ some o → fresh p ≡ some o)
        → Does m xs p (acquire m q p')
    unfolding spec
    acquire-Does q p' at fits holds back keeps = elim (Bool-cases (m.node_lock q)) [
      | inl e ↦ rw e tt
      | inr e ↦ rw e (
        xs,
        record {
          shape = same_Shape (update m.node_lock q true);
          fits = same_Fits (update m.node_lock q true) p' fits;
          accepted = refl;
          frame = λ a h g. refl;
          kept = λ a h at. at;
          gained = λ a at. inl at;
          same_made = refl;
          locks = λ a h e. ground arith;
          holds = λ a h. elim (holds a h) [
            | inl before ↦ ground (arith, locked a before)
            | inr same ↦ ground (arith, same)
          ];
          takes = λ a h. elim (holds a h) [
            | inl before ↦ inl before
            | inr same ↦ inr (rw same (e, at))
          ];
          still = λ a e'. elim (Bool-cases (q == a)) [
            | inl is ↦ inl (back a (inr (ground arith)))
            | inr other ↦ inr (ground arith, λ h. back a (inl h))
          ];
          keeps = keeps;
        },
      )
    ]

    pub unlock-Done :
        (c : Ptr) (p' : Pc) (l : Label)
        → spec l (contents data_of xs) ≡ some (contents data_of xs)
        → Holds p c
        → Fits data_of m xs p'
        → ((a : Ptr) → Holds p' a → Holds p a × (a ≢ c))
        → ((a : Ptr) → Holds p a → a ≢ c → Holds p' a)
        → ((o : Ptr × ℤ) → fresh p' ≡ some o → fresh p ≡ some o)
        → (xs' : List Ptr) × Done m xs p (unlock m c) p' l xs'
    unlock-Done c p' l accepted held fits holds back keeps = (
      xs,
      record {
        shape = same_Shape (update m.node_lock c false);
        fits = same_Fits (update m.node_lock c false) p' fits;
        accepted = accepted;
        frame = λ a h g. refl;
        kept = λ a h at. at;
        gained = λ a at. inl at;
        same_made = refl;
        locks = λ a h e. let ne : c ≢ a = λ e'. h (subst (Holds p) e' held) in ground (arith, ne);
        holds = λ a h. ground (arith, locked a (holds a h).0, (holds a h).1);
        takes = λ a h. inl (holds a h).0;
        still = λ a e. let ne : a ≢ c = ground arith in inr (ground (arith, ne), λ h. back a h ne);
        keeps = keeps;
      },
    )

-- ===== src/SkipList/Find.antt =====
-- The search of the skip list, and `find`.
use public_conc_exp.Common.{
  update as store, ℕ, zero, suc, ◌≤◌, ◌<◌, ◌≡◌, ◌≢◌, refl, sym, ap, ◌∙◌, subst, false, not, ◌⊎◌,
  inl, inr, Bool-cases, List, [], ◌∷◌, ◌++◌, length, length-append, arith, ℤ, ◌==ℤ◌, ==ℤ_iff, ◌==◌,
  if◌then◌else◌, ok,
}
use public_conc_exp.Spec.SortedSet.{has}
use public_conc_exp.Rows.{Ptr, null}
use public_conc_exp.SkipList.{sentinel, SkipList, walk, descend, search, is_key, find}
use public_conc_exp.Rows.Row.{
  Linked, In, last, first, last-In, Linked-last, below, above, IsLower, IsUpper, below-above,
  below-IsLower, above-IsUpper, IsLower-In, In-below, below-In, above-In, is_first, has-above,
}
use public_conc_exp.SkipList.Shape.{Shape, contents, IsEnough}

pub not_null : (p : Ptr) → p ≢ null → (p == null) ≡ false
not_null p h = ground arith

module _ (s : SkipList) (key : ℤ) (i : ℕ) where
  -- From the start of a row a walk ends behind the nodes less than the key.
  walk_start :
      (fuel : ℕ) (p : Ptr) (xs ys : List Ptr)
      → Linked (λ q. s.lvls_array q i) p (xs ++ ys)
      → ((q : Ptr) → In q (xs ++ ys) → q ≢ null)
      → IsLower s.data_of key xs
      → IsUpper s.data_of key ys
      → length xs < fuel
      → walk fuel s key i p ≡ ok (last p xs)
  unfolding walk
  walk_start zero p xs ys link nn lower upper lt = absurd (omega arith)
  walk_start (suc fuel) p [] [] link nn lower upper lt = rw link
  walk_start (suc fuel) p [] (y ∷ ys) (e, link) nn lower (u, upper) lt =
      rw (e, u, not_null y (nn y (inl refl)))
  walk_start (suc fuel) p (x ∷ xs) ys (e, link) nn (l, lower) upper lt =
      rw (e, l, not_null x (nn x (inl refl)))
        (walk_start fuel x xs ys link (λ q j. nn q (inr j)) lower upper (omega arith))

  -- So does a walk from one of these nodes.
  walk_In :
      (fuel : ℕ) (p c : Ptr) (xs ys : List Ptr)
      → Linked (λ q. s.lvls_array q i) p (xs ++ ys)
      → ((q : Ptr) → In q (xs ++ ys) → q ≢ null)
      → IsLower s.data_of key xs
      → IsUpper s.data_of key ys
      → length xs < fuel
      → In c xs
      → walk fuel s key i c ≡ ok (last p xs)
  walk_In fuel p c [] ys link nn lower upper lt at = absurd at
  walk_In fuel p c (x ∷ xs) ys (e, link) nn (l, lower) upper lt (inl f) =
      rw f (walk_start fuel x xs ys link (λ q j. nn q (inr j)) lower upper (omega arith))
  walk_In fuel p c (x ∷ xs) ys (e, link) nn (l, lower) upper lt (inr at) =
      walk_In fuel x c xs ys link (λ q j. nn q (inr j)) lower upper (omega arith) at

-- What `find` makes of the nodes from the key on.
answer :
    (s : SkipList) (key : ℤ) (xs : List Ptr)
    → ((q : Ptr) → In q xs → q ≢ null)
    → let p = if is_key s key (first xs) then first xs else null in
      (not (p == null) ≡ is_first s.data_of key xs) × (p ≢ null → In p xs × (s.data_of p ≡ key))
answer s key [] nn = (refl, λ ne. absurd (ne refl))
answer s key (x ∷ xs) nn =
    let n = not_null x (nn x (inl refl)) in
    elim (Bool-cases (s.data_of x ==ℤ key)) [
      | inl e ↦ rw (n, e, n) (refl, λ ne. (inl refl, ground (arith, ==ℤ_iff (s.data_of x) key)))
      | inr e ↦ rw (n, e) (refl, λ ne. absurd (ne refl))
    ]

module _ (s : SkipList) (key : ℤ) (rows : ℕ → List Ptr) where
  -- The nodes of a level that are less than the key, and the others.
  abbrev pub front : ℕ → List Ptr
  front i = below s.data_of key (rows i)

  abbrev pub back : ℕ → List Ptr
  back i = above s.data_of key (rows i)

  pub parts : (i : ℕ) → front i ++ back i ≡ rows i
  parts i = below-above s.data_of key (rows i)

  -- What the search leaves in `update`.
  abbrev pub cuts : ℕ → (ℕ → Ptr) → ℕ → Ptr
  cuts zero update = update
  cuts (suc i) update = cuts i (store update i (last sentinel (front i)))

  cuts-above : (k : ℕ) (update : ℕ → Ptr) (j : ℕ) → k ≤ j → cuts k update j ≡ update j
  cuts-above zero update j le = refl
  cuts-above (suc k) update j le =
      cuts-above k (store update k (last sentinel (front k))) j (omega arith) ∙ ground arith

  pub cuts_lem :
      (k : ℕ) (update : ℕ → Ptr) (j : ℕ) → j < k → cuts k update j ≡ last sentinel (front j)
  cuts_lem zero update j lt = absurd (omega arith)
  cuts_lem (suc k) update j lt = elim (Bool-cases (k == j)) [
    | inl e ↦
        let here = store update k (last sentinel (front k)) in
        cuts-above k here j (ground arith)
        ∙ rw e (ap (λ m. last sentinel (front m)) {x = k} {y = j} (ground arith))
    | inr e ↦ cuts_lem k (store update k (last sentinel (front k))) j (ground arith)
  ]

module _ (s : SkipList) (key : ℤ) (rows : ℕ → List Ptr) (shape : Shape s rows) where
  -- The last node that is less leads to the first one that is not.
  pub next_lem :
      (i : ℕ)
      → i < s.levels
      → s.lvls_array (last sentinel (front s key rows i)) i ≡ first (back s key rows i)
  next_lem i lt =
      Linked-last (λ q. s.lvls_array q i) sentinel (front s key rows i) (back s key rows i)
        (subst (Linked (λ q. s.lvls_array q i) sentinel) (sym (parts s key rows i))
          (shape.linked i lt))

module _ (fuel : ℕ) (s : SkipList) (key : ℤ) (rows : ℕ → List Ptr) (shape : Shape s rows)
    (enough : IsEnough fuel s rows) where
  -- Where a search may come to a level: the sentinel, or a node of the level that is less.
  abbrev Before : ℕ → Ptr → Type 0
  Before i c = (c ≡ sentinel) ⊎ In c (front s key rows i)

  length-front : (i : ℕ) → i < s.levels → length (front s key rows i) < fuel
  length-front i lt = omega (
    arith,
    length-append (front s key rows i) (back s key rows i),
    ap (λ r. length r) (parts s key rows i),
    enough i lt,
  )

  walk-Before :
      (i : ℕ) (c : Ptr)
      → i < s.levels
      → Before i c
      → walk fuel s key i c ≡ ok (last sentinel (front s key rows i))
  walk-Before i c lt before =
      let link =
        subst (Linked (λ q. s.lvls_array q i) sentinel) (sym (parts s key rows i))
          (shape.linked i lt) in
      let nn = λ (q : Ptr) (j : In q (front s key rows i ++ back s key rows i)).
        (shape.proper i lt q (subst (In q) (parts s key rows i) j)).0 in
      let lower = below-IsLower s.data_of key (rows i) in
      let upper = above-IsUpper s.data_of key (rows i) (shape.ascending i lt) in
      elim before [
        | inl e ↦ rw e (
            walk_start s key i fuel sentinel (front s key rows i) (back s key rows i) link nn lower
              upper (length-front i lt))
        | inr j ↦
            walk_In s key i fuel sentinel c (front s key rows i) (back s key rows i) link nn lower
              upper (length-front i lt) j
      ]

  -- Where a walk ends, the search may come to the level below.
  Before-last : (i : ℕ) → suc i < s.levels → Before i (last sentinel (front s key rows (suc i)))
  Before-last i lt = elim (last-In sentinel (front s key rows (suc i))) [
    | inl e ↦ inl e
    | inr j ↦
        let c = last sentinel (front s key rows (suc i)) in
        let less =
          IsLower-In s.data_of key c (front s key rows (suc i))
            (below-IsLower s.data_of key (rows (suc i))) j in
        let in_row = shape.nested i lt c (below-In s.data_of key c (rows (suc i)) j) in
        inr (In-below s.data_of key c (rows i) (shape.ascending i (omega arith)) in_row less)
  ]

  descend_lem :
      (k : ℕ) (c : Ptr) (update : ℕ → Ptr)
      → suc k ≤ s.levels
      → Before k c
      → descend fuel s key (suc k) c update
        ≡ ok (last sentinel (front s key rows 0), cuts s key rows (suc k) update)
  unfolding descend
  descend_lem zero c update le before = rw (walk-Before zero c le before)
  descend_lem (suc k) c update le before = rw (walk-Before (suc k) c le before) (
      descend_lem k (last sentinel (front s key rows (suc k)))
        (store update (suc k) (last sentinel (front s key rows (suc k)))) (omega arith)
        (Before-last k le))

  descend_start :
      (k : ℕ)
      → 0 < k
      → k ≤ s.levels
      → descend fuel s key k sentinel (λ i. null)
        ≡ ok (last sentinel (front s key rows 0), cuts s key rows k (λ i. null))
  descend_start zero lt le = absurd (omega arith)
  descend_start (suc k) lt le = descend_lem k sentinel (λ i. null) le (inl refl)

  -- The search ends on the lowest level behind the nodes that are less.
  pub search_lem :
      0 < s.levels
      → search fuel s key
        ≡ ok (last sentinel (front s key rows 0), cuts s key rows s.levels (λ i. null))
  search_lem lt = descend_start s.levels lt (omega arith)

  first_lem :
      (xs : List Ptr)
      → ((q : Ptr) → In q xs → q ≢ null)
      → is_key s key (first xs) ≡ is_first s.data_of key xs
  first_lem [] nn = refl
  first_lem (x ∷ xs) nn = rw (not_null x (nn x (inl refl)))

  pub key_lem : 0 < s.levels → is_key s key (first (back s key rows 0)) ≡ has key (contents s rows)
  key_lem lt =
      first_lem (back s key rows 0)
        (λ q i. (shape.proper 0 lt q (above-In s.data_of key q (rows 0) i)).0)
      ∙ sym (has-above s.data_of key (rows 0) (shape.ascending 0 lt))

  -- On a skip list of at least one level, with more fuel than a row has nodes, `find` ends with a node
  -- of the lowest row whose value is the key, or with null, and with null exactly if the key is not
  -- among the contents.
  pub skip_find :
      0 < s.levels
      → (p : Ptr) × (find fuel s key ≡ ok p)
        × (not (p == null) ≡ has key (contents s rows))
        × (p ≢ null → In p (rows 0) × (s.data_of p ≡ key))
  unfolding find
  skip_find lt =
      let row = rows 0 in
      let b = back s key rows 0 in
      let (tested, found) =
        answer s key b (λ q i. (shape.proper 0 lt q (above-In s.data_of key q row i)).0) in
      (
        if is_key s key (first b) then first b else null,
        rw (search_lem lt, next_lem s key rows shape 0 lt),
        tested ∙ sym (has-above s.data_of key row (shape.ascending 0 lt)),
        λ ne. let (i, e) = found ne in (above-In s.data_of key _ row i, e),
      )

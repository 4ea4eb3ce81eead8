-- ===== src/HandList/Threads/Store.antt =====
-- The stores of a thread: to its own node, and to the pointer that links a node or takes one out.
use public_conc_exp.Common.{
  update, update_here, update_other, ◌≡◌, ◌≢◌, refl, sym, ap, ◌∙◌, subst, true, false, not, ◌&&◌,
  ◌⊎◌, inl, inr, Bool-cases, some, List, ◌∷◌, ◌++◌, arith, ℤ, ◌<ℤ◌, ltb_ℤ, ◌==ℤ◌, ==ℤ_refl, ◌==◌,
}
use public_conc_exp.Spec.SortedSet.{IsAscending, has, put, put-IsAscending, drop_value-IsAscending}
use public_conc_exp.Spec.Requests.{done}
use public_conc_exp.Rows.{Ptr, null}
use public_conc_exp.Rows.Row.{Linked, In, last, first, below, above, below-above, has-above}
use public_conc_exp.Rows.Change.{Apart, Apart-ascending, Linked-insert, In-insert, In-more}
use public_conc_exp.Rows.Drop.{
  dropped, drop_value-dropped, dropped-In, In-dropped, first-above, Linked-rest,
}
use public_conc_exp.Rows.Cut.{next_greater, walk_cut, has-first, contents-insert}
use public_conc_exp.HandList.Threads.{
  list, Mem, Pc, ins_store, leave, Label, inserted, removed, lead_to,
}
use public_conc_exp.HandList.Threads.Shape.{
  spec, fresh, At, contents, Shape, Behind, Before, IsOwned, Fits, Holds,
}
use public_conc_exp.HandList.Threads.Local.{Done, fit}

module _ (data_of : Ptr → ℤ) (m : Mem) (xs : List Ptr) (shape : Shape data_of m xs) where
  solid : (a : Ptr) → In a xs → a ≢ null
  solid a i = (shape.proper a i).0

  row_Apart : Apart list xs
  row_Apart = Apart-ascending data_of list xs solid shape.ascending

  -- Where a value belongs: the places that a thread has found by its walk.
  module _ (v : ℤ) (c q : Ptr) (at : At xs c) (behind : Behind data_of v c)
      (before : (q ≡ null) ⊎ (ltb_ℤ (data_of q) v ≡ false)) (lead : m.next_node c ≡ q) where
    place : (c ≡ list) ⊎ (In c xs × (data_of c <ℤ v))
    place = elim at [ inl e ↦ inl e | inr i ↦ elim behind [ inl e ↦ inl e | inr lt ↦ inr (i, lt) ] ]

    pub cut : (last list (below data_of v xs) ≡ c) × (first (above data_of v xs) ≡ q)
    cut =
        walk_cut data_of v m.next_node list c q xs shape.linked shape.ascending solid place lead
          before

    -- The value is in the list exactly if the next node has it.
    pub has-cut : has v (contents data_of xs) ≡ (not (q == null) && (data_of q ==ℤ v))
    has-cut =
        subst (λ a. has v (contents data_of xs) ≡ (not (a == null) && (data_of a ==ℤ v))) cut.1
          (has-first data_of v xs shape.ascending solid)

  -- A place does not lead to itself.
  pub lead_ne : (c q : Ptr) → At xs c → m.next_node c ≡ q → q ≢ null → q ≢ c
  lead_ne c q at lead ne e = elim at [
    | inl h ↦ ne (e ∙ h)
    | inr i ↦
        let lt =
          next_greater data_of m.next_node list c q xs shape.linked shape.ascending i lead ne in
        absurd (omega (arith, subst (λ a. data_of c <ℤ data_of a) e lt))
  ]

  parts : (v : ℤ) → below data_of v xs ++ above data_of v xs ≡ xs
  parts v = below-above data_of v xs

  module _ (v : ℤ) (n c q : Ptr) (own : IsOwned data_of m xs (n, v)) (at : At xs c)
      (behind : Behind data_of v c) (before : Before data_of v q) (lead : m.next_node c ≡ q)
      (aim : m.next_node n ≡ q) where
    after_stop : (q ≡ null) ⊎ (ltb_ℤ (data_of q) v ≡ false)
    after_stop = elim before [ inl e ↦ inl e | inr lt ↦ inr (ground arith) ]

    is_missing : has v (contents data_of xs) ≡ false
    is_missing =
        has-cut v c q at behind after_stop lead
        ∙ elim before [ inl e ↦ rw e | inr lt ↦ ground arith ]

    n_c : n ≢ c
    n_c e = elim at [ inl h ↦ own.0 (e ∙ h) | inr i ↦ own.3 (subst (λ b. In b xs) (sym e) i) ]

    abbrev more : List Ptr
    more = below data_of v xs ++ n ∷ above data_of v xs

    more_linked : Linked (update m.next_node c n) list more
    more_linked =
        let (no_null, _, _, apart) = own in
        let (ends, starts) = cut v c q at behind after_stop lead in
        Linked-insert m.next_node (update m.next_node c n) n list (below data_of v xs)
          (above data_of v xs) (subst (Linked m.next_node list) (sym (parts v)) shape.linked)
          (subst (Apart list) (sym (parts v)) row_Apart) no_null
          (λ a i e. apart (subst (λ b. In b xs) e (subst (In a) (parts v) i)))
          (rw ends (update_here m.next_node c n))
          (update_other m.next_node c n n n_c ∙ aim ∙ sym starts)
          (λ a ne e. update_other m.next_node c n a (λ h. e (h ∙ sym ends)))

    more-contents : contents data_of more ≡ put v (contents data_of xs)
    more-contents = contents-insert data_of v n xs shape.ascending is_missing own.2

    more_In : (a : Ptr) → In a more → (a ≡ n) ⊎ In a xs
    more_In a i = elim (In-insert a n (below data_of v xs) (above data_of v xs) i) [
      | inl e ↦ inl e
      | inr j ↦ inr (subst (In a) (parts v) j)
    ]

    In_more : (a : Ptr) → In a xs → In a more
    In_more a i =
        In-more a n (below data_of v xs) (above data_of v xs) (inr (subst (In a) (sym (parts v)) i))

    more-Shape : Shape data_of (lead_to m c n) more
    more-Shape = record {
      linked = more_linked;
      ascending =
          subst IsAscending (sym more-contents)
            (put-IsAscending v (contents data_of xs) shape.ascending);
      proper = λ a i. elim (more_In a i) [ inl e ↦ rw e (own.0, own.1) | inr j ↦ shape.proper a j ];
    }

    -- The store of `insert`.
    pub insert_Done :
        ((a : Ptr) → Holds (ins_store v n c q) a → m.node_lock a ≡ true)
        → (xs' : List Ptr) × Done data_of m xs
            (ins_store v n c q)
            (lead_to m c n)
            (leave c (done true))
            (inserted v true)
            xs'
    unfolding spec
    insert_Done locked = (
      more,
      record {
        shape = more-Shape;
        fits =
            fit data_of (lead_to m c n) more (leave c (done true))
              (elim at [ inl e ↦ inl e | inr i ↦ inr (In_more c i) ]) tt tt tt tt tt;
        accepted = rw (is_missing, more-contents);
        frame = λ a h g. update_other m.next_node c n a (λ e. h (inl (ap some (sym e))));
        kept = λ a h i. elim i [ inl e ↦ inl e | inr j ↦ inr (In_more a j) ];
        gained = λ a i. elim (more_In a i) [
          | inl e ↦ inr (v, ap (λ b. some (b, v)) (sym e))
          | inr j ↦ inl j
        ];
        same_made = refl;
        locks = λ a h e. e;
        holds = λ a h. locked a h;
        takes = λ a h. inl h;
        still = λ a e. inr (e, λ h. h);
        keeps = λ o e. cc;
      },
    )

  -- The node `q` behind `c` is taken out.
  module _ (c q r : Ptr) (ne : q ≢ null) (at : At xs c) (lead : m.next_node c ≡ q)
      (beyond : m.next_node q ≡ r) where
    abbrev v : ℤ
    v = data_of q

    Behind-lower : Behind data_of v c
    Behind-lower = elim at [
      | inl e ↦ inl e
      | inr i ↦
          inr (next_greater data_of m.next_node list c q xs shape.linked shape.ascending i lead ne)
    ]

    stop : (q ≡ null) ⊎ (ltb_ℤ (data_of q) v ≡ false)
    stop = inr (ground arith)

    is_held : has v (contents data_of xs) ≡ true
    is_held =
        let solid_q : (q == null) ≡ false = ground (arith, ne) in
        has-cut v c q at Behind-lower stop lead ∙ rw (solid_q, ==ℤ_refl (data_of q))

    abbrev fewer : List Ptr
    fewer = dropped data_of v xs

    fewer_linked : Linked (update m.next_node c r) list fewer
    fewer_linked =
        let (ends, starts) = cut v c q at Behind-lower stop lead in
        Linked-rest data_of v m.next_node (update m.next_node c r) list q (below data_of v xs)
          (above data_of v xs) (subst (Linked m.next_node list) (sym (parts v)) shape.linked)
          (subst (Apart list) (sym (parts v)) row_Apart)
          (sym (has-above data_of v xs shape.ascending) ∙ is_held) starts
          (rw ends (update_here m.next_node c r) ∙ sym beyond)
          (λ a e. update_other m.next_node c r a (λ h. e (h ∙ sym ends)))

    fewer-Shape : Shape data_of (lead_to m c r) fewer
    fewer-Shape = record {
      linked = fewer_linked;
      ascending =
          subst IsAscending (drop_value-dropped data_of v xs)
            (drop_value-IsAscending v (contents data_of xs) shape.ascending);
      proper = λ a i. shape.proper a (dropped-In data_of v a xs shape.ascending i).0;
    }

    In_fewer : (a : Ptr) → a ≢ q → In a xs → In a fewer
    In_fewer a other i = In-dropped data_of v a xs i (elim (Bool-cases (data_of a ==ℤ v)) [
      | inl e ↦
          let same : data_of a ≡ v = ground arith in
          absurd (
            other (
              sym (first-above data_of v a xs shape.ascending i same)
              ∙ (cut v c q at Behind-lower stop lead).1))
      | inr e ↦ e
    ])

    -- The store of `remove` and of `removeFirst`.
    pub remove_Done :
        (p p' : Pc) (l : Label)
        → Holds p c
        → Holds p q
        → ((a : Ptr) → Holds p a → m.node_lock a ≡ true)
        → spec l (contents data_of xs) ≡ some (contents data_of fewer)
        → Fits data_of (lead_to m c r) fewer p'
        → ((a : Ptr) → Holds p' a → Holds p a)
        → ((a : Ptr) → Holds p a → Holds p' a)
        → ((o : Ptr × ℤ) → fresh p' ≡ some o → fresh p ≡ some o)
        → (xs' : List Ptr) × Done data_of m xs p (lead_to m c r) p' l xs'
    remove_Done p p' l held_c held_q locked accepted fits holds back keeps = (
      fewer,
      record {
        shape = fewer-Shape;
        fits = fits;
        accepted = accepted;
        frame = λ a h g. update_other m.next_node c r a (λ e. h (subst (Holds p) (sym e) held_c));
        kept = λ a h i. elim i [
          | inl e ↦ inl e
          | inr j ↦ inr (In_fewer a (λ e. h (subst (Holds p) (sym e) held_q)) j)
        ];
        gained = λ a i. inl (dropped-In data_of v a xs shape.ascending i).0;
        same_made = refl;
        locks = λ a h e. e;
        holds = λ a h. locked a (holds a h);
        takes = λ a h. inl (holds a h);
        still = λ a e. inr (e, back a);
        keeps = keeps;
      },
    )

    -- The place behind which the node was is still there.
    pub At-fewer : At fewer c
    At-fewer = elim at [
      | inl e ↦ inl e
      | inr i ↦
          let lt =
            next_greater data_of m.next_node list c q xs shape.linked shape.ascending i lead ne in
          inr (In_fewer c (λ e. absurd (omega (arith, subst (λ a. data_of a <ℤ data_of q) e lt))) i)
    ]

    pub removed_accepted :
        spec (removed v true) (contents data_of xs) ≡ some (contents data_of fewer)
    unfolding spec
    removed_accepted = rw (is_held, drop_value-dropped data_of v xs)

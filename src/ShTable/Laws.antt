-- ===== src/ShTable/Laws.antt =====
-- The table as a set of numbers that are not negative, and where it stops being one.
use public_conc_exp.Common.{
  ℕ, ◌≡◌, refl, ap, ◌∙◌, inl, inr, true, not, ◌||◌, List, [], ◌∷◌, arith, ℤ, pos, ◌≤ℤ◌, ◌==ℤ◌,
  ==ℤ_iff, minus_one, ◌==◌, if◌then◌else◌, Run, ok, fault, ◌>>=◌, Bool-cases, subst,
}
use public_conc_exp.Spec.SortedSet.{has, IsAscending, put, has-put, put-IsAscending}
use public_conc_exp.ShTable.Bucket
use public_conc_exp.ShTable.Bucket.{SllHand, new_list}
use public_conc_exp.ShTable.{Table, update, new_table, hash_function, find, insert, remove}
use public_conc_exp.ShTable.Hash.{most, index, hash_function-index}
use public_conc_exp.ShTable.BucketLaws.{quiet, AllNat, insert-put, insert_edges, search_lem}

-- A bucket that nothing has been removed from: new, or an ascending list that is not empty.
abbrev pub Holds : SllHand → List ℤ → Type 0
Holds b [] = b ≡ new_list
Holds b (x ∷ xs) = (b ≡ quiet (x ∷ xs)) × IsAscending (x ∷ xs) × AllNat (x ∷ xs)

-- `sets i` is what bucket `i` holds.
abbrev pub IsTable : Table → (ℕ → List ℤ) → Type 0
IsTable t sets = (i : ℕ) → Holds (t i) (sets i)

put-AllNat : (v : ℤ) (xs : List ℤ) → pos 0 ≤ℤ v → AllNat xs → AllNat (put v xs)
unfolding put
put-AllNat v [] h a = (h, tt)
put-AllNat v (x ∷ xs) h a = ground (arith, put-AllNat v xs h a.1)

Holds-put :
    (v : ℤ) (xs : List ℤ) (b : SllHand)
    → b ≡ quiet (put v xs)
    → IsAscending (put v xs)
    → AllNat (put v xs)
    → Holds b (put v xs)
unfolding put
Holds-put v [] b e s a = (e, s, a)
Holds-put v (x ∷ xs) b e s a = ground arith

-- What `insert` does to one bucket.
bucket-insert :
    (v : ℤ) (xs : List ℤ) (b : SllHand)
    → pos 0 ≤ℤ v
    → Holds b xs
    → (Bucket.insert v b ≡ ok (quiet (put v xs), not (has v xs)))
      × Holds (quiet (put v xs)) (put v xs)
unfolding has put
bucket-insert v [] b h e = (rw e (insert_edges v).0, Holds-put v [] _ refl (tt, tt) (h, tt))
bucket-insert v (x ∷ xs) b h (e, s, a) = (
  rw e (insert-put v x xs s a.0),
  Holds-put v (x ∷ xs) _ refl (put-IsAscending v (x ∷ xs) s) (put-AllNat v (x ∷ xs) h a),
)

bucket-search :
    (w : ℤ) (xs : List ℤ) (b : SllHand)
    → pos 0 ≤ℤ w
    → Holds b xs
    → Bucket.search w b ≡ (if has w xs then w else minus_one)
unfolding has
bucket-search w [] b h e = rw e (unfold Bucket.search in ground arith)
bucket-search w (x ∷ xs) b h (e, s, a) = rw e (search_lem w (x ∷ xs))

-- The sets after an insertion.
abbrev pub put_into : ℤ → (ℕ → List ℤ) → ℕ → List ℤ
put_into v sets i = if index v == i then put v (sets i) else sets i

has-put_into :
    (w v : ℤ) (sets : ℕ → List ℤ)
    → has w (put_into v sets (index w)) ≡ ((w ==ℤ v) || has w (sets (index w)))
has-put_into w v sets = elim (Bool-cases (index v == index w)) [
  | inl e ↦ rw e (has-put w v (sets (index w)))
  | inr e ↦ rw e (ground (arith, ==ℤ_iff w v))
]

-- On a table from which nothing has been removed, `insert` of a number from 0 to 46341 ends, returns
-- whether the number was new, and afterwards `find` answers as before for every other number from 0 to
-- 46341, and finds this one.
pub insert-find :
    (v : ℤ) (t : Table) (sets : ℕ → List ℤ)
    → pos 0 ≤ℤ v
    → v ≤ℤ most
    → IsTable t sets
    → (u : Table) × (insert v t ≡ ok (u, not (has v (sets (index v)))))
      × IsTable u (put_into v sets)
      × ((w : ℤ)
          → pos 0 ≤ℤ w
          → w ≤ℤ most
          → find w u ≡ ok (if (w ==ℤ v) || has w (sets (index w)) then w else minus_one))
unfolding insert find
insert-find v t sets h small is =
    let i = index v in
    let (ran, held) = bucket-insert v (sets i) (t i) h (is i) in
    let u : Table = update t i (quiet (put v (sets i))) in
    let whole : IsTable u (put_into v sets) = updated i held in
    (
      u,
      rw (hash_function-index v small, ran),
      whole,
      λ w k small'. rw (hash_function-index w small') (
          ap ok (
            bucket-search w (put_into v sets (index w)) (u (index w)) k (whole (index w))
            ∙ rw (has-put_into w v sets))),
    )
  where
    updated :
        (i : ℕ)
        → Holds (quiet (put v (sets i))) (put v (sets i))
        → (j : ℕ)
        → Holds (update t i (quiet (put v (sets i))) j) (if i == j then put v (sets j) else sets j)
    updated i held j = elim (Bool-cases (i == j)) [
      | inl e ↦
          let same : i ≡ j = ground arith in
          rw e (subst (λ k. Holds (quiet (put v (sets i))) (put v (sets k))) same held)
      | inr e ↦ rw e (is j)
    ]

-- No value is above 46341, so no product of the hash function overflows.
abbrev pub AllSmall : List ℤ → Type 0
AllSmall [] = Unit
AllSmall (v ∷ vs) = (v ≤ℤ most) × AllSmall vs

-- All the values in turn.
unfoldable pub insert_all : List ℤ → Table → Run Table
insert_all [] t = ok t
insert_all (v ∷ vs) t = do (u, fresh) ← insert v t; insert_all vs u

insert_all_lem :
    (vs : List ℤ) (t : Table) (sets : ℕ → List ℤ)
    → AllNat vs
    → AllSmall vs
    → IsTable t sets
    → (u : Table) × (insert_all vs t ≡ ok u)
      × ((w : ℤ)
          → pos 0 ≤ℤ w
          → w ≤ℤ most
          → find w u ≡ ok (if has w vs || has w (sets (index w)) then w else minus_one))
unfolding insert_all has
insert_all_lem [] t sets a small is = (
  t,
  refl,
  λ w k small'.
      unfold find in
      rw (hash_function-index w small')
        (ap ok (bucket-search w (sets (index w)) (t (index w)) k (is (index w)))),
)
insert_all_lem (v ∷ vs) t sets a small is =
    let (u, ran, held, _) = insert-find v t sets a.0 small.0 is in
    let (z, rest, finds) = insert_all_lem vs u (put_into v sets) a.1 small.1 held in
    (z, rw ran rest, λ w k small'. finds w k small' ∙ rw (has-put_into w v sets) (ground arith))

-- From a new table, inserting any numbers from 0 to 46341 never faults, and `find` then finds, among the
-- numbers from 0 to 46341, exactly those.
pub insert_all-find :
    (vs : List ℤ)
    → AllNat vs
    → AllSmall vs
    → (u : Table) × (insert_all vs new_table ≡ ok u)
      × ((w : ℤ) → pos 0 ≤ℤ w → w ≤ℤ most → find w u ≡ ok (if has w vs then w else minus_one))
unfolding has
insert_all-find vs a small =
    let (u, ran, finds) = insert_all_lem vs new_table (λ i. []) a small (λ i. refl) in
    (u, ran, λ w k small'. finds w k small' ∙ ground arith)

update_at : (t : Table) (i : ℕ) (b : SllHand) → update t i b i ≡ b
update_at t i b = ground arith

remove_single : (v : ℤ) → Bucket.remove v (quiet (v ∷ [])) ≡ ok (quiet [], v)
unfolding Bucket.remove
remove_single v = ground arith

-- After the only value of a bucket, a number from 0 to 46341, has been removed, the next insertion into
-- that bucket dereferences a null pointer.
pub remove-insert_faults :
    (v w : ℤ)
    → pos 0 ≤ℤ v
    → v ≤ℤ most
    → hash_function w ≡ hash_function v
    → (t : Table) × (u : Table) × (insert v new_table ≡ ok (t, true))
      × (remove v t ≡ ok (u, v))
      × (insert w u ≡ fault)
unfolding insert remove
remove-insert_faults v w h small e =
    let at = hash_function-index v small in
    let i = index v in
    (
      update new_table i (quiet (v ∷ [])),
      update (update new_table i (quiet (v ∷ []))) i (quiet []),
      rw (at, (insert_edges v).0),
      rw (at, update_at new_table i (quiet (v ∷ [])), remove_single v),
      rw (e, at, update_at (update new_table i (quiet (v ∷ []))) i (quiet []), (insert_edges w).1),
    )

-- ===== src/HandList/Threads/Pop.antt =====
-- The steps of `removeFirst`, and the release of the last lock of every call.
use public_conc_exp.Common.{
  ◌≡◌, ◌≢◌, refl, sym, ◌∙◌, false, inl, inr, Bool-cases, none, some, List, [], ◌∷◌, arith, ℤ, ltb_ℤ,
  ==ℤ_refl, ◌==◌, minus_one,
}
use public_conc_exp.Spec.Requests.{Reply, got}
use public_conc_exp.Rows.{Ptr, null}
use public_conc_exp.Rows.Row.{Linked, In}
use public_conc_exp.Rows.Drop.{dropped}
use public_conc_exp.Rows.Cut.{next-In}
use public_conc_exp.HandList.Threads.{
  list, Mem, idle, pop_list, pop_head, pop_lock, pop_skip, pop_store, pop_unlock_node,
  pop_unlock_list, pop_data, leave, silent, took, returned, act, lead_to,
}
use public_conc_exp.HandList.Threads.Shape.{spec, contents, Shape}
use public_conc_exp.HandList.Threads.Local.{Given, fit, stay, acquire-Does, unlock-Done, owns_none}
use public_conc_exp.HandList.Threads.Store.{remove_Done, At-fewer}

-- The first node is taken from an empty list or from the front.
took_empty :
    (data_of : Ptr → ℤ) (f : Ptr → Ptr) (xs : List Ptr)
    → Linked f list xs
    → ((a : Ptr) → In a xs → a ≢ null)
    → f list ≡ null
    → spec (took none) (contents data_of xs) ≡ some (contents data_of xs)
unfolding spec
took_empty data_of f [] link solid e = refl
took_empty data_of f (x ∷ xs) (h, link) solid e = absurd (solid x (inl refl) (sym h ∙ e))

took_first :
    (data_of : Ptr → ℤ) (f : Ptr → Ptr) (q : Ptr) (xs : List Ptr)
    → Linked f list xs
    → q ≢ null
    → f list ≡ q
    → spec (took (some (data_of q))) (contents data_of xs)
      ≡ some (contents data_of (dropped data_of (data_of q) xs))
unfolding spec
took_first data_of f q [] link ne e = absurd (ne (sym e ∙ link))
took_first data_of f q (x ∷ xs) (h, link) ne e =
    let not_less : ltb_ℤ (data_of q) (data_of q) ≡ false = ground arith in
    rw (sym h ∙ e, not_less, ==ℤ_refl (data_of q))

module _ (data_of : Ptr → ℤ) (m : Mem) (xs : List Ptr) (shape : Shape data_of m xs) where
  pub pop_list_Does : Given data_of m xs pop_list
  unfolding act
  pop_list_Does f locked =
      acquire-Does data_of m xs shape pop_list locked list pop_head (inl refl)
        (fit data_of m xs pop_head (inl refl) tt tt tt tt tt) (λ a h. ground arith)
        (λ a h. ground arith) (λ o e. e)

  pub pop_head_Does : Given data_of m xs pop_head
  unfolding act spec
  pop_head_Does f locked = elim (Bool-cases (m.next_node list == null)) [
    | inl e ↦ rw e (
        stay data_of m xs shape pop_head locked (leave list (got minus_one)) (took none)
          (took_empty data_of m.next_node xs shape.linked (λ a i. (shape.proper a i).0)
            (ground arith))
          (fit data_of m xs (leave list (got minus_one)) (inl refl) tt tt tt tt tt) (λ a i. i)
          (λ a i. i) (owns_none pop_head))
    | inr e ↦
        let q = m.next_node list in
        rw e (
          stay data_of m xs shape pop_head locked (pop_lock q) silent refl
            (fit data_of m xs (pop_lock q) (inl refl) refl tt tt (ground arith) tt) (λ a i. i)
            (λ a i. i) (λ o i. i))
  ]

  pub pop_lock_Does : (q : Ptr) → Given data_of m xs (pop_lock q)
  unfolding act
  pop_lock_Does q f locked =
      acquire-Does data_of m xs shape (pop_lock q) locked q (pop_skip q)
        (inr (next-In m.next_node list list q xs shape.linked f.at f.ahead_of f.found))
        (fit data_of m xs (pop_skip q) f.at f.ahead_of tt tt f.found tt) (λ a h. ground arith)
        (λ a h. ground arith) (λ o e. e)

  pub pop_skip_Does : (q : Ptr) → Given data_of m xs (pop_skip q)
  unfolding act spec
  pop_skip_Does q f locked =
      let r = m.next_node q in
      stay data_of m xs shape (pop_skip q) locked (pop_store q r) silent refl
        (fit data_of m xs (pop_store q r) f.at f.ahead_of refl tt f.found tt) (λ a i. i) (λ a i. i)
        (λ o i. i)

  pub pop_store_Does : (q r : Ptr) → Given data_of m xs (pop_store q r)
  unfolding act
  pop_store_Does q r f locked =
      remove_Done data_of m xs shape list q r f.found f.at f.ahead_of f.beyond_of (pop_store q r)
        (pop_unlock_node q) (took (some (data_of q))) (inl refl) (inr refl) locked
        (took_first data_of m.next_node q xs shape.linked f.found f.ahead_of)
        (fit data_of (lead_to m list r) _ (pop_unlock_node q)
          (At-fewer data_of m xs shape list q r f.found f.at f.ahead_of f.beyond_of) tt tt tt
          f.found tt)
        (λ a i. i) (λ a i. i) (λ o i. i)

  pub pop_unlock_node_Does : (q : Ptr) → Given data_of m xs (pop_unlock_node q)
  unfolding act spec
  pop_unlock_node_Does q f locked =
      unlock-Done data_of m xs shape (pop_unlock_node q) locked q (pop_unlock_list q) silent refl
        (inr refl) (fit data_of m xs (pop_unlock_list q) f.at tt tt tt tt tt)
        (λ a h. (ground arith, ground (arith, f.found))) (λ a h h'. ground arith) (λ o e. e)

  pub pop_unlock_list_Does : (q : Ptr) → Given data_of m xs (pop_unlock_list q)
  unfolding act spec
  pop_unlock_list_Does q f locked =
      unlock-Done data_of m xs shape (pop_unlock_list q) locked list (pop_data q) silent refl
        (inl refl) (fit data_of m xs (pop_data q) tt tt tt tt tt tt) (λ a h. absurd (ground arith))
        (λ a h h'. absurd (ground arith)) (λ o e. e)

  pub pop_data_Does : (q : Ptr) → Given data_of m xs (pop_data q)
  unfolding act spec
  pop_data_Does q f locked =
      stay data_of m xs shape (pop_data q) locked idle (returned (got (data_of q))) refl
        (fit data_of m xs idle tt tt tt tt tt tt) (λ a i. i) (λ a i. i) (λ o i. i)

  pub leave_Does : (c : Ptr) (reply : Reply) → Given data_of m xs (leave c reply)
  unfolding act spec
  leave_Does c reply f locked =
      unlock-Done data_of m xs shape (leave c reply) locked c idle (returned reply) refl (inl refl)
        (fit data_of m xs idle tt tt tt tt tt tt) (λ a h. absurd (ground arith))
        (λ a h h'. absurd (ground arith)) (λ o e. e)

  pub idle_Does : Given data_of m xs idle
  unfolding act spec
  idle_Does f locked =
      stay data_of m xs shape idle locked idle silent refl (fit data_of m xs idle tt tt tt tt tt tt)
        (λ a i. i) (λ a i. i) (λ o i. i)

-- ===== src/Psim/Waiting.antt =====
-- What an object owes to a list of announced requests, and which requests of a `Psim` wait.
use public_conc_exp.Common.{
  update, ℕ, zero, suc, ◌<◌, ◌≡◌, refl, Bool, Option, none, some, List, [], ◌∷◌, ◌++◌, arith, ℤ,
  if◌then◌else◌,
}
use public_conc_exp.Psim.{FuncType, add_type, remove_type, none_type, FuncArray, Request, differ}

-- The threads below `n` whose toggle differs from `applied`, with their requests, in order.
unfoldable pub waiting : ℕ → (ℕ → Request) → (toggles applied : ℕ → Bool) → List (ℕ × Request)
waiting zero announced toggles applied = []
waiting (suc i) announced toggles applied =
    if differ (toggles i) (applied i)
    then waiting i announced toggles applied ++ (i, announced i) ∷ []
    else waiting i announced toggles applied

-- Every reply is the one `rvals` has for its thread, which is below `n`.
abbrev pub Replied : (ℕ → ℤ) → ℕ → List (ℕ × ℤ) → Type 0
Replied rvals n [] = Unit
Replied rvals n (r ∷ rs) = (r.0 < n) × (rvals r.0 ≡ r.1) × Replied rvals n rs

pub Replied-more :
    (rvals : ℕ → ℤ) (n : ℕ) (rs : List (ℕ × ℤ)) → Replied rvals n rs → Replied rvals (suc n) rs
Replied-more rvals n [] h = tt
Replied-more rvals n (r ∷ rs) (lt, e, h) = (omega arith, e, Replied-more rvals n rs h)

pub Replied-snoc :
    (rvals : ℕ → ℤ) (n : ℕ) (v : ℤ) (rs : List (ℕ × ℤ))
    → Replied rvals n rs
    → Replied (update rvals n v) (suc n) (rs ++ (n, v) ∷ [])
Replied-snoc rvals n v [] h = (omega arith, ground arith, tt)
Replied-snoc rvals n v (r ∷ rs) (lt, e, h) =
    (omega arith, ground arith, Replied-snoc rvals n v rs h)

-- The reply that a request may have, put before the others.
unfoldable pub with_reply : ℕ → Option ℤ → List (ℕ × ℤ) → List (ℕ × ℤ)
with_reply i none replies = replies
with_reply i (some v) replies = (i, v) ∷ replies

pub with_reply-append :
    (i : ℕ) (o : Option ℤ) (xs ys : List (ℕ × ℤ))
    → with_reply i o (xs ++ ys) ≡ with_reply i o xs ++ ys
unfolding with_reply
with_reply-append i none xs ys = refl
with_reply-append i (some v) xs ys = refl

module _ {S : Type 0} (funcs : FuncArray S) where
  unfoldable pub serve_one : FuncType → ℤ → S → S × Option ℤ
  serve_one none_type args s = (s, none)
  serve_one add_type args s = let (t, v) = funcs.add args s in (t, some v)
  serve_one remove_type args s = let (t, v) = funcs.remove s in (t, some v)

  -- The requests made of the object one after the other, with the reply to each thread.
  unfoldable pub serve : List (ℕ × Request) → S → S × List (ℕ × ℤ)
  unfolding serve_one with_reply
  serve [] s = (s, [])
  serve ((i, r) ∷ rs) s =
      let (t, o) = serve_one r.func r.args s in
      let (u, replies) = serve rs t in (u, with_reply i o replies)

  -- The last request is made of the object that the others leave.
  pub serve-append :
      (rs : List (ℕ × Request)) (i : ℕ) (r : Request) (s : S)
      → serve (rs ++ (i, r) ∷ []) s ≡ (
          let (t, replies) = serve rs s in
          let (u, o) = serve_one r.func r.args t in (u, replies ++ with_reply i o []))
  unfolding serve
  serve-append [] i r s = refl
  serve-append ((j, q) ∷ rs) i r s =
      let (t, o) = serve_one q.func q.args s in
      rw (
        serve-append rs i r t,
        with_reply-append j o (serve rs t).1
            (with_reply i (serve_one r.func r.args (serve rs t).0).1 []),
      )

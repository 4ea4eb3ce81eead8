-- ===== src/FcStack/Uses.antt =====
-- `FcApplyOp` as a client uses it: alone, and with other requests pending.
use public_conc_exp.Common.{
  ℕ, ◌≡◌, refl, ◌∙◌, ap, true, false, not, ◌&&◌, List, [], ◌∷◌, arith, ℤ, pos, ◌≤ℤ◌, ◌==◌,
  minus_one, Run, ok, ◌>>=◌,
}
use public_conc_exp.Spec.Requests.{Request, add, remove, Reply, done, got, stack_step, serve}
use public_conc_exp.FcStack.{
  FcRequest, FcStruct, serial_push_pop, serve_entry, combine_pass, announce, join, apply_op, push,
  pop, new_struct,
}
use public_conc_exp.FcStack.Combine.{
  has_pid, IsDistinct, waiting, repeat, gathered, apply_op-pass, combine_pass-top, serve_entry_top,
  serve_entry_value, combine_pass-pending, combine_pass_kept, combine_alone,
}

-- Between calls: the lock is free, exactly the active requests are on the list, each once, and
-- none is pending.
pub record IsQuiet (s : FcStruct) : Type 0 where
  pub free : s.lock ≡ 0
  pub distinct : IsDistinct s.head
  pub listed : (q : ℕ) → (s.nodes q).active ≡ has_pid q s.head
  pub served : (q : ℕ) → (s.nodes q).pending ≡ false

module _ (pid : ℕ) (value : ℤ) (s : FcStruct) where
  joined-IsDistinct : IsQuiet s → IsDistinct (gathered pid value s).head
  unfolding join announce
  joined-IsDistinct quiet = ground (arith, quiet.distinct, quiet.listed pid)

  joined_listed :
      IsQuiet s
      → (q : ℕ) → ((gathered pid value s).nodes q).active ≡ has_pid q (gathered pid value s).head
  unfolding join announce
  joined_listed quiet q = ground (arith, quiet.listed q, quiet.listed pid)

  joined_self : IsQuiet s → has_pid pid (gathered pid value s).head ≡ true
  unfolding join announce
  joined_self quiet = ground (arith, quiet.listed pid)

  joined_pending : IsQuiet s → (q : ℕ) → ((gathered pid value s).nodes q).pending ≡ (q == pid)
  unfolding join announce
  joined_pending quiet q = ground (arith, quiet.served q)

  gathered_top : (gathered pid value s).top ≡ s.top
  unfolding join announce
  gathered_top = ground arith

  -- A call by a thread while no other request is pending does the serial operation once, returns
  -- its answer, and leaves everything quiet.
  pub apply_op_alone :
      IsQuiet s
      → (t : FcStruct) × (apply_op pid value s ≡ ok (t, (serial_push_pop value s.top).1))
        × (t.top ≡ (serial_push_pop value s.top).0)
        × IsQuiet t
  apply_op_alone quiet =
      let g = gathered pid value s in
      let t = combine_pass value g.head g in
      let once : t ≡ serve_entry value pid g =
        combine_alone value pid g.head g (joined_self quiet) (joined_pending quiet) in
      let mine : (g.nodes pid).pending ≡ true = joined_pending quiet pid ∙ ground arith in
      let kept = combine_pass_kept value g.head g in
      (
        record t { lock = 0 },
        apply_op-pass pid value s
            ∙ ap (λ v. ok (record t { lock = 0 }, v))
                (ap (λ (u : FcStruct). (u.nodes pid).value) once
                  ∙ serve_entry_value value pid g mine
                  ∙ rw gathered_top),
        ap (λ (u : FcStruct). u.top) once ∙ serve_entry_top value pid g mine ∙ rw gathered_top,
        record {
          free = refl;
          distinct = rw kept.0 (joined-IsDistinct quiet);
          listed = λ q. kept.3 q ∙ joined_listed quiet q ∙ rw kept.0;
          served = λ q. combine_pass-pending value g.head g q ∙ settled quiet q;
        },
      )
    where
      settled :
          IsQuiet s
          → (q : ℕ)
          → (not (has_pid q (gathered pid value s).head)
              && ((gathered pid value s).nodes q).pending)
            ≡ false
      settled quiet q = ground (arith, joined_pending quiet q, joined_self quiet)

-- A request of a thread: `push` returns nothing, so its reply is always the same.
unfoldable pub turn : ℕ × Request → FcStruct → Run (FcStruct × Reply)
turn (pid, add v) s = do s' ← push pid v s; ok (s', done true)
turn (pid, remove) s = do (s', v) ← pop pid s; ok (s', got v)

unfoldable pub turns : List (ℕ × Request) → FcStruct → Run (FcStruct × List Reply)
turns [] s = ok (s, [])
turns (t ∷ ts) s = do
  (s', reply) ← turn t s
  (s'', replies) ← turns ts s'
  ok (s'', reply ∷ replies)

-- A negative argument of `push` would ask for a removal.
abbrev pub IsUsable : Request → Type 0
IsUsable (add v) = pos 0 ≤ℤ v
IsUsable remove = Unit

abbrev pub AllUsable : List (ℕ × Request) → Type 0
AllUsable [] = Unit
AllUsable (t ∷ ts) = IsUsable t.1 × AllUsable ts

abbrev pub asked : List (ℕ × Request) → List Request
asked [] = []
asked (t ∷ ts) = t.1 ∷ asked ts

turn_lem :
    (t : ℕ × Request) (s : FcStruct)
    → IsUsable t.1
    → IsQuiet s
    → (u : FcStruct) × (turn t s ≡ ok (u, (stack_step t.1 s.top).1))
      × (u.top ≡ (stack_step t.1 s.top).0)
      × IsQuiet u
unfolding turn push pop stack_step
turn_lem (pid, add v) s h quiet =
    let (u, ran, top, after) = apply_op_alone pid v s quiet in
    (u, rw ran, top ∙ unfold serial_push_pop in ground arith, after)
turn_lem (pid, remove) s h quiet =
    let (u, ran, top, after) = apply_op_alone pid minus_one s quiet in
    (
      u,
      rw ran (unfold serial_push_pop in ground arith),
      top ∙ unfold serial_push_pop in ground arith,
      after,
    )

-- Calls of `push` and `pop` by any threads, one after the other, with no negative value pushed,
-- leave the contents and give the replies of a stack, and leave the lock free.
pub turns-serve :
    (ts : List (ℕ × Request)) (s : FcStruct)
    → AllUsable ts
    → IsQuiet s
    → (u : FcStruct) × (turns ts s ≡ ok (u, (serve stack_step (asked ts) s.top).1))
      × (u.top ≡ (serve stack_step (asked ts) s.top).0)
      × IsQuiet u
unfolding turns serve
turns-serve [] s h quiet = (s, refl, refl, quiet)
turns-serve (t ∷ ts) s h quiet =
    let (u, ran, top, after) = turn_lem t s h.0 quiet in
    let (w, rest, final, settled) = turns-serve ts u h.1 after in
    (w, rw (ran, rest) (rw top), final ∙ rw top, settled)

-- With other requests pending, the combiner applies its own value once for each of them and for its
-- own: a pushed value comes out as often as there were requests, the values of the other threads
-- never reach the stack, and yet no listed request is left pending.
pub apply_op_crowd :
    (pid : ℕ) (value : ℤ) (s : FcStruct)
    → IsDistinct (gathered pid value s).head
    → (t : FcStruct) × (answer : ℤ) × (apply_op pid value s ≡ ok (t, answer))
      × (t.top
          ≡ repeat (waiting (gathered pid value s).nodes (gathered pid value s).head) value s.top)
      × ((q : ℕ) → has_pid q (gathered pid value s).head ≡ true → (t.nodes q).pending ≡ false)
apply_op_crowd pid value s distinct =
    let g = gathered pid value s in
    let t = combine_pass value g.head g in
    (
      record t { lock = 0 },
      (t.nodes pid).value,
      apply_op-pass pid value s,
      combine_pass-top value g.head g distinct
          ∙ ap (repeat (waiting g.nodes g.head) value) (gathered_top pid value s),
      λ q here. combine_pass-pending value g.head g q ∙ rw here,
    )

-- The constructors leave everything quiet, if the requests' memory is zeroed.
pub new_struct-IsQuiet : (junk : FcRequest) → junk.pending ≡ false → IsQuiet (new_struct junk)
new_struct-IsQuiet junk e = record {
  free = refl;
  distinct = tt;
  listed = λ q. refl;
  served = λ q. e;
}

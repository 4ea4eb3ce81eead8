-- ===== src/FcStack/Threads.antt =====
-- `FcApplyOp` of the flat-combining stack, lib/DS/FC/fcStack/fcStack.hpp, run by any number of threads.
-- Each load, store and compare-and-swap of a shared field is a step of its own; memory is sequentially
-- consistent. `serialPushPop` is one step: only the thread that holds `lock` runs it. The request of
-- thread `i` is at the address `i`. `count` is 1 in every call, so the clean-up never runs, and nothing
-- else reads `count` or `age`: none of the three is in the model.
pub mod Combining
pub mod Frame
pub mod Local
pub mod Own
pub mod Lock
pub mod Serve
pub mod Hand
pub mod History
mod Tests
use public_conc_exp.Common.{
  update, ℕ, zero, suc, ◌≡◌, Bool, true, false, not, Option, none, some, List, [], ◌∷◌, ℤ, ◌==◌,
  if◌then◌else◌,
}
use public_conc_exp.FcStack.{serial_push_pop, fc_combining_rounds}

-- The fields of `FcStruct` and of the requests; `head` and `next` are null or lead to a request.
pub record Mem : Type 0 where
  pub lock : Bool
  pub head : Option ℕ
  pub next : ℕ → Option ℕ
  pub value : ℕ → ℤ
  pub active : ℕ → Bool
  pub pending : ℕ → Bool
  pub top : List ℤ

-- Where a thread stands, with its argument `v`. `combines` tells the two calls of `FcEnqueueRequest`
-- apart, `n` counts the rounds that are left, and `cur` is the cursor.
pub data Pc : Type 0 where
  idle : Pc
  set_value : (v : ℤ) → Pc
  set_pending : (v : ℤ) → Pc
  test_lock : (v : ℤ) → Pc
  cas_lock : (v : ℤ) → Pc
  wait_lock : (v : ℤ) → Pc
  wait_pending : (v : ℤ) → Pc
  wait_active : (v : ℤ) → Pc
  test_pending : (v : ℤ) → Pc
  test_active : (v : ℤ) → Pc
  set_active : (combines : Bool) (v : ℤ) → Pc
  read_head : (combines : Bool) (v : ℤ) → Pc
  set_next : (combines : Bool) (v : ℤ) (supposed : Option ℕ) → Pc
  cas_head : (combines : Bool) (v : ℤ) (supposed : Option ℕ) → Pc
  join_test : (v : ℤ) → Pc
  round : (n : ℕ) (v : ℤ) → Pc
  visit : (n : ℕ) (v : ℤ) (cur : Option ℕ) → Pc
  serve : (n : ℕ) (v : ℤ) (cur : ℕ) → Pc
  put_value : (n : ℕ) (v : ℤ) (cur : ℕ) (answer : ℤ) → Pc
  put_done : (n : ℕ) (v : ℤ) (cur : ℕ) → Pc
  advance : (n : ℕ) (v : ℤ) (cur : ℕ) → Pc
  release : (v : ℤ) → Pc
  reply : (v : ℤ) → Pc

-- What an observer sees of a step: a call of thread `i` with its argument, the serial operation that
-- thread `i` does for thread `q`, with its answer, and a return.
pub data Label : Type 0 where
  silent : Label
  called : (i : ℕ) (v : ℤ) → Label
  served : (i q : ℕ) (answer : ℤ) → Label
  returned : (i : ℕ) (answer : ℤ) → Label

abbrev pub same_request : Option ℕ → Option ℕ → Bool
same_request none none = true
same_request (some p) (some q) = p == q
same_request _ _ = false

-- Where `FcEnqueueRequest` returns to.
abbrev pub resume : Bool → ℤ → Pc
resume true v = round fc_combining_rounds v
resume false v = test_lock v

-- The next step of thread `i`.
unfoldable pub act : ℕ → Mem → Pc → Mem × Pc × Label
act i m idle = (m, idle, silent)
act i m (set_value v) = (record m { value = update m.value i v }, set_pending v, silent)
act i m (set_pending v) = (record m { pending = update m.pending i true }, test_lock v, silent)
act i m (test_lock v) = (m, (if m.lock then wait_lock v else cas_lock v), silent)
act i m (cas_lock v) =
    if m.lock then (m, wait_lock v, silent) else (record m { lock = true }, join_test v, silent)
act i m (wait_lock v) = (m, (if m.lock then wait_pending v else test_pending v), silent)
act i m (wait_pending v) = (m, (if m.pending i then wait_active v else test_pending v), silent)
act i m (wait_active v) = (m, (if m.active i then wait_lock v else test_pending v), silent)
act i m (test_pending v) = (m, (if m.pending i then test_active v else reply v), silent)
act i m (test_active v) = (m, (if m.active i then test_lock v else set_active false v), silent)
act i m (set_active b v) = (record m { active = update m.active i true }, read_head b v, silent)
act i m (read_head b v) = (m, set_next b v m.head, silent)
act i m (set_next b v h) = (record m { next = update m.next i h }, cas_head b v h, silent)
act i m (cas_head b v h) =
    if same_request m.head h
    then (record m { head = some i }, resume b v, silent)
    else (m, read_head b v, silent)
act i m (join_test v) =
    (m, (if m.active i then round fc_combining_rounds v else set_active true v), silent)
act i m (round zero v) = (m, release v, silent)
act i m (round (suc n) v) = (m, visit n v m.head, silent)
act i m (visit n v none) = (m, round n v, silent)
act i m (visit n v (some cur)) =
    (m, (if m.pending cur then serve n v cur else advance n v cur), silent)
act i m (serve n v cur) = (
  record m { top = (serial_push_pop v m.top).0 },
  put_value n v cur (serial_push_pop v m.top).1,
  served i cur (serial_push_pop v m.top).1,
)
act i m (put_value n v cur r) =
    (record m { value = update m.value cur r }, put_done n v cur, silent)
act i m (put_done n v cur) =
    (record m { pending = update m.pending cur false }, advance n v cur, silent)
act i m (advance n v cur) = (m, visit n v (m.next cur), silent)
act i m (release v) = (record m { lock = false }, reply v, silent)
act i m (reply v) = (m, idle, returned i (m.value i))

pub record System : Type 0 where
  pub mem : Mem
  pub pc : ℕ → Pc

abbrev pub system : Mem → (ℕ → Pc) → System
system m f = record { mem = m; pc = f }

pub data Step (s : System) : Label → System → Type 0 where
  call :
      (i : ℕ) (v : ℤ)
      → s.pc i ≡ idle
      → Step s (called i v) (system s.mem (update s.pc i (set_value v)))
  work :
      (i : ℕ) {m : Mem} {p : Pc} {l : Label}
      → act i s.mem (s.pc i) ≡ (m, p, l)
      → Step s l (system m (update s.pc i p))

-- The constructors, `FcThreadState` for every thread. The latter sets `active` and nothing else that is
-- read; `junk` stands for the other fields, and the requests' memory is zeroed as far as `pending`.
abbrev pub init : (ℕ → Option ℕ) → (ℕ → ℤ) → System
init junk_next junk_value =
    system
      (record {
        lock = false;
        head = none;
        next = junk_next;
        value = junk_value;
        active = λ i. false;
        pending = λ i. false;
        top = [];
      })
      (λ i. idle)

-- ===== src/FcStack.antt =====
-- The flat-combining stack, lib/DS/FC/fcStack/fcStack.hpp (`Node`, `FcRequest`, `FcStruct`,
-- `FcStack`). The request of thread `pid` is `nodes pid`; the publication list that `head` leads to
-- is the list of the threads whose requests are on it. `apply_op` is a call of `FcApplyOp` by a
-- thread that finds the lock free and becomes the combiner; meanwhile the other threads only wait.
pub mod Combine
pub mod Uses
pub mod Threads
mod Tests
use public_conc_exp.Common.{
  ℕ, zero, suc, ◌+◌, ◌%◌, Bool, true, false, not, List, [], ◌∷◌, ℤ, pos, ltb_ℤ, ltb, ◌==◌,
  minus_one, if◌then◌else◌, Run, ok, fault, ◌>>=◌,
}

pub record FcRequest : Type 0 where
  pub value : ℤ
  pub age : ℕ
  pub active : Bool
  pub pending : Bool

pub record FcStruct : Type 0 where
  pub head : List ℕ
  pub lock : ℕ
  pub nodes : ℕ → FcRequest
  pub count : ℕ
  pub top : List ℤ

abbrev pub update : (ℕ → FcRequest) → ℕ → FcRequest → ℕ → FcRequest
update f i r j = if i == j then r else f j

abbrev pub fc_cleanup_frequency : ℕ
fc_cleanup_frequency = 100

abbrev pub fc_cleanup_old_threshold : ℕ
fc_cleanup_old_threshold = 100

abbrev pub fc_combining_rounds : ℕ
fc_combining_rounds = 3

-- The constructors `FcStruct` and `FcThreadState`, the latter for every thread. `junk` stands for
-- the fields that neither sets.
abbrev pub new_struct : FcRequest → FcStruct
new_struct junk = record {
  head = [];
  lock = 0;
  nodes = λ pid. record junk { age = 0; active = false };
  count = 0;
  top = [];
}

-- A negative value asks for a removal.
unfoldable pub serial_push_pop : ℤ → List ℤ → List ℤ × ℤ
serial_push_pop value top =
    if ltb_ℤ value (pos 0)
    then elim top [ [] ↦ ([], minus_one) | x ∷ rest ↦ (rest, x) ]
    else (value ∷ top, pos 0)

-- `FcEnqueueRequest`, by a thread that holds the lock.
unfoldable pub enqueue_request : ℕ → FcStruct → FcStruct
enqueue_request pid s = record s {
  nodes = update s.nodes pid (record (s.nodes pid) { active = true });
  head = pid ∷ s.head;
}

-- What the combiner does with one entry of the publication list. The value that it applies is its
-- own argument, not the entry's.
unfoldable pub serve_entry : ℤ → ℕ → FcStruct → FcStruct
unfolding serial_push_pop
serve_entry value cur s =
    if (s.nodes cur).pending
    then (let (top, answer) = serial_push_pop value s.top in
        record s {
          top = top;
          nodes =
              update s.nodes cur
                (record (s.nodes cur) { value = answer; pending = false; age = s.count });
        })
    else s

unfoldable pub combine_pass : ℤ → List ℕ → FcStruct → FcStruct
combine_pass value [] s = s
combine_pass value (cur ∷ rest) s = combine_pass value rest (serve_entry value cur s)

unfoldable pub combine_rounds : ℕ → ℤ → FcStruct → FcStruct
combine_rounds zero value s = s
combine_rounds (suc rounds) value s = combine_rounds rounds value (combine_pass value s.head s)

-- The clean-up loop behind the first entry: the entries that stay, and the requests.
unfoldable pub cleanup_from : ℕ → List ℕ → (ℕ → FcRequest) → List ℕ × (ℕ → FcRequest)
cleanup_from count [] nodes = ([], nodes)
cleanup_from count (cur ∷ rest) nodes =
    let old = ltb ((nodes cur).age + fc_cleanup_old_threshold) count in
    let nodes' = if old then update nodes cur (record (nodes cur) { active = false }) else nodes in
    let (kept, after) = cleanup_from count rest nodes' in (if old then kept else cur ∷ kept, after)

-- `prev->next` is read with no test of the list's head.
unfoldable pub cleanup : FcStruct → Run FcStruct
unfolding cleanup_from
cleanup s =
    if s.count % fc_cleanup_frequency == 0
    then elim s.head [
      | [] ↦ fault
      | prev ∷ rest ↦ ok (record s {
        head = prev ∷ (cleanup_from s.count rest s.nodes).0;
        nodes = (cleanup_from s.count rest s.nodes).1;
      })
    ]
    else ok s

-- The request as `FcApplyOp` announces it.
unfoldable pub announce : ℕ → ℤ → FcStruct → FcStruct
announce pid value s = record s {
  nodes = update s.nodes pid (record (s.nodes pid) { value = value; pending = true });
}

unfoldable pub join : ℕ → FcStruct → FcStruct
unfolding enqueue_request
join pid s = if not (s.nodes pid).active then enqueue_request pid s else s

-- From the compare-and-swap on the lock to the return. `S->count` is set to 1 in every call.
unfoldable pub apply_op : ℕ → ℤ → FcStruct → Run (FcStruct × ℤ)
apply_op pid value s = do
  s' ← cleanup (
      combine_rounds fc_combining_rounds value
        (record (join pid (record (announce pid value s) { lock = 1 })) { count = 1 }))
  ok (record s' { lock = 0 }, (s'.nodes pid).value)

unfoldable pub push : ℕ → ℤ → FcStruct → Run FcStruct
push pid value s = do (s', answer) ← apply_op pid value s; ok s'

unfoldable pub pop : ℕ → FcStruct → Run (FcStruct × ℤ)
pop pid s = apply_op pid minus_one s

size_from : ℕ → List ℤ → ℕ
size_from count [] = count
size_from count (cur ∷ rest) = size_from (count + 1) rest

unfoldable pub size : FcStruct → ℕ
unfolding size_from
size s = size_from 0 s.top

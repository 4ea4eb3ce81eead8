-- ===== src/Psim.antt =====
-- The universal construction Psim, lib/includes/sim.hpp (`Psim`), at X = int: a thread announces a
-- request, flips its toggle, and applies every announced request to a copy of the object, which it
-- then makes current with one swap. The object is a type `S` with its operations. `Attempt` is one
-- step here: while it runs no other thread moves, but any number of threads may have announced a
-- request before it. An object is a value, and the functions of a state's `f_array` act on that
-- state's own `object`: the code mutates only fresh copies, and binds their functions before.
pub mod Waiting
pub mod Attempt
pub mod Alone
pub mod Stack
mod Tests
use public_conc_exp.Common.{
  update, ℕ, zero, suc, ◌+◌, ◌*◌, ◌%◌, Bool, true, false, ◌&&◌, not, ◌==◌, ℤ, pos, minus_one,
  if◌then◌else◌,
}

pub data FuncType : Type 0 where
  add_type : FuncType
  remove_type : FuncType
  none_type : FuncType

pub record FuncArray (S : Type 0) : Type 0 where
  pub add : ℤ → S → S × ℤ
  pub remove : S → S × ℤ
  pub copy : S → S

pub record Request : Type 0 where
  pub func : FuncType
  pub args : ℤ

abbrev no_request : Request
no_request = record { func = none_type; args = minus_one }

pub record SimStruct (S : Type 0) : Type 0 where
  pub object : S
  pub applied : ℕ → Bool
  pub rvals : ℕ → ℤ

abbrev init_struct : {S : Type 0} → S → SimStruct S
init_struct object = record { object = object; applied = λ _. false; rvals = λ _. minus_one }

-- `state` and `seq` are the two words that `curr_state` leads to; `state` is an index of `st`.
pub record Psim (S : Type 0) : Type 0 where
  pub cas_suc : ℕ
  pub cas_fail : ℕ
  pub toggles : ℕ → Bool
  pub nthreads : ℕ
  pub st : ℕ → SimStruct S
  pub announce_array : ℕ → Request
  pub state : ℕ
  pub seq : ℕ
  pub local_index : ℕ → ℕ

unfoldable pub new : {S : Type 0} → S → ℕ → Psim S
new object nthreads = record {
  cas_suc = 0;
  cas_fail = 0;
  toggles = λ _. false;
  nthreads = nthreads;
  st = λ _. init_struct object;
  announce_array = λ _. no_request;
  state = 0;
  seq = 0;
  local_index = λ _. 0;
}

abbrev pub differ : Bool → Bool → Bool
differ true b = not b
differ false b = b

-- The loops that store `from[i]` in `to[i]` for each thread.
abbrev pub store_upto : ℕ → (from to : ℕ → Bool) → ℕ → Bool
store_upto zero from to = to
store_upto (suc i) from to = update (store_upto i from to) i (from i)

abbrev pub current : {S : Type 0} → Psim S → SimStruct S
current p = p.st p.state

abbrev pub my_index : {S : Type 0} → Psim S → ℕ → ℕ
my_index p pid = if p.local_index pid == 0 then 2 * pid else 2 * pid + 1

module _ {S : Type 0} (funcs : FuncArray S) where
  -- The `switch`: the request of thread `i`.
  unfoldable pub perform : ℕ → FuncType → ℤ → SimStruct S → SimStruct S
  perform i none_type args c = c
  perform i add_type args c =
      let (object, rval) = funcs.add args c.object in
      record c { object = object; rvals = update c.rvals i rval }
  perform i remove_type args c =
      let (object, rval) = funcs.remove c.object in
      record c { object = object; rvals = update c.rvals i rval }

  -- The loop over the threads whose local toggle differs from `applied`.
  unfoldable pub apply_upto :
      ℕ → (announced : ℕ → Request) (local_toggles : ℕ → Bool) → SimStruct S → SimStruct S
  unfolding perform
  apply_upto zero announced local_toggles c = c
  apply_upto (suc i) announced local_toggles c =
      let before = apply_upto i announced local_toggles c in
      if differ (local_toggles i) (before.applied i)
      then perform i (announced i).func (announced i).args before
      else before

  -- The state that a round prepares in `St[myIndex]`.
  unfoldable pub prepare : Psim S → ℕ → SimStruct S
  unfolding apply_upto
  prepare p pid =
      let old = current p in
      let mine = record (p.st (my_index p pid)) { object = funcs.copy old.object } in
      let local_toggles = store_upto p.nthreads p.toggles (λ _. false) in
      let seen = record mine { applied = store_upto p.nthreads old.applied mine.applied } in
      let done = apply_upto p.nthreads p.announce_array local_toggles seen in
      record done { applied = store_upto p.nthreads local_toggles done.applied }

  -- One round of `Attempt`: the swap compares both words of `curr_state` with those read before, and
  -- the Boolean says that it succeeded.
  unfoldable pub round : Psim S → ℕ → Psim S × Bool
  unfolding prepare
  round p pid =
      let mine = my_index p pid in
      let q = record p { st = update p.st mine (prepare p pid) } in
      if (q.state == p.state) && (q.seq == p.seq)
      then (
        record q {
          state = mine;
          seq = p.seq + 1;
          cas_suc = q.cas_suc + 1;
          local_index = update q.local_index pid ((q.local_index pid + 1) % 2);
        },
        true,
      )
      else (record q { cas_fail = q.cas_fail + 1 }, false)

  unfoldable pub attempt_on : ℕ → Psim S → ℕ → Psim S
  unfolding round
  attempt_on zero p pid = p
  attempt_on (suc rounds) p pid =
      let (q, swapped) = round p pid in
      let again = attempt_on rounds q pid in if swapped then q else again

  unfoldable pub attempt : Psim S → ℕ → Psim S
  unfolding attempt_on
  attempt p pid = attempt_on 2 p pid

  -- The first two statements of `PsimApplyOp`.
  unfoldable pub announce : Psim S → Request → ℕ → Psim S
  announce p req pid = record p {
    announce_array = update p.announce_array pid req;
    toggles = update p.toggles pid (not (p.toggles pid));
  }

  unfoldable pub psim_apply_op : Psim S → Request → ℕ → Psim S × ℤ
  unfolding announce attempt
  psim_apply_op p req pid = let q = attempt (announce p req pid) pid in (q, (current q).rvals pid)

-- ===== src/MpmcQueue/Laws.antt =====
-- The queue of MPMCQueue.hpp is a queue until it has been pushed to as often as it has slots.
use public_conc_exp.Common.{
  update, minus_one, Bool-cases, inl, inr, ℕ, zero, suc, ◌+◌, ◌-◌, ◌^◌, ◌≤◌, ◌<◌, ◌≡◌, refl, sym,
  ap, ◌∙◌, true, false, List, [], ◌∷◌, ◌++◌, arith, ℤ, ◌==◌, ltb, if◌then◌else◌, Run, ok, fault,
  ◌>>=◌,
}
use public_conc_exp.Spec.Numbered.{values_from, values_from-snoc}
use public_conc_exp.Spec.Requests.{Request, add, remove, Reply, done, got, queue_step, serve}
use public_conc_exp.MpmcQueue.{MpmcQueue, new, minus_64, push, pop}

-- The slots before `head` have been used, those up to `tail` hold values, the others are fresh.
pub record Inv (m : MpmcQueue) : Type 0 where
  pub small : m.size < 2 ^ 64 - 1
  pub head_tail : m.head ≤ m.tail
  pub tail_size : m.tail ≤ m.size
  pub full : (i : ℕ) → m.head ≤ i → i < m.tail → (m.buffer i).sequence ≡ i + 1
  pub free : (i : ℕ) → m.tail ≤ i → (m.buffer i).sequence ≡ i

abbrev pub contents : MpmcQueue → List ℤ
contents m = values_from (λ i. (m.buffer i).item) m.head (m.tail - m.head)

minus_64_lem : (a b : ℕ) → b ≤ a → a < 2 ^ 64 → minus_64 a b ≡ a - b
unfolding minus_64
minus_64_lem a b le lt = omega arith

values_from-agree :
    (f g : ℕ → ℤ) (i k : ℕ)
    → ((j : ℕ) → i ≤ j → j < i + k → f j ≡ g j)
    → values_from f i k ≡ values_from g i k
values_from-agree f g i zero same = refl
values_from-agree f g i (suc k) same = rw (
  same i (omega arith) (omega arith),
  values_from-agree f g (i + 1) k (λ j le lt. same j (omega arith) (omega arith)),
)

-- A push on a queue with fresh slots adds its value at the end.
push-Inv :
    (m : MpmcQueue) (v : ℤ)
    → Inv m
    → m.tail < m.size
    → (t : MpmcQueue) × (push m v ≡ ok (t, true))
      × Inv t
      × (contents t ≡ contents m ++ v ∷ [])
      × (t.size ≡ m.size)
      × (t.tail ≡ m.tail + 1)
unfolding push
push-Inv m v inv lt =
    let next = inv.free m.tail (omega arith) in
    let room : ltb m.size (m.tail + 1 - m.head) ≡ false = ground (arith, inv.head_tail) in
    let b =
      update m.buffer m.tail (record { item = v; sequence = (m.buffer m.tail).sequence + 1 }) in
    let k = m.tail - m.head in
    let count : m.tail + 1 - m.head ≡ suc k = omega (arith, inv.head_tail) in
    let at : m.tail ≡ m.head + k = omega (arith, inv.head_tail) in
    (
      record m { buffer = b; tail = m.tail + 1 },
      rw
          (
            next,
            minus_64_lem (m.tail + 1) m.head (omega (arith, inv.head_tail))
                (omega (arith, inv.small, inv.tail_size)),
            room,
          )
          (ground arith),
      record {
        small = inv.small;
        head_tail = omega (arith, inv.head_tail);
        tail_size = omega arith;
        full = λ i le lt'. ground (arith, inv.full i le, next);
        free = λ i le. ground (arith, inv.free i);
      },
      rw count (
          values_from-agree (λ i. (b i).item) (λ i. if m.tail == i then v else (m.buffer i).item)
            m.head (suc k) (λ j le lt'. ground arith)
          ∙ values_from-snoc (λ i. (m.buffer i).item) m.tail m.head k v at),
      refl,
      refl,
    )

pop-Inv :
    (m : MpmcQueue)
    → Inv m
    → m.tail < m.size
    → (t : MpmcQueue) × (v : ℤ) × (pop m ≡ ok (t, v))
      × Inv t
      × ((contents t, got v) ≡ queue_step remove (contents m))
      × (t.size ≡ m.size)
      × (t.tail ≡ m.tail)
unfolding pop queue_step
pop-Inv m inv lt = elim (Bool-cases (m.head == m.tail)) [
  | inl e ↦
      let none : m.tail - m.head ≡ 0 = ground arith in
      let fresh : (m.buffer m.head).sequence ≡ m.head = inv.free m.head (ground arith) in
      (m, minus_one, rw fresh (ground arith), inv, rw none, refl, refl)
  | inr e ↦
      let held : m.head < m.tail = ground (arith, inv.head_tail) in
      let node = m.buffer m.head in
      let b = update m.buffer m.head (record node { sequence = m.head + m.size }) in
      let k = m.tail - (m.head + 1) in
      let some : m.tail - m.head ≡ suc k = omega arith in
      (
        record m { buffer = b; head = m.head + 1 },
        node.item,
        rw (inv.full m.head (omega arith) held) (ground arith),
        record {
          small = inv.small;
          head_tail = omega arith;
          tail_size = inv.tail_size;
          full = λ i le lt'. ground (arith, inv.full i);
          free = λ i le. ground (arith, inv.free i);
        },
        rw (
          some,
          values_from-agree (λ i. (b i).item) (λ i. (m.buffer i).item) (m.head + 1) k
              (λ j le lt'. ground arith),
        ),
        refl,
        refl,
      )
]

-- Requests as a client makes them.
unfoldable pub request : Request → MpmcQueue → Run (MpmcQueue × Reply)
request (add v) m = do (t, b) ← push m v; ok (t, done b)
request remove m = do (t, v) ← pop m; ok (t, got v)

unfoldable pub requests : List Request → MpmcQueue → Run (MpmcQueue × List Reply)
unfolding request
requests [] m = ok (m, [])
requests (r ∷ rs) m = do
  (t, reply) ← request r m
  (u, replies) ← requests rs t
  ok (u, reply ∷ replies)

abbrev pub additions : List Request → ℕ
additions [] = 0
additions (add v ∷ rs) = suc (additions rs)
additions (remove ∷ rs) = additions rs

-- Any sequence of `push` and `pop` on a queue that has more fresh slots than there are pushes in it
-- ends without a fault, in the contents and with the replies of a queue.
pub mpmc_requests :
    (rs : List Request) (m : MpmcQueue)
    → Inv m
    → m.tail + additions rs < m.size
    → (t : MpmcQueue) × (replies : List Reply) × (requests rs m ≡ ok (t, replies))
      × Inv t
      × ((contents t, replies) ≡ serve queue_step rs (contents m))
unfolding requests serve queue_step
mpmc_requests [] m inv lt = (m, [], refl, inv, refl)
mpmc_requests (add v ∷ rs) m inv lt =
    let (t, e, inv', held, size, tail) = push-Inv m v inv (omega arith) in
    let (u, replies, f, inv'', same) = mpmc_requests rs t inv' (rw (size, tail) (omega arith)) in
    (
      u,
      done true ∷ replies,
      rw (e, f),
      inv'',
      rw (sym held) (ap (λ w. (w.0, done true ∷ w.1)) same),
    )
mpmc_requests (remove ∷ rs) m inv lt =
    let (t, v, e, inv', held, size, tail) = pop-Inv m inv (omega arith) in
    let (u, replies, f, inv'', same) = mpmc_requests rs t inv' (rw (size, tail) (omega arith)) in
    (
      u,
      got v ∷ replies,
      rw (e, f),
      inv'',
      ap (λ w. (w.0, got v ∷ w.1)) same
          ∙ ap (λ w. let (zs, others) = serve queue_step rs w.0 in (zs, w.1 ∷ others)) held,
    )

-- Once every slot has been used, `push` reads outside the array, however much has been removed.
push_full : (m : MpmcQueue) (v : ℤ) → Inv m → m.tail ≡ m.size → push m v ≡ fault
unfolding push
push_full m v inv e = rw e (ground arith)

-- The constructor makes an empty queue.
pub new-Inv : (junk : ℕ → ℤ) (size : ℕ) → size < 2 ^ 64 - 1 → Inv (new junk size)
unfolding new
new-Inv junk size lt = record {
  small = lt;
  head_tail = omega arith;
  tail_size = omega arith;
  full = λ i le lt'. absurd (omega arith);
  free = λ i le. refl;
}

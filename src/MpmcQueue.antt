-- ===== src/MpmcQueue.antt =====
-- The queue of lib/DS/Queues/MPMCQueue.hpp (`MPMCQueue`) at T = int, one operation at a time; `data`
-- of its `Node` is `item` here. An index outside `buffer` is a `fault`; the difference in `push` is of
-- type size_t and wraps.
pub mod Laws
mod Tests
use public_conc_exp.Common.{
  update, ℕ, ◌+◌, ◌-◌, ◌%◌, ◌^◌, Bool, true, false, ℤ, minus_one, ltb, leb, ◌==◌, if◌then◌else◌,
  Run, ok, fault,
}

pub record Node : Type 0 where
  pub item : ℤ
  pub sequence : ℕ

pub record MpmcQueue : Type 0 where
  pub buffer : ℕ → Node
  pub size : ℕ
  pub head : ℕ
  pub tail : ℕ

-- The constructor; the items are what memory held (`junk`).
unfoldable pub new : (ℕ → ℤ) → ℕ → MpmcQueue
new junk size = record {
  buffer = λ i. record { item = junk i; sequence = i };
  size = size;
  head = 0;
  tail = 0;
}

-- Subtraction of numbers of 64 bits.
unfoldable pub minus_64 : ℕ → ℕ → ℕ
minus_64 a b = (a + 2 ^ 64 - b) % 2 ^ 64

unfoldable pub push : MpmcQueue → ℤ → Run (MpmcQueue × Bool)
push m v =
    let next_sequence = (m.buffer m.tail).sequence + 1 in
    if leb m.size m.tail
    then fault
    else if ltb m.size (minus_64 next_sequence m.head)
    then ok (m, false)
    else ok (
      record m {
        buffer = update m.buffer m.tail (record { item = v; sequence = next_sequence });
        tail = m.tail + 1;
      },
      true,
    )

unfoldable pub pop : MpmcQueue → Run (MpmcQueue × ℤ)
pop m =
    let head_node = m.buffer m.head in
    if leb m.size m.head
    then fault
    else if head_node.sequence == m.head
    then ok (m, minus_one)
    else ok (
      record m {
        buffer = update m.buffer m.head (record head_node { sequence = m.head + m.size });
        head = m.head + 1;
      },
      head_node.item,
    )

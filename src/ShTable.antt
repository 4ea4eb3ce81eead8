-- ===== src/ShTable.antt =====
-- The hash table of ordered lists, lib/DS/HashTables/SH_HashTables/SH_HashTable.hpp (`Node`,
-- `SLL_hand`, `SH_Hashtable`). The buckets are in ShTable.Bucket. The
-- products `j*data` are ints: one of 2 ^ 31 or more is an undefined overflow, and a `fault` here. The sum
-- is a long long, which fewer than 2 ^ 31 terms of less than 2 ^ 31 do not overflow.
pub mod Bucket
pub mod BucketLaws
pub mod Hash
pub mod Laws
mod Tests
use public_conc_exp.Common.{
  ℕ, zero, suc, ◌+◌, ◌*◌, ◌/◌, ◌%◌, Bool, List, [], ◌∷◌, ℤ, pos, negsuc, ◌==◌, if◌then◌else◌, Run,
  ok, as_int, spins, ◌>>=◌,
}
use public_conc_exp.ShTable.Bucket.{SllHand, new_list}
use public_conc_exp.ShTable.Bucket

abbrev pub max_array : ℕ
max_array = 23

-- `hashtable[maxArray]`
abbrev pub Table : Type 0
Table = ℕ → SllHand

abbrev pub update : Table → ℕ → SllHand → Table
update t i b j = if i == j then b else t j

abbrev pub new_table : Table
new_table i = new_list

-- The `for` of `hash_function` over the first `n` values of `j`.
unfoldable pub hash_sum : ℕ → ℕ → Run ℕ
hash_sum zero item = ok 0
hash_sum (suc n) item = do i ← hash_sum n item; product ← as_int (n * item); ok (i + product / 3)

-- For a negative `data` the loop makes no round.
unfoldable pub hash_function : ℤ → Run ℕ
unfolding hash_sum
hash_function (pos n) = do i ← hash_sum n n; ok (i % max_array)
hash_function (negsuc n) = ok (0 % max_array)

unfoldable pub find : ℤ → Table → Run ℤ
find item t = do i ← hash_function item; ok (Bucket.search item (t i))

unfoldable pub insert : ℤ → Table → Run (Table × Bool)
insert item t = do
  i ← hash_function item
  (b, done) ← Bucket.insert item (t i)
  ok (update t i b, done)

unfoldable pub remove : ℤ → Table → Run (Table × ℤ)
remove item t = do
  i ← hash_function item
  (b, got) ← Bucket.remove item (t i)
  ok (update t i b, got)

-- The `for` of `count` over the first `n` buckets.
count_from : ℕ → Table → ℕ
count_from zero t = 0
count_from (suc n) t = count_from n t + Bucket.size (t n)

unfoldable pub count : Table → ℕ
unfolding count_from
count t = count_from max_array t

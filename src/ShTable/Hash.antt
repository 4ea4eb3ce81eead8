-- ===== src/ShTable/Hash.antt =====
-- The hash function of numbers whose products fit an int, and of the next ones.
use public_conc_exp.Common.{
  ℕ, zero, suc, ◌+◌, ◌*◌, ◌/◌, ◌%◌, ◌^◌, ◌≤◌, ◌<◌, ◌≡◌, refl, arith, ℤ, pos, negsuc, ◌≤ℤ◌, ok,
  as_int_small,
}
use native.Mathlib.Nat.{mul-le-mul_right}
use public_conc_exp.ShTable.{hash_sum, hash_function, max_array}

-- The greatest number none of whose products overflows: 46340 * 46341 < 2 ^ 31 <= 46341 * 46342.
abbrev pub most : ℤ
most = pos 46341

-- The sum and the index in exact arithmetic.
pub exact_sum : ℕ → ℕ → ℕ
exact_sum zero item = 0
exact_sum (suc n) item = exact_sum n item + n * item / 3

unfoldable pub index : ℤ → ℕ
index (pos n) = exact_sum n n % max_array
index (negsuc n) = 0

product_small : (j n : ℕ) → j < 46341 → n ≤ 46341 → j * n < 2 ^ 31
product_small j n lt le = omega (arith, mul-le-mul_right {m = j} {n = 46340} n (omega (arith, lt)))

hash_sum-exact_sum :
    (n item : ℕ) → n ≤ 46341 → item ≤ 46341 → hash_sum n item ≡ ok (exact_sum n item)
unfolding hash_sum exact_sum
hash_sum-exact_sum zero item le small = refl
hash_sum-exact_sum (suc n) item le small =
    rw
      (
        hash_sum-exact_sum n item (omega (arith, le)) small,
        as_int_small (n * item) (product_small n item (omega (arith, le)) small),
      )
      refl

pub hash_function-index : (v : ℤ) → v ≤ℤ most → hash_function v ≡ ok (index v)
unfolding hash_function index
hash_function-index (pos n) le =
    rw (hash_sum-exact_sum n n (omega (arith, le)) (omega (arith, le))) refl
hash_function-index (negsuc n) le = refl

-- The index is inside the table.
pub index-lt : (v : ℤ) → index v < max_array
unfolding index
index-lt (pos n) = omega arith
index-lt (negsuc n) = omega arith

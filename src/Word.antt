-- ===== src/Word.antt =====
-- `u64` as numbers below 2^64: sums wrap around, as they do in a release build.
use sightingdb.Common.{List, [], arith, ℕ, ◌%◌, ◌+◌, ◌<◌, ◌∷◌, ◌≡◌}

abbrev pub u64_mod : ℕ
u64_mod = 18446744073709551616

-- `a + b` in `u64`
unfoldable pub add_u64 : ℕ → ℕ → ℕ
add_u64 a b = (a + b) % u64_mod

unfoldable pub sum_from : ℕ → List ℕ → ℕ
unfolding add_u64
sum_from acc [] = acc
sum_from acc (x ∷ xs) = sum_from (add_u64 acc x) xs

-- `iter().sum()` in `u64`
unfoldable pub sum_u64 : List ℕ → ℕ
unfolding sum_from
sum_u64 = sum_from 0

-- The sum with no bound.
abbrev pub total : List ℕ → ℕ
total [] = 0
total (x ∷ xs) = x + total xs

sum_from-total :
    (acc : ℕ) (xs : List ℕ) → acc < u64_mod → sum_from acc xs ≡ (acc + total xs) % u64_mod
unfolding sum_from
sum_from-total acc [] h = omega arith
sum_from-total acc (x ∷ xs) h = omega (arith, sum_from-total (add_u64 acc x) xs (omega arith))

pub sum_u64-total : (xs : List ℕ) → sum_u64 xs ≡ total xs % u64_mod
unfolding sum_u64
sum_u64-total xs = omega (arith, sum_from-total 0 xs (omega arith))

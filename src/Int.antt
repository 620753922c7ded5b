-- ===== src/Int.antt =====
-- `i64` and the instants of `chrono`, as integers: order, extremes, and the operations that the
-- program uses on them.
use sightingdb.Common.{
  Bool, arith, eqb, false, if◌then◌else◌, leb, ltb, suc, true, ℕ, ◌%◌, ◌*◌, ◌+◌, ◌-◌, ◌/◌, ◌↔◌, ◌≡◌,
  ◌≤◌,
}

-- `negsuc n` is -(n + 1).
pub data ℤ : Type 0 where
  pos : ℕ → ℤ
  negsuc : ℕ → ℤ

abbrev pub ltb_ℤ : ℤ → ℤ → Bool
ltb_ℤ (pos a) (pos b) = ltb a b
ltb_ℤ (pos a) (negsuc b) = false
ltb_ℤ (negsuc a) (pos b) = true
ltb_ℤ (negsuc a) (negsuc b) = ltb b a

abbrev pub eqb_ℤ : ℤ → ℤ → Bool
eqb_ℤ (pos a) (pos b) = eqb a b
eqb_ℤ (negsuc a) (negsuc b) = eqb a b
eqb_ℤ _ _ = false

pub eqb_ℤ_iff : (a b : ℤ) → (eqb_ℤ a b ≡ true) ↔ (a ≡ b)
eqb_ℤ_iff a b = ground arith

pub ltb_ℤ_irrefl : (a : ℤ) → ltb_ℤ a a ≡ false
ltb_ℤ_irrefl a = ground arith

pub ltb_ℤ_trans : (a b c : ℤ) → ltb_ℤ a b ≡ true → ltb_ℤ b c ≡ true → ltb_ℤ a c ≡ true
ltb_ℤ_trans a b c h k = ground arith

pub ltb_ℤ_total : (a b : ℤ) → ltb_ℤ a b ≡ false → eqb_ℤ a b ≡ false → ltb_ℤ b a ≡ true
ltb_ℤ_total a b h k = ground arith

-- `i64::max`
abbrev pub max_ℤ : ℤ → ℤ → ℤ
max_ℤ a b = if ltb_ℤ a b then b else a

-- `i64::MAX`
abbrev pub i64_max : ℕ
i64_max = 9223372036854775807

-- `a.saturating_add(b)` in `i64`, for a `b` that is not negative.
unfoldable pub saturating_add : ℤ → ℕ → ℤ
saturating_add (pos a) b = if leb (a + b) i64_max then pos (a + b) else pos i64_max
saturating_add (negsuc a) b = if leb b a then negsuc (a - b) else pos (b - suc a)

-- `n as i64` for a `u64`
abbrev pub as_i64 : ℕ → ℤ
as_i64 n = if leb n i64_max then pos n else negsuc (18446744073709551615 - n)

-- what is left of a result in `i64`, where arithmetic wraps
unfoldable pub wrap_i64 : ℤ → ℤ
wrap_i64 (pos a) = as_i64 (a % 18446744073709551616)
wrap_i64 (negsuc a) =
    let r = a % 18446744073709551616 in
    if leb r i64_max then negsuc r else pos (18446744073709551615 - r)

pub wrap_i64-pos : (a : ℕ) → a ≤ i64_max → wrap_i64 (pos a) ≡ pos a
unfolding wrap_i64
wrap_i64-pos a h =
    let e : a % 18446744073709551616 ≡ a = omega (arith, h) in rw e (ground (arith, h))

-- `a.div_euclid(d)` for a positive `d`: it rounds towards minus infinity.
unfoldable pub div_euclid : ℤ → ℕ → ℤ
div_euclid (pos a) d = pos (a / d)
div_euclid (negsuc a) d = negsuc (a / d)

-- `a * d` for a positive `d`.
unfoldable pub scale : ℤ → ℕ → ℤ
scale (pos a) d = pos (a * d)
scale (negsuc a) d = negsuc (suc a * d - 1)

-- What is below `b` is below all that is not below `b`.
pub ltb_ℤ_weaken : (a b c : ℤ) → ltb_ℤ a b ≡ true → ltb_ℤ c b ≡ false → ltb_ℤ a c ≡ true
ltb_ℤ_weaken a b c h k = ground arith

-- `a - b` for a `b` that is not negative.
unfoldable pub minus : ℤ → ℕ → ℤ
minus (pos a) b = if leb b a then pos (a - b) else negsuc (b - suc a)
minus (negsuc a) b = negsuc (a + b)

-- `a - b` as an index, for an `a` that is not below `b`.
unfoldable pub distance : ℤ → ℤ → ℕ
distance (pos a) (pos b) = a - b
distance (pos a) (negsuc b) = a + suc b
distance (negsuc a) (pos b) = 0
distance (negsuc a) (negsuc b) = b - a

-- a number, or `i64::MIN` where it is less
abbrev pub at_least_min : ℤ → ℤ
at_least_min (pos a) = pos a
at_least_min (negsuc a) = if leb a i64_max then negsuc a else negsuc i64_max

-- `a.saturating_sub(b)` in `i64`
abbrev pub saturating_sub : ℤ → ℤ → ℤ
saturating_sub a (pos b) = at_least_min (minus a b)
saturating_sub a (negsuc b) = saturating_add a (suc b)

pub ltb_ℤ-minus : (a : ℤ) (b : ℕ) → ltb_ℤ a (minus a b) ≡ false
unfolding minus
ltb_ℤ-minus (pos a) b = ground arith
ltb_ℤ-minus (negsuc a) b = ground arith

-- What is between `last - n` and `last` is no further than `n` from the first of them.
pub distance-minus :
    (at last : ℤ) (n : ℕ)
    → ltb_ℤ at (minus last n) ≡ false
    → ltb_ℤ last at ≡ false
    → distance at (minus last n) ≤ n
unfolding minus distance
distance-minus (pos a) (pos b) n h k = ground arith
distance-minus (pos a) (negsuc b) n h k = ground arith
distance-minus (negsuc a) (pos b) n h k = ground arith
distance-minus (negsuc a) (negsuc b) n h k = ground arith

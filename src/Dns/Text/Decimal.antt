-- ===== src/Dns/Text/Decimal.antt =====
-- Numbers as they are printed, and by their order of magnitude.
use sightingdb.Common.{
  Bool-cases, [], ap, arith, inl, inr, ltb, suc, zero, ℕ, ◌%◌, ◌*◌, ◌+◌, ◌-◌, ◌/◌, ◌<◌, ◌↔◌, ◌∷◌,
  ◌≡◌, ◌≤◌,
}
use sightingdb.Dns.Text.{digits, magnitude, show_u64}
use sightingdb.Order.{Text}
use sightingdb.Word.{u64_mod}

-- the number that digits spell, after `n`
abbrev pub number_of : Text → ℕ → ℕ
number_of [] n = n
number_of (d ∷ s) n = number_of s (n * 10 + (d - b'0'))

abbrev pub power_of_ten : ℕ → ℕ
power_of_ten zero = 1
power_of_ten (suc k) = 10 * power_of_ten k

number_of-digits :
    (fuel n : ℕ) (s : Text) → n < power_of_ten fuel → number_of (digits fuel n s) 0 ≡ number_of s n
unfolding digits
number_of-digits zero n s h = ap (number_of s) (omega arith)
number_of-digits (suc fuel) n s h = elim (Bool-cases (ltb n 10)) [
  | inl e ↦ rw e (ap (number_of s) (omega arith))
  | inr e ↦
      rw (e, number_of-digits fuel (n / 10) ((b'0' + n % 10) ∷ s) (omega arith))
        (ap (number_of s) (omega arith))
]

-- What is printed of a `u64` spells the number: twenty digits are enough.
pub number_of-show_u64 : (n : ℕ) → n < u64_mod → number_of (show_u64 n) 0 ≡ n
unfolding show_u64
number_of-show_u64 n h = number_of-digits 20 n [] (omega arith)

-- The octet of an answer is at most nine, is zero for no sighting alone, and does not decrease when the
-- count increases.
pub magnitude_mono :
    (m n : ℕ)
    → m ≤ n
    → (magnitude m ≤ magnitude n) × (magnitude n ≤ 9) × ((magnitude n ≡ 0) ↔ (n ≡ 0))
unfolding magnitude
magnitude_mono m n h = (ground arith, ground arith, ground arith)

-- ===== src/Chrono.antt =====
-- The third-party crate `chrono`. An instant is an integer, its distance from the Unix epoch in a
-- unit that the crate keeps to itself; the conversions are the crate's, and the laws are what its
-- documentation says of them.
use sightingdb.Common.{Option, false, some, ◌≡◌}
use sightingdb.Int.{i64_max, ltb_ℤ, pos, ℤ}

abbrev pub DateTime : Type 0
DateTime = ℤ

-- `DateTime::UNIX_EPOCH`
abbrev pub unix_epoch : DateTime
unix_epoch = pos 0

pub record Chrono : Type 0 where
  -- `DateTime::timestamp`: whole seconds since the epoch, rounded down
  pub timestamp : DateTime → ℤ
  -- `DateTime::timestamp_millis`
  pub timestamp_millis : DateTime → ℤ
  -- `DateTime::from_timestamp(secs, 0)`: `None` out of the range of instants
  pub from_timestamp : ℤ → Option DateTime
  pub timestamp-from_timestamp :
      (s : ℤ) {t : DateTime} → from_timestamp s ≡ some t → timestamp t ≡ s
  pub timestamp_mono :
      (a b : DateTime) → ltb_ℤ b a ≡ false → ltb_ℤ (timestamp b) (timestamp a) ≡ false
  -- the result is an `i64`
  pub timestamp_le_max : (t : DateTime) → ltb_ℤ (pos i64_max) (timestamp t) ≡ false

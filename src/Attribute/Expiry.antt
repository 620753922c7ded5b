-- ===== src/Attribute/Expiry.antt =====
-- When a value stops being visible.
use sightingdb.Attribute.{Attribute, increment, is_expired}
use sightingdb.Attribute.Counting.{window-increment}
use sightingdb.Chrono.{Chrono, DateTime}
use sightingdb.Common.{arith, false, if◌then◌else◌, leb, true, ℕ, ◌≡◌}
use sightingdb.Int.{i64_max, ltb_ℤ, ltb_ℤ_irrefl, ltb_ℤ_weaken, negsuc, pos, saturating_add, ℤ}
use sightingdb.Order.{Text}

saturating_add-ge :
    (a : ℤ) (b : ℕ) → ltb_ℤ (pos i64_max) a ≡ false → ltb_ℤ (saturating_add a b) a ≡ false
unfolding saturating_add
saturating_add-ge (pos a) b h = ground arith
saturating_add-ge (negsuc a) b h = ground arith

module _ ⦃c : Chrono⦄ where
  -- A value with no time to live never expires.
  pub is_expired-zero : (now : DateTime) (a : Attribute) → a.ttl ≡ 0 → is_expired now a ≡ false
  unfolding is_expired
  is_expired-zero now a h = ground arith

  -- A value that was seen at an instant, or later, is not expired at that instant.
  not_expired :
      (now : DateTime) (a : Attribute) → ltb_ℤ a.last_seen now ≡ false → is_expired now a ≡ false
  unfolding is_expired
  not_expired now a h =
      let ttl = if leb a.ttl i64_max then a.ttl else i64_max in
      ground (
        arith,
        c.timestamp_mono now a.last_seen,
        saturating_add-ge (c.timestamp a.last_seen) ttl,
        c.timestamp_le_max a.last_seen,
        ltb_ℤ_weaken (saturating_add (c.timestamp a.last_seen) ttl) (c.timestamp now)
            (c.timestamp a.last_seen),
      )

  -- A sighting brings a value back: it is not expired at the instant of the sighting.
  pub is_expired-increment :
      (node : Text) (when : DateTime) (retention : ℕ) (a : Attribute)
      → is_expired when (increment node when retention a) ≡ false
  is_expired-increment node when retention a =
      not_expired when (increment node when retention a)
        (ground (arith, window-increment node when retention a, ltb_ℤ_irrefl when))

  -- Once expired at an instant, a value that is not written to is expired ever after.
  pub is_expired_mono :
      (now later : DateTime) (a : Attribute)
      → ltb_ℤ later now ≡ false
      → is_expired now a ≡ true
      → is_expired later a ≡ true
  unfolding is_expired
  is_expired_mono now later a h e =
      let ttl = if leb a.ttl i64_max then a.ttl else i64_max in
      ground (
        arith,
        c.timestamp_mono now later,
        ltb_ℤ_weaken (saturating_add (c.timestamp a.last_seen) ttl) (c.timestamp now)
            (c.timestamp later),
      )

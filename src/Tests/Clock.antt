-- ===== src/Tests/Clock.antt =====
-- A clock whose instants are seconds: what src/attribute.rs and src/db.rs need of `chrono`.
use sightingdb.Chrono.{Chrono, DateTime}
use sightingdb.Common.{Bool-cases, Option, arith, false, if◌then◌else◌, inl, inr, none, some, ◌≡◌}
use sightingdb.Int.{i64_max, ltb_ℤ, pos, scale, ℤ}

abbrev clamp : ℤ → ℤ
clamp t = if ltb_ℤ (pos i64_max) t then pos i64_max else t

abbrev seconds : ℤ → Option DateTime
seconds s = if ltb_ℤ (pos i64_max) s then none else some s

pub clamp-seconds : (s : ℤ) {t : DateTime} → seconds s ≡ some t → clamp t ≡ s
clamp-seconds s {t} h = elim (Bool-cases (ltb_ℤ (pos i64_max) s)) [
  | inl e ↦ absurd (ground arith)
  | inr e ↦ ground arith
]

pub clamp_mono : (a b : ℤ) → ltb_ℤ b a ≡ false → ltb_ℤ (clamp b) (clamp a) ≡ false
clamp_mono a b h = ground arith

pub clamp_le_max : (t : ℤ) → ltb_ℤ (pos i64_max) (clamp t) ≡ false
clamp_le_max t = ground arith

instance abbrev pub clock : Chrono
clock = record {
  timestamp = clamp;
  timestamp_millis = λ t. scale (clamp t) 1000;
  from_timestamp = seconds;
  timestamp-from_timestamp = clamp-seconds;
  timestamp_mono = clamp_mono;
  timestamp_le_max = clamp_le_max;
}

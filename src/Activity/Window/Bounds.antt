-- ===== src/Activity/Window/Bounds.antt =====
-- What a report holds, and that its loop stays inside its vectors.
use sightingdb.Activity.{Activity}
use sightingdb.Activity.Window.{Granularity, RootReport, clamp_buckets, retained_of, step_of}
use sightingdb.Common.{Bool, length, true, ℕ, ◌*◌, ◌/◌, ◌≡◌}
use sightingdb.Int.{ℤ}
use sightingdb.Map.{Map}
use sightingdb.Order.{Text, int_ord, text_ord}

-- a line of a report over `buckets` buckets, of a namespace that may be seen
abbrev pub IsLine : (Text → Bool) → ℕ → RootReport → Type 0
IsLine visible buckets r =
    (visible r.name ≡ true) × (length r.reads ≡ buckets) × (length r.writes ≡ buckets)

-- Two of the longest windows, in seconds.
abbrev pub two_windows : Granularity → ℕ
two_windows granularity = 2 * (retained_of granularity * step_of granularity)

module _ (granularity : Granularity) (end asked : ℕ) (visible : Text → Bool) (now : ℤ)
    (activity : Activity) where
  abbrev step : ℕ
  step = step_of granularity

  abbrev buckets : ℕ
  buckets = clamp_buckets granularity asked

  abbrev last_at : ℕ
  last_at = end / step * step

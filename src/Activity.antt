-- ===== src/Activity.antt =====
-- src/activity.rs: how busy each top-level namespace has been, in buckets of an hour and of a day. A
-- method holds the mutex from its first access to its last, so a method is one step. `sort_by` is a
-- stable sort, given here by insertion.
pub mod Buckets
pub mod Window
pub mod Restoring
use sightingdb.Common.{
  Bool, Option, [], false, if◌then◌else◌, is_nil, none, not, some, true, unwrap_or, ℕ, ◌&&◌, ◌*◌,
  ◌-◌, ◌∷◌,
}
use sightingdb.Int.{div_euclid, ltb_ℤ, minus, scale, ℤ}
use sightingdb.Map.{Map, insert, lookup}
use sightingdb.Names.{root_of}
use sightingdb.Order.{Text, int_ord, text_ord}
use sightingdb.Rejections.{enabled}
use sightingdb.Word.{add_u64}

-- `HOUR`
abbrev pub hour : ℕ
hour = 3600

-- `DAY`
abbrev pub day : ℕ
day = 86400

-- `HOURLY_BUCKETS`
abbrev pub hourly_buckets : ℕ
hourly_buckets = 31 * 24

-- `DAILY_BUCKETS`
abbrev pub daily_buckets : ℕ
daily_buckets = 400

-- `Counts` of src/activity.rs
pub record Tally : Type 0 where
  pub reads : ℕ
  pub writes : ℕ

-- `Counts::default`
abbrev pub no_tally : Tally
no_tally = record { reads = 0; writes = 0 }

-- `Counts::add`
unfoldable pub add_tally : Tally → Tally → Tally
unfolding add_u64
add_tally a b = record { reads = add_u64 a.reads b.reads; writes = add_u64 a.writes b.writes }

pub record Series : Type 0 where
  pub hourly : Map ℤ Tally
  pub daily : Map ℤ Tally

-- `Series::default`
abbrev pub no_series : Series
no_series = record { hourly = []; daily = [] }

-- the start of the bucket that holds `now`
unfoldable pub bucket_start : ℤ → ℕ → ℤ
unfolding div_euclid scale
bucket_start now step = scale (div_euclid now step) step

-- `BTreeMap::split_off`: what is not below `oldest`
unfoldable pub split_off : {V : Type 0} → ℤ → Map ℤ V → Map ℤ V
split_off oldest [] = []
split_off oldest ((at, v) ∷ rest) =
    let onward = split_off oldest rest in if ltb_ℤ at oldest then onward else (at, v) ∷ onward

-- the start of the oldest bucket that is kept
unfoldable pub oldest_kept : ℤ → ℕ → ℕ → ℤ
unfolding bucket_start minus
oldest_kept now step retained = minus (bucket_start now step) ((retained - 1) * step)

-- `bump`
unfoldable pub bump : ℤ → ℕ → ℕ → Tally → Map ℤ Tally → Map ℤ Tally
unfolding bucket_start split_off lookup insert oldest_kept add_tally
bump now step retained counts buckets = elim (lookup (bucket_start now step) buckets) [
  | some bucket ↦ insert (bucket_start now step) (add_tally bucket counts) buckets
  | none ↦ split_off (oldest_kept now step retained) (insert (bucket_start now step) counts buckets)
]

-- `Series::record`
unfoldable pub record_series : ℤ → Tally → Series → Series
unfolding bump
record_series now counts s = record {
  hourly = bump now hour hourly_buckets counts s.hourly;
  daily = bump now day daily_buckets counts s.daily;
}

-- `Series::is_empty`
abbrev pub is_empty_series : Series → Bool
is_empty_series s = is_nil s.hourly && is_nil s.daily

-- `Activity`, with its `Inner`
pub record Activity : Type 0 where
  pub enabled : Bool
  pub roots : Map Text Series
  pub dirty : Bool

-- `Activity::default`
abbrev pub default_activity : Activity
default_activity = record { enabled = true; roots = []; dirty = false }

-- `set_enabled`
abbrev pub set_enabled : Bool → Activity → Activity
set_enabled enabled activity = record activity { enabled = enabled }

-- `record_at` of `Activity`
unfoldable pub record_event : Text → ℤ → Tally → Activity → Activity
unfolding root_of lookup insert record_series
record_event namespace now counts activity = elim (root_of namespace) [
  | none ↦ activity
  | some root ↦ record activity {
    roots =
        insert root (record_series now counts (unwrap_or (lookup root activity.roots) no_series))
          activity.roots;
    dirty = true;
  }
]

-- `record` of `Activity`
unfoldable pub record_activity : Text → Tally → ℤ → Activity → Activity
unfolding record_event
record_activity namespace counts now activity =
    if not activity.enabled then activity else record_event namespace now counts activity

-- `record_read`
abbrev pub record_read : Text → ℤ → Activity → Activity
record_read namespace now = record_activity namespace (record { reads = 1; writes = 0 }) now

-- `record_write` of `Activity`
abbrev pub note_write : Text → ℤ → Activity → Activity
note_write namespace now = record_activity namespace (record { reads = 0; writes = 1 }) now

-- `retain` of `take_snapshot`
unfoldable pub retain_series : Map Text Series → Map Text Series
retain_series [] = []
retain_series ((root, s) ∷ rest) =
    let onward = retain_series rest in if is_empty_series s then onward else (root, s) ∷ onward

-- `take_snapshot`
unfoldable pub take_counts : Bool → Activity → Activity × Option (Map Text Series)
unfolding retain_series
take_counts force activity =
    let kept = retain_series activity.roots in
    if not activity.dirty && not force
    then (activity, none)
    else (record activity { roots = kept; dirty = false }, some kept)

-- `mark_dirty` of `Activity`
abbrev pub mark_activity : Activity → Activity
mark_activity activity = record activity { dirty = true }

-- the loops of `restore` over one namespace's buckets
unfoldable pub restore_buckets : Map ℤ Tally → Map ℤ Tally → Map ℤ Tally
unfolding lookup insert add_tally
restore_buckets [] held = held
restore_buckets ((at, counts) ∷ rest) held =
    restore_buckets rest (insert at (add_tally (unwrap_or (lookup at held) no_tally) counts) held)

unfoldable pub restore_roots : Map Text Series → Map Text Series → Map Text Series
unfolding lookup insert restore_buckets
restore_roots [] held = held
restore_roots ((root, saved) ∷ rest) held =
    let s = unwrap_or (lookup root held) no_series in
    restore_roots rest (
      insert root
        (record {
          hourly = restore_buckets saved.hourly s.hourly;
          daily = restore_buckets saved.daily s.daily;
        })
        held)

-- `restore`
abbrev pub restore_counts : Map Text Series → Activity → Activity
restore_counts saved activity = record activity { roots = restore_roots saved activity.roots }

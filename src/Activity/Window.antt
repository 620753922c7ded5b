-- ===== src/Activity/Window.antt =====
-- src/activity.rs: a report over a window of buckets.
pub mod Bounds
use sightingdb.Activity.{
  Activity, Series, Tally, add_tally, bucket_start, daily_buckets, day, hour, hourly_buckets,
  no_tally,
}
use sightingdb.Common.{
  Bool, List, Option, [], eqb, false, if◌then◌else◌, ltb, max, min, none, not, some, suc, true,
  zero, ℕ, ◌&&◌, ◌*◌, ◌-◌, ◌/◌, ◌||◌, ◌∷◌,
}
use sightingdb.Int.{distance, ltb_ℤ, minus, wrap_i64, ℤ}
use sightingdb.Map.{Map}
use sightingdb.Order.{Text, text_lt}
use sightingdb.Word.{add_u64}

pub data Granularity : Type 0 where
  hours : Granularity
  days : Granularity

-- `Granularity::step`
abbrev pub step_of : Granularity → ℕ
step_of hours = hour
step_of days = day

-- `Granularity::retained`
abbrev pub retained_of : Granularity → ℕ
retained_of hours = hourly_buckets
retained_of days = daily_buckets

pub record RootReport : Type 0 where
  pub name : Text
  pub reads : List ℕ
  pub writes : List ℕ
  pub total : Tally
  pub previous : Tally

pub record Report : Type 0 where
  pub enabled : Bool
  pub granularity : Granularity
  pub step : ℕ
  pub start : ℤ
  pub buckets : ℕ
  pub oldest : Option ℤ
  pub now : ℤ
  pub roots : List RootReport

-- `v[i] = x`; out of range, where the program panics, nothing changes
unfoldable pub set_index : ℕ → ℕ → List ℕ → List ℕ
set_index i x [] = []
set_index i x (y ∷ ys) = let rest = set_index (i - 1) x ys in if eqb i 0 then x ∷ ys else y ∷ rest

-- `vec![0; n]`
unfoldable pub zeros : ℕ → List ℕ
zeros zero = []
zeros (suc n) = 0 ∷ zeros n

-- `clamp(1, retained)`
abbrev pub clamp_buckets : Granularity → ℕ → ℕ
clamp_buckets granularity buckets = max 1 (min buckets (retained_of granularity))

-- `BTreeMap::range(first..=last)`; it panics where `last` is before `first`, which `report` asks first
unfoldable pub range_of : ℤ → ℤ → Map ℤ Tally → Map ℤ Tally
range_of first last [] = []
range_of first last ((at, counts) ∷ rest) =
    let onward = range_of first last rest in
    if ltb_ℤ at first || ltb_ℤ last at then onward else (at, counts) ∷ onward

-- `(at - start) / step`
abbrev pub bucket_index : ℤ → ℤ → ℕ → ℕ
bucket_index start at step = distance at start / step

-- the loop over the window
unfoldable pub fill : ℤ → ℕ → (Tally → ℕ) → Map ℤ Tally → List ℕ → List ℕ
unfolding set_index distance
fill start step field [] xs = xs
fill start step field ((at, counts) ∷ rest) xs =
    fill start step field rest (set_index (bucket_index start at step) (field counts) xs)

unfoldable pub sum_tally : Map ℤ Tally → Tally → Tally
unfolding add_tally
sum_tally [] acc = acc
sum_tally ((at, counts) ∷ rest) acc = sum_tally rest (add_tally acc counts)

abbrev pub held_at : Granularity → Series → Map ℤ Tally
held_at hours s = s.hourly
held_at days s = s.daily

-- the closure of `map` in `report`, for a window that starts at `start` and ends with `last`, and the
-- one before it that starts at `previous_start`
unfoldable pub report_root : Granularity → ℤ → ℤ → ℤ → ℕ → Text → Series → RootReport
unfolding fill zeros sum_tally range_of minus
report_root granularity previous_start start last buckets name s =
    let step = step_of granularity in
    let window = range_of start last (held_at granularity s) in
    record {
      name = name;
      reads = fill start step (λ c. c.reads) window (zeros buckets);
      writes = fill start step (λ c. c.writes) window (zeros buckets);
      total = sum_tally window no_tally;
      previous =
          sum_tally (range_of previous_start (minus start 1) (held_at granularity s)) no_tally;
    }

-- the order of `sort_by`: the busiest first, then by name
unfoldable pub comes_before : RootReport → RootReport → Bool
unfolding add_u64
comes_before a b =
    let busy_a = add_u64 a.total.reads a.total.writes in
    let busy_b = add_u64 b.total.reads b.total.writes in
    if ltb busy_b busy_a then true else eqb busy_a busy_b && not (text_lt b.name a.name)

unfoldable pub insert_report : RootReport → List RootReport → List RootReport
unfolding comes_before
insert_report r [] = r ∷ []
insert_report r (s ∷ rest) =
    let onward = insert_report r rest in if comes_before r s then r ∷ s ∷ rest else s ∷ onward

unfoldable pub sort_reports : List RootReport → List RootReport
unfolding insert_report
sort_reports [] = []
sort_reports (r ∷ rest) = insert_report r (sort_reports rest)

-- `filter` and `map` of `report`
unfoldable pub report_roots :
    Granularity → ℤ → ℤ → ℤ → ℕ → (Text → Bool) → Map Text Series → List RootReport
unfolding report_root
report_roots granularity previous_start start last buckets visible [] = []
report_roots granularity previous_start start last buckets visible ((name, s) ∷ rest) =
    let onward = report_roots granularity previous_start start last buckets visible rest in
    if visible name
    then report_root granularity previous_start start last buckets name s ∷ onward
    else onward

abbrev pub earlier : Option ℤ → ℤ → ℤ
earlier none first = first
earlier (some o) first = if ltb_ℤ first o then first else o

-- `oldest` of `report`
unfoldable pub oldest_held : Granularity → (Text → Bool) → Map Text Series → Option ℤ → Option ℤ
oldest_held granularity visible [] found = found
oldest_held granularity visible ((name, s) ∷ rest) found = oldest_held granularity visible rest (
    if visible name
    then elim (held_at granularity s) [ [] ↦ found | first ∷ later ↦ some (earlier found first.0) ]
    else found)

abbrev pub any_visible : (Text → Bool) → Map Text Series → Bool
any_visible visible [] = false
any_visible visible ((name, s) ∷ rest) = visible name || any_visible visible rest

-- the value that `report` makes of the two windows, at the second `now`
unfoldable pub report_over : Granularity → ℕ → (Text → Bool) → ℤ → Activity → ℤ → ℤ → ℤ → Report
unfolding bucket_start report_roots sort_reports oldest_held
report_over granularity buckets visible now activity previous_start start last = record {
  enabled = activity.enabled;
  granularity = granularity;
  step = step_of granularity;
  start = start;
  buckets = buckets;
  oldest = oldest_held granularity visible activity.roots none;
  now = bucket_start now (step_of granularity);
  roots =
      sort_reports
        (report_roots granularity previous_start start last buckets visible activity.roots);
}

-- the ranges of `report`: one that ends before it starts panics, as soon as a root is looked at
unfoldable pub report_within :
    Granularity → ℕ → (Text → Bool) → ℤ → Activity → ℤ → ℤ → ℤ → Option Report
unfolding report_over
report_within granularity buckets visible now activity previous_start start last =
    if (ltb_ℤ last start || ltb_ℤ start previous_start) && any_visible visible activity.roots
    then none
    else some (report_over granularity buckets visible now activity previous_start start last)

-- `report`, at the second `now`; nothing where it panics
unfoldable pub report : Granularity → ℤ → ℕ → (Text → Bool) → ℤ → Activity → Option Report
unfolding bucket_start minus wrap_i64 report_within
report granularity end asked visible now activity =
    let step = step_of granularity in
    let buckets = clamp_buckets granularity asked in
    let last = wrap_i64 (bucket_start end step) in
    let start = wrap_i64 (minus last ((buckets - 1) * step)) in
    let previous_start = wrap_i64 (minus start (buckets * step)) in
    report_within granularity buckets visible now activity previous_start start last

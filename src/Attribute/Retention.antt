-- ===== src/Attribute/Retention.antt =====
-- Trimming the hourly buckets: what goes is the oldest, and what stays fits the retention.
use sightingdb.Attribute.{
  Attribute, Buckets, add_at, bucket_of, increment, make_stats, remove_all, trim_buckets,
  trim_stats,
}
use sightingdb.Attribute.Merging.Counters.{counter}
use sightingdb.Attribute.Merging.Stats.{buckets_of}
use sightingdb.Chrono.{Chrono, DateTime}
use sightingdb.Common.{
  [], arith, drop, eqb, if◌then◌else◌, length, length-drop, refl, some, suc, take, zero, ℕ, ◌-◌,
  ◌<◌, ◌∷◌, ◌≡◌, ◌≤◌,
}
use sightingdb.Map.{Map, insert, keys, lookup, remove}
use sightingdb.Map.Laws.{beq_refl, lookup-insert}
use sightingdb.Map.Sorted.{IsAbove, IsSorted, insert-IsSorted, lookup_above, remove_absent}
use sightingdb.Order.{Ord, Text, int_ord, text_eq_iff, text_ord, ◌==◌}
use sightingdb.Word.{add_u64}

module _ {K V : Type 0} ⦃o : Ord K⦄ where
  remove_all-below : (k : K) (m : Map K V) → IsAbove k m → remove k m ≡ m
  remove_all-below k m a = remove_absent k m (lookup_above k m a)

  -- The first `n` keys of a map in order are those of its first `n` entries.
  pub remove_all-take :
      (n : ℕ) (m : Map K V) → IsSorted m → remove_all (take n (keys m)) m ≡ drop n m
  unfolding remove_all remove
  remove_all-take zero m s = refl
  remove_all-take (suc n) [] s = refl
  remove_all-take (suc n) ((k, v) ∷ m) s =
      rw (beq_refl k, remove_all-below k m s.0) (remove_all-take n m s.1)

-- From buckets in order, a retention of 0 keeps every bucket and any other keeps the newest ones,
-- as many as it says.
pub trim_buckets_lem :
    (retention : ℕ) (b : Buckets)
    → IsSorted b
    → trim_buckets retention b ≡ (if eqb retention 0 then b else drop (length b - retention) b)
unfolding trim_buckets
trim_buckets_lem retention b s =
    ground (arith, remove_all-take (length b - retention) b s, drop_none (length b - retention) b)
  where
    drop_none : (n : ℕ) (m : Buckets) → n ≡ 0 → drop n m ≡ m
    drop_none zero m h = refl
    drop_none (suc n) m h = absurd (omega arith)

module _ ⦃c : Chrono⦄ (node : Text) (when : DateTime) (retention : ℕ) (a : Attribute) where
  stats-increment :
      (increment node when retention a).stats
      ≡ (trim_stats node retention (make_stats node when a)).stats
  unfolding increment
  stats-increment = ground arith

  -- After a write the server's own buckets are the old ones with the write's hour bumped, cut to
  -- the newest; the buckets of the others are as they were.
  pub buckets_of-increment :
      (j : Text)
      → lookup j (increment node when retention a).stats ≡ (
          if node == j
          then some (trim_buckets retention (add_at (bucket_of when) 1 (buckets_of node a.stats)))
          else lookup j a.stats)
  unfolding make_stats trim_stats
  buckets_of-increment j =
      let bumped = add_at (bucket_of when) 1 (buckets_of node a.stats) in
      rw stats-increment (
        ground (
          arith,
          lookup-insert node node bumped a.stats,
          lookup-insert node j bumped a.stats,
          lookup-insert node j (trim_buckets retention bumped) (insert node bumped a.stats),
          text_eq_iff node j,
          text_eq_iff node node,
        ))

  -- Where the server's buckets are in order and the retention is not 0, a write leaves it no more
  -- buckets than the retention.
  pub length-buckets_of-increment :
      IsSorted (buckets_of node a.stats)
      → 0 < retention
      → length (buckets_of node (increment node when retention a).stats) ≤ retention
  unfolding add_at
  length-buckets_of-increment s h =
      let bumped = add_at (bucket_of when) 1 (buckets_of node a.stats) in
      ground (
        arith,
        buckets_of-increment node,
        text_eq_iff node node,
        trim_buckets_lem retention bumped (
            insert-IsSorted (bucket_of when)
              (add_u64 (counter (bucket_of when) (buckets_of node a.stats)) 1)
              (buckets_of node a.stats) s),
        length-drop (length bumped - retention) bumped,
      )

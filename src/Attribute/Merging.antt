-- ===== src/Attribute/Merging.antt =====
-- src/attribute.rs, `Attribute::merge`: a peer's copy of a value folded into this server's. The
-- loops, the window, the tags and the time to live are a function each.
pub mod Counters
pub mod Loops
pub mod Convergence
pub mod Idempotence
pub mod Parts
pub mod Counts
pub mod Stats
use sightingdb.Attribute.{Attribute, Buckets, Merge, Merged, count}
use sightingdb.Chrono.{Chrono, DateTime, unix_epoch}
use sightingdb.Common.{
  Bool, Option, [], eqb, false, if◌then◌else◌, ltb, min, none, not, some, suc, true, unwrap_or,
  zero, ℕ, ◌&&◌, ◌+◌, ◌||◌, ◌∷◌,
}
use sightingdb.Int.{eqb_ℤ, ltb_ℤ, ℤ}
use sightingdb.Map.{Map, insert, lookup, or_insert}
use sightingdb.Order.{Ord, Text, int_ord, text_eq, text_ord, ◌==◌}
use sightingdb.TagText.{add_tags}
use sightingdb.Text.{is_empty}

-- the body of either loop: the map after `entry(k).or_insert(0)` is raised, and whether it rose
unfoldable pub raise_to : {K : Type 0} ⦃o : Ord K⦄ → K → ℕ → Map K ℕ → Map K ℕ × Bool
unfolding lookup insert or_insert
raise_to k n m =
    if ltb (unwrap_or (lookup k m) 0) n
    then (insert k n (or_insert k 0 m), true)
    else (or_insert k 0 m, false)

pub record Progress : Type 0 where
  pub counts : Map Text ℕ
  pub changed : Bool
  pub ignored_self : ℕ

unfoldable pub merge_count : Text → Text → ℕ → Progress → Progress
unfolding raise_to
merge_count mine node n p =
    if node == mine then record p { ignored_self = p.ignored_self + 1 } else record p {
      counts = (raise_to node n p.counts).0;
      changed = p.changed || (raise_to node n p.counts).1;
    }

-- `for (node, count) in &incoming.counts`
unfoldable pub merge_counts : Text → Map Text ℕ → Progress → Progress
unfolding merge_count
merge_counts mine [] p = p
merge_counts mine ((node, n) ∷ rest) p = merge_counts mine rest (merge_count mine node n p)

-- `for (bucket, hits) in buckets`
unfoldable pub merge_buckets : Buckets → Buckets × Bool → Buckets × Bool
unfolding raise_to
merge_buckets [] p = p
merge_buckets ((bucket, hits) ∷ rest) p =
    merge_buckets rest ((raise_to bucket hits p.0).0, p.1 || (raise_to bucket hits p.0).1)

unfoldable pub merge_node :
    Text → Text → Buckets → Map Text Buckets × Bool → Map Text Buckets × Bool
unfolding merge_buckets lookup insert
merge_node mine node buckets p =
    if node == mine
    then p
    else let ours = merge_buckets buckets (unwrap_or (lookup node p.0) [], p.1) in
      (insert node ours.0 p.0, ours.1)

-- `for (node, buckets) in &incoming.stats`
unfoldable pub merge_stats :
    Text → Map Text Buckets → Map Text Buckets × Bool → Map Text Buckets × Bool
unfolding merge_node
merge_stats mine [] p = p
merge_stats mine ((node, buckets) ∷ rest) p = merge_stats mine rest (merge_node mine node buckets p)

-- `first_seen` after the merge, and whether it changed
unfoldable pub merge_first : Bool → Option DateTime → DateTime → DateTime × Bool
merge_first unseen none ours = (ours, false)
merge_first unseen (some theirs) ours =
    if unseen || ltb_ℤ theirs ours then (theirs, not (eqb_ℤ theirs ours)) else (ours, false)

unfoldable pub merge_last : Bool → Option DateTime → DateTime → DateTime × Bool
merge_last unseen none ours = (ours, false)
merge_last unseen (some theirs) ours =
    if unseen || ltb_ℤ ours theirs then (theirs, not (eqb_ℤ theirs ours)) else (ours, false)

-- `tags` and `tags_at` after the merge
unfoldable pub merge_tags : Text → ℤ → Text → ℤ → Text × ℤ
unfolding add_tags
merge_tags theirs theirs_at ours ours_at =
    if ltb_ℤ ours_at theirs_at
    then (theirs, theirs_at)
    else if ltb_ℤ theirs_at ours_at
    then (ours, ours_at)
    else if not (is_empty theirs)
    then (add_tags theirs ours, ours_at)
    else (ours, ours_at)

unfoldable pub merge_ttl : ℕ → ℕ → ℕ
merge_ttl zero theirs = theirs
merge_ttl (suc ours) zero = suc ours
merge_ttl (suc ours) (suc theirs) = min (suc ours) (suc theirs)

-- `let unseen`
unfoldable pub is_unseen : Attribute → Bool
unfolding count
is_unseen a = eqb (count a) 0 && eqb_ℤ a.first_seen unix_epoch

module _ ⦃c : Chrono⦄ where
  -- `merge`: the attribute that it leaves
  unfoldable pub merge : Text → Merge → Attribute → Attribute
  unfolding merge_counts merge_stats merge_first merge_last merge_tags merge_ttl is_unseen
  merge mine incoming a = record a {
    counts =
        (merge_counts mine incoming.counts
          (record { counts = a.counts; changed = false; ignored_self = 0 })).counts;
    stats = (merge_stats mine incoming.stats (a.stats, false)).0;
    first_seen = (merge_first (is_unseen a) (c.from_timestamp incoming.first_seen) a.first_seen).0;
    last_seen = (merge_last (is_unseen a) (c.from_timestamp incoming.last_seen) a.last_seen).0;
    tags = (merge_tags incoming.tags incoming.tags_at a.tags a.tags_at).0;
    tags_at = (merge_tags incoming.tags incoming.tags_at a.tags a.tags_at).1;
    ttl = merge_ttl a.ttl incoming.ttl;
  }

  -- the flag `changed` after each part of `merge`, in order
  unfoldable pub merge_changes : Text → Merge → Attribute → Bool
  unfolding merge_counts merge_stats merge_first merge_last merge_tags merge_ttl is_unseen
  merge_changes mine incoming a =
      (merge_stats mine incoming.stats (
        a.stats,
        (merge_counts mine incoming.counts
            (record { counts = a.counts; changed = false; ignored_self = 0 })).changed,
      )).1
      || (merge_first (is_unseen a) (c.from_timestamp incoming.first_seen) a.first_seen).1
      || (merge_last (is_unseen a) (c.from_timestamp incoming.last_seen) a.last_seen).1
      || not (text_eq (merge_tags incoming.tags incoming.tags_at a.tags a.tags_at).0 a.tags)
      || not (eqb (merge_ttl a.ttl incoming.ttl) a.ttl)

  -- `merge`: what it returns
  unfoldable pub merged : Text → Merge → Attribute → Merged
  merged mine incoming a = record {
    changed = merge_changes mine incoming a;
    ignored_self =
        (merge_counts mine incoming.counts
          (record { counts = a.counts; changed = false; ignored_self = 0 })).ignored_self;
    count = count (merge mine incoming a);
  }

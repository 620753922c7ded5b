-- ===== src/Attribute.antt =====
-- src/attribute.rs: a value with the bookkeeping that is kept about it. A method that takes
-- `&mut self` returns the new attribute; the conversions of `chrono` come as an instance argument.
pub mod TagSet
pub mod Expiry
pub mod Retention
pub mod Counting
pub mod Merging
use sightingdb.Chrono.{Chrono, DateTime, unix_epoch}
use sightingdb.Common.{
  Bool, List, Option, [], eqb, false, if◌then◌else◌, is_nil, leb, length, ltb, none, some, take,
  unwrap_or, ℕ, ◌-◌, ◌||◌, ◌∷◌,
}
use sightingdb.Int.{div_euclid, i64_max, ltb_ℤ, max_ℤ, pos, saturating_add, scale, ℤ}
use sightingdb.Map.{Map, insert, keys, lookup, remove, values}
use sightingdb.Order.{Ord, Text, int_ord, text_ord}
use sightingdb.TagText.{push_new, split_tags}
use sightingdb.Text.{join}
use sightingdb.Word.{add_u64, sum_u64}

abbrev pub Buckets : Type 0
Buckets = Map ℤ ℕ

pub record Attribute : Type 0 where
  pub value : Text
  pub first_seen : DateTime
  pub last_seen : DateTime
  pub counts : Map Text ℕ
  pub tags : Text
  pub tags_at : ℤ
  pub ttl : ℕ
  pub stats : Map Text Buckets
  pub legacy_count : ℕ
  pub legacy_stats : Buckets

pub record Merge : Type 0 where
  pub counts : Map Text ℕ
  pub stats : Map Text Buckets
  pub first_seen : ℤ
  pub last_seen : ℤ
  pub tags : Text
  pub tags_at : ℤ
  pub ttl : ℕ

pub record Merged : Type 0 where
  pub changed : Bool
  pub ignored_self : ℕ
  pub count : ℕ

pub record AttributeView : Type 0 where
  pub value : Text
  pub first_seen : ℤ
  pub last_seen : ℤ
  pub count : ℕ
  pub tags : Text
  pub ttl : ℕ
  pub consensus : ℕ
  pub stats : Option Buckets

abbrev pub stats_bucket_secs : ℕ
stats_bucket_secs = 3600

-- `Attribute::new`
unfoldable pub new : Text → Attribute
new value = record {
  value = value;
  first_seen = unix_epoch;
  last_seen = unix_epoch;
  counts = [];
  tags = [];
  tags_at = pos 0;
  ttl = 0;
  stats = [];
  legacy_count = 0;
  legacy_stats = [];
}

-- `count`
unfoldable pub count : Attribute → ℕ
unfolding sum_u64
count a = sum_u64 (values a.counts)

-- `*entry(k).or_insert(0) += n`
unfoldable pub add_at : {K : Type 0} ⦃o : Ord K⦄ → K → ℕ → Map K ℕ → Map K ℕ
unfolding lookup insert add_u64
add_at k n m = insert k (add_u64 (unwrap_or (lookup k m) 0) n) m

unfoldable pub add_all : {K : Type 0} ⦃o : Ord K⦄ → Map K ℕ → Map K ℕ → Map K ℕ
unfolding add_at
add_all [] m = m
add_all ((k, n) ∷ rest) m = add_all rest (add_at k n m)

unfoldable pub migrate_count : Text → Attribute → Attribute
unfolding add_at
migrate_count node a =
    if ltb 0 a.legacy_count
    then record a { counts = add_at node a.legacy_count a.counts; legacy_count = 0 }
    else a

unfoldable pub migrate_stats : Text → Attribute → Attribute
unfolding add_all lookup insert
migrate_stats node a = if is_nil a.legacy_stats then a else record a {
  stats = insert node (add_all a.legacy_stats (unwrap_or (lookup node a.stats) [])) a.stats;
  legacy_stats = [];
}

-- `migrate`
unfoldable pub migrate : Text → Attribute → Attribute
unfolding migrate_count migrate_stats
migrate node a = migrate_stats node (migrate_count node a)

unfoldable pub remove_all : {K V : Type 0} ⦃o : Ord K⦄ → List K → Map K V → Map K V
unfolding remove
remove_all [] m = m
remove_all (k ∷ ks) m = remove_all ks (remove k m)

-- what `trim_stats` leaves of the buckets that it finds
unfoldable pub trim_buckets : ℕ → Buckets → Buckets
unfolding remove_all
trim_buckets retention buckets =
    if eqb retention 0 || leb (length buckets) retention
    then buckets
    else remove_all (take (length buckets - retention) (keys buckets)) buckets

-- `trim_stats`
unfoldable pub trim_stats : Text → ℕ → Attribute → Attribute
unfolding lookup insert trim_buckets
trim_stats node retention a = elim (lookup node a.stats) [
  | none ↦ a
  | some buckets ↦ record a { stats = insert node (trim_buckets retention buckets) a.stats }
]

-- `set_tags`
unfoldable pub set_tags : Text → ℤ → Attribute → Attribute
unfolding split_tags push_new join
set_tags tags at a = record a {
  tags = join (b',' ∷ []) (push_new (split_tags tags) []);
  tags_at = max_ℤ a.tags_at at;
}

-- `decrement`: the attribute, and the total that remains
unfoldable pub decrement : Text → Attribute → Attribute × ℕ
unfolding lookup insert remove count
decrement node a = elim (lookup node a.counts) [
  | none ↦ (a, count a)
  | some mine ↦
      let left = record a {
        counts = if eqb (mine - 1) 0 then remove node a.counts else insert node (mine - 1) a.counts;
      } in
      (left, count left)
]

unfoldable pub set_ttl : ℕ → Attribute → Attribute
set_ttl ttl a = record a { ttl = ttl }

-- the inner loop of `merged_stats`, over the buckets of every server
unfoldable pub merge_all : List Buckets → Buckets → Buckets
unfolding add_all
merge_all [] merged = merged
merge_all (buckets ∷ rest) merged = merge_all rest (add_all buckets merged)

unfoldable pub merged_stats : Attribute → Buckets
unfolding merge_all
merged_stats a = merge_all (values a.stats) []

abbrev pub past_deadline : ℤ → Option ℤ → Bool
past_deadline now none = false
past_deadline now (some deadline) = ltb_ℤ deadline now

module _ ⦃c : Chrono⦄ where
  -- `make_stats`
  unfoldable pub bucket_of : DateTime → ℤ
  unfolding div_euclid scale
  bucket_of when = scale (div_euclid (c.timestamp when) stats_bucket_secs) stats_bucket_secs

  unfoldable pub make_stats : Text → DateTime → Attribute → Attribute
  unfolding bucket_of lookup insert add_at
  make_stats node when a = record a {
    stats = insert node (add_at (bucket_of when) 1 (unwrap_or (lookup node a.stats) [])) a.stats;
  }

  -- the window that `increment` leaves
  unfoldable pub widen : DateTime → Attribute → Attribute
  unfolding count
  widen when a =
      if eqb (count a) 0 then record a { first_seen = when; last_seen = when } else record a {
        first_seen = if ltb_ℤ when a.first_seen then when else a.first_seen;
        last_seen = if ltb_ℤ a.last_seen when then when else a.last_seen;
      }

  unfoldable pub count_one : Text → Attribute → Attribute
  unfolding add_at
  count_one node a = record a { counts = add_at node 1 a.counts }

  -- `increment`
  unfoldable pub increment : Text → DateTime → ℕ → Attribute → Attribute
  unfolding widen make_stats trim_stats count_one
  increment node when stats_retention a =
      count_one node (trim_stats node stats_retention (make_stats node when (widen when a)))

  -- `as_merge`
  unfoldable pub as_merge : Attribute → Merge
  as_merge a = record {
    counts = a.counts;
    stats = a.stats;
    first_seen = c.timestamp a.first_seen;
    last_seen = c.timestamp a.last_seen;
    tags = a.tags;
    tags_at = a.tags_at;
    ttl = a.ttl;
  }

  -- `expires_at`
  unfoldable pub expires_at : Attribute → Option ℤ
  unfolding saturating_add
  expires_at a =
      if ltb 0 a.ttl
      then some
          (saturating_add (c.timestamp a.last_seen) (if leb a.ttl i64_max then a.ttl else i64_max))
      else none

  -- `is_expired`
  unfoldable pub is_expired : DateTime → Attribute → Bool
  unfolding expires_at
  is_expired now a = past_deadline (c.timestamp now) (expires_at a)

  -- `view`
  unfoldable pub view : ℕ → Bool → Attribute → AttributeView
  unfolding count merged_stats
  view consensus with_stats a = record {
    value = a.value;
    first_seen = c.timestamp a.first_seen;
    last_seen = c.timestamp a.last_seen;
    count = count a;
    tags = a.tags;
    ttl = a.ttl;
    consensus = consensus;
    stats = if with_stats then some (merged_stats a) else none;
  }

-- ===== src/Database/Listing.antt =====
-- src/db.rs, `Database`: what the catalogue and the namespaces are listed as. `allowed` stands for the
-- caller's closure.
pub mod Under
pub mod Search
pub mod Pages
use sightingdb.Common.{
  Bool, List, Option, [], drop, eqb, false, first_item, if◌then◌else◌, is_some, keep, length, map,
  none, not, some, take, true, unwrap_or, ℕ, ◌&&◌, ◌++◌, ◌+◌, ◌||◌, ◌∷◌,
}
use sightingdb.Database.{Database, Names, ShardMeta}
use sightingdb.Map.{Map, insert, keys, lookup, values}
use sightingdb.Names.{all_namespace, config_prefix, is_internal, shard_of, under}
use sightingdb.Namespace.{Page}
use sightingdb.Order.{Text, text_eq, text_ord}
use sightingdb.Text.{
  byte_len, has_part, is_empty, is_slash, split, starts_with, strip_prefix, to_ascii_lowercase,
  trim_matches,
}
use sightingdb.Tier.{Resolved, TierEntry, TierPolicy, resolve_tier, set_tier, tier_name}
use sightingdb.Word.{total}

-- `StorageView`
pub record StorageView : Type 0 where
  pub warm_idle : ℕ
  pub own_tier : Bool
  pub own_warm_idle : Bool

pub record NamespaceEntry : Type 0 where
  pub namespace : Text
  pub shard : Text
  pub tier : Text
  pub resident : Bool
  pub storage : StorageView

pub record TreeEntry : Type 0 where
  pub name : Text
  pub path : Text
  pub is_namespace : Bool
  pub descendants : ℕ
  pub shard : Text
  pub tier : Text
  pub resident : Bool
  pub storage : StorageView

-- `StorageView::of`
unfoldable pub storage_view : TierPolicy → Text → Text × StorageView
unfolding resolve_tier
storage_view tiers shard =
    let resolved = resolve_tier shard tiers in
    (
      tier_name resolved.tier,
      record {
        warm_idle = resolved.warm_idle;
        own_tier = is_some resolved.own_tier;
        own_warm_idle = is_some resolved.own_warm_idle;
      },
    )

-- `flat_map` over the catalogue
unfoldable pub listed_names : Map Text ShardMeta → List Text
listed_names [] = []
listed_names ((shard, meta) ∷ rest) = keys meta.namespaces ++ listed_names rest

unfoldable pub name_set : List Text → Names
unfolding insert
name_set [] = []
name_set (name ∷ rest) = insert name tt (name_set rest)

-- `sort_unstable`, then `dedup`
abbrev pub sorted_names : List Text → List Text
sorted_names names = keys (name_set names)

-- the filters of `namespaces_under`
unfoldable pub is_under : Text → (Text → Bool) → Text → Bool
unfolding is_internal under
is_under prefix allowed name = not (is_internal name) && under name prefix && allowed name

-- `namespaces_under`
unfoldable pub namespaces_under : Text → (Text → Bool) → Database → List Text
unfolding listed_names name_set is_under trim_matches
namespaces_under prefix allowed db =
    sorted_names (keep (is_under (trim_matches is_slash prefix) allowed) (listed_names db.shards))

-- what is left out of the listings
abbrev pub is_browsable : Text → Bool
is_browsable name = not (starts_with config_prefix name) && not (text_eq name all_namespace)

-- the filter by a part of the name, for a `filter` in lower case
unfoldable pub passes_filter : Text → Text → Bool
unfolding has_part to_ascii_lowercase
passes_filter filter name = is_empty filter || has_part filter (to_ascii_lowercase name)

abbrev pub is_resident : Text → Database → Bool
is_resident shard db = elim (lookup shard db.shards) [ none ↦ false | some meta ↦ meta.resident ]

-- a row of `namespace_page`
unfoldable pub namespace_entry : Database → Text → NamespaceEntry
unfolding shard_of storage_view lookup
namespace_entry db name =
    let (tier, storage) = storage_view db.tiers (shard_of name) in
    record {
      namespace = name;
      shard = shard_of name;
      tier = tier;
      resident = is_resident (shard_of name) db;
      storage = storage;
    }

-- the names of `namespace_page`, before paging
unfoldable pub page_names : Text → (Text → Bool) → Database → List Text
unfolding listed_names name_set passes_filter to_ascii_lowercase starts_with
page_names filter allowed db = sorted_names (
    keep
      (λ name. is_browsable name && passes_filter (to_ascii_lowercase filter) name && allowed name)
      (listed_names db.shards))

-- `namespace_page`
unfoldable pub namespace_page : Text → ℕ → ℕ → (Text → Bool) → Database → Page NamespaceEntry
unfolding page_names namespace_entry
namespace_page filter offset limit allowed db =
    let names = page_names filter allowed db in
    record {
      items = map (namespace_entry db) (take limit (drop offset names));
      total = length names;
      offset = offset;
    }

-- what follows the prefix in a name below it
unfoldable pub below_prefix : Text → Text → Option Text
unfolding strip_prefix
below_prefix prefix name =
    if is_empty prefix
    then some name
    else elim (strip_prefix prefix name) [ none ↦ none | some rest ↦ strip_prefix (b'/' ∷ []) rest ]

-- `split('/').next()`
unfoldable pub next_segment : Text → Text
unfolding split
next_segment rest = unwrap_or (first_item (split b'/' rest)) []

-- a child is a namespace, or one more namespace is below it
unfoldable pub add_child : Text → Map Text (Bool × ℕ) → Map Text (Bool × ℕ)
unfolding next_segment lookup insert
add_child rest children =
    let segment = next_segment rest in
    let entry = unwrap_or (lookup segment children) (false, 0) in
    if is_empty segment
    then children
    else insert segment
        (if eqb (byte_len segment) (byte_len rest) then (true, entry.1) else (entry.0, entry.1 + 1))
        children

-- the loop of `namespace_children`
unfoldable pub collect_children :
    Text → (Text → Bool) → List Text → Map Text (Bool × ℕ) → Map Text (Bool × ℕ)
unfolding below_prefix add_child starts_with
collect_children prefix allowed [] children = children
collect_children prefix allowed (name ∷ rest) children =
    let added : Map Text (Bool × ℕ) = elim (below_prefix prefix name) [
      | none ↦ children
      | some below ↦ add_child below children
    ] in
    collect_children prefix allowed rest
      (if is_browsable name && allowed name then added else children)

-- a row of `namespace_children`
unfoldable pub tree_entry : Database → Text → Map Text (Bool × ℕ) → Text → TreeEntry
unfolding shard_of storage_view lookup
tree_entry db prefix children name =
    let path = if is_empty prefix then name else prefix ++ (b'/' ∷ name) in
    let entry = unwrap_or (lookup name children) (false, 0) in
    let (tier, storage) = storage_view db.tiers (shard_of path) in
    record {
      name = name;
      path = path;
      is_namespace = entry.0;
      descendants = entry.1;
      shard = shard_of path;
      tier = tier;
      resident = is_resident (shard_of path) db;
      storage = storage;
    }

-- `namespace_children`
unfoldable pub namespace_children : Text → Text → ℕ → ℕ → (Text → Bool) → Database → Page TreeEntry
unfolding collect_children listed_names tree_entry passes_filter trim_matches to_ascii_lowercase
namespace_children prefix filter offset limit allowed db =
    let trimmed = trim_matches is_slash prefix in
    let children = collect_children trimmed allowed (listed_names db.shards) [] in
    let names = keep (passes_filter (to_ascii_lowercase filter)) (keys children) in
    record {
      items = map (tree_entry db trimmed children) (take limit (drop offset names));
      total = length names;
      offset = offset;
    }

-- `residency`
abbrev pub residency : Database → ℕ × ℕ
residency db =
    (length (keep (λ (meta : ShardMeta). meta.resident) (values db.shards)), length db.shards)

-- `attach_store`: where the store is, `read_shard` and `Disk` say
abbrev pub attach_store : TierPolicy → Database → Database
attach_store tiers db = record db { has_store = true; tiers = tiers }

-- `set_policy`
abbrev pub set_policy : Text → TierEntry → Database → Database
set_policy shard entry db = record db { tiers = set_tier shard entry db.tiers }

-- `resolved_policy`
abbrev pub resolved_policy : Text → Database → Resolved
resolved_policy shard db = resolve_tier shard db.tiers

-- `tier_overrides`
abbrev pub tier_overrides : Database → List (Text × Option Text × Option ℕ)
tier_overrides db =
    map
      (λ (e : Text × TierEntry).
        (e.0, elim e.1.tier [ none ↦ none | some tier ↦ some (tier_name tier) ], e.1.warm_idle))
      db.tiers.entries

-- ===== src/Database.antt =====
-- src/db.rs, `Database`: the namespaces in memory, the catalogue of shards, what is dirty, and the
-- record of latest writes. A method that takes `&self` and changes what it locks returns the new
-- database. Methods run one after another, each reading the clock once (`now`), so the only owner of
-- a namespace is the map; the shards' files are read through a parameter.
pub mod Paging
pub mod Writing
pub mod Methods
pub mod Lookup
pub mod Known
pub mod Tally
pub mod Consensus
pub mod Dirty
pub mod Listing
pub mod Values
use sightingdb.Activity.{Activity, default_activity}
use sightingdb.Attribute.{Attribute}
use sightingdb.Common.{Bool, Option, [], false, if◌then◌else◌, none, not, some, true, ℕ, ◌&&◌, ◌∷◌}
use sightingdb.Int.{pos, ℤ}
use sightingdb.Latest.{Latest, default_latest}
use sightingdb.Map.{Map, contains, insert, lookup, remove}
use sightingdb.Names.{shard_of}
use sightingdb.Namespace.{Namespace, from_values}
use sightingdb.Order.{Text, text_ord}
use sightingdb.Storage.{StoragePolicy}
use sightingdb.Tier.{TierPolicy, default_policy}

-- a `HashSet<String>`
abbrev pub Names : Type 0
Names = Map Text (Unit {0})

pub record DatabasePolicy : Type 0 where
  pub stats_retention : ℕ
  pub shadow_ttl : ℕ

pub record WriteOpts : Type 0 where
  pub consensus : Bool
  pub ttl : Option ℕ

-- `WriteOpts::default`
abbrev pub default_opts : WriteOpts
default_opts = record { consensus = false; ttl = none }

pub record Written : Type 0 where
  pub count : ℕ
  pub new : Bool

pub record ShardMeta : Type 0 where
  pub namespaces : Names
  pub resident : Bool
  pub last_access : ℤ

abbrev pub no_meta : ShardMeta
no_meta = record { namespaces = []; resident = false; last_access = pos 0 }

-- `has_store` says that `attach_store` was called
pub record Database : Type 0 where
  pub namespaces : Map Text Namespace
  pub policy : DatabasePolicy
  pub stores : StoragePolicy
  pub node : Text
  pub dirty : Names
  pub shards : Map Text ShardMeta
  pub has_store : Bool
  pub tiers : TierPolicy
  pub activity : Activity
  pub latest : Latest

-- `with_node`
unfoldable pub with_node : DatabasePolicy → StoragePolicy → Text → Database
with_node policy stores node = record {
  namespaces = [];
  policy = policy;
  stores = stores;
  node = node;
  dirty = [];
  shards = [];
  has_store = false;
  tiers = default_policy;
  activity = default_activity;
  latest = default_latest;
}

-- `mark_dirty`, `mark_shard_dirty`
unfoldable pub mark_dirty : Text → Database → Database
unfolding insert shard_of
mark_dirty namespace db = record db { dirty = insert (shard_of namespace) tt db.dirty }

-- `take_dirty`
unfoldable pub take_dirty : Database → Database × Names
take_dirty db = (record db { dirty = [] }, db.dirty)

-- `resident`
unfoldable pub resident : Text → Database → Option Namespace
unfolding lookup
resident name db = lookup name db.namespaces

-- a change made through a handle on the namespace
unfoldable pub put : Text → Namespace → Database → Database
unfolding insert
put name ns db = record db { namespaces = insert name ns db.namespaces }

-- `catalogued`
unfoldable pub catalogued : Text → Text → Database → Bool
unfolding lookup contains
catalogued shard name db = elim (lookup shard db.shards) [
  | none ↦ false
  | some meta ↦ not meta.resident && contains name meta.namespaces
]

-- `get_mut(shard)` of the catalogue
unfoldable pub update_shard : Text → (ShardMeta → ShardMeta) → Database → Database
unfolding lookup insert
update_shard shard f db = elim (lookup shard db.shards) [
  | none ↦ db
  | some meta ↦ record db { shards = insert shard (f meta) db.shards }
]

-- the removal of a name from the catalogue, in `delete` and `prune_empty`
unfoldable pub forget_name : Text → Database → Database
unfolding update_shard remove shard_of
forget_name name =
    update_shard (shard_of name) (λ meta. record meta { namespaces = remove name meta.namespaces })

-- `namespace_exists`
unfoldable pub namespace_exists : Text → Database → Bool
unfolding contains lookup shard_of
namespace_exists name db =
    if contains name db.namespaces then true else elim (lookup (shard_of name) db.shards) [
      | none ↦ false
      | some meta ↦ contains name meta.namespaces
    ]

-- what a shard's file holds
abbrev pub ShardData : Type 0
ShardData = Map Text (Map Text Attribute)

unfoldable pub load_all : Text → ShardData → Map Text Namespace → Map Text Namespace
unfolding insert from_values
load_all node [] namespaces = namespaces
load_all node ((name, cells) ∷ rest) namespaces =
    load_all node rest (insert name (from_values cells node) namespaces)

unfoldable pub extend_names : ShardData → Names → Names
unfolding insert
extend_names [] names = names
extend_names ((name, cells) ∷ rest) names = extend_names rest (insert name tt names)

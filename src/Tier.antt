-- ===== src/Tier.antt =====
-- src/tier.rs: how long a shard stays in memory once it has been touched. A `Duration` is its whole
-- seconds. Reading and writing the file of tiers is `toml`'s.
pub mod Allowance
use sightingdb.Common.{
  Bool, Option, [], if◌then◌else◌, inl, inr, is_some, none, not, some, unwrap_or, ℕ, ◌&&◌, ◌⊎◌,
}
use sightingdb.Map.{Map, insert, lookup, remove}
use sightingdb.Names.{internal_shard}
use sightingdb.Order.{Text, text_eq, text_ord}
use sightingdb.Text.{codes, is_slash, to_ascii_lowercase, trim, trim_matches}

pub data Tier : Type 0 where
  hot : Tier
  warm : Tier
  cold : Tier

pub data TierError : Type 0 where
  unknown_tier : Text → TierError

-- `Tier::parse`
unfoldable pub parse_tier : Text → TierError ⊎ Tier
unfolding trim to_ascii_lowercase
parse_tier raw =
    let name = to_ascii_lowercase (trim raw) in
    if text_eq name (codes "hot")
    then inr hot
    else if text_eq name (codes "warm")
    then inr warm
    else if text_eq name (codes "cold")
    then inr cold
    else inl (unknown_tier name)

-- `Tier::as_str`
abbrev pub tier_name : Tier → Text
tier_name hot = codes "hot"
tier_name warm = codes "warm"
tier_name cold = codes "cold"

-- `Entry` of src/tier.rs
pub record TierEntry : Type 0 where
  pub tier : Option Tier
  pub warm_idle : Option ℕ

abbrev pub empty_entry : TierEntry
empty_entry = record { tier = none; warm_idle = none }

-- `Entry::is_empty`
abbrev pub says_nothing : TierEntry → Bool
says_nothing entry = not (is_some entry.tier) && not (is_some entry.warm_idle)

pub record Resolved : Type 0 where
  pub tier : Tier
  pub warm_idle : ℕ
  pub own_tier : Option Tier
  pub own_warm_idle : Option ℕ

-- `Resolved::idle_allowance`
abbrev pub allowance_of : Tier → ℕ → Option ℕ
allowance_of hot idle = none
allowance_of warm idle = some idle
allowance_of cold idle = some 0

pub record TierPolicy : Type 0 where
  pub default_tier : Tier
  pub entries : Map Text TierEntry
  pub warm_idle : ℕ

-- `TierPolicy::default`
abbrev pub default_policy : TierPolicy
default_policy = record { default_tier = hot; entries = []; warm_idle = 3600 }

-- how `entry` and `set` spell a shard
unfoldable pub shard_key : Text → Text
unfolding trim trim_matches
shard_key shard = trim_matches is_slash (trim shard)

-- `TierPolicy::entry`
unfoldable pub entry_of : Text → TierPolicy → TierEntry
unfolding lookup shard_key
entry_of shard policy = unwrap_or (lookup (shard_key shard) policy.entries) empty_entry

-- `TierPolicy::set`
unfoldable pub set_tier : Text → TierEntry → TierPolicy → TierPolicy
unfolding insert remove shard_key
set_tier shard entry policy = record policy {
  entries =
      if says_nothing entry
      then remove (shard_key shard) policy.entries
      else insert (shard_key shard) entry policy.entries;
}

-- `TierPolicy::resolve`
unfoldable pub resolve_tier : Text → TierPolicy → Resolved
unfolding entry_of
resolve_tier shard policy =
    let entry = entry_of shard policy in
    if text_eq shard internal_shard
    then record { tier = hot; warm_idle = policy.warm_idle; own_tier = none; own_warm_idle = none }
    else record {
      tier = unwrap_or entry.tier policy.default_tier;
      warm_idle = unwrap_or entry.warm_idle policy.warm_idle;
      own_tier = entry.tier;
      own_warm_idle = entry.warm_idle;
    }

-- `TierPolicy::idle_allowance`
unfoldable pub idle_allowance : Text → TierPolicy → Option ℕ
unfolding resolve_tier
idle_allowance shard policy =
    let resolved = resolve_tier shard policy in allowance_of resolved.tier resolved.warm_idle

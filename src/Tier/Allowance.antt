-- ===== src/Tier/Allowance.antt =====
-- What a setting does to the shards.
use sightingdb.Common.{
  Bool-cases, arith, false, if◌then◌else◌, inl, inr, none, refl, true, unwrap_or, ◌≡◌,
}
use sightingdb.Map.Laws.{lookup-insert, lookup-remove}
use sightingdb.Names.{internal_shard}
use sightingdb.Order.{Text, text_eq, text_ord, ◌==◌}
use sightingdb.Tier.{
  Tier, TierEntry, TierPolicy, allowance_of, cold, empty_entry, entry_of, hot, idle_allowance,
  parse_tier, resolve_tier, says_nothing, set_tier, shard_key, tier_name, warm,
}

-- Internal state never leaves memory, whatever the settings are.
pub idle_allowance-internal : (policy : TierPolicy) → idle_allowance internal_shard policy ≡ none
unfolding idle_allowance
idle_allowance-internal policy = refl

nothing : (entry : TierEntry) → says_nothing entry ≡ true → entry ≡ empty_entry
nothing entry h = ground arith

entry_of-set_tier :
    (shard other : Text) (entry : TierEntry) (policy : TierPolicy)
    → entry_of other (set_tier shard entry policy)
      ≡ (if shard_key shard == shard_key other then entry else entry_of other policy)
unfolding entry_of set_tier
entry_of-set_tier shard other entry policy = elim (Bool-cases (says_nothing entry)) [
  | inl n ↦
      ground (
        arith,
        n,
        nothing entry n,
        lookup-remove (shard_key shard) (shard_key other) policy.entries,
      )
  | inr n ↦
      ground (arith, n, lookup-insert (shard_key shard) (shard_key other) entry policy.entries)
]

defaults-set_tier :
    (shard : Text) (entry : TierEntry) (policy : TierPolicy)
    → ((set_tier shard entry policy).default_tier ≡ policy.default_tier)
      × ((set_tier shard entry policy).warm_idle ≡ policy.warm_idle)
unfolding set_tier
defaults-set_tier shard entry policy = (refl, refl)

-- After `set` a shard that is not the internal one is held by what the entry says, by the defaults
-- where it says nothing; shards with another key keep what they had.
pub idle_allowance-set_tier :
    (shard other : Text) (entry : TierEntry) (policy : TierPolicy)
    → text_eq other internal_shard ≡ false
    → idle_allowance other (set_tier shard entry policy) ≡ (
        if shard_key shard == shard_key other
        then allowance_of
            (unwrap_or entry.tier policy.default_tier)
            (unwrap_or entry.warm_idle policy.warm_idle)
        else idle_allowance other policy)
unfolding idle_allowance resolve_tier
idle_allowance-set_tier shard other entry policy h =
    let e = entry_of-set_tier shard other entry policy in
    let (d, w) = defaults-set_tier shard entry policy in
    elim (Bool-cases (shard_key shard == shard_key other)) [
      | inl k ↦ rw (idle_allowance, h, e, d, w, k) refl
      | inr k ↦ rw (idle_allowance, h, e, d, w, k) refl
    ]

-- A tier that is written out is read back.
pub parse_tier-tier_name : (t : Tier) → parse_tier (tier_name t) ≡ inr t
unfolding parse_tier
parse_tier-tier_name hot = refl
parse_tier-tier_name warm = refl
parse_tier-tier_name cold = refl

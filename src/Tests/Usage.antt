-- ===== src/Tests/Usage.antt =====
-- Activity, tags and tiers on concrete data: src/activity.rs, src/tags.rs, src/tier.rs.
use sightingdb.Activity.{Activity, Tally, bump, hour, oldest_kept}
use sightingdb.Activity.Buckets.{lookup-bump}
use sightingdb.Common.{[], false, none, refl, some, true, ◌∷◌, ◌≡◌}
use sightingdb.Int.{pos, ℤ}
use sightingdb.Map.{Map, lookup}
use sightingdb.Order.{int_ord, text_ord}
use sightingdb.Tags.{Tag, Vocabulary, from_toml, remove_tag, set_tag}
use sightingdb.Tags.Valid.{AllUsable, AllUsable-vocabulary}
use sightingdb.Text.{codes, to_ascii_lowercase, trim}
use sightingdb.Tier.{TierPolicy, cold, default_policy, idle_allowance, set_tier, shard_key}
use sightingdb.Tier.Allowance.{idle_allowance-set_tier}

abbrev one_read : Tally
one_read = record { reads = 1; writes = 0 }

abbrev buckets : Map ℤ Tally
buckets = (pos 0, one_read) ∷ (pos 3600, one_read) ∷ []

-- with two hours kept, the third hour drops the first
lookup-bump_example : lookup (pos 0) (bump (pos 7300) hour 2 one_read buckets) ≡ none
unfolding lookup bump oldest_kept
lookup-bump_example = lookup-bump (pos 7300) hour 2 one_read buckets (pos 0)

abbrev used : Activity
used = record {
  roots = (codes "feeds", record { hourly = buckets; daily = [] }) ∷ [];
  enabled = true;
  dirty = false;
}

abbrev red : Tag
red = record { colour = codes "#f00"; description = [] }

abbrev vocabulary : Vocabulary
vocabulary = (codes "a:", red) ∷ (codes "a:b:", red) ∷ []

AllUsable-vocabulary_example :
    AllUsable (from_toml ((codes "x,y", red) ∷ (codes "tlp:red", red) ∷ []))
    × AllUsable (set_tag to_ascii_lowercase (codes " new ") (codes "#FFF") [] vocabulary).0
    × AllUsable (remove_tag (codes " new ") vocabulary).0
unfolding trim
AllUsable-vocabulary_example =
    AllUsable-vocabulary to_ascii_lowercase (codes " new ") (codes "#FFF") [] vocabulary
      ((codes "x,y", red) ∷ (codes "tlp:red", red) ∷ [])
      ((refl, refl, refl, refl, refl), ((refl, refl, refl, refl, refl), tt))

abbrev cold_feeds : TierPolicy
cold_feeds = set_tier (codes "feeds") (record { tier = some cold; warm_idle = none }) default_policy

idle_allowance-set_tier_example : idle_allowance (codes "feeds/") cold_feeds ≡ some 0
unfolding shard_key
idle_allowance-set_tier_example =
    idle_allowance-set_tier (codes "feeds") (codes "feeds/")
      (record { tier = some cold; warm_idle = none }) default_policy refl

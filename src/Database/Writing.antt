-- ===== src/Database/Writing.antt =====
-- src/db.rs, `Database`: a sighting, and the tally of consensus that goes with it.
use sightingdb.Chrono.{Chrono, DateTime}
use sightingdb.Common.{Option, [], if◌then◌else◌, ltb, none, some, ℕ, ◌&&◌}
use sightingdb.Database.{
  Database, DatabasePolicy, ShardData, WriteOpts, Written, default_opts, mark_dirty, put,
}
use sightingdb.Database.Paging.{get_namespace, namespace_or_create}
use sightingdb.Names.{all_namespace, shadow_prefix}
use sightingdb.Namespace.{count_value, record_value}
use sightingdb.Order.{Text, text_ord}
use sightingdb.Text.{starts_with}

module _ ⦃c : Chrono⦄ (read_shard : Text → Option ShardData) where
  -- the time to live of a write
  unfoldable pub write_ttl : Text → WriteOpts → DatabasePolicy → Option ℕ
  unfolding starts_with
  write_ttl path opts policy = elim opts.ttl [
    | some t ↦ some t
    | none ↦
        if starts_with shadow_prefix path && ltb 0 policy.shadow_ttl
        then some policy.shadow_ttl
        else none
  ]

  -- `record_write` up to the tally
  unfoldable pub record_one :
      Text → Text → Text → DateTime → Option ℕ → Text → DateTime → Database → Database × Written
  unfolding namespace_or_create record_value put
  record_one node path value when ttl tags now db =
      let (db', ns) = namespace_or_create read_shard path now db in
      let r = record_value node value when ttl db.policy.stats_retention tags ns in
      (put path r.namespace db', record { count = r.count; new = r.is_new })

  -- `count`: the database that looking leaves, and the count
  unfoldable pub count_in : Text → Text → DateTime → Database → Database × ℕ
  unfolding get_namespace count_value
  count_in path value now db =
      let (db', found) = get_namespace read_shard path now db in
      (db', elim found [ none ↦ 0 | some ns ↦ count_value value now ns ])

  -- `write`, as the tally calls it: no consensus, no time to live, no tags
  unfoldable pub write_plain : Text → Text → DateTime → DateTime → Database → Database
  unfolding record_one write_ttl count_in mark_dirty
  write_plain path value when now db =
      let (db', written) =
        record_one db.node path value when (write_ttl path default_opts db.policy) [] now db in
      mark_dirty path (count_in all_namespace value now db').0

  -- `record_write`
  unfoldable pub record_write :
      Text → Text → Text → DateTime → WriteOpts → Text → DateTime → Database → Database × Written
  unfolding record_one write_ttl write_plain count_in mark_dirty
  record_write node path value when opts tags now db =
      let (db', written) =
        record_one node path value when (write_ttl path opts db.policy) tags now db in
      let tallied =
        if opts.consensus && written.new
        then write_plain all_namespace value when now db'
        else db' in
      (mark_dirty path (count_in all_namespace value now tallied).0, written)

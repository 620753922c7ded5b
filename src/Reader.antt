-- ===== src/Reader.antt =====
-- src/sighting_reader.rs: a client's read, which is recorded as a sighting of its own. The clock is
-- read once for a call (`now`).
pub mod Shadow
use sightingdb.Activity.{record_read}
use sightingdb.Attribute.{AttributeView, view}
use sightingdb.Chrono.{Chrono, DateTime}
use sightingdb.Common.{Bool, List, Option, [], if◌then◌else◌, inl, inr, none, some, ◌++◌, ◌⊎◌}
use sightingdb.Database.{Database, ShardData, default_opts, namespace_exists}
use sightingdb.Database.Methods.{view_at, write_tagged}
use sightingdb.Database.Values.{namespace_views}
use sightingdb.Database.Writing.{count_in}
use sightingdb.Error.{ApiError, config_namespace, missing_namespace, missing_value, not_found}
use sightingdb.Names.{all_namespace, config_prefix, shadow_prefix}
use sightingdb.Order.{Text}
use sightingdb.Text.{starts_with}

module _ ⦃c : Chrono⦄ (read_shard : Text → Option ShardData) where
  abbrev pub noted : Text → DateTime → Database → Database
  noted namespace now db = record db {
    activity = record_read namespace (c.timestamp now) db.activity;
  }

  -- the answer to a lookup, in the database that looking left
  abbrev pub answer_of : Text → Text → Option AttributeView → Database → ApiError ⊎ AttributeView
  answer_of namespace value (some view) db = inr view
  answer_of namespace value none db =
      if namespace_exists namespace db
      then inl (not_found (record { error = missing_value; namespace = namespace; value = value }))
      else inl
          (not_found (record { error = missing_namespace; namespace = namespace; value = value }))

  -- the lookup of `read`
  unfoldable pub look_up :
      Text → Text → Bool → DateTime → Database → Database × (ApiError ⊎ AttributeView)
  unfolding count_in view_at namespace_exists
  look_up namespace value with_stats now db =
      let (db', consensus) = count_in read_shard all_namespace value now db in
      let (db'', found) = view_at read_shard namespace value consensus with_stats now db' in
      (db'', answer_of namespace value found db'')

  -- the shadow sighting of `read`
  unfoldable pub write_shadow : Text → Text → DateTime → Database → Database
  unfolding write_tagged
  write_shadow namespace value now db =
      (write_tagged read_shard (shadow_prefix ++ namespace) value now default_opts [] now db).0

  -- `read`
  unfoldable pub read :
      Text → Text → Bool → Bool → DateTime → Database → Database × (ApiError ⊎ AttributeView)
  unfolding starts_with look_up write_shadow
  read namespace value with_stats with_shadow now db =
      let (db', answer) = look_up namespace value with_stats now (noted namespace now db) in
      if starts_with config_prefix namespace
      then (db, inl config_namespace)
      else (if with_shadow then write_shadow namespace value now db' else db', answer)

  -- `read_namespace`
  unfoldable pub read_namespace :
      Text → DateTime → Database → Database × (ApiError ⊎ List AttributeView)
  unfolding starts_with namespace_views
  read_namespace namespace now db =
      let (db', found) = namespace_views read_shard namespace now (noted namespace now db) in
      if starts_with config_prefix namespace then (db, inl config_namespace) else (
        db',
        elim found [
          | none ↦
              inl (
                not_found (record { error = missing_namespace; namespace = namespace; value = [] }))
          | some views ↦ inr views
        ],
      )

-- ===== src/Writer.antt =====
-- src/sighting_writer.rs: a client's write, with all that is refused before the database is touched. The
-- clock is read once for a call (`now`).
pub mod Refusing
pub mod Accepting
use sightingdb.Activity.{note_write}
use sightingdb.Chrono.{Chrono, DateTime}
use sightingdb.Common.{Option, if◌then◌else◌, inl, inr, none, not, some, true, unwrap_or, ℕ, ◌⊎◌}
use sightingdb.Database.{Database, ShardData, Written}
use sightingdb.Database.Methods.{write_tagged_as}
use sightingdb.Error.{ApiError, empty_value, internal_namespace, invalid_timestamp, not_stored}
use sightingdb.Int.{ℤ}
use sightingdb.Latest.{record_at}
use sightingdb.Names.{is_internal}
use sightingdb.Order.{Text}
use sightingdb.Storage.{holds}
use sightingdb.Text.{is_empty}

-- `check`
unfoldable pub check : Database → Text → Text → ApiError ⊎ Unit {0}
unfolding is_internal holds
check db namespace value =
    if is_empty value
    then inl empty_value
    else if is_internal namespace
    then inl (internal_namespace namespace)
    else if not (holds namespace db.stores)
    then inl (not_stored namespace)
    else inr tt

module _ ⦃c : Chrono⦄ (read_shard : Text → Option ShardData) where
  abbrev counted : Text → DateTime → Database → Database
  counted namespace now db = record db {
    activity = note_write namespace (c.timestamp now) db.activity;
  }

  -- what is left to do once `check` has passed
  unfoldable pub accept :
      Option Text
      → Text
      → Text
      → Option DateTime
      → Option ℕ
      → Text
      → DateTime
      → Database
      → Database × Written
  unfolding write_tagged_as record_at
  accept origin namespace value when ttl tags now db =
      let (db', written) =
        write_tagged_as read_shard (unwrap_or origin db.node) namespace value (unwrap_or when now)
          (record { consensus = true; ttl = ttl }) tags now (counted namespace now db) in
      (record db' { latest = record_at namespace value (c.timestamp now) db'.latest }, written)

  -- `write_tagged_as` of src/sighting_writer.rs
  unfoldable pub write_value :
      Option Text
      → Text
      → Text
      → Option DateTime
      → Option ℕ
      → Text
      → DateTime
      → Database
      → Database × (ApiError ⊎ Written)
  unfolding check accept
  write_value origin namespace value when ttl tags now db = elim (check db namespace value) [
    | inl e ↦ (db, inl e)
    | inr passed ↦
        let (db', written) = accept origin namespace value when ttl tags now db in
        (db', inr written)
  ]

  -- `timestamp_to_instant`
  abbrev pub timestamp_to_instant : ℤ → ApiError ⊎ DateTime
  timestamp_to_instant at = elim (c.from_timestamp at) [
    | none ↦ inl (invalid_timestamp at)
    | some when ↦ inr when
  ]

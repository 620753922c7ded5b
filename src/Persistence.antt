-- ===== src/Persistence.antt =====
-- src/persistence.rs, and the eviction of src/db.rs: shards written to their files, and taken out of
-- memory. The directory is `Disk`, its shards' files under their shards' names. `writable` says of a
-- file whether it can be written, `removable` whether it can be removed, `has_directory` whether
-- `create_dir_all` succeeds, `size` gives a file's bytes, and `is_held` says of a namespace that a
-- request has a handle on it.
pub mod Held
pub mod Eviction
pub mod Saving
pub mod Listed
use sightingdb.Activity.{Series, mark_activity, take_counts}
use sightingdb.Attribute.{Attribute}
use sightingdb.Chrono.{Chrono, DateTime}
use sightingdb.Common.{
  Bool, List, Option, [], false, if◌then◌else◌, none, not, some, true, unwrap_or, ℕ, ◌&&◌, ◌+◌,
  ◌||◌, ◌∷◌,
}
use sightingdb.Database.{Database, Names, ShardData, ShardMeta, take_dirty, update_shard}
use sightingdb.Database.Methods.{shards_present}
use sightingdb.Int.{as_i64, ltb_ℤ, minus, saturating_add, saturating_sub, ℤ}
use sightingdb.Latest.{Entry, Latest, take_snapshot}
use sightingdb.Map.{Map, contains, insert, keys, remove}
use sightingdb.Names.{shard_of}
use sightingdb.Namespace.{Namespace}
use sightingdb.Order.{Text, text_eq, text_ord}
use sightingdb.Text.{codes}
use sightingdb.Tier.{TierPolicy, idle_allowance}

pub record Disk : Type 0 where
  pub files : Map Text ShardData
  pub activity : Option (Map Text Series)
  pub latest : Option (List Entry)

-- `ACTIVITY_FILE`
abbrev pub activity_file : Text
activity_file = codes "activity.json"

-- `LATEST_FILE`
abbrev pub latest_file : Text
latest_file = codes "latest.json"

pub record SaveReport : Type 0 where
  pub shards_written : ℕ
  pub shards_skipped : ℕ
  pub bytes : ℕ

-- `EvictReport`
pub record EvictReport : Type 0 where
  pub evicted : ℕ
  pub busy : ℕ
  pub failed : ℕ

pub record Saved : Type 0 where
  pub db : Database
  pub disk : Disk
  pub report : Option SaveReport

pub record Evicted : Type 0 where
  pub db : Database
  pub disk : Disk
  pub report : EvictReport

-- an instant written by `ts_seconds` and read back: its whole seconds; an instant's seconds are in the
-- range of instants
abbrev pub whole_second : ⦃c : Chrono⦄ → DateTime → DateTime
whole_second ⦃c⦄ t = unwrap_or (c.from_timestamp (c.timestamp t)) t

-- an attribute as a file holds it
abbrev pub filed : ⦃c : Chrono⦄ → Attribute → Attribute
filed a = record a { first_seen = whole_second a.first_seen; last_seen = whole_second a.last_seen }

abbrev pub filed_cells : ⦃c : Chrono⦄ → Map Text Attribute → Map Text Attribute
filed_cells [] = []
filed_cells ((value, a) ∷ rest) = (value, filed a) ∷ filed_cells rest

-- `shard_snapshot`: the namespaces of a shard, as its file holds them
unfoldable pub shard_snapshot : ⦃c : Chrono⦄ → Text → Map Text Namespace → ShardData
unfolding shard_of
shard_snapshot shard [] = []
shard_snapshot shard ((name, ns) ∷ rest) =
    let onward = shard_snapshot shard rest in
    if text_eq (shard_of name) shard then (name, filed_cells ns.cells) ∷ onward else onward

-- `mark_dirty` of `Latest`
abbrev pub mark_latest : Latest → Latest
mark_latest latest = record latest { inner = record latest.inner { dirty = true } }

-- the removal of `mine` in `drop_shard`
unfoldable pub without_shard : Text → Map Text Namespace → Map Text Namespace
unfolding shard_of
without_shard shard [] = []
without_shard shard ((name, ns) ∷ rest) =
    let onward = without_shard shard rest in
    if text_eq (shard_of name) shard then onward else (name, ns) ∷ onward

unfoldable pub any_held : (Text → Bool) → Text → List Text → Bool
unfolding shard_of
any_held is_held shard [] = false
any_held is_held shard (name ∷ rest) =
    (text_eq (shard_of name) shard && is_held name) || any_held is_held shard rest

-- `drop_shard`
unfoldable pub drop_shard : (Text → Bool) → Text → Database → Database × Bool
unfolding any_held without_shard update_shard
drop_shard is_held shard db =
    let dropped =
      update_shard shard (λ meta. record meta { resident = false })
        (record db { namespaces = without_shard shard db.namespaces }) in
    if any_held is_held shard (keys db.namespaces) then (db, false) else (dropped, true)

-- `now.saturating_sub(last_access) >= allowance.as_secs() as i64`
abbrev pub is_idle : ℤ → Option ℕ → ShardMeta → Bool
is_idle now none meta = false
is_idle now (some allowance) meta =
    not (ltb_ℤ (saturating_sub now meta.last_access) (as_i64 allowance))

-- the candidates of `evict_idle`
unfoldable pub idle_shards : ℤ → TierPolicy → Map Text ShardMeta → List Text
unfolding idle_allowance minus saturating_add
idle_shards now tiers [] = []
idle_shards now tiers ((shard, meta) ∷ rest) =
    let onward = idle_shards now tiers rest in
    if meta.resident && is_idle now (idle_allowance shard tiers) meta
    then shard ∷ onward
    else onward

-- the removal of files whose shards are gone; an error is ignored
unfoldable pub remove_stale :
    (Text → Bool) → List Text → Names → Map Text ShardData → Map Text ShardData
unfolding contains remove
remove_stale removable [] present files = files
remove_stale removable (shard ∷ rest) present files =
    remove_stale removable rest present
      (if contains shard present || not (removable shard) then files else remove shard files)

module _ ⦃c : Chrono⦄ (writable : Text → Bool) (size : ShardData → ℕ) where
  -- `write_shard`, `save_shard`: nothing for an error
  unfoldable pub write_shard : Text → Database → Disk → Option (Disk × ℕ)
  unfolding shard_snapshot insert
  write_shard shard db disk =
      let content = shard_snapshot shard db.namespaces in
      if writable shard
      then some (record disk { files = insert shard content disk.files }, size content)
      else none

  -- the loop of `save`
  unfoldable pub write_each : Bool → Names → List Text → Database → Disk → SaveReport → Saved
  unfolding write_shard contains insert
  write_each all dirty [] db disk report = record { db = db; disk = disk; report = some report }
  write_each all dirty (shard ∷ rest) db disk report =
      let skipped =
        write_each all dirty rest db disk
          (record report { shards_skipped = report.shards_skipped + 1 }) in
      if not all && not (contains shard dirty) then skipped else elim (write_shard shard db disk) [
        | none ↦ record {
          db = record db { dirty = insert shard tt db.dirty };
          disk = disk;
          report = none;
        }
        | some (disk', bytes) ↦ write_each all dirty rest db disk' (record report {
          shards_written = report.shards_written + 1;
          bytes = report.bytes + bytes;
        })
      ]

  -- the activity's file, in `save`
  unfoldable pub save_activity : Bool → Saved → Saved
  unfolding take_counts
  save_activity all s =
      let (activity, taken) = take_counts all s.db.activity in
      elim s.report [
        | none ↦ s
        | some report ↦ elim taken [
          | none ↦ s
          | some counts ↦
              if writable activity_file
              then record s {
                db = record s.db { activity = activity };
                disk = record s.disk { activity = some counts };
              }
              else record s {
                db = record s.db { activity = mark_activity activity };
                report = none;
              }
        ]
      ]

  -- the file of the latest writes, in `save`
  unfoldable pub save_latest : Bool → Saved → Saved
  unfolding take_snapshot
  save_latest all s =
      let (latest, taken) = take_snapshot all s.db.latest in
      elim s.report [
        | none ↦ s
        | some report ↦ elim taken [
          | none ↦ s
          | some entries ↦
              if writable latest_file
              then record s {
                db = record s.db { latest = latest };
                disk = record s.disk { latest = some entries };
              }
              else record s { db = record s.db { latest = mark_latest latest }; report = none }
        ]
      ]

  module _ (removable : Text → Bool) where
    -- `save` from the moment that `present` was listed
    unfoldable pub save_listed : Bool → Names → Database → Disk → Saved
    unfolding take_dirty write_each save_activity save_latest remove_stale
    save_listed all present db disk =
        let (clean, dirty) = take_dirty db in
        let s = save_latest all (
          save_activity all (
            write_each all dirty (keys present) clean disk
              (record { shards_written = 0; shards_skipped = 0; bytes = 0 }))) in
        elim s.report [
          | none ↦ s
          | some report ↦ record s {
            disk = record s.disk {
              files = remove_stale removable (keys dirty) present s.disk.files;
            };
          }
        ]

    -- `save`
    unfoldable pub save : Bool → Bool → Database → Disk → Saved
    unfolding shards_present save_listed
    save has_directory all db disk =
        if has_directory
        then save_listed all (shards_present db) db disk
        else record { db = db; disk = disk; report = none }

  module _ (is_held : Text → Bool) where
    -- one candidate of `evict_idle`, once it is saved
    unfoldable pub release_shard : Text → Database → Disk → EvictReport → Evicted
    unfolding drop_shard remove
    release_shard shard db disk report =
        let (db', is_dropped) =
          drop_shard is_held shard (record db { dirty = remove shard db.dirty }) in
        record {
          db = db';
          disk = disk;
          report =
              if is_dropped
              then record report { evicted = report.evicted + 1 }
              else record report { busy = report.busy + 1 };
        }

    -- the body of the loop of `evict_idle`
    unfoldable pub evict_one : Text → Evicted → Evicted
    unfolding contains write_shard release_shard
    evict_one shard e =
        if contains shard e.db.dirty
        then elim (write_shard shard e.db e.disk) [
          | none ↦ record e { report = record e.report { failed = e.report.failed + 1 } }
          | some (disk', bytes) ↦ release_shard shard e.db disk' e.report
        ]
        else release_shard shard e.db e.disk e.report

    unfoldable pub evict_each : List Text → Evicted → Evicted
    unfolding evict_one
    evict_each [] e = e
    evict_each (shard ∷ rest) e = evict_each rest (evict_one shard e)

    -- `evict_idle`
    unfoldable pub evict_idle : ℤ → Database → Disk → Evicted
    unfolding idle_shards evict_each
    evict_idle now db disk =
        let start : Evicted = record {
          db = db;
          disk = disk;
          report = record { evicted = 0; busy = 0; failed = 0 };
        } in
        if not db.has_store then start else evict_each (idle_shards now db.tiers db.shards) start

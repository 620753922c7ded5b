-- ===== src/Database/Paging.antt =====
-- src/db.rs, `Database`: finding a namespace, paging its shard in from its file, and making it.
use sightingdb.Chrono.{Chrono, DateTime}
use sightingdb.Common.{Bool, Option, false, if◌then◌else◌, none, not, some, true, unwrap_or, ◌||◌}
use sightingdb.Database.{
  Database, ShardData, ShardMeta, catalogued, extend_names, load_all, no_meta, put, resident,
  update_shard,
}
use sightingdb.Map.{insert, lookup}
use sightingdb.Names.{shard_of}
use sightingdb.Namespace.{Namespace, empty_namespace}
use sightingdb.Order.{Text, text_ord}

-- `read_shard_file` of src/persistence.rs: `none` is an error
module _ ⦃c : Chrono⦄ (read_shard : Text → Option ShardData) where
  -- `touch`
  unfoldable pub touch_shard : Text → DateTime → Database → Database
  unfolding update_shard
  touch_shard shard now = update_shard shard (λ meta. record meta { last_access = c.timestamp now })

  -- `page_in`: `none` where the file cannot be read
  unfoldable pub page_in : Text → DateTime → Database → Option Database
  unfolding lookup insert load_all extend_names
  page_in shard now db =
      let meta = unwrap_or (lookup shard db.shards) no_meta in
      if not db.has_store || meta.resident then some db else elim (read_shard shard) [
        | none ↦ none
        | some found ↦ some (record db {
          namespaces = load_all db.node found db.namespaces;
          shards =
              insert shard
                (record {
                  namespaces = extend_names found meta.namespaces;
                  resident = true;
                  last_access = c.timestamp now;
                })
                db.shards;
        })
      ]

  abbrev pub after_page_in : Text → Database → Option Database → Database × Option Namespace
  after_page_in name db none = (db, none)
  after_page_in name db (some paged) = (paged, resident name paged)

  -- `namespace`
  unfoldable pub get_namespace : Text → DateTime → Database → Database × Option Namespace
  unfolding touch_shard resident catalogued page_in shard_of
  get_namespace name now db =
      let shard = shard_of name in
      let touched = touch_shard shard now db in
      elim (resident name touched) [
        | some ns ↦ (touched, some ns)
        | none ↦
            if not (catalogued shard name touched)
            then (touched, none)
            else after_page_in name touched (page_in shard now touched)
      ]

  -- the catalogue entry that `record` makes
  unfoldable pub note_name : Text → DateTime → Database → Database
  unfolding lookup insert shard_of
  note_name name now db =
      let meta = unwrap_or (lookup (shard_of name) db.shards) no_meta in
      record db {
        shards =
            insert (shard_of name)
              (record {
                namespaces = insert name tt meta.namespaces;
                resident = true;
                last_access = c.timestamp now;
              })
              db.shards;
      }

  abbrev pub is_evicted : Option ShardMeta → Bool
  is_evicted none = false
  is_evicted (some meta) = not meta.resident

  -- the part of `namespace_or_create` that makes a namespace
  unfoldable pub create : Text → DateTime → Database → Database × Namespace
  unfolding lookup put note_name page_in shard_of
  create name now db =
      let ready =
        if is_evicted (lookup (shard_of name) db.shards)
        then unwrap_or (page_in (shard_of name) now db) db
        else db in
      let ns = unwrap_or (lookup name ready.namespaces) empty_namespace in
      (note_name name now (put name ns ready), ns)

  -- `namespace_or_create`
  unfoldable pub namespace_or_create : Text → DateTime → Database → Database × Namespace
  unfolding get_namespace create
  namespace_or_create name now db =
      let (db', found) = get_namespace name now db in
      elim found [ some ns ↦ (db', ns) | none ↦ create name now db' ]

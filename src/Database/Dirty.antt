-- ===== src/Database/Dirty.antt =====
-- What a write leaves to be saved.
use sightingdb.Chrono.{Chrono, DateTime}
use sightingdb.Common.{Option, [], refl, true, ◌∙◌, ◌≡◌}
use sightingdb.Database.{Database, Names, ShardData, WriteOpts, take_dirty}
use sightingdb.Database.Writing.{record_write}
use sightingdb.Map.{contains, insert}
use sightingdb.Map.Laws.{beq_refl, contains-insert}
use sightingdb.Names.{shard_of}
use sightingdb.Order.{Text, text_ord}

pub contains-insert_self :
    (shard : Text) (names : Names) → contains shard (insert shard tt names) ≡ true
contains-insert_self shard names = contains-insert shard shard tt names ∙ rw (beq_refl shard) refl

module _ ⦃c : Chrono⦄ (read_shard : Text → Option ShardData) (node path value : Text)
    (when : DateTime) (opts : WriteOpts) (tags : Text) (now : DateTime) (db : Database) where
  -- After a write the shard of its namespace is in the set that the next save takes, and taking the set
  -- leaves nothing dirty, whether the shard was in memory or had to be read.
  pub dirty-record_write :
      (contains
          (shard_of path)
          (take_dirty (record_write read_shard node path value when opts tags now db).0).1
        ≡ true)
      × ((take_dirty (record_write read_shard node path value when opts tags now db).0).0.dirty
          ≡ [])
  unfolding record_write take_dirty
  dirty-record_write = (contains-insert_self (shard_of path) _, refl)

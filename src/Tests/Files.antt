-- ===== src/Tests/Files.antt =====
-- A server with one shard in memory, which is dirty: src/persistence.rs.
use sightingdb.Common.{Bool, [], arith, false, is_some, none, refl, some, true, ℕ, ◌∷◌, ◌≡◌}
use sightingdb.Database.{Database, Names, ShardData, ShardMeta}
use sightingdb.Int.{pos}
use sightingdb.Map.{contains, lookup}
use sightingdb.Names.{shard_of}
use sightingdb.Namespace.{Namespace}
use sightingdb.Order.{Text, text_ord}
use sightingdb.Persistence.{Disk, EvictReport, evict_one, save_listed, write_each}
use sightingdb.Persistence.Eviction.{IsListed, stored, stored-evict_one}
use sightingdb.Persistence.Held.{cells_to_second, found_in}
use sightingdb.Persistence.Listed.{lookup-save_listed, unlisted_lem}
use sightingdb.Persistence.Saving.{loop, loop_fails}
use sightingdb.Tests.Clock.{clock}
use sightingdb.Tests.Peers.{ours}
use sightingdb.Tests.Server.{address, server}
use sightingdb.Text.{codes}

abbrev feeds : Text
feeds = codes "feeds"

abbrev held : Namespace
held = record { cells = (address, ours) ∷ []; has_ttl = true }

abbrev meta : ShardMeta
meta = record { namespaces = (feeds, tt) ∷ []; resident = true; last_access = pos 0 }

abbrev busy_server : Database
busy_server = record server {
  namespaces = (feeds, held) ∷ [];
  dirty = (feeds, tt) ∷ [];
  shards = (feeds, meta) ∷ [];
  has_store = true;
}

abbrev empty_disk : Disk
empty_disk = record { files = []; activity = none; latest = none }

abbrev writes_all : Text → Bool
writes_all name = true

abbrev writes_none : Text → Bool
writes_none name = false

abbrev no_size : ShardData → ℕ
no_size c = 0

abbrev no_report : EvictReport
no_report = record { evicted = 0; busy = 0; failed = 0 }

held_name :
    (name : Text)
    → is_some (lookup name busy_server.namespaces) ≡ true
    → contains name meta.namespaces ≡ true
unfolding lookup contains
held_name name h = ground (arith, h)

listed : IsListed writes_none feeds meta busy_server
unfolding lookup contains
listed = record { found = refl; resident = refl; listed = λ name e h. held_name name h }

is_dirty : contains feeds busy_server.dirty ≡ false → ⊥
unfolding contains
is_dirty e = cc

stored-evict_one_example :
    stored feeds
      (evict_one writes_all no_size writes_none feeds
        (record { db = busy_server; disk = empty_disk; report = no_report })).db
      (evict_one writes_all no_size writes_none feeds
        (record { db = busy_server; disk = empty_disk; report = no_report })).disk
    ≡ some (cells_to_second ((address, ours) ∷ []))
unfolding lookup
stored-evict_one_example =
    stored-evict_one writes_none feeds meta busy_server writes_all no_size empty_disk no_report
      listed (λ e. absurd (is_dirty e)) feeds

abbrev present : Names
present = (feeds, tt) ∷ []

lookup-save_listed_example :
    found_in feeds (
      lookup feeds
        (save_listed writes_all no_size writes_all false present busy_server empty_disk).disk.files)
    ≡ some (cells_to_second ((address, ours) ∷ []))
unfolding contains save_listed lookup shard_of
lookup-save_listed_example =
    lookup-save_listed writes_all no_size writes_all false present busy_server empty_disk feeds
      feeds refl refl refl

abbrev old_disk : Disk
old_disk = record empty_disk { files = (feeds, (feeds, (address, ours) ∷ []) ∷ []) ∷ [] }

unlisted_lem_example :
    lookup feeds
      (save_listed writes_all no_size writes_all false [] busy_server old_disk).disk.files
    ≡ none
unfolding contains save_listed
unlisted_lem_example =
    unlisted_lem writes_all no_size writes_all false [] busy_server old_disk feeds refl refl refl
      refl

loop_fails_example :
    (failed : Text) × (writes_none failed ≡ false)
    × (contains failed
          (loop writes_none no_size true [] busy_server feeds
            (feeds ∷ [])
            empty_disk
            (record { shards_written = 0; shards_skipped = 0; bytes = 0 })).db.dirty
        ≡ true)
unfolding write_each
loop_fails_example =
    loop_fails writes_none no_size true [] busy_server feeds (feeds ∷ []) empty_disk
      (record { shards_written = 0; shards_skipped = 0; bytes = 0 }) refl

-- ===== src/Tests/Server.antt =====
-- A write to a server that holds one tally already: src/db.rs.
use sightingdb.Activity.{default_activity}
use sightingdb.Attribute.{count}
use sightingdb.Common.{Option, [], false, none, refl, some, true, ◌∷◌, ◌≡◌}
use sightingdb.Database.{Database, ShardData, WriteOpts, take_dirty}
use sightingdb.Database.Consensus.{tallied, tallied-record_write}
use sightingdb.Database.Dirty.{dirty-record_write}
use sightingdb.Database.Tally.{lookup-record_write, sighting}
use sightingdb.Database.Writing.{record_write}
use sightingdb.Int.{pos}
use sightingdb.Map.{contains, lookup}
use sightingdb.Names.{all_namespace, shard_of}
use sightingdb.Namespace.{record_value}
use sightingdb.Order.{Text, text_ord}
use sightingdb.Tests.Clock.{clock}
use sightingdb.Tests.Peers.{alpha, ours, two_sorted}
use sightingdb.Text.{codes}
use sightingdb.Tier.{default_policy}

abbrev pub address : Text
address = codes "10.0.0.1"

abbrev pub server : Database
server = record {
  namespaces = (all_namespace, record { cells = (address, ours) ∷ []; has_ttl = true }) ∷ [];
  policy = record { stats_retention = 0; shadow_ttl = 0 };
  stores = record { prefixes = []; everything = true };
  node = alpha;
  dirty = [];
  shards = [];
  has_store = false;
  tiers = default_policy;
  activity = default_activity;
  latest = record {
    capacity = 0;
    inner = record { order = []; position = []; next = 0; dirty = false };
  };
}

abbrev pub unreadable : Text → Option ShardData
unreadable shard = none

abbrev opts : WriteOpts
opts = record { consensus = true; ttl = none }

abbrev after : Database
after = (record_write unreadable alpha (codes "feeds") address (pos 5) opts [] (pos 5) server).0

lookup-record_write_example :
    lookup (codes "feeds") after.namespaces
    ≡ some
        (sighting unreadable alpha (codes "feeds") address (pos 5) opts [] (pos 5) server).namespace
lookup-record_write_example =
    lookup-record_write unreadable alpha (codes "feeds") address (pos 5) opts [] (pos 5) server refl
      refl (codes "feeds")

tallied-record_write_example : tallied address after ≡ 4
unfolding record_value lookup count contains
tallied-record_write_example =
    tallied-record_write unreadable alpha (codes "feeds") address (pos 5) opts [] (pos 5) server
      refl refl two_sorted address

dirty-record_write_example :
    (contains (shard_of (codes "feeds")) (take_dirty after).1 ≡ true)
    × ((take_dirty after).0.dirty ≡ [])
dirty-record_write_example =
    dirty-record_write unreadable alpha (codes "feeds") address (pos 5) opts [] (pos 5) server

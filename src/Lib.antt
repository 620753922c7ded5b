-- ===== src/Lib.antt =====
-- SightingDB counts sightings: how often, when and where a value was seen. A value lives in a
-- namespace, a path such as `feeds/misp/ips`; the first segment of the path names the shard that it
-- is saved in. This library models what the server does with values, keys and names.
--
-- Which file models which part of the program:
--   Attribute   src/attribute.rs: the bookkeeping of one value. `increment`, `decrement`, `add_tags`,
--               `set_tags`, `is_expired`, `view` and the others bear the names of the methods; a
--               method on `&mut self` returns the new attribute. Attribute.Merging is `merge`, which
--               folds in a peer's copy: a function for each loop and each field. TagText has the
--               functions on tags, which are kept as one text with commas.
--   Acl         src/acl.rs: keys and grants. `remove`, `set` and `contains` of the program are
--               `remove_key`, `set_grants` and `contains_key`; `bail!` gives a constructor of
--               `AclError`. Acl.Syntax writes and parses grants.
--   Names       `is_internal` and `counts_towards_consensus` of src/db.rs, `shard_of` of
--               src/persistence.rs, `root_of` of src/activity.rs, `under` of src/latest.rs.
--   Storage     `StoragePolicy` of src/db.rs: which namespaces a server holds.
--   Namespace   `Namespace` of src/db.rs: the values of one namespace.
--   Latest      src/latest.rs: the bounded record of the latest writes, two maps that index each
--               other.
--   Database    `Database` of src/db.rs: the namespaces in memory and the catalogue of shards.
--               Database.Paging finds a namespace, and pages its shard in; Database.Writing records a
--               sighting and the tally of consensus in `_all`; Database.Methods has the other calls
--               that the handlers make. Database.Listing lists the catalogue, with
--               `sightings_of` in Database.Listing.Search; Database.Values lists the values of a
--               namespace.
--   Rejections  src/rejections.rs: the ring of values that were not written.
--   Tier        src/tier.rs: how long a shard may be idle before it leaves memory.
--   Activity    src/activity.rs: `record_event`, `record_activity`, `take_counts` and
--               `restore_counts` are `record_at`, `record`, `take_snapshot` and `restore`, and
--               `Tally` is `Counts`. Activity.Window is `report`.
--   Tags        src/tags.rs: the vocabulary of tags and their colours.
--   Error, Writer, Reader
--               src/error.rs, src/sighting_writer.rs and src/sighting_reader.rs: a client's write
--               with what is refused (`write_value` is `write_tagged_as`, `accept` its end), and a
--               client's read, which leaves a sighting of its own (`write_shadow`).
--   Persistence src/persistence.rs, with `evict_idle` and `drop_shard` of src/db.rs: what is written
--               to the shards' files, and what leaves memory. `save_listed` is `save` after its first
--               step, so that what happens between the two steps can be said.
--   Dns         src/dns: Dns.Name reads a value out of a query's name, Dns.Text makes the text of a TXT
--               record, Dns.Answer answers a query from the reader. Dns.Address has the addresses
--               of the standard library.
--   Galaxy      src/galaxy.rs, `Galaxy`: the peers, with `Peer` of src/config.rs. `new_galaxy`,
--               `enabled_peers`, `health_rows` and `record_probe` are `new`, `peers`, `health` and
--               `record`. Galaxy.Editing has the changes of the management interface.
--   Common, Int, Order, Map, Text, Word: what all of these share. `Map` is an association list that
--   `insert` keeps in the order of its keys; `Text` is a list of code points; `Word` is `u64`
--   arithmetic.
--   Tests       the theorems at work on concrete data.
--
-- How the parts interact: a handler asks `Acl` whether its key may act on a namespace, and calls
-- `Database`, which pages the shard in, finds or makes the `Namespace`, and has it change the
-- `Attribute` of the value under that value's lock. A first write of a value to a namespace adds one
-- to the tally of the value in `_all`. `Writer` and `Reader` stand before it for a client, and count the
-- use in `Activity`; `Dns` asks `Reader`. `Persistence` takes the marks that writes leave, writes the
-- shards' files, and takes out of memory the shards that `Tier` no longer keeps there. A peer's copy
-- comes in through `merge_into` and goes out through `merge_payload`. `Galaxy` asks the policy of a peer
-- (`Storage`) what that peer holds.
--
-- Bounds. A `u64` sum wraps (`add_u64`, `sum_u64`), as release builds do; `i64` seconds are integers
-- with the saturation of `expires_at` and of `evict_idle` and the wrap of a report's window written
-- out; a file keeps the whole seconds of an instant (`filed`). Every loop is over a finite list or map and is
-- structural recursion; `while` in `Inner::trim` is recursion on the map that it shrinks. Two loops
-- of Dns.Text run on fuel: `pieces` on the number of characters, since each turn takes at least one, and
-- `digits` on twenty, since a `u64` has no more digits. So does `strip_all` of Galaxy.Editing, on the
-- number of characters. All three are proved to be enough.
--
-- Parameters. `Chrono` stands for the crate `chrono`, with the laws of its documentation that the
-- theorems use; Tests.Clock is one that satisfies them. `read_shard` in Database stands for reading a
-- shard's file, and may fail; `writable`, `removable`, `has_directory`, `size` and `is_held` in
-- Persistence say which file can be written or removed, whether there is a directory, how long a file
-- is, and which namespace a request holds. `visible` in Latest and Activity is the closure of the
-- caller. `base32_decode`, `utf8` and `lossy` in Dns stand for the crate data-encoding,
-- `String::from_utf8` and `String::from_utf8_lossy`, `to_lowercase` in Tags for `str::to_lowercase`,
-- `weigh` in Galaxy for the hash of a value and an address; the theorems use nothing of them.
-- `read_string` in Acl.Render stands for the crate `toml`, and reads a quoted text of plain characters
-- as that text. `HashMap` iterates in an unspecified order, for which the order of keys is taken, also
-- in the lists that the views of a namespace are.
--
-- Not modelled: threads within one method (a method holds its locks from its first read to its last
-- write, or works on what it has cloned, and is one step), the HTTP handlers and the management
-- interface, the configuration, TLS and the daemon, the sockets of the DNS server, the MISP and STIX
-- formats, requests between the servers of a galaxy (`Galaxy` says only where they go), and the bytes
-- and the names of the files.
mod Common
pub mod Int
pub mod Order
pub mod Map
pub mod Text
pub mod Word
pub mod Chrono
pub mod TagText
pub mod Attribute
pub mod Acl
pub mod Names
pub mod Storage
pub mod Tier
pub mod Dns
pub mod Activity
pub mod Error
pub mod Galaxy
pub mod Writer
pub mod Reader
pub mod Tags
pub mod Persistence
pub mod Namespace
pub mod Latest
pub mod Database
pub mod Rejections
mod Tests

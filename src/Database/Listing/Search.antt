-- ===== src/Database/Listing/Search.antt =====
-- src/db.rs, `sightings_of`: every namespace that holds a value.
pub mod Limits
use sightingdb.Attribute.{AttributeView, count, view}
use sightingdb.Chrono.{Chrono, DateTime}
use sightingdb.Common.{
  Bool, List, Option, [], false, if◌then◌else◌, keep, leb, length, ltb, none, not, some, true, ℕ,
  ◌&&◌, ◌++◌, ◌+◌, ◌||◌, ◌∷◌,
}
use sightingdb.Database.{Database, ShardData, ShardMeta}
use sightingdb.Database.Methods.{view_at}
use sightingdb.Database.Writing.{count_in}
use sightingdb.Int.{ℤ}
use sightingdb.Map.{Map, keys}
use sightingdb.Names.{all_namespace, counts_towards_consensus, shard_of}
use sightingdb.Order.{Text, text_lt}

pub record Sighting : Type 0 where
  pub namespace : Text
  pub shard : Text
  pub count : ℕ
  pub first_seen : ℤ
  pub last_seen : ℤ

pub record Sightings : Type 0 where
  pub items : List Sighting
  pub truncated : Bool
  pub paged_in : Bool

-- `Sightings::default`
abbrev pub no_sightings : Sightings
no_sightings = record { items = []; truncated = false; paged_in = false }

-- the search as it goes; `stopped` says that `break 'search` was reached
pub record Search : Type 0 where
  pub db : Database
  pub found : Sightings
  pub seen : ℕ
  pub stopped : Bool

-- the names of the shards that are in memory, or of the others
unfoldable pub names_where : Bool → Map Text ShardMeta → List Text
unfolding counts_towards_consensus
names_where in_memory [] = []
names_where in_memory ((shard, meta) ∷ rest) =
    let onward = names_where in_memory rest in
    let mine = keep counts_towards_consensus (keys meta.namespaces) in
    if (if in_memory then meta.resident else not meta.resident) then mine ++ onward else onward

abbrev pub sighting_of : Text → AttributeView → Sighting
sighting_of name view = record {
  namespace = name;
  shard = shard_of name;
  count = view.count;
  first_seen = view.first_seen;
  last_seen = view.last_seen;
}

-- what is done with a namespace that holds the value
unfoldable pub take_view : ℕ → (Text → Bool) → Text → AttributeView → Search → Search
unfolding shard_of
take_view limit allowed name view s =
    if not (allowed name)
    then s
    else if leb limit (length s.found.items)
    then record s { found = record s.found { truncated = true }; stopped = true }
    else record s {
      found = record s.found { items = s.found.items ++ (sighting_of name view ∷ []) };
    }

unfoldable pub insert_sighting : Sighting → List Sighting → List Sighting
insert_sighting x [] = x ∷ []
insert_sighting x (y ∷ rest) =
    let onward = insert_sighting x rest in
    if text_lt y.namespace x.namespace then y ∷ onward else x ∷ y ∷ rest

-- `sort_by` of the items
unfoldable pub sort_sightings : List Sighting → List Sighting
unfolding insert_sighting
sort_sightings [] = []
sort_sightings (x ∷ rest) = insert_sighting x (sort_sightings rest)

module _ ⦃c : Chrono⦄ (read_shard : Text → Option ShardData) (value : Text) (limit : ℕ)
    (allowed : Text → Bool) (now : DateTime) where
  -- the body of the inner loop
  unfoldable pub search_one : ℕ → Bool → Text → Search → Search
  unfolding view_at take_view
  search_one target from_disk name s =
      let (db', found) = view_at read_shard name value 0 false now s.db in
      if s.stopped
      then s
      else if ltb 0 target && leb target s.seen
      then record s { stopped = true }
      else elim found [
        | none ↦ record s { db = db' }
        | some view ↦ take_view limit allowed name view (record s {
          db = db';
          seen = s.seen + 1;
          found = record s.found { paged_in = s.found.paged_in || from_disk };
        })
      ]

  unfoldable pub search_names : ℕ → Bool → List Text → Search → Search
  unfolding search_one
  search_names target from_disk [] s = s
  search_names target from_disk (name ∷ rest) s =
      search_names target from_disk rest (search_one target from_disk name s)

  -- `sightings_of`
  unfoldable pub sightings_of : Database → Database × Sightings
  unfolding count_in names_where search_names sort_sightings
  sightings_of db =
      let (db', target) = count_in read_shard all_namespace value now db in
      let start : Search = record { db = db'; found = no_sightings; seen = 0; stopped = false } in
      let in_memory = search_names target false (names_where true db'.shards) start in
      let s = search_names target true (names_where false db'.shards) in_memory in
      (s.db, record s.found { items = sort_sightings s.found.items })

-- ===== src/Database/Values.antt =====
-- src/db.rs, `Database`: the values of a namespace as they are listed, the tags in use, and a database
-- made from a snapshot.
pub mod Filling
use sightingdb.Attribute.{Attribute, AttributeView, Merge, is_expired, view}
use sightingdb.Chrono.{Chrono, DateTime}
use sightingdb.Common.{
  Bool, List, Option, [], drop, false, if◌then◌else◌, keep, length, map, none, not, some, take,
  true, unwrap_or, ℕ, ◌&&◌, ◌+◌, ◌∷◌,
}
use sightingdb.Database.{Database, DatabasePolicy, ShardData, load_all, resident, with_node}
use sightingdb.Database.Listing.{listed_names, passes_filter}
use sightingdb.Database.Paging.{get_namespace, note_name, touch_shard}
use sightingdb.Database.Writing.{count_in}
use sightingdb.Map.{Map, insert, keys, lookup}
use sightingdb.Names.{all_namespace, is_internal, shard_of}
use sightingdb.Namespace.{Namespace, Page, all_views, merge_page}
use sightingdb.Order.{Text, text_ord}
use sightingdb.Storage.{StoragePolicy}
use sightingdb.TagText.{split_tags}
use sightingdb.Text.{codes, is_empty, strip_prefix, to_ascii_lowercase}
use sightingdb.Word.{add_u64, total}

pub record ValueCount : Type 0 where
  pub values : ℕ
  pub exact : Bool
  pub paged_in : Bool

-- `APIKEYS_NAMESPACE`
abbrev pub apikeys_namespace : Text
apikeys_namespace = codes "_config/acl/apikeys/"

-- `legacy_apikeys`
unfoldable pub legacy_apikeys_of : List Text → List Text
unfolding strip_prefix
legacy_apikeys_of [] = []
legacy_apikeys_of (name ∷ rest) =
    let onward = legacy_apikeys_of rest in
    elim (strip_prefix apikeys_namespace name) [
      | none ↦ onward
      | some key ↦ if is_empty key then onward else key ∷ onward
    ]

abbrev pub legacy_apikeys : Database → List Text
legacy_apikeys db = legacy_apikeys_of (keys db.namespaces)

-- one more value for each tag of a field; `split` of src/tags.rs is `split_tags`
unfoldable pub tally_tags : List Text → Map Text ℕ → Map Text ℕ
unfolding lookup insert add_u64
tally_tags [] counts = counts
tally_tags (tag ∷ rest) counts =
    tally_tags rest (insert tag (add_u64 (unwrap_or (lookup tag counts) 0) 1) counts)

module _ ⦃c : Chrono⦄ where
  -- the inner loop of `tag_usage`
  unfoldable pub tally_cells : DateTime → Map Text Attribute → Map Text ℕ → Map Text ℕ
  unfolding tally_tags split_tags is_expired
  tally_cells now [] counts = counts
  tally_cells now ((value, a) ∷ rest) counts =
      tally_cells now rest
        (if is_expired now a then counts else tally_tags (split_tags a.tags) counts)

  -- the outer loop, and how many namespaces it looked at
  unfoldable pub tally_namespaces : DateTime → Map Text Namespace → Map Text ℕ × ℕ → Map Text ℕ × ℕ
  unfolding tally_cells is_internal
  tally_namespaces now [] p = p
  tally_namespaces now ((name, ns) ∷ rest) p =
      tally_namespaces now rest
        (if is_internal name then p else (tally_cells now ns.cells p.0, p.1 + 1))

  -- `tag_usage`
  unfoldable pub tag_usage : DateTime → Database → Map Text ℕ × ℕ × ℕ
  unfolding tally_namespaces listed_names is_internal
  tag_usage now db =
      let (counts, looked_at) = tally_namespaces now db.namespaces ([], 0) in
      (counts, looked_at, length (keep (λ name. not (is_internal name)) (listed_names db.shards)))

  -- the filters of `value_page`, for a `filter` in lower case
  unfoldable pub is_matching : Text → DateTime → Text × Attribute → Bool
  unfolding passes_filter is_expired
  is_matching filter now e = passes_filter filter e.0 && not (is_expired now e.1)

module _ ⦃c : Chrono⦄ (read_shard : Text → Option ShardData) where
  abbrev count_of : Namespace → Bool → ValueCount
  count_of ns paged_in = record {
    values = length ns.cells;
    exact = not ns.has_ttl;
    paged_in = paged_in;
  }

  -- `value_count`
  unfoldable pub value_count : Text → DateTime → Database → Database × Option ValueCount
  unfolding touch_shard resident get_namespace shard_of
  value_count namespace now db =
      let touched = touch_shard read_shard (shard_of namespace) now db in
      let (db', paged) = get_namespace read_shard namespace now touched in
      elim (resident namespace touched) [
        | some ns ↦ (touched, some (count_of ns false))
        | none ↦ (db', elim paged [ none ↦ none | some ns ↦ some (count_of ns true) ])
      ]

  -- the consensus of each view, from `_all`
  unfoldable pub fill_consensus :
      DateTime → List AttributeView → Database → Database × List AttributeView
  unfolding count_in
  fill_consensus now [] db = (db, [])
  fill_consensus now (view ∷ rest) db =
      let (db', consensus) = count_in read_shard all_namespace view.value now db in
      let (db'', filled) = fill_consensus now rest db' in
      (db'', record view { consensus = consensus } ∷ filled)

  -- `value_page`
  unfoldable pub value_page :
      Text → Text → ℕ → ℕ → Bool → DateTime → Database → Database × Option (Page AttributeView)
  unfolding get_namespace fill_consensus is_matching to_ascii_lowercase view
  value_page namespace filter offset limit with_stats now db =
      let (db', found) = get_namespace read_shard namespace now db in
      elim found [
        | none ↦ (db', none)
        | some ns ↦
            let matching = keep (is_matching (to_ascii_lowercase filter) now) ns.cells in
            let views =
              map (λ (e : Text × Attribute). view 0 with_stats e.1)
                (take limit (drop offset matching)) in
            let (db'', items) = fill_consensus now views db' in
            (db'', some (record { items = items; total = length matching; offset = offset }))
      ]

  -- `namespace_views`
  unfoldable pub namespace_views :
      Text → DateTime → Database → Database × Option (List AttributeView)
  unfolding get_namespace all_views fill_consensus
  namespace_views namespace now db =
      let (db', found) = get_namespace read_shard namespace now db in
      elim found [
        | none ↦ (db', none)
        | some ns ↦
            let (db'', views) = fill_consensus now (all_views false now ns) db' in
            (db'', some views)
      ]

  -- `merge_page` of `Database`
  unfoldable pub merge_page_at :
      Text → ℕ → ℕ → DateTime → Database → Database × Option (Page (Text × Merge))
  unfolding get_namespace merge_page
  merge_page_at path offset limit now db =
      let (db', found) = get_namespace read_shard path now db in
      (db', elim found [ none ↦ none | some ns ↦ some (merge_page offset limit now ns) ])

  -- the loop of `from_snapshot_as` over the names
  unfoldable pub catalogue_all : List Text → DateTime → Database → Database
  unfolding note_name
  catalogue_all [] now db = db
  catalogue_all (name ∷ rest) now db = catalogue_all rest now (note_name read_shard name now db)

  -- `from_snapshot_as`
  unfoldable pub from_snapshot_as :
      ShardData → DatabasePolicy → StoragePolicy → Text → DateTime → Database
  unfolding load_all catalogue_all with_node
  from_snapshot_as held policy stores node now =
      let namespaces = load_all node held [] in
      catalogue_all (keys namespaces) now
        (record (with_node policy stores node) { namespaces = namespaces })

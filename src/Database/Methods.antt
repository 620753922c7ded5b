-- ===== src/Database/Methods.antt =====
-- src/db.rs, the methods of `Database` that the rest of the program calls.
use sightingdb.Attribute.{AttributeView, Merge, Merged}
use sightingdb.Chrono.{Chrono, DateTime}
use sightingdb.Common.{
  Bool, List, Option, [], false, if◌then◌else◌, is_nil, length, ltb, map, none, not, some, true,
  unwrap_or, ℕ, ◌&&◌, ◌++◌, ◌+◌, ◌∷◌,
}
use sightingdb.Database.{
  Database, Names, ShardData, ShardMeta, WriteOpts, Written, forget_name, mark_dirty,
  namespace_exists, put,
}
use sightingdb.Database.Paging.{get_namespace, namespace_or_create}
use sightingdb.Database.Writing.{record_write, write_plain}
use sightingdb.Latest.{forget_namespace}
use sightingdb.Map.{Map, contains, insert, keys, lookup, remove, values}
use sightingdb.Names.{all_namespace, config_prefix, counts_towards_consensus, shard_of}
use sightingdb.Namespace.{
  Namespace, empty_namespace, merge_payload, merge_value, release, remove_expired, retag, set_count,
  value_names, view_value,
}
use sightingdb.Order.{Text, text_ord}
use sightingdb.Text.{starts_with}
use sightingdb.Word.{total}

pub record Swept : Type 0 where
  pub db : Database
  pub emptied : List Text
  pub values_removed : ℕ

unfoldable pub shard_names : List Text → Names
unfolding insert shard_of
shard_names [] = []
shard_names (name ∷ rest) = insert (shard_of name) tt (shard_names rest)

-- `prune_empty`: the database, and how many namespaces went
unfoldable pub prune_empty : List Text → Database × ℕ → Database × ℕ
unfolding lookup remove forget_name starts_with
prune_empty [] p = p
prune_empty (name ∷ rest) p =
    let (db, n) = p in
    let is_gone : Bool = elim (lookup name db.namespaces) [
      | none ↦ false
      | some ns ↦ is_nil ns.cells
    ] in
    prune_empty rest (
      if not (starts_with config_prefix name) && is_gone
      then (forget_name name (record db { namespaces = remove name db.namespaces }), n + 1)
      else p)

module _ ⦃c : Chrono⦄ (read_shard : Text → Option ShardData) where
  -- `write_tagged`
  unfoldable pub write_tagged :
      Text → Text → DateTime → WriteOpts → Text → DateTime → Database → Database × Written
  unfolding record_write
  write_tagged path value when opts tags now db =
      record_write read_shard db.node path value when opts tags now db

  -- `write_tagged_as`
  unfoldable pub write_tagged_as :
      Text → Text → Text → DateTime → WriteOpts → Text → DateTime → Database → Database × Written
  unfolding record_write
  write_tagged_as origin path value when opts tags now db =
      record_write read_shard origin path value when opts tags now db

  -- `merge`
  unfoldable pub merge_into : Text → Text → Merge → DateTime → Database → Database × Merged
  unfolding namespace_or_create merge_value put write_plain counts_towards_consensus mark_dirty
  merge_into path value incoming now db =
      let (db', ns) = namespace_or_create read_shard path now db in
      let (ns', outcome, is_new) = merge_value db.node value incoming ns in
      let merged_db = put path ns' db' in
      let tallied =
        if is_new && counts_towards_consensus path
        then write_plain read_shard all_namespace value now now merged_db
        else merged_db in
      (if outcome.changed then mark_dirty path tallied else tallied, outcome)

  -- the first loop of `set_consensus`: the survey's tallies
  unfoldable pub correct : Text → DateTime → Map Text Names → Namespace × ℕ → Namespace × ℕ
  unfolding set_count
  correct node now [] p = p
  correct node now ((value, holders) ∷ rest) p =
      let (all, changed) = set_count node value (length holders) now p.0 in
      correct node now rest (all, if changed then p.1 + 1 else p.1)

  -- the second loop: the tallies of values that the survey never saw
  unfoldable pub clear_unseen :
      Text → DateTime → Map Text Names → List Text → Namespace × ℕ → Namespace × ℕ
  unfolding contains set_count
  clear_unseen node now holders [] p = p
  clear_unseen node now holders (value ∷ rest) p =
      let (all, changed) = set_count node value 0 now p.0 in
      clear_unseen node now holders rest
        (if contains value holders then p else (all, if changed then p.1 + 1 else p.1))

  -- `set_consensus`
  unfoldable pub set_consensus : Map Text Names → DateTime → Database → Database × ℕ
  unfolding namespace_or_create correct clear_unseen put mark_dirty
  set_consensus holders now db =
      let (db', all) = namespace_or_create read_shard all_namespace now db in
      let surveyed = correct db.node now holders (all, 0) in
      let (all', corrected) = clear_unseen db.node now holders (value_names surveyed.0) surveyed in
      let done = put all_namespace all' db' in
      (if ltb 0 corrected then mark_dirty all_namespace done else done, corrected)

  -- `set_tags`
  unfoldable pub set_tags_at : Text → Text → Text → DateTime → Database → Database × Bool
  unfolding get_namespace retag put mark_dirty
  set_tags_at path value tags now db =
      let (db', found) = get_namespace read_shard path now db in
      elim found [
        | none ↦ (db', false)
        | some ns ↦
            let (ns', changed) = retag value tags now ns in
            (if changed then mark_dirty path (put path ns' db') else put path ns' db', changed)
      ]

  -- `view`
  unfoldable pub view_at :
      Text → Text → ℕ → Bool → DateTime → Database → Database × Option AttributeView
  unfolding get_namespace view_value
  view_at path value consensus with_stats now db =
      let (db', found) = get_namespace read_shard path now db in
      (db', elim found [ none ↦ none | some ns ↦ view_value value consensus with_stats now ns ])

  -- `merge_payload`
  unfoldable pub merge_payload_at : Text → Text → DateTime → Database → Database × Option Merge
  unfolding get_namespace merge_payload
  merge_payload_at path value now db =
      let (db', found) = get_namespace read_shard path now db in
      (db', elim found [ none ↦ none | some ns ↦ merge_payload value now ns ])

  -- `release_consensus`
  unfoldable pub release_consensus : DateTime → Text → Database → Database
  unfolding get_namespace release put
  release_consensus now value db =
      let (db', found) = get_namespace read_shard all_namespace now db in
      elim found [ none ↦ db' | some all ↦ put all_namespace (release db.node value all) db' ]

  unfoldable pub release_each : DateTime → List Text → Database → Database
  unfolding release_consensus
  release_each now [] db = db
  release_each now (value ∷ rest) db = release_each now rest (release_consensus now value db)

  -- `delete`
  unfoldable pub delete : Text → DateTime → Database → Database × Bool
  unfolding get_namespace remove contains mark_dirty forget_name release_each
      counts_towards_consensus forget_namespace
  delete name now db =
      let (db', found) = get_namespace read_shard name now db in
      elim found [
        | none ↦ (db', false)
        | some ns ↦
            let removed = contains name db'.namespaces in
            let gone = record db' { namespaces = remove name db'.namespaces } in
            let dropped = if removed then forget_name name (mark_dirty name gone) else gone in
            let released =
              if removed && counts_towards_consensus name
              then release_each now (value_names ns) dropped
              else dropped in
            (
              if removed
                  then record released { latest = forget_namespace name released.latest }
                  else released,
              removed,
            )
      ]

  -- one namespace of the loop of `sweep`; `ns` is the handle taken when the sweep began
  unfoldable pub sweep_one : DateTime → Text → Swept → Swept
  unfolding lookup remove_expired put mark_dirty release_each counts_towards_consensus starts_with
  sweep_one now name s =
      let ns = unwrap_or (lookup name s.db.namespaces) empty_namespace in
      let (ns', expired) = remove_expired now ns in
      let kept = put name ns' s.db in
      let marked = if is_nil expired then kept else mark_dirty name kept in
      if starts_with config_prefix name then s else record {
        db = if counts_towards_consensus name then release_each now expired marked else marked;
        emptied =
            if not (is_nil expired) && is_nil ns'.cells
            then s.emptied ++ (name ∷ [])
            else s.emptied;
        values_removed = s.values_removed + length expired;
      }

  -- the loop of `sweep`
  unfoldable pub sweep_all : DateTime → List Text → Swept → Swept
  unfolding sweep_one
  sweep_all now [] s = s
  sweep_all now (name ∷ rest) s = sweep_all now rest (sweep_one now name s)

  -- `sweep`: the database, and how many values and namespaces were removed
  unfoldable pub sweep : DateTime → Database → Database × ℕ × ℕ
  unfolding sweep_all prune_empty
  sweep now db =
      let s =
        sweep_all now (keys db.namespaces) (record { db = db; emptied = []; values_removed = 0 }) in
      let (db', namespaces_removed) = prune_empty s.emptied (s.db, 0) in
      (db', s.values_removed, namespaces_removed)

  -- `create_namespace`
  unfoldable pub create_namespace : Text → DateTime → Database → Database × Bool
  unfolding namespace_exists namespace_or_create mark_dirty
  create_namespace name now db =
      if namespace_exists name db
      then (db, false)
      else (mark_dirty name (namespace_or_create read_shard name now db).0, true)

-- `shards`
unfoldable pub shards_present : Database → Names
unfolding shard_names
shards_present db = shard_names (keys db.namespaces)

-- `namespace_count`
unfoldable pub namespace_count : Database → ℕ
namespace_count db = total (map (λ (meta : ShardMeta). length meta.namespaces) (values db.shards))

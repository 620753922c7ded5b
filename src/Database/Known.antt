-- ===== src/Database/Known.antt =====
-- Which namespaces are known of, in memory or in the catalogue, in a server without a store.
use sightingdb.Chrono.{Chrono, DateTime}
use sightingdb.Common.{
  Bool, Bool-cases, Option, Option-cases, ap, arith, false, inl, inr, is_some, none, refl, some,
  sym, ◌||◌, ◌∙◌, ◌≡◌,
}
use sightingdb.Database.{Database, ShardData, ShardMeta, namespace_exists, update_shard}
use sightingdb.Database.Lookup.{Agrees-get_namespace, get_namespace_lem}
use sightingdb.Database.Paging.{get_namespace, touch_shard}
use sightingdb.Map.{contains, lookup}
use sightingdb.Map.Laws.{contains-lookup, lookup-insert}
use sightingdb.Names.{shard_of}
use sightingdb.Namespace.{Namespace}
use sightingdb.Order.{Text, text_eq_iff, text_ord, ◌==◌}

-- the catalogue's entry of a shard has the name
abbrev pub listed_as : Text → Option ShardMeta → Bool
listed_as name none = false
listed_as name (some meta) = contains name meta.namespaces

-- the namespace is in memory, or the catalogue lists it
abbrev pub is_known : Text → Database → Bool
is_known name db =
    is_some (lookup name db.namespaces) || listed_as name (lookup (shard_of name) db.shards)

pub namespace_exists_lem :
    (name : Text) (db : Database) → namespace_exists name db ≡ is_known name db
unfolding namespace_exists
namespace_exists_lem name db =
    let e = contains-lookup name db.namespaces in
    elim (Option-cases (lookup (shard_of name) db.shards)) [
      | inl n ↦ rw (n, e) (ground arith)
      | inr (meta, n) ↦ rw (n, e) (ground arith)
    ]

listed_as-update_shard :
    (name at shard : Text) (f : ShardMeta → ShardMeta) (db : Database)
    → ((meta : ShardMeta) → (f meta).namespaces ≡ meta.namespaces)
    → listed_as name (lookup at (update_shard shard f db).shards)
      ≡ listed_as name (lookup at db.shards)
unfolding update_shard
listed_as-update_shard name at shard f db kept = elim (Option-cases (lookup shard db.shards)) [
  | inl n ↦ rw (n, update_shard) refl
  | inr (meta, n) ↦
      let e = lookup-insert shard at (f meta) db.shards in
      elim (Bool-cases (shard == at)) [
        | inl k ↦
            let same : lookup at db.shards ≡ some meta =
              ap (λ s. lookup s db.shards) (sym ((text_eq_iff shard at).0 k)) ∙ n in
            rw (n, update_shard, e, k, same) (ap (λ m. contains name m) (kept meta))
        | inr k ↦ rw (n, update_shard, e, k) refl
      ]
]

-- Looking for a namespace makes none known and none unknown.
pub is_known-get_namespace :
    ⦃c : Chrono⦄ (read_shard : Text → Option ShardData) (name wanted : Text) (now : DateTime)
    (db : Database)
    → db.has_store ≡ false
    → is_known name (get_namespace read_shard wanted now db).0 ≡ is_known name db
unfolding touch_shard
is_known-get_namespace ⦃c⦄ read_shard name wanted now db closed =
    let a = (Agrees-get_namespace read_shard wanted now db closed).0 in
    let e = get_namespace_lem read_shard wanted now db closed in
    let s =
      listed_as-update_shard name (shard_of name) (shard_of wanted)
        (λ meta. record meta { last_access = c.timestamp now }) db (λ meta. refl) in
    ap
      (λ m.
        is_some (lookup name m)
        || listed_as name
            (lookup (shard_of name) (get_namespace read_shard wanted now db).0.shards))
      a.namespaces
    ∙ ap
        (λ (r : Database × Option Namespace).
          is_some (lookup name db.namespaces) || listed_as name (lookup (shard_of name) r.0.shards))
        e
    ∙ ap (λ b. is_some (lookup name db.namespaces) || b) s

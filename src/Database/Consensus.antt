-- ===== src/Database/Consensus.antt =====
-- The tally of consensus as a number: in how many namespaces a value was first seen.
use sightingdb.Attribute.{Attribute, count, new, set_ttl}
use sightingdb.Attribute.Counting.{count-increment}
use sightingdb.Chrono.{Chrono, DateTime}
use sightingdb.Common.{
  Bool-cases, Option, [], ap, false, if◌then◌else◌, inl, inr, none, refl, some, unwrap_or, ℕ, ◌&&◌,
  ◌∙◌, ◌∷◌, ◌≡◌,
}
use sightingdb.Database.{Database, ShardData, WriteOpts, default_opts}
use sightingdb.Database.Tally.{is_tallied, lookup-record_write, tally}
use sightingdb.Database.Writing.{record_write, write_ttl}
use sightingdb.Map.{Map, lookup, values}
use sightingdb.Map.Sorted.{IsSorted}
use sightingdb.Names.{all_namespace}
use sightingdb.Namespace.{Namespace, empty_namespace, touch, with_tags, with_ttl}
use sightingdb.Namespace.Recording.{lookup-record_value}
use sightingdb.Order.{Text, text_eq_iff, text_ord, ◌==◌}
use sightingdb.Word.{add_u64, sum_u64}

-- the attribute that holds a value's tally, a new one where there is none
abbrev pub tally_of : Text → Database → Attribute
tally_of value db =
    let all = unwrap_or (lookup all_namespace db.namespaces) empty_namespace in
    unwrap_or (lookup value all.cells) (new value)

-- the tally of a value, whether expired or not; nothing stands for no tally
abbrev pub tallied : Text → Database → ℕ
tallied value db = count (tally_of value db)

module _ ⦃c : Chrono⦄ where
  counts-with_tags : (tags : Text) (a : Attribute) → (with_tags tags a).counts ≡ a.counts
  unfolding with_tags
  counts-with_tags [] a = refl
  counts-with_tags (x ∷ tags) a = refl

  counts-with_ttl : (ttl : Option ℕ) (a : Attribute) → (with_ttl ttl a).counts ≡ a.counts
  unfolding set_ttl
  counts-with_ttl none a = refl
  counts-with_ttl (some t) a = refl

  count-touch :
      (node : Text) (when : DateTime) (ttl : Option ℕ) (retention : ℕ) (tags : Text) (a : Attribute)
      → IsSorted a.counts
      → count (touch node when ttl retention tags a) ≡ add_u64 (count a) 1
  unfolding touch count
  count-touch node when ttl retention tags a s =
      let e : (with_tags tags (with_ttl ttl a)).counts ≡ a.counts =
        counts-with_tags tags (with_ttl ttl a) ∙ counts-with_ttl ttl a in
      count-increment node when retention (with_tags tags (with_ttl ttl a)) (rw e s)
      ∙ ap (λ (m : Map Text ℕ). add_u64 (sum_u64 (values m)) 1) e

module _ ⦃c : Chrono⦄ (read_shard : Text → Option ShardData) (node path value : Text)
    (when : DateTime) (opts : WriteOpts) (tags : Text) (now : DateTime) (db : Database) where
  abbrev after : Database
  after = (record_write read_shard node path value when opts tags now db).0

  abbrev written_tally : Namespace
  written_tally = (tally read_shard node path value when opts tags now db).namespace

  abbrev touched_tally : Attribute
  touched_tally =
      touch db.node when (write_ttl read_shard all_namespace default_opts db.policy)
        db.policy.stats_retention [] (tally_of value db)

  lookup-written_tally :
      (v : Text)
      → lookup v written_tally.cells ≡ (
          if value == v
          then some touched_tally
          else lookup v (unwrap_or (lookup all_namespace db.namespaces) empty_namespace).cells)
  lookup-written_tally v =
      (lookup-record_value db.node value when
        (write_ttl read_shard all_namespace default_opts db.policy) db.policy.stats_retention []
        (unwrap_or (lookup all_namespace db.namespaces) empty_namespace) v).0

  -- the value's own tally, and another one, in the namespace that the write leaves
  count-written_tally :
      IsSorted (tally_of value db).counts
      → (v : Text)
      → count (unwrap_or (lookup v written_tally.cells) (new v))
        ≡ (if value == v then add_u64 (tallied v db) 1 else tallied v db)
  count-written_tally s v = elim (Bool-cases (value == v)) [
    | inl k ↦
        rw (lookup-written_tally v, k)
          (count-touch db.node when (write_ttl read_shard all_namespace default_opts db.policy)
              db.policy.stats_retention [] (tally_of value db) s
            ∙ ap (λ w. add_u64 (tallied w db) 1) ((text_eq_iff value v).0 k))
    | inr k ↦ rw (lookup-written_tally v, k) refl
  ]

  -- In a server without a store, a write to a namespace other than `_all` adds one, in `u64`, to the
  -- tally of its value when consensus is asked for and the value is new to the namespace, where the
  -- tally's counts are in order; it changes no other tally.
  pub tallied-record_write :
      db.has_store ≡ false
      → (path == all_namespace) ≡ false
      → IsSorted (tally_of value db).counts
      → (v : Text)
      → tallied v (record_write read_shard node path value when opts tags now db).0 ≡ (
          if is_tallied path value opts db && (value == v)
          then add_u64 (tallied v db) 1
          else tallied v db)
  tallied-record_write closed other s v =
      let e =
        lookup-record_write read_shard node path value when opts tags now db closed other
          all_namespace in
      elim (Bool-cases (is_tallied path value opts db)) [
        | inl t ↦
            let f : lookup all_namespace after.namespaces ≡ some written_tally =
              rw (other, t) at e in
            rw (t, f) (count-written_tally s v)
        | inr t ↦
            let f : lookup all_namespace after.namespaces ≡ lookup all_namespace db.namespaces =
              rw (other, t) at e in
            rw (t, f) refl
      ]

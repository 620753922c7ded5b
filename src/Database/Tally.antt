-- ===== src/Database/Tally.antt =====
-- A write and the tally of consensus that it keeps in `_all`, in a server that keeps all of its shards
-- in memory.
use sightingdb.Chrono.{Chrono, DateTime}
use sightingdb.Common.{
  Bool, Bool-cases, Option, [], arith, false, if◌then◌else◌, inl, inr, not, refl, some, unwrap_or,
  ℕ, ◌&&◌, ◌∙◌, ◌≡◌,
}
use sightingdb.Database.{Database, ShardData, WriteOpts, default_opts, mark_dirty, put}
use sightingdb.Database.Lookup.{Agrees, Agrees-get_namespace, HasPut, HasPut-namespace_or_create}
use sightingdb.Database.Paging.{namespace_or_create}
use sightingdb.Database.Writing.{count_in, record_one, record_write, write_plain, write_ttl}
use sightingdb.Map.{contains, lookup}
use sightingdb.Map.Laws.{lookup-insert}
use sightingdb.Names.{all_namespace}
use sightingdb.Namespace.{Namespace, Recorded, empty_namespace, record_value}
use sightingdb.Namespace.Recording.{lookup-record_value}
use sightingdb.Order.{Text, text_eq_iff, text_ord, ◌==◌}

-- What a sighting makes of the namespace that it is written to.
abbrev pub recorded :
    ⦃c : Chrono⦄ → Text → Text → Text → DateTime → Option ℕ → Text → Database → Recorded
recorded node path value when ttl tags db =
    record_value node value when ttl db.policy.stats_retention tags
      (unwrap_or (lookup path db.namespaces) empty_namespace)

-- The namespace holds the value, expired or not.
abbrev pub has_value : Text → Text → Database → Bool
has_value path value db =
    contains value (unwrap_or (lookup path db.namespaces) empty_namespace).cells

-- A write of the value with these options adds to its tally.
abbrev pub is_tallied : Text → Text → WriteOpts → Database → Bool
is_tallied path value opts db = opts.consensus && not (has_value path value db)

HasPut-Agrees :
    {path : Text} {before after later : Database} {ns : Namespace}
    → HasPut path before after ns
    → Agrees after later
    → HasPut path before later ns
HasPut-Agrees {path} {before} {after} {later} {ns} h a = record {
  namespaces = λ j. rw a.namespaces (h.namespaces j);
  has_store = a.has_store;
  policy = a.policy ∙ h.policy;
  node = a.node ∙ h.node;
}

Agrees-mark_dirty :
    (name : Text) (db : Database) → db.has_store ≡ false → Agrees db (mark_dirty name db)
unfolding mark_dirty
Agrees-mark_dirty name db closed = record {
  namespaces = refl;
  has_store = closed;
  policy = refl;
  node = refl;
}

module _ ⦃c : Chrono⦄ (read_shard : Text → Option ShardData) (now : DateTime) where
  Agrees-count_in :
      (path value : Text) (db : Database)
      → db.has_store ≡ false
      → Agrees db (count_in read_shard path value now db).0
  unfolding count_in
  Agrees-count_in path value db closed = (Agrees-get_namespace read_shard path now db closed).0

  HasPut-record_one :
      (node path value : Text) (when : DateTime) (ttl : Option ℕ) (tags : Text) (db : Database)
      → db.has_store ≡ false
      → HasPut path db
          (record_one read_shard node path value when ttl tags now db).0
          (recorded node path value when ttl tags db).namespace
        × ((record_one read_shard node path value when ttl tags now db).1.new
            ≡ (recorded node path value when ttl tags db).is_new)
  unfolding record_one put
  HasPut-record_one node path value when ttl tags db closed =
      let (h, e) = HasPut-namespace_or_create read_shard path now db closed in
      let d = (namespace_or_create read_shard path now db).0 in
      let made = (recorded node path value when ttl tags db).namespace in
      rw e (
        record {
          namespaces = λ j. ground (arith, lookup-insert path j made d.namespaces, h.namespaces j);
          has_store = h.has_store;
          policy = h.policy;
          node = h.node;
        },
        refl,
      )

  -- the end of every write: the tally is read for the log, and the shard marked dirty
  HasPut-finish :
      {path : Text} {before after : Database} {ns : Namespace} (value dirtied : Text)
      → HasPut path before after ns
      → HasPut path before
          (mark_dirty dirtied (count_in read_shard all_namespace value now after).0)
          ns
  HasPut-finish {path} {before} {after} {ns} value dirtied h =
      let a = Agrees-count_in all_namespace value after h.has_store in
      HasPut-Agrees (HasPut-Agrees h a) (
        Agrees-mark_dirty dirtied (count_in read_shard all_namespace value now after).0 a.has_store)

  HasPut-write_plain :
      (path value : Text) (when : DateTime) (db : Database)
      → db.has_store ≡ false
      → HasPut path db
          (write_plain read_shard path value when now db)
          (recorded db.node path value when
            (write_ttl read_shard path default_opts db.policy)
            []
            db).namespace
  unfolding write_plain
  HasPut-write_plain path value when db closed =
      HasPut-finish value path
        (HasPut-record_one db.node path value when
          (write_ttl read_shard path default_opts db.policy) [] db closed).0

module _ ⦃c : Chrono⦄ (read_shard : Text → Option ShardData) (node path value : Text)
    (when : DateTime) (opts : WriteOpts) (tags : Text) (now : DateTime) (db : Database) where
  -- the write to `path`
  abbrev pub sighting : Recorded
  sighting = recorded node path value when (write_ttl read_shard path opts db.policy) tags db

  -- the write to the tally, as it stands before the call
  abbrev pub tally : Recorded
  tally =
      recorded db.node all_namespace value when
        (write_ttl read_shard all_namespace default_opts db.policy) [] db

  tally_kept :
      (d : Database)
      → HasPut path db d sighting.namespace
      → (path == all_namespace) ≡ false
      → recorded d.node all_namespace value when
          (write_ttl read_shard all_namespace default_opts d.policy)
          []
          d
        ≡ tally
  tally_kept d h other =
      let e : lookup all_namespace d.namespaces ≡ lookup all_namespace db.namespaces =
        rw (h.namespaces all_namespace, other) refl in
      rw (e, h.node, h.policy) refl

  -- setting `path` and then `_all` sets both
  both_set :
      (mine all : Namespace) (rest : Option Namespace) (j : Text)
      → (path == all_namespace) ≡ false
      → (if all_namespace == j then some all else (if path == j then some mine else rest))
        ≡ (if path == j then some mine else (if all_namespace == j then some all else rest))
  both_set mine all rest j other = ground (arith, text_eq_iff path j, text_eq_iff all_namespace j)

  -- In a server without a store, a write to a namespace other than `_all` sets that namespace, sets the
  -- tally in `_all` when consensus is asked for and the value is new to the namespace, and changes no
  -- other namespace.
  pub lookup-record_write :
      db.has_store ≡ false
      → (path == all_namespace) ≡ false
      → (j : Text)
      → lookup j (record_write read_shard node path value when opts tags now db).0.namespaces ≡ (
          if path == j
          then some sighting.namespace
          else if is_tallied path value opts db && (all_namespace == j)
          then some tally.namespace
          else lookup j db.namespaces)
  unfolding record_write
  lookup-record_write closed other j =
      let ttl = write_ttl read_shard path opts db.policy in
      let (h, made) = HasPut-record_one read_shard now node path value when ttl tags db closed in
      let e =
        made
        ∙ (lookup-record_value node value when ttl db.policy.stats_retention tags
            (unwrap_or (lookup path db.namespaces) empty_namespace) value).1 in
      let d =
        (record_one read_shard node path value when (write_ttl read_shard path opts db.policy) tags
          now db).0 in
      elim (Bool-cases (is_tallied path value opts db)) [
        | inl t ↦
            let w = HasPut-write_plain read_shard now all_namespace value when d h.has_store in
            let f = HasPut-finish read_shard now value path w in
            rw (e, t, record_write)
              (f.namespaces j
                ∙ rw (tally_kept d h other, h.namespaces j)
                    (both_set sighting.namespace tally.namespace (lookup j db.namespaces) j other))
        | inr t ↦
            let f = HasPut-finish read_shard now value path h in
            rw (e, t, record_write) (f.namespaces j)
      ]

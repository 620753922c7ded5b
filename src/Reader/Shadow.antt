-- ===== src/Reader/Shadow.antt =====
-- What a read answers and what it leaves.
use mathlib.Core.Path.{subst}
use sightingdb.Attribute.{AttributeView, view}
use sightingdb.Chrono.{Chrono, DateTime}
use sightingdb.Common.{
  Bool, Bool-cases, Option, [], ap, false, if◌then◌else◌, inl, inr, none, not, refl, some, true, ℕ,
  ◌&&◌, ◌++◌, ◌∙◌, ◌≡◌, ◌⊎◌,
}
use sightingdb.Database.{Database, ShardData, default_opts}
use sightingdb.Database.Known.{is_known, is_known-get_namespace, namespace_exists_lem}
use sightingdb.Database.Lookup.{Agrees, Agrees-get_namespace}
use sightingdb.Database.Methods.{view_at, write_tagged}
use sightingdb.Database.Tally.{lookup-record_write, sighting}
use sightingdb.Database.Values.Filling.{Agrees-trans, consensus_in, count_in_lem, from_namespace}
use sightingdb.Database.Writing.{count_in}
use sightingdb.Dns.Answer.{answer}
use sightingdb.Error.{ApiError, missing_namespace, missing_value, not_found}
use sightingdb.Map.{lookup}
use sightingdb.Names.{all_namespace, config_prefix, shadow_prefix}
use sightingdb.Namespace.{Namespace, view_value}
use sightingdb.Order.{Text, text_ord, ◌==◌}
use sightingdb.Reader.{answer_of, look_up, noted, read, write_shadow}
use sightingdb.Text.{starts_with}

-- the answer to a lookup that found this view, or nothing, of a namespace that is known or not
abbrev pub IsAnswer : Text → Text → Bool → Option AttributeView → ApiError ⊎ AttributeView → Type 0
IsAnswer namespace value known (some view) answer = answer ≡ inr view
IsAnswer namespace value true none answer =
    answer
    ≡ inl (not_found (record { error = missing_value; namespace = namespace; value = value }))
IsAnswer namespace value false none answer =
    answer
    ≡ inl (not_found (record { error = missing_namespace; namespace = namespace; value = value }))

answer_of-IsAnswer :
    ⦃c : Chrono⦄ (read_shard : Text → Option ShardData) (namespace value : Text)
    (found : Option AttributeView) (db : Database)
    → IsAnswer namespace value
        (is_known namespace db)
        found
        (answer_of read_shard namespace value found db)
answer_of-IsAnswer read_shard namespace value none db =
    let e = namespace_exists_lem namespace db in
    elim (Bool-cases (is_known namespace db)) [ inl k ↦ rw (e, k) refl | inr k ↦ rw (e, k) refl ]
answer_of-IsAnswer read_shard namespace value (some view) db = refl

module _ ⦃c : Chrono⦄ (read_shard : Text → Option ShardData) (namespace value : Text)
    (with_stats with_shadow : Bool) (now : DateTime) (db : Database) where
  -- the view of the value in `db`, with the consensus of `db`
  abbrev pub view_of : Database → Option AttributeView
  view_of d =
      from_namespace none
        (view_value value (consensus_in read_shard now d.namespaces value) with_stats now)
        (lookup namespace d.namespaces)

  abbrev after : Database × (ApiError ⊎ AttributeView)
  after = read read_shard namespace value with_stats with_shadow now db

  view_at_lem :
      (consensus : ℕ) (d : Database)
      → d.has_store ≡ false
      → Agrees d (view_at read_shard namespace value consensus with_stats now d).0
        × ((view_at read_shard namespace value consensus with_stats now d).1
            ≡ from_namespace none
                (view_value value consensus with_stats now)
                (lookup namespace d.namespaces))
  unfolding view_at
  view_at_lem consensus d closed =
      let (a, e) = Agrees-get_namespace read_shard namespace now d closed in
      (a, ap (from_namespace none (view_value value consensus with_stats now)) e)

  is_known-view_at :
      (consensus : ℕ) (d : Database)
      → d.has_store ≡ false
      → is_known namespace (view_at read_shard namespace value consensus with_stats now d).0
        ≡ is_known namespace d
  unfolding view_at
  is_known-view_at consensus d closed =
      is_known-get_namespace read_shard namespace namespace now d closed

  is_known-count_in :
      (d : Database)
      → d.has_store ≡ false
      → is_known namespace (count_in read_shard all_namespace value now d).0 ≡ is_known namespace d
  unfolding count_in
  is_known-count_in d closed =
      is_known-get_namespace read_shard namespace all_namespace now d closed

  look_up_lem :
      (d : Database)
      → d.has_store ≡ false
      → Agrees d (look_up read_shard namespace value with_stats now d).0
        × IsAnswer namespace value
            (is_known namespace d)
            (view_of d)
            (look_up read_shard namespace value with_stats now d).1
  unfolding look_up
  look_up_lem d closed =
      let (a, e) = count_in_lem read_shard now value d closed in
      let counted = count_in read_shard all_namespace value now d in
      let (b, f) = view_at_lem counted.1 counted.0 a.has_store in
      let seen = view_at read_shard namespace value counted.1 with_stats now counted.0 in
      let same : seen.1 ≡ view_of d = f ∙ rw (e, a.namespaces) refl in
      let known : is_known namespace seen.0 ≡ is_known namespace d =
        is_known-view_at counted.1 counted.0 a.has_store ∙ is_known-count_in d closed in
      (
        Agrees-trans a b,
        subst
            (λ v.
              IsAnswer namespace value (is_known namespace d) v
                (look_up read_shard namespace value with_stats now d).1)
            same
            (subst
              (λ k.
                IsAnswer namespace value k seen.1
                  (look_up read_shard namespace value with_stats now d).1)
              known (answer_of-IsAnswer read_shard namespace value seen.1 seen.0)),
      )

  -- In a server without a store, a read of a namespace outside `_config` answers with the view of the
  -- value that the namespace holds, with the consensus that `_all` holds for it; where there is none, it
  -- answers that the value is not there if the namespace is in memory or in the catalogue, and else that
  -- the namespace is not there; whether or not the read is recorded.
  pub read-IsAnswer :
      db.has_store ≡ false
      → starts_with config_prefix namespace ≡ false
      → IsAnswer namespace value (is_known namespace db) (view_of db) after.1
  unfolding read
  read-IsAnswer closed outside =
      rw (outside) (look_up_lem (noted read_shard namespace now db) closed).1

  abbrev shadow : Text
  shadow = shadow_prefix ++ namespace

  -- the namespace that records the read
  abbrev shadowed : Namespace
  shadowed = (sighting read_shard db.node shadow value now default_opts [] now db).namespace

  write_shadow_lem :
      (d : Database)
      → Agrees db d
      → (j : Text)
      → lookup j (write_shadow read_shard namespace value now d).namespaces
        ≡ (if shadow == j then some shadowed else lookup j db.namespaces)
  unfolding write_shadow write_tagged
  write_shadow_lem d a j =
      lookup-record_write read_shard d.node shadow value now default_opts [] now d a.has_store refl
        j
      ∙ rw (a.namespaces, a.node, a.policy) refl

  -- In a server without a store, a read changes no namespace but its shadow, to which a sighting of the
  -- value is added when the read is to be recorded and the namespace is outside `_config/`; so it changes
  -- no tally of consensus.
  pub lookup-read :
      db.has_store ≡ false
      → (j : Text)
      → lookup j after.0.namespaces ≡ (
          if not (starts_with config_prefix namespace) && with_shadow && (shadow == j)
          then some shadowed
          else lookup j db.namespaces)
  unfolding read
  lookup-read closed j =
      let (a, e) = look_up_lem (noted read_shard namespace now db) closed in
      let d =
        (look_up read_shard namespace value with_stats now (noted read_shard namespace now db)).0 in
      let kept : Agrees db d = record {
        namespaces = a.namespaces;
        has_store = a.has_store;
        policy = a.policy;
        node = a.node;
      } in
      elim (Bool-cases (starts_with config_prefix namespace)) [
        | inl config ↦ rw config refl
        | inr outside ↦ elim (Bool-cases with_shadow) [
          | inl t ↦ rw (outside, t) (write_shadow_lem d kept j)
          | inr t ↦ rw (outside, t) (ap (lookup j) a.namespaces)
        ]
      ]

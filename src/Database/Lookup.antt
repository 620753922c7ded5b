-- ===== src/Database/Lookup.antt =====
-- Which namespaces are found after a call, in a server that keeps all of its shards in memory, as one
-- without a store does.
use sightingdb.Chrono.{Chrono, DateTime}
use sightingdb.Common.{
  Bool-cases, Option, Option-cases, ap, arith, false, if◌then◌else◌, inl, inr, none, refl, some,
  sym, unwrap_or, ◌∙◌, ◌≡◌,
}
use sightingdb.Database.{Database, ShardData, ShardMeta, catalogued, put, resident, update_shard}
use sightingdb.Database.Paging.{
  create, get_namespace, is_evicted, namespace_or_create, note_name, page_in, touch_shard,
}
use sightingdb.Map.{lookup}
use sightingdb.Map.Laws.{lookup-insert}
use sightingdb.Names.{shard_of}
use sightingdb.Namespace.{Namespace, empty_namespace}
use sightingdb.Order.{Text, text_eq_iff, text_ord, ◌==◌}

-- What a call that changes no namespace leaves: the namespaces, the policy and the server's name, in
-- a server without a store.
pub record Agrees (before after : Database) : Type 0 where
  pub namespaces : after.namespaces ≡ before.namespaces
  pub has_store : after.has_store ≡ false
  pub policy : after.policy ≡ before.policy
  pub node : after.node ≡ before.node

-- What a call that sets one namespace leaves: that one is in the map, and the others, the policy and
-- the name of the server stay as they are.
pub record HasPut (name : Text) (before after : Database) (ns : Namespace) : Type 0 where
  pub namespaces :
      (j : Text)
      → lookup j after.namespaces ≡ (if name == j then some ns else lookup j before.namespaces)
  pub has_store : after.has_store ≡ false
  pub policy : after.policy ≡ before.policy
  pub node : after.node ≡ before.node

Agrees-update_shard :
    (shard : Text) (f : ShardMeta → ShardMeta) (db : Database)
    → db.has_store ≡ false
    → Agrees db (update_shard shard f db)
unfolding update_shard
Agrees-update_shard shard f db closed = elim (Option-cases (lookup shard db.shards)) [
  | inl e ↦
      rw (e, update_shard)
        (record { namespaces = refl; has_store = closed; policy = refl; node = refl })
  | inr (meta, e) ↦
      rw (e, update_shard)
        (record { namespaces = refl; has_store = closed; policy = refl; node = refl })
]

module _ ⦃c : Chrono⦄ (read_shard : Text → Option ShardData) (name : Text) (now : DateTime)
    (db : Database) (closed : db.has_store ≡ false) where
  abbrev pub touched : Database
  touched = touch_shard read_shard (shard_of name) now db

  Agrees-touched : Agrees db touched
  unfolding touch_shard
  Agrees-touched =
      Agrees-update_shard (shard_of name) (λ meta. record meta { last_access = c.timestamp now }) db
        closed

  page_in_closed :
      (shard : Text) (db : Database)
      → db.has_store ≡ false
      → page_in read_shard shard now db ≡ some db
  unfolding page_in
  page_in_closed shard db h = rw (h, page_in) refl

  pub get_namespace_lem :
      get_namespace read_shard name now db ≡ (touched, lookup name touched.namespaces)
  unfolding get_namespace resident
  get_namespace_lem =
      let h = page_in_closed (shard_of name) touched Agrees-touched.has_store in
      elim (Option-cases (lookup name touched.namespaces)) [
        | inr (ns, e) ↦ rw (e, get_namespace) refl
        | inl e ↦ elim (Bool-cases (catalogued (shard_of name) name touched)) [
          | inl k ↦ rw (e, k, h, e, get_namespace) refl
          | inr k ↦ rw (e, k, get_namespace) refl
        ]
      ]

  -- Looking for a namespace changes none, and finds the one that is there.
  pub Agrees-get_namespace :
      Agrees db (get_namespace read_shard name now db).0
      × ((get_namespace read_shard name now db).1 ≡ lookup name db.namespaces)
  Agrees-get_namespace =
      rw get_namespace_lem (Agrees-touched, ap (lookup name) Agrees-touched.namespaces)

  create_lem :
      (d : Database)
      → d.has_store ≡ false
      → create read_shard name now d ≡ (
        note_name read_shard name now
            (put name (unwrap_or (lookup name d.namespaces) empty_namespace) d),
        unwrap_or (lookup name d.namespaces) empty_namespace,
      )
  unfolding create
  create_lem d h = elim (Bool-cases (is_evicted read_shard (lookup (shard_of name) d.shards))) [
    | inl e ↦ rw (e, page_in_closed (shard_of name) d h, create) refl
    | inr e ↦ rw (e, create) refl
  ]

  found_case :
      (d : Database) (ns : Namespace)
      → Agrees db d
      → lookup name db.namespaces ≡ some ns
      → HasPut name db d ns
  found_case d ns a e = record {
    namespaces = λ j. ground (arith, a.namespaces, e, text_eq_iff name j);
    has_store = a.has_store;
    policy = a.policy;
    node = a.node;
  }

  -- the namespace that a call finds, or the one that it makes
  abbrev opened : Namespace
  opened = unwrap_or (lookup name db.namespaces) empty_namespace

  made_case :
      (d : Database)
      → Agrees db d
      → lookup name db.namespaces ≡ none
      → HasPut name db (create read_shard name now d).0 opened
        × ((create read_shard name now d).1 ≡ opened)
  unfolding note_name put
  made_case d a e =
      let f = ap (λ m. unwrap_or (lookup name m) empty_namespace) a.namespaces in
      rw (create_lem d a.has_store, f)
        (
          record {
            namespaces =
                λ j. ground (arith, a.namespaces, lookup-insert name j opened d.namespaces);
            has_store = a.has_store;
            policy = a.policy;
            node = a.node;
          },
          refl,
        )

  pub HasPut-namespace_or_create :
      HasPut name db (namespace_or_create read_shard name now db).0 opened
      × ((namespace_or_create read_shard name now db).1 ≡ opened)
  unfolding namespace_or_create
  HasPut-namespace_or_create =
      let (a, f) = Agrees-get_namespace in
      elim (Option-cases (get_namespace read_shard name now db).1) [
        | inr (ns, e) ↦
            rw (e, namespace_or_create, sym f ∙ e)
              (found_case (get_namespace read_shard name now db).0 ns a (sym f ∙ e), refl)
        | inl e ↦
            rw (e, namespace_or_create)
              (made_case (get_namespace read_shard name now db).0 a (sym f ∙ e))
      ]

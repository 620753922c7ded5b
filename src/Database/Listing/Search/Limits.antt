-- ===== src/Database/Listing/Search/Limits.antt =====
-- What a search may show.
use sightingdb.Attribute.{AttributeView, view}
use sightingdb.Chrono.{Chrono, DateTime}
use sightingdb.Common.{
  All, All-append, Bool, Bool-cases, List, Option, Option-cases, [], ap, arith, false,
  if◌then◌else◌, inl, inr, keep, leb, length, length-append, ltb, not, refl, suc, true, ℕ, ◌&&◌,
  ◌∙◌, ◌∷◌, ◌≡◌, ◌≤◌,
}
use sightingdb.Database.{Database, ShardData, ShardMeta}
use sightingdb.Database.Listing.Search.{
  Search, Sighting, insert_sighting, names_where, no_sightings, search_names, search_one,
  sighting_of, sightings_of, sort_sightings, take_view,
}
use sightingdb.Database.Methods.{view_at}
use sightingdb.Database.Writing.{count_in}
use sightingdb.Map.{Map, keys}
use sightingdb.Names.{all_namespace, counts_towards_consensus}
use sightingdb.Order.{Text, text_lt}

no_more : {a b c : ℕ} → a ≡ b → b ≤ c → a ≤ c
no_more h k = ground (arith, h, k)

module _ (limit : ℕ) (allowed : Text → Bool) where
  -- what may be shown: no more than the limit, of namespaces that may be seen, none of them internal
  abbrev pub IsFit : List Sighting → Type 0
  IsFit items =
      (length items ≤ limit)
      × All (λ (x : Sighting). (allowed x.namespace && counts_towards_consensus x.namespace) ≡ true)
          items

  abbrev IsShown : Sighting → Type 0
  IsShown x = (allowed x.namespace && counts_towards_consensus x.namespace) ≡ true

  IsFit-take_view :
      (name : Text) (view : AttributeView) (s : Search)
      → counts_towards_consensus name ≡ true
      → IsFit s.found.items
      → IsFit (take_view limit allowed name view s).found.items
  unfolding take_view
  IsFit-take_view name view s c h = elim (Bool-cases (allowed name)) [
    | inr e ↦ rw e h
    | inl e ↦ elim (Bool-cases (leb limit (length s.found.items))) [
      | inl k ↦ rw (e, k) h
      | inr k ↦
          rw (e, k)
            (
              ground (arith, length-append {0} s.found.items (sighting_of name view ∷ []), k),
              All-append IsShown s.found.items (sighting_of name view ∷ []) h.1
                  (rw (e, c) refl, tt),
            )
    ]
  ]

  All-insert_sighting :
      (x : Sighting) (xs : List Sighting)
      → IsShown x
      → All IsShown xs
      → All IsShown (insert_sighting x xs) × (length (insert_sighting x xs) ≡ suc (length xs))
  unfolding insert_sighting
  All-insert_sighting x [] p h = ((p, tt), refl)
  All-insert_sighting x (y ∷ rest) p h =
      let (later, size) = All-insert_sighting x rest p h.1 in
      elim (Bool-cases (text_lt y.namespace x.namespace)) [
        | inl e ↦ rw e ((h.0, later), ap suc size)
        | inr e ↦ rw e ((p, h), refl)
      ]

  IsFit-sort_sightings :
      (xs : List Sighting)
      → All IsShown xs
      → All IsShown (sort_sightings xs) × (length (sort_sightings xs) ≡ length xs)
  unfolding sort_sightings
  IsFit-sort_sightings [] h = (tt, refl)
  IsFit-sort_sightings (x ∷ rest) h =
      let (later, size) = IsFit-sort_sightings rest h.1 in
      let (shown, more) = All-insert_sighting x (sort_sightings rest) h.0 later in
      (shown, more ∙ ap suc size)

  abbrev Counted : List Text → Type 0
  Counted names = All (λ name. counts_towards_consensus name ≡ true) names

  Counted-keep : (names : List Text) → Counted (keep counts_towards_consensus names)
  Counted-keep [] = tt
  Counted-keep (name ∷ rest) = elim (Bool-cases (counts_towards_consensus name)) [
    | inl e ↦ rw e (e, Counted-keep rest)
    | inr e ↦ rw e (Counted-keep rest)
  ]

  Counted-names_where :
      (in_memory : Bool) (shards : Map Text ShardMeta) → Counted (names_where in_memory shards)
  unfolding names_where
  Counted-names_where in_memory [] = tt
  Counted-names_where in_memory ((shard, meta) ∷ rest) =
      let later = Counted-names_where in_memory rest in
      elim (Bool-cases (if in_memory then meta.resident else not meta.resident)) [
        | inl e ↦ rw e (
            All-append (λ name. counts_towards_consensus name ≡ true)
              (keep counts_towards_consensus (keys meta.namespaces)) (names_where in_memory rest)
              (Counted-keep (keys meta.namespaces)) later)
        | inr e ↦ rw e later
      ]

  module _ ⦃c : Chrono⦄ (read_shard : Text → Option ShardData) (value : Text) (now : DateTime) where
    IsFit-search_one :
        (target : ℕ) (from_disk : Bool) (name : Text) (s : Search)
        → counts_towards_consensus name ≡ true
        → IsFit s.found.items
        → IsFit (search_one read_shard value limit allowed now target from_disk name s).found.items
    unfolding search_one
    IsFit-search_one target from_disk name s e h = elim (Bool-cases s.stopped) [
      | inl k ↦ rw (search_one, k) h
      | inr k ↦ elim (Bool-cases (ltb 0 target && leb target s.seen)) [
        | inl j ↦ rw (search_one, k, j) h
        | inr j ↦ elim (Option-cases (view_at read_shard name value 0 false now s.db).1) [
          | inl n ↦ rw (search_one, k, j, n) h
          | inr (view, n) ↦ rw (search_one, k, j, n) (IsFit-take_view name view _ e h)
        ]
      ]
    ]

    IsFit-search_names :
        (target : ℕ) (from_disk : Bool) (names : List Text) (s : Search)
        → Counted names
        → IsFit s.found.items
        → IsFit
            (search_names read_shard value limit allowed now target from_disk names s).found.items
    unfolding search_names
    IsFit-search_names target from_disk [] s e h = h
    IsFit-search_names target from_disk (name ∷ rest) s e h =
        IsFit-search_names target from_disk rest
          (search_one read_shard value limit allowed now target from_disk name s) e.1
          (IsFit-search_one target from_disk name s e.0 h)

    -- A search shows no more namespaces than the limit, and only those that may be seen and count towards
    -- consensus, whatever is paged in on the way.
    pub sightings_of_bounds :
        (db : Database) → IsFit (sightings_of read_shard value limit allowed now db).1.items
    unfolding sightings_of
    sightings_of_bounds db =
        let counted = count_in read_shard all_namespace value now db in
        let start : Search = record {
          db = counted.0;
          found = no_sightings;
          seen = 0;
          stopped = false;
        } in
        let first = names_where true counted.0.shards in
        let second = names_where false counted.0.shards in
        let a =
          IsFit-search_names counted.1 false first start (Counted-names_where true counted.0.shards)
            (omega arith, tt) in
        let in_memory =
          search_names read_shard value limit allowed now counted.1 false first start in
        let b =
          IsFit-search_names counted.1 true second in_memory
            (Counted-names_where false counted.0.shards) a in
        let s = search_names read_shard value limit allowed now counted.1 true second in_memory in
        let (shown, size) = IsFit-sort_sightings s.found.items b.1 in (no_more size b.0, shown)

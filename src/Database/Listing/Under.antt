-- ===== src/Database/Listing/Under.antt =====
-- Which namespaces are listed.
use sightingdb.Common.{
  Bool, Bool-cases, List, Memᴰ, [], ap, arith, false, inl, inr, keep, refl, sym, true, ◌&&◌, ◌++◌,
  ◌||◌, ◌↔◌, ◌∙◌, ◌∷◌, ◌≡◌, ◌⊎◌,
}
use sightingdb.Database.{Database, ShardMeta}
use sightingdb.Database.Listing.{is_under, listed_names, name_set, namespaces_under, sorted_names}
use sightingdb.Map.{Map, contains, keys}
use sightingdb.Map.Laws.{contains-insert}
use sightingdb.Names.{is_internal}
use sightingdb.Names.Below.{IsUnder, under_iff}
use sightingdb.Order.{Text, text_eq, text_eq_iff, text_ord}
use sightingdb.Persistence.Listed.{contains_text-keys}
use sightingdb.Text.{contains_text, is_slash, trim_matches}

-- the catalogue has the name
abbrev pub is_catalogued : Text → Database → Bool
is_catalogued name db = contains_text name (listed_names db.shards)

contains_text-keep :
    (p : Text → Bool) (name : Text) (names : List Text)
    → contains_text name (keep p names) ≡ (contains_text name names && p name)
unfolding contains_text
contains_text-keep p name [] = refl
contains_text-keep p name (i ∷ rest) = elim (Bool-cases (text_eq i name)) [
  | inl e ↦
      let same = ap p ((text_eq_iff i name).0 e) in
      let later = contains_text-keep p name rest in
      elim (Bool-cases (p name)) [
        | inl k ↦ rw (same, k, e) refl
        | inr k ↦ rw (same, k) (ground (arith, later, k))
      ]
  | inr e ↦ elim (Bool-cases (p i)) [
    | inl k ↦ rw (e, k, e) (contains_text-keep p name rest)
    | inr k ↦ rw (e, k) (contains_text-keep p name rest)
  ]
]

contains-name_set :
    (name : Text) (names : List Text) → contains name (name_set names) ≡ contains_text name names
unfolding contains_text name_set contains
contains-name_set name [] = refl
contains-name_set name (i ∷ rest) =
    contains-insert i name tt (name_set rest) ∙ rw (contains-name_set name rest) (ground arith)

contains_text-sorted_names :
    (name : Text) (names : List Text)
    → contains_text name (sorted_names names) ≡ contains_text name names
contains_text-sorted_names name names =
    contains_text-keys name (name_set names) ∙ contains-name_set name names

-- A shard's entry in the catalogue, in memory or not, has the name.
abbrev pub IsCatalogued : Text → Map Text ShardMeta → Type 0
IsCatalogued name shards =
    (shard : Text) × (meta : ShardMeta) × Memᴰ (shard, meta) shards
    × (contains name meta.namespaces ≡ true)

contains_text-append :
    (name : Text) (xs ys : List Text)
    → contains_text name (xs ++ ys) ≡ (contains_text name xs || contains_text name ys)
unfolding contains_text
contains_text-append name [] ys = refl
contains_text-append name (x ∷ xs) ys = rw (contains_text-append name xs ys) (ground arith)

or_split : (a b : Bool) → (a || b) ≡ true → (a ≡ true) ⊎ (b ≡ true)
or_split true b h = inl refl
or_split false b h = inr h

listed_names_cons :
    (name shard : Text) (meta : ShardMeta) (rest : Map Text ShardMeta)
    → contains_text name (listed_names ((shard, meta) ∷ rest))
      ≡ (contains name meta.namespaces || contains_text name (listed_names rest))
unfolding listed_names
listed_names_cons name shard meta rest =
    contains_text-append name (keys meta.namespaces) (listed_names rest)
    ∙ rw (contains_text-keys name meta.namespaces) refl

IsCatalogued-listed_names :
    (name : Text) (shards : Map Text ShardMeta)
    → contains_text name (listed_names shards) ≡ true
    → IsCatalogued name shards
unfolding listed_names contains_text
IsCatalogued-listed_names name [] h = ground (arith, h)
IsCatalogued-listed_names name ((shard, meta) ∷ rest) h =
    elim (or_split _ _ (sym (listed_names_cons name shard meta rest) ∙ h)) [
      | inl e ↦ (shard, meta, Memᴰ.head refl, e)
      | inr e ↦
          let (s, m, found, k) = IsCatalogued-listed_names name rest e in (s, m, Memᴰ.tail found, k)
    ]

listed_names-Memᴰ :
    (name : Text) {shard : Text} {meta : ShardMeta} (shards : Map Text ShardMeta)
    → contains name meta.namespaces ≡ true
    → Memᴰ (shard, meta) shards
    → contains_text name (listed_names shards) ≡ true
listed_names-Memᴰ name {shard} {meta} [] k found = elim found [ ]
listed_names-Memᴰ name {shard} {meta} ((s, m) ∷ rest) k (Memᴰ.head e) =
    let same : contains name m.namespaces ≡ true =
      ap (λ (x : Text × ShardMeta). contains name x.1.namespaces) (sym e) ∙ k in
    listed_names_cons name s m rest ∙ rw same refl
listed_names-Memᴰ name {shard} {meta} ((s, m) ∷ rest) k (Memᴰ.tail found) =
    let later = listed_names-Memᴰ name rest k found in
    listed_names_cons name s m rest ∙ rw later (ground arith)

-- The names that a listing keeps are those in the catalogue that pass its test.
pub sorted_names_iff :
    (p : Text → Bool) (name : Text) (shards : Map Text ShardMeta)
    → (contains_text name (sorted_names (keep p (listed_names shards))) ≡ true)
      ↔ (IsCatalogued name shards × (p name ≡ true))
sorted_names_iff p name shards =
    let listed = contains_text name (listed_names shards) in
    let e =
      contains_text-sorted_names name (keep p (listed_names shards))
      ∙ contains_text-keep p name (listed_names shards) in
    (
      λ h.
          let f : (listed && p name) ≡ true = sym e ∙ h in
          (IsCatalogued-listed_names name shards (ground (arith, f)), ground (arith, f)),
      λ ((shard, meta, found, k), t).
          let l = listed_names-Memᴰ name shards k found in e ∙ ground (arith, l, t),
    )

-- A namespace is listed under a prefix exactly when a shard of the catalogue has it, in memory or not,
-- and it is not internal, is the prefix without its outer slashes, or goes on after it with a slash, or
-- that prefix is empty, and it may be seen.
pub namespaces_under_lem :
    (prefix : Text) (allowed : Text → Bool) (db : Database) (name : Text)
    → (contains_text name (namespaces_under prefix allowed db) ≡ true) ↔ (
        IsCatalogued name db.shards
        × (is_internal name ≡ false)
        × IsUnder name (trim_matches is_slash prefix)
        × (allowed name ≡ true))
unfolding namespaces_under is_under
namespaces_under_lem prefix allowed db name =
    let trimmed = trim_matches is_slash prefix in
    let found = sorted_names_iff (is_under trimmed allowed) name db.shards in
    (
      λ h.
          let (listed, f) = found.0 h in
          (
            listed,
            ground (arith, f),
            (under_iff name trimmed).0 (ground (arith, f)),
            ground (arith, f),
          ),
      λ (listed, outside, below, seen).
          let u = (under_iff name trimmed).1 below in
          found.1 (listed, ground (arith, u, outside, seen)),
    )

-- ===== src/Persistence/Eviction.antt =====
-- What is kept of a shard that leaves memory.
use sightingdb.Chrono.{Chrono}
use sightingdb.Common.{
  Bool, Bool-cases, Option, Option-cases, [], ap, arith, false, if◌then◌else◌, inl, inr, is_some,
  none, refl, some, sym, true, ℕ, ◌∙◌, ◌∷◌, ◌≡◌,
}
use sightingdb.Database.{Database, ShardData, ShardMeta, catalogued, update_shard}
use sightingdb.Map.{Map, contains, insert, keys, lookup}
use sightingdb.Map.Laws.{lookup-insert}
use sightingdb.Names.{shard_of}
use sightingdb.Namespace.{Namespace}
use sightingdb.Order.{Text, text_eq, text_eq_iff, text_ord}
use sightingdb.Persistence.{
  Disk, EvictReport, any_held, drop_shard, evict_one, release_shard, shard_snapshot, without_shard,
  write_shard,
}
use sightingdb.Persistence.Held.{
  Cells, IsFiled, cells_of, cells_to_second, found_in, lookup-shard_snapshot,
}
use sightingdb.Persistence.Saving.{content}

abbrev pub memory_first : ⦃c : Chrono⦄ → Option Namespace → Option Cells → Option Cells
memory_first none held = held
memory_first (some ns) held = some (cells_to_second ns.cells)

-- what the server holds of a namespace, to the second: in memory, or else in the file of a shard that
-- the catalogue lists it under and that is not in memory
abbrev pub stored : ⦃c : Chrono⦄ → Text → Database → Disk → Option Cells
stored name db disk = memory_first (lookup name db.namespaces) (
    if catalogued (shard_of name) name db
    then found_in name (lookup (shard_of name) disk.files)
    else none)

same_shard :
    (shard i name : Text)
    → text_eq i name ≡ true
    → text_eq (shard_of i) shard ≡ text_eq (shard_of name) shard
same_shard shard i name e = ap (λ (n : Text). text_eq (shard_of n) shard) ((text_eq_iff i name).0 e)

lookup-without_shard :
    (shard name : Text) (m : Map Text Namespace)
    → lookup name (without_shard shard m)
      ≡ (if text_eq (shard_of name) shard then none else lookup name m)
unfolding without_shard lookup
lookup-without_shard shard name [] = ground arith
lookup-without_shard shard name ((i, ns) ∷ m) = elim (Bool-cases (text_eq i name)) [
  | inl e ↦
      let later = lookup-without_shard shard name m in
      let s = same_shard shard i name e in
      elim (Bool-cases (text_eq (shard_of name) shard)) [
        | inl f ↦ rw (s, f) (rw f at later)
        | inr f ↦ rw (s, f, e) refl
      ]
  | inr e ↦ elim (Bool-cases (text_eq (shard_of i) shard)) [
    | inl f ↦ rw (f, e) (lookup-without_shard shard name m)
    | inr f ↦ rw (f, e) (lookup-without_shard shard name m)
  ]
]

module _ ⦃c : Chrono⦄ (is_held : Text → Bool) (shard : Text) (meta : ShardMeta)
    (db : Database) where
  -- What the catalogue has to say of the shard: it is in memory, and its namespaces in memory are listed.
  pub record IsListed : Type 0 where
    pub found : lookup shard db.shards ≡ some meta
    pub resident : meta.resident ≡ true
    pub listed :
        (name : Text)
        → text_eq (shard_of name) shard ≡ true
        → is_some (lookup name db.namespaces) ≡ true
        → contains name meta.namespaces ≡ true

  abbrev catalogue_after : Map Text ShardMeta
  catalogue_after = insert shard (record meta { resident = false }) db.shards

  abbrev dropped : Database
  dropped = record db { namespaces = without_shard shard db.namespaces; shards = catalogue_after }

  -- For a shard whose file holds what memory holds, dropping it keeps every namespace.
  stored-dropped :
      (disk : Disk)
      → IsListed
      → IsFiled shard db.namespaces (lookup shard disk.files)
      → (name : Text) → stored name dropped disk ≡ stored name db disk
  unfolding catalogued
  stored-dropped disk h file name = elim (Bool-cases (text_eq (shard_of name) shard)) [
    | inl e ↦
        let sh : shard_of name ≡ shard = (text_eq_iff (shard_of name) shard).0 e in
        let p : lookup (shard_of name) catalogue_after ≡ some (record meta { resident = false }) =
          lookup-insert shard (shard_of name) (record meta { resident = false }) db.shards
          ∙ rw ((text_eq_iff shard (shard_of name)).1 (sym sh)) refl in
        let q : found_in name (lookup (shard_of name) disk.files)
            ≡ cells_of (lookup name db.namespaces) =
          ap (λ k. found_in name (lookup k disk.files)) sh ∙ file name e in
        let r : lookup (shard_of name) db.shards ≡ some meta =
          ap (λ k. lookup k db.shards) sh ∙ h.found in
        let w : lookup name (without_shard shard db.namespaces) ≡ none =
          lookup-without_shard shard name db.namespaces ∙ rw e refl in
        elim (Option-cases (lookup name db.namespaces)) [
          | inl n ↦ elim (Bool-cases (contains name meta.namespaces)) [
            | inl k ↦ rw (catalogued, w, p, k, q, n, r, h.resident) refl
            | inr k ↦ rw (catalogued, w, p, k, n, r, h.resident) refl
          ]
          | inr (ns, n) ↦ let k = h.listed name e (rw n refl) in rw (catalogued, w, p, k, q, n) refl
        ]
    | inr e ↦
        let other : text_eq shard (shard_of name) ≡ false =
          ground (arith, text_eq_iff shard (shard_of name), text_eq_iff (shard_of name) shard) in
        let p : lookup (shard_of name) catalogue_after ≡ lookup (shard_of name) db.shards =
          lookup-insert shard (shard_of name) (record meta { resident = false }) db.shards
          ∙ rw other refl in
        let w : lookup name (without_shard shard db.namespaces) ≡ lookup name db.namespaces =
          lookup-without_shard shard name db.namespaces ∙ rw e refl in
        rw (catalogued, w, p) refl
  ]

  stored-release_shard :
      (writable : Text → Bool) (size : ShardData → ℕ) (disk : Disk) (r : EvictReport)
      → IsListed
      → IsFiled shard db.namespaces (lookup shard disk.files)
      → (name : Text)
      → stored name (release_shard writable size is_held shard db disk r).db disk
        ≡ stored name db disk
  unfolding release_shard drop_shard catalogued
  stored-release_shard writable size disk r h file name =
      elim (Bool-cases (any_held is_held shard (keys db.namespaces))) [
        | inl e ↦ rw (release_shard, drop_shard, e) refl
        | inr e ↦
            rw (release_shard, drop_shard, e, update_shard, h.found)
              (stored-dropped disk h file name)
      ]

  -- Writing the file of a shard that is in memory changes nothing of what is held.
  stored-write :
      (disk : Disk) (content : ShardData)
      → IsListed
      → (name : Text)
      → stored name db (record disk { files = insert shard content disk.files })
        ≡ stored name db disk
  unfolding catalogued
  stored-write disk content h name = elim (Bool-cases (text_eq (shard_of name) shard)) [
    | inl e ↦
        let sh : shard_of name ≡ shard = (text_eq_iff (shard_of name) shard).0 e in
        let r : lookup (shard_of name) db.shards ≡ some meta =
          ap (λ k. lookup k db.shards) sh ∙ h.found in
        rw (catalogued, r, h.resident) refl
    | inr e ↦
        let other : text_eq shard (shard_of name) ≡ false =
          ground (arith, text_eq_iff shard (shard_of name), text_eq_iff (shard_of name) shard) in
        let p : lookup (shard_of name) (insert shard content disk.files)
            ≡ lookup (shard_of name) disk.files =
          lookup-insert shard (shard_of name) content disk.files ∙ rw other refl in
        rw p refl
  ]

  -- Taking an idle shard out of memory changes nothing of what the server holds of any namespace, its
  -- instants said to the second, whether the shard is saved first, cannot be saved or is in use; for a
  -- shard that the catalogue has in memory with its namespaces, and whose file holds, to the second, what
  -- memory holds of them unless it is marked dirty.
  pub stored-evict_one :
      (writable : Text → Bool) (size : ShardData → ℕ) (disk : Disk) (r : EvictReport)
      → IsListed
      → (contains shard db.dirty ≡ false → IsFiled shard db.namespaces (lookup shard disk.files))
      → (name : Text)
      → stored name
          (evict_one writable size is_held shard (record { db = db; disk = disk; report = r })).db
          (evict_one writable size is_held shard (record { db = db; disk = disk; report = r })).disk
        ≡ stored name db disk
  unfolding evict_one write_shard
  stored-evict_one writable size disk r h clean name = elim (Bool-cases (contains shard db.dirty)) [
    | inl e ↦ elim (Bool-cases (writable shard)) [
      | inl k ↦
          let content = shard_snapshot shard db.namespaces in
          let disk' = record disk { files = insert shard content disk.files } in
          let put : lookup shard (insert shard content disk.files) ≡ some content =
            lookup-insert shard shard content disk.files
            ∙ rw ((text_eq_iff shard shard).1 refl) refl in
          let file : IsFiled shard db.namespaces (lookup shard (insert shard content disk.files)) =
            λ other k.
              ap (found_in other) put
              ∙ lookup-shard_snapshot shard other db.namespaces
              ∙ rw k refl in
          rw (evict_one, e, write_shard, k)
            (stored-release_shard writable size disk' r h file name
              ∙ stored-write disk content h name)
      | inr k ↦ rw (evict_one, e, write_shard, k) refl
    ]
    | inr e ↦ rw (evict_one, e) (stored-release_shard writable size disk r h (clean e) name)
  ]

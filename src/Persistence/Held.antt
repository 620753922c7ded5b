-- ===== src/Persistence/Held.antt =====
-- What is held of a namespace, in memory or in a file. A file keeps the whole seconds of an instant, so
-- what is held is said to the second.
use sightingdb.Attribute.{Attribute}
use sightingdb.Chrono.{Chrono, DateTime}
use sightingdb.Common.{
  Bool-cases, Option, Option-cases, [], ap, arith, if◌then◌else◌, inl, inr, none, refl, some, true,
  ◌∷◌, ◌≡◌,
}
use sightingdb.Database.{ShardData}
use sightingdb.Map.{Map, lookup}
use sightingdb.Names.{shard_of}
use sightingdb.Namespace.{Namespace}
use sightingdb.Order.{Text, text_eq, text_eq_iff, text_ord}
use sightingdb.Persistence.{filed_cells, shard_snapshot, whole_second}

abbrev pub Cells : Type 0
Cells = Map Text Attribute

-- the attribute, with its instants in whole seconds since the epoch
abbrev pub to_second : ⦃c : Chrono⦄ → Attribute → Attribute
to_second ⦃c⦄ a = record a {
  first_seen = c.timestamp a.first_seen;
  last_seen = c.timestamp a.last_seen;
}

abbrev pub cells_to_second : ⦃c : Chrono⦄ → Cells → Cells
cells_to_second [] = []
cells_to_second ((value, a) ∷ rest) = (value, to_second a) ∷ cells_to_second rest

module _ ⦃c : Chrono⦄ where
  abbrev pub cells_of : Option Namespace → Option Cells
  cells_of none = none
  cells_of (some ns) = some (cells_to_second ns.cells)

  abbrev pub told : Option Cells → Option Cells
  told none = none
  told (some cells) = some (cells_to_second cells)

  abbrev pub found_in : Text → Option ShardData → Option Cells
  found_in name none = none
  found_in name (some held) = told (lookup name held)

  -- The file of the shard, where there is one, holds of each of the shard's namespaces what memory holds.
  abbrev pub IsFiled : Text → Map Text Namespace → Option ShardData → Type 0
  IsFiled shard memory file =
      (name : Text)
      → text_eq (shard_of name) shard ≡ true
      → found_in name file ≡ cells_of (lookup name memory)

  timestamp-whole_second : (t : DateTime) → c.timestamp (whole_second t) ≡ c.timestamp t
  timestamp-whole_second t = elim (Option-cases (c.from_timestamp (c.timestamp t))) [
    | inl n ↦ rw n refl
    | inr (u, n) ↦ rw n (c.timestamp-from_timestamp (c.timestamp t) n)
  ]

  cells_to_second-filed_cells :
      (cells : Cells) → cells_to_second (filed_cells cells) ≡ cells_to_second cells
  cells_to_second-filed_cells [] = refl
  cells_to_second-filed_cells ((value, a) ∷ rest) =
      rw (timestamp-whole_second a.first_seen, timestamp-whole_second a.last_seen)
        (ap (λ (t : Cells). (value, to_second a) ∷ t) (cells_to_second-filed_cells rest))

same_shard :
    (shard i name : Text)
    → text_eq i name ≡ true
    → text_eq (shard_of i) shard ≡ text_eq (shard_of name) shard
same_shard shard i name e = ap (λ (n : Text). text_eq (shard_of n) shard) ((text_eq_iff i name).0 e)

pub lookup-shard_snapshot :
    ⦃c : Chrono⦄ (shard name : Text) (m : Map Text Namespace)
    → told (lookup name (shard_snapshot shard m))
      ≡ (if text_eq (shard_of name) shard then cells_of (lookup name m) else none)
unfolding shard_snapshot lookup
lookup-shard_snapshot shard name [] = ground arith
lookup-shard_snapshot shard name ((i, ns) ∷ m) = elim (Bool-cases (text_eq i name)) [
  | inl e ↦
      let later = lookup-shard_snapshot shard name m in
      let s = same_shard shard i name e in
      elim (Bool-cases (text_eq (shard_of name) shard)) [
        | inl f ↦ rw (s, f, e) (ap (λ t. some t) (cells_to_second-filed_cells ns.cells))
        | inr f ↦ rw (s, f) (rw f at later)
      ]
  | inr e ↦ elim (Bool-cases (text_eq (shard_of i) shard)) [
    | inl f ↦ rw (f, e) (lookup-shard_snapshot shard name m)
    | inr f ↦ rw (f, e) (lookup-shard_snapshot shard name m)
  ]
]

-- ===== src/Writer/Accepting.antt =====
-- What an accepted write leaves.
use sightingdb.Activity.{note_write}
use sightingdb.Chrono.{Chrono, DateTime}
use sightingdb.Common.{
  Bool, Bool-cases, Option, ap, arith, false, if◌then◌else◌, inl, inr, refl, true, unwrap_or, ℕ,
  ◌&&◌, ◌∙◌, ◌≡◌,
}
use sightingdb.Database.{Database, ShardData, WriteOpts}
use sightingdb.Database.Consensus.{tallied, tallied-record_write, tally_of}
use sightingdb.Database.Tally.{is_tallied}
use sightingdb.Map.Sorted.{IsSorted}
use sightingdb.Names.{all_namespace, is_internal}
use sightingdb.Order.{Text, int_ord, text_eq, text_eq_iff, text_ord, ◌==◌}
use sightingdb.Word.{add_u64}
use sightingdb.Writer.{accept, check, write_value}
use sightingdb.Writer.Refusing.{check_iff}

all_is_internal : is_internal all_namespace ≡ true
unfolding is_internal
all_is_internal = refl

not_all : (namespace : Text) → is_internal namespace ≡ false → (namespace == all_namespace) ≡ false
not_all namespace h = elim (Bool-cases (text_eq namespace all_namespace)) [
  | inl e ↦ absurd (
      ground
        (arith, h, ap is_internal ((text_eq_iff namespace all_namespace).0 e), all_is_internal))
  | inr e ↦ e
]

module _ ⦃c : Chrono⦄ (read_shard : Text → Option ShardData) (origin : Option Text)
    (namespace value : Text) (when : Option DateTime) (ttl : Option ℕ) (tags : Text)
    (now : DateTime) (db : Database) where
  abbrev opts : WriteOpts
  opts = record { consensus = true; ttl = ttl }

  -- the server with the write counted
  abbrev ready : Database
  ready = record db { activity = note_write namespace (c.timestamp now) db.activity }

  accepted_lem :
      check db namespace value ≡ inr tt
      → (write_value read_shard origin namespace value when ttl tags now db).0
        ≡ (accept read_shard origin namespace value when ttl tags now db).0
  unfolding write_value
  accepted_lem h = rw (write_value, h) refl

  abbrev is_written : Bool
  is_written = is_tallied namespace value opts db

  -- In a server without a store, a write that the check lets through adds one, in `u64`, to the tally of
  -- its value when the value is new to its namespace, where the tally's counts are in order, and changes
  -- no other tally.
  pub tallied-write_value :
      check db namespace value ≡ inr tt
      → db.has_store ≡ false
      → IsSorted (tally_of value db).counts
      → (v : Text)
      → tallied v (write_value read_shard origin namespace value when ttl tags now db).0
        ≡ (if is_written && (value == v) then add_u64 (tallied v db) 1 else tallied v db)
  unfolding accept
  tallied-write_value h closed s v =
      ap (tallied v) (accepted_lem h)
      ∙ tallied-record_write read_shard (unwrap_or origin db.node) namespace value
          (unwrap_or when now) opts tags now ready closed
          (not_all namespace ((check_iff db namespace value).0 h).1) s v

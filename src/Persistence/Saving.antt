-- ===== src/Persistence/Saving.antt =====
-- What a save writes.
use sightingdb.Chrono.{Chrono}
use sightingdb.Common.{
  Bool, Bool-cases, List, [], ap, arith, false, inl, inr, is_some, none, not, some, true, ℕ, ◌&&◌,
  ◌+◌, ◌∙◌, ◌∷◌, ◌≡◌,
}
use sightingdb.Database.{Database, Names, ShardData}
use sightingdb.Database.Dirty.{contains-insert_self}
use sightingdb.Map.{contains, insert, lookup}
use sightingdb.Map.Laws.{lookup-insert}
use sightingdb.Order.{Text, text_eq, text_eq_iff, text_ord}
use sightingdb.Persistence.{Disk, SaveReport, Saved, shard_snapshot, write_each, write_shard}
use sightingdb.Text.{contains_text}

both : {a b : Bool} → a ≡ true → b ≡ false → a ≡ b → ⊥
both h k e = ground (arith, h, k, e)

no_report : is_some {A = SaveReport} none ≡ true → ⊥
no_report h = ground (arith, h)

module _ ⦃c : Chrono⦄ (writable : Text → Bool) (size : ShardData → ℕ) (all : Bool) (dirty : Names)
    (db : Database) (shard : Text) where
  abbrev pub content : ShardData
  content = shard_snapshot shard db.namespaces

  abbrev pub loop : List Text → Disk → SaveReport → Saved
  loop shards disk r = write_each writable size all dirty shards db disk r

  now_kept :
      (other : Text) (disk : Disk)
      → text_eq other shard ≡ true
      → lookup shard (insert other (shard_snapshot other db.namespaces) disk.files) ≡ some content
  now_kept other disk e =
      lookup-insert other shard (shard_snapshot other db.namespaces) disk.files
      ∙ rw e (ap (λ s. some (shard_snapshot s db.namespaces)) ((text_eq_iff other shard).0 e))

  -- the file is the same after another shard is written, and again when the shard itself is
  kept_by_write :
      (other : Text) (disk : Disk)
      → lookup shard disk.files ≡ some content
      → lookup shard (insert other (shard_snapshot other db.namespaces) disk.files) ≡ some content
  kept_by_write other disk h = elim (Bool-cases (text_eq other shard)) [
    | inl e ↦ now_kept other disk e
    | inr e ↦ lookup-insert other shard (shard_snapshot other db.namespaces) disk.files ∙ rw e h
  ]

  loop_keeps :
      (shards : List Text) (disk : Disk) (r : SaveReport)
      → lookup shard disk.files ≡ some content
      → lookup shard (loop shards disk r).disk.files ≡ some content
  unfolding write_each write_shard
  loop_keeps [] disk r h = h
  loop_keeps (other ∷ rest) disk r h =
      let skipped = loop_keeps rest disk (record r { shards_skipped = r.shards_skipped + 1 }) h in
      let written =
        loop_keeps rest
          (record disk { files = insert other (shard_snapshot other db.namespaces) disk.files })
          (record r {
            shards_written = r.shards_written + 1;
            bytes = r.bytes + size (shard_snapshot other db.namespaces);
          })
          (kept_by_write other disk h) in
      elim (Bool-cases (not all && not (contains other dirty))) [
        | inl e ↦ rw (write_each, e) skipped
        | inr e ↦ elim (Bool-cases (writable other)) [
          | inl k ↦ rw (write_each, e, write_shard, k) written
          | inr k ↦ rw (write_each, e, write_shard, k) h
        ]
      ]

  pub loop_writes :
      (shards : List Text) (disk : Disk) (r : SaveReport)
      → contains_text shard shards ≡ true
      → (not all && not (contains shard dirty)) ≡ false
      → is_some (loop shards disk r).report ≡ true
      → lookup shard (loop shards disk r).disk.files ≡ some content
  unfolding write_each write_shard contains_text
  loop_writes [] disk r m wanted done = absurd (ground arith)
  loop_writes (other ∷ rest) disk r m wanted done =
      let disk' = record disk {
        files = insert other (shard_snapshot other db.namespaces) disk.files;
      } in
      let r' = record r {
        shards_written = r.shards_written + 1;
        bytes = r.bytes + size (shard_snapshot other db.namespaces);
      } in
      let skipped = loop_writes rest disk (record r { shards_skipped = r.shards_skipped + 1 }) in
      let written = loop_writes rest disk' r' in
      let kept = loop_keeps rest disk' r' in
      elim (Bool-cases (not all && not (contains other dirty))) [
        | inl e ↦ elim (Bool-cases (text_eq other shard)) [
          | inl f ↦ absurd (
              both e wanted
                (ap (λ s. not all && not (contains s dirty)) ((text_eq_iff other shard).0 f)))
          | inr f ↦ rw (write_each, e) (skipped (rw f at m) wanted (rw (write_each, e) at done))
        ]
        | inr e ↦ elim (Bool-cases (writable other)) [
          | inl k ↦ elim (Bool-cases (text_eq other shard)) [
            | inl f ↦ rw (write_each, e, write_shard, k) (kept (now_kept other disk f))
            | inr f ↦
                rw (write_each, e, write_shard, k)
                  (written (rw f at m) wanted (rw (write_each, e, write_shard, k) at done))
          ]
          | inr k ↦ absurd (no_report (rw (write_each, e, write_shard, k) at done))
        ]
      ]

  -- A loop that fails leaves a shard that could not be written marked dirty, for the next save.
  pub loop_fails :
      (shards : List Text) (disk : Disk) (r : SaveReport)
      → is_some (loop shards disk r).report ≡ false
      → (failed : Text) × (writable failed ≡ false)
        × (contains failed (loop shards disk r).db.dirty ≡ true)
  unfolding write_each write_shard
  loop_fails [] disk r failing = absurd (ground arith)
  loop_fails (other ∷ rest) disk r failing =
      let skipped = loop_fails rest disk (record r { shards_skipped = r.shards_skipped + 1 }) in
      let written =
        loop_fails rest
          (record disk { files = insert other (shard_snapshot other db.namespaces) disk.files })
          (record r {
            shards_written = r.shards_written + 1;
            bytes = r.bytes + size (shard_snapshot other db.namespaces);
          }) in
      elim (Bool-cases (not all && not (contains other dirty))) [
        | inl e ↦ rw (write_each, e) (skipped (rw (write_each, e) at failing))
        | inr e ↦ elim (Bool-cases (writable other)) [
          | inl k ↦
              rw (write_each, e, write_shard, k)
                (written (rw (write_each, e, write_shard, k) at failing))
          | inr k ↦
              (other, k, rw (write_each, e, write_shard, k) (contains-insert_self other db.dirty))
        ]
      ]

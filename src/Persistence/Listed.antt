-- ===== src/Persistence/Listed.antt =====
-- A save, from the moment that it lists the shards in memory.
use sightingdb.Activity.{take_counts}
use sightingdb.Chrono.{Chrono}
use sightingdb.Common.{
  Bool, Bool-cases, List, Option-cases, [], ap, arith, false, if◌then◌else◌, inl, inr, is_some,
  none, not, refl, some, true, ℕ, ◌&&◌, ◌||◌, ◌∙◌, ◌∷◌, ◌≡◌,
}
use sightingdb.Database.{Database, Names, ShardData, take_dirty}
use sightingdb.Latest.{take_snapshot}
use sightingdb.Map.{Map, contains, keys, lookup, remove}
use sightingdb.Map.Laws.{lookup-remove}
use sightingdb.Names.{shard_of}
use sightingdb.Order.{Text, text_eq, text_eq_iff, text_ord}
use sightingdb.Persistence.{
  Disk, SaveReport, Saved, activity_file, latest_file, remove_stale, save_activity, save_latest,
  save_listed, shard_snapshot, write_each,
}
use sightingdb.Persistence.Held.{cells_of, found_in, lookup-shard_snapshot}
use sightingdb.Persistence.Saving.{loop_writes}
use sightingdb.Text.{contains_text}

pub contains_text-keys :
    {V : Type 0} (k : Text) (m : Map Text V) → contains_text k (keys m) ≡ contains k m
unfolding contains_text contains
contains_text-keys k [] = refl
contains_text-keys k ((i, v) ∷ m) = ground (arith, contains_text-keys k m)

differs :
    (present : Names) (other shard : Text)
    → contains other present ≡ false
    → contains shard present ≡ true
    → text_eq other shard ≡ false
differs present other shard e h = elim (Bool-cases (text_eq other shard)) [
  | inl f ↦
      let same : contains other present ≡ contains shard present =
        ap (λ s. contains s present) ((text_eq_iff other shard).0 f) in
      absurd (ground (arith, same, e, h))
  | inr f ↦ f
]

-- A shard without a file, or whose file goes, has none in the end.
none-remove_stale :
    (removable : Text → Bool) (rest : List Text) (present : Names) (files : Map Text ShardData)
    (shard : Text)
    → lookup shard files ≡ none
    → lookup shard (remove_stale removable rest present files) ≡ none
unfolding remove_stale
none-remove_stale removable [] present files shard h = h
none-remove_stale removable (other ∷ rest) present files shard h =
    let kept = none-remove_stale removable rest present files shard h in
    let gone = none-remove_stale removable rest present (remove other files) shard in
    elim (Bool-cases (contains other present || not (removable other))) [
      | inl e ↦ rw (remove_stale, e) kept
      | inr e ↦ rw (remove_stale, e) (gone (lookup-remove other shard files ∙ rw h (ground arith)))
    ]

stale-remove_stale :
    (removable : Text → Bool) (rest : List Text) (present : Names) (files : Map Text ShardData)
    (shard : Text)
    → removable shard ≡ true
    → contains shard present ≡ false
    → contains_text shard rest ≡ true
    → lookup shard (remove_stale removable rest present files) ≡ none
unfolding remove_stale contains_text
stale-remove_stale removable [] present files shard r h m = absurd (ground arith)
stale-remove_stale removable (other ∷ rest) present files shard r h m =
    let onward = stale-remove_stale removable rest present in
    elim (Bool-cases (text_eq other shard)) [
      | inl f ↦
          let same = (text_eq_iff other shard).0 f in
          let e : (contains other present || not (removable other)) ≡ false =
            ap (λ s. contains s present || not (removable s)) same ∙ rw (h, r) refl in
          rw (remove_stale, e)
            (none-remove_stale removable rest present (remove other files) shard
              (lookup-remove other shard files ∙ rw f refl))
      | inr f ↦ elim (Bool-cases (contains other present || not (removable other))) [
        | inl e ↦ rw (remove_stale, e) (onward files shard r h (rw f at m))
        | inr e ↦ rw (remove_stale, e) (onward (remove other files) shard r h (rw f at m))
      ]
    ]

lookup-remove_stale :
    (removable : Text → Bool) (rest : List Text) (present : Names) (files : Map Text ShardData)
    (shard : Text)
    → contains shard present ≡ true
    → lookup shard (remove_stale removable rest present files) ≡ lookup shard files
unfolding remove_stale
lookup-remove_stale removable [] present files shard h = refl
lookup-remove_stale removable (other ∷ rest) present files shard h =
    let kept = lookup-remove_stale removable rest present files shard h in
    let gone = lookup-remove_stale removable rest present (remove other files) shard h in
    elim (Bool-cases (contains other present || not (removable other))) [
      | inl e ↦ rw (remove_stale, e) kept
      | inr e ↦
          rw (remove_stale, e)
            (gone
              ∙ lookup-remove other shard files
              ∙ rw (differs present other shard (ground (arith, e)) h) refl)
    ]

-- What a later stage of a save leaves of an earlier one: the shards' files and what is dirty, and that
-- the save has not failed where it has not failed now.
record Passes (before after : Saved) : Type 0 where
  files : after.disk.files ≡ before.disk.files
  dirty : after.db.dirty ≡ before.db.dirty
  ended : is_some after.report ≡ true → is_some before.report ≡ true

module _ ⦃c : Chrono⦄ (writable : Text → Bool) (size : ShardData → ℕ) (removable : Text → Bool)
    (all : Bool) where
  save_activity_lem : (s : Saved) → Passes s (save_activity writable size all s)
  unfolding save_activity
  save_activity_lem s = elim (Option-cases s.report) [
    | inl n ↦
        rw (save_activity, n)
          (record { files = refl; dirty = refl; ended = λ h. absurd (ground (arith, h, n)) })
    | inr (r, n) ↦ elim (Option-cases (take_counts all s.db.activity).1) [
      | inl t ↦ rw (save_activity, n, t) (record { files = refl; dirty = refl; ended = λ h. refl })
      | inr (d, t) ↦ elim (Bool-cases (writable activity_file)) [
        | inl k ↦
            rw (save_activity, n, t, k) (record { files = refl; dirty = refl; ended = λ h. refl })
        | inr k ↦
            rw (save_activity, n, t, k)
              (record { files = refl; dirty = refl; ended = λ h. absurd (ground (arith, h)) })
      ]
    ]
  ]

  save_latest_lem : (s : Saved) → Passes s (save_latest writable size all s)
  unfolding save_latest
  save_latest_lem s = elim (Option-cases s.report) [
    | inl n ↦
        rw (save_latest, n)
          (record { files = refl; dirty = refl; ended = λ h. absurd (ground (arith, h, n)) })
    | inr (r, n) ↦ elim (Option-cases (take_snapshot all s.db.latest).1) [
      | inl t ↦ rw (save_latest, n, t) (record { files = refl; dirty = refl; ended = λ h. refl })
      | inr (d, t) ↦ elim (Bool-cases (writable latest_file)) [
        | inl k ↦
            rw (save_latest, n, t, k) (record { files = refl; dirty = refl; ended = λ h. refl })
        | inr k ↦
            rw (save_latest, n, t, k)
              (record { files = refl; dirty = refl; ended = λ h. absurd (ground (arith, h)) })
      ]
    ]
  ]

  module _ (present : Names) (db : Database) (disk : Disk) where
    abbrev looped : Saved
    looped =
        write_each writable size all db.dirty (keys present) (take_dirty db).0 disk
          (record { shards_written = 0; shards_skipped = 0; bytes = 0 })

    abbrev staged : Saved
    staged = save_latest writable size all (save_activity writable size all looped)

    Passes-staged : Passes looped staged
    Passes-staged =
        let a = save_activity_lem looped in
        let b = save_latest_lem (save_activity writable size all looped) in
        record {
          files = b.files ∙ a.files;
          dirty = b.dirty ∙ a.dirty;
          ended = λ h. a.ended (b.ended h);
        }

    abbrev saved : Saved
    saved = save_listed writable size removable all present db disk

    saved_lem :
        is_some saved.report ≡ true
        → (is_some staged.report ≡ true)
          × (saved.disk.files ≡ remove_stale removable (keys db.dirty) present staged.disk.files)
          × (saved.db.dirty ≡ staged.db.dirty)
    unfolding save_listed take_dirty
    saved_lem h = elim (Option-cases staged.report) [
      | inl n ↦
          let w : is_some saved.report ≡ is_some {A = SaveReport} none =
            rw (save_listed, n) (ap (λ x. is_some x) n) in
          absurd (ground (arith, w, h))
      | inr (r, n) ↦ rw (save_listed, n) (refl, refl, refl)
    ]

    file_written :
        (shard : Text)
        → contains shard present ≡ true
        → (not all && not (contains shard db.dirty)) ≡ false
        → is_some saved.report ≡ true
        → lookup shard saved.disk.files ≡ some (shard_snapshot shard db.namespaces)
    unfolding take_dirty
    file_written shard listed wanted h =
        let (e, f, d) = saved_lem h in
        ap (lookup shard) f
        ∙ lookup-remove_stale removable (keys db.dirty) present staged.disk.files shard listed
        ∙ ap (lookup shard) Passes-staged.files
        ∙ loop_writes writable size all db.dirty (take_dirty db).0 shard (keys present) disk
            (record { shards_written = 0; shards_skipped = 0; bytes = 0 })
            (contains_text-keys shard present ∙ listed) wanted (Passes-staged.ended e)

    -- A save that does not fail leaves, for each shard listed in memory that is dirty, or for each one when
    -- all are asked for, a file that holds, with instants to the second, what memory holds of each namespace
    -- of the shard, and no other namespace.
    pub lookup-save_listed :
        (shard name : Text)
        → contains shard present ≡ true
        → (not all && not (contains shard db.dirty)) ≡ false
        → is_some saved.report ≡ true
        → found_in name (lookup shard saved.disk.files)
          ≡ (if text_eq (shard_of name) shard then cells_of (lookup name db.namespaces) else none)
    lookup-save_listed shard name listed wanted h =
        ap (found_in name) (file_written shard listed wanted h)
        ∙ lookup-shard_snapshot shard name db.namespaces

    -- A shard that is dirty when a save takes the marks, but was not in memory when the save listed the
    -- shards, has no file once that save ends without an error, if its file can be removed.
    pub unlisted_lem :
        (shard : Text)
        → removable shard ≡ true
        → contains shard present ≡ false
        → contains shard db.dirty ≡ true
        → is_some saved.report ≡ true
        → lookup shard saved.disk.files ≡ none
    unlisted_lem shard gone unlisted marked h =
        let (e, f, d) = saved_lem h in
        ap (lookup shard) f
        ∙ stale-remove_stale removable (keys db.dirty) present staged.disk.files shard gone unlisted
            (contains_text-keys shard db.dirty ∙ marked)

-- ===== src/Attribute/Merging/Idempotence.antt =====
-- A merge applied twice is a merge applied once.
use sightingdb.Attribute.{Attribute, Buckets, Merge, Merged, count}
use sightingdb.Attribute.Merging.{
  Progress, is_unseen, merge, merge_changes, merge_counts, merge_stats, merge_tags, merge_ttl,
  merged,
}
use sightingdb.Attribute.Merging.Counts.{
  ignored_self-merge_counts, merge_counts-HoldsCounts, merge_counts_held, own_entries,
}
use sightingdb.Attribute.Merging.Parts.{
  merge_first_idem, merge_last_idem, merge_tags_idem, merge_ttl_idem,
}
use sightingdb.Attribute.Merging.Stats.{
  merge_stats-HoldsStats, merge_stats-IsSorted, merge_stats_held,
}
use sightingdb.Chrono.{Chrono}
use sightingdb.Common.{Bool, arith, eqb, false, refl, true, ℕ, ◌+◌, ◌∙◌, ◌≡◌}
use sightingdb.Map.{Map}
use sightingdb.Map.Sorted.{IsSorted}
use sightingdb.Order.{Text, text_eq, text_eq_iff, text_ord}

module _ (mine : Text) (incoming : Merge) (a : Attribute) where
  abbrev first_pass : Progress
  first_pass =
      merge_counts mine incoming.counts
        (record { counts = a.counts; changed = false; ignored_self = 0 })

  abbrev stats_pass : Map Text Buckets
  stats_pass = (merge_stats mine incoming.stats (a.stats, false)).0

  counts_again :
      merge_counts mine incoming.counts
        (record { counts = first_pass.counts; changed = false; ignored_self = 0 })
      ≡ record {
        counts = first_pass.counts;
        changed = false;
        ignored_self = 0 + own_entries mine incoming.counts;
      }
  counts_again =
      merge_counts_held mine incoming.counts
        (record { counts = first_pass.counts; changed = false; ignored_self = 0 })
        (merge_counts-HoldsCounts mine incoming.counts
          (record { counts = a.counts; changed = false; ignored_self = 0 }))

  stats_again :
      IsSorted a.stats → merge_stats mine incoming.stats (stats_pass, false) ≡ (stats_pass, false)
  stats_again s =
      merge_stats_held mine incoming.stats stats_pass false
        (merge_stats-IsSorted mine incoming.stats (a.stats, false) s)
        (merge_stats-HoldsStats mine incoming.stats (a.stats, false))

abbrev pub quiet : Text → Merge → Attribute → Merged
quiet mine incoming a = record {
  changed = false;
  ignored_self = own_entries mine incoming.counts;
  count = count a;
}

seen_again : (unseen again : Bool) → again ≡ false → again ≡ true → unseen ≡ true
seen_again unseen again e f = cc

text_same : (s : Text) → text_eq s s ≡ true
text_same s = (text_eq_iff s s).1 refl

nat_same : (n : ℕ) → eqb n n ≡ true
nat_same n = ground arith

module _ ⦃c : Chrono⦄ (mine : Text) (incoming : Merge) (a : Attribute) where
  -- Merging a peer's copy again leaves the attribute as it is, field by field, where the copies'
  -- servers stand in order and the merged value does not look like one that was never seen.
  pub merge_idem :
      IsSorted a.stats
      → is_unseen (merge mine incoming a) ≡ false
      → merge mine incoming (merge mine incoming a) ≡ merge mine incoming a
  unfolding merge
  merge_idem s seen =
      let again = is_unseen (merge mine incoming a) in
      rw (
        counts_again mine incoming a,
        stats_again mine incoming a s,
        merge_first_idem (is_unseen a) again (c.from_timestamp incoming.first_seen) a.first_seen
            (seen_again (is_unseen a) again seen),
        merge_last_idem (is_unseen a) again (c.from_timestamp incoming.last_seen) a.last_seen
            (seen_again (is_unseen a) again seen),
        merge_tags_idem incoming.tags incoming.tags_at a.tags a.tags_at,
        merge_ttl_idem a.ttl incoming.ttl,
      )

  changes_again :
      IsSorted a.stats
      → is_unseen (merge mine incoming a) ≡ false
      → merge_changes mine incoming (merge mine incoming a) ≡ false
  unfolding merge merge_changes
  changes_again s seen =
      let again = is_unseen (merge mine incoming a) in
      rw (
        counts_again mine incoming a,
        stats_again mine incoming a s,
        merge_first_idem (is_unseen a) again (c.from_timestamp incoming.first_seen) a.first_seen
            (seen_again (is_unseen a) again seen),
        merge_last_idem (is_unseen a) again (c.from_timestamp incoming.last_seen) a.last_seen
            (seen_again (is_unseen a) again seen),
        merge_tags_idem incoming.tags incoming.tags_at a.tags a.tags_at,
        text_same (merge_tags incoming.tags incoming.tags_at a.tags a.tags_at).0,
        merge_ttl_idem a.ttl incoming.ttl,
        nat_same (merge_ttl a.ttl incoming.ttl),
      )

  ignored_again :
      (merge_counts mine incoming.counts (record {
        counts = (merge mine incoming a).counts;
        changed = false;
        ignored_self = 0;
      })).ignored_self
      ≡ own_entries mine incoming.counts
  ignored_again =
      ignored_self-merge_counts mine incoming.counts
        (record { counts = (merge mine incoming a).counts; changed = false; ignored_self = 0 })
      ∙ omega arith

  -- Under the same conditions the second merge reports that nothing changed, as many ignored entries
  -- as the peer's copy has for the merging server, and the count.
  pub merged_idem :
      IsSorted a.stats
      → is_unseen (merge mine incoming a) ≡ false
      → merged mine incoming (merge mine incoming a) ≡ quiet mine incoming (merge mine incoming a)
  unfolding merged
  merged_idem s seen = rw (changes_again s seen, ignored_again, merge_idem s seen)

-- ===== src/Attribute/Merging/Convergence.antt =====
-- Copies of a value that met the same peers agree, in whatever order they met them.
use sightingdb.Attribute.{Attribute, Merge}
use sightingdb.Attribute.Merging.{merge, merge_ttl}
use sightingdb.Attribute.Merging.Counters.{counter}
use sightingdb.Attribute.Merging.Loops.{counter-merge_counts}
use sightingdb.Attribute.Merging.Parts.{
  contains_text-merge_tags, merge_ttl_assoc, merge_ttl_comm, tags_at-merge_tags,
}
use sightingdb.Attribute.Merging.Stats.{buckets_of, counter-merge_stats}
use sightingdb.Chrono.{Chrono}
use sightingdb.Common.{All, Bool, ap, arith, if◌then◌else◌, max, refl, sym, ℕ, ◌||◌, ◌∙◌, ◌≡◌}
use sightingdb.Int.{ltb_ℤ, max_ℤ, ℤ}
use sightingdb.Map.Sorted.{IsSorted}
use sightingdb.Order.{Text, int_ord, text_ord, ◌==◌}
use sightingdb.TagText.{split_tags}
use sightingdb.Text.{contains_text}

-- What two copies report alike: every counter, every hour, the tags, their time and the time to live.
pub record SameReport (a b : Attribute) : Type 0 where
  pub counts : (node : Text) → counter node a.counts ≡ counter node b.counts
  pub hours :
      (node : Text) (hour : ℤ)
      → counter hour (buckets_of node a.stats) ≡ counter hour (buckets_of node b.stats)
  pub tags : (x : Text) → contains_text x (split_tags a.tags) ≡ contains_text x (split_tags b.tags)
  pub tags_at : a.tags_at ≡ b.tags_at
  pub ttl : a.ttl ≡ b.ttl

-- The maps of a peer's copy are in order, as `BTreeMap`s are.
pub record IsOrdered (m : Merge) : Type 0 where
  pub counts : IsSorted m.counts
  pub stats : IsSorted m.stats
  pub buckets : All (λ e. IsSorted e.1) m.stats

max_swap : (a b c : ℕ) → max (max a b) c ≡ max (max a c) b
max_swap a b c = omega arith

max_ℤ_swap : (a b c : ℤ) → max_ℤ (max_ℤ a b) c ≡ max_ℤ (max_ℤ a c) b
max_ℤ_swap a b c = ground arith

module _ ⦃c : Chrono⦄ (mine : Text) (incoming : Merge) (a : Attribute) where
  -- From a peer's counts that are in order, each server's count becomes the greater of the two
  -- copies', save the merging server's own, which stays as it is.
  pub counter-merge :
      IsSorted incoming.counts
      → (node : Text)
      → counter node (merge mine incoming a).counts ≡ (
          if node == mine
          then counter node a.counts
          else max (counter node a.counts) (counter node incoming.counts))
  unfolding merge
  counter-merge s node = counter-merge_counts mine node incoming.counts _ s

  -- From a peer's copy whose maps are in order, each server's sightings in an hour become the greater
  -- of the two copies', save the merging server's own, which stay as they are.
  pub hour-merge :
      IsOrdered incoming
      → (node : Text) (hour : ℤ)
      → counter hour (buckets_of node (merge mine incoming a).stats) ≡ (
          if node == mine
          then counter hour (buckets_of node a.stats)
          else max
              (counter hour (buckets_of node a.stats))
              (counter hour (buckets_of node incoming.stats)))
  unfolding merge
  hour-merge s node hour = counter-merge_stats mine node hour incoming.stats _ s.stats s.buckets

  -- A tag is held after a merge exactly when the copy whose tags were replaced later holds it, or,
  -- where neither was later, when one of the two does.
  pub tag-merge :
      (x : Text)
      → contains_text x (split_tags (merge mine incoming a).tags) ≡ (
          if ltb_ℤ a.tags_at incoming.tags_at
          then contains_text x (split_tags incoming.tags)
          else if ltb_ℤ incoming.tags_at a.tags_at
          then contains_text x (split_tags a.tags)
          else contains_text x (split_tags incoming.tags) || contains_text x (split_tags a.tags))
  unfolding merge
  tag-merge x = contains_text-merge_tags x incoming.tags incoming.tags_at a.tags a.tags_at

  tags_at-merge : (merge mine incoming a).tags_at ≡ max_ℤ a.tags_at incoming.tags_at
  unfolding merge
  tags_at-merge = tags_at-merge_tags incoming.tags incoming.tags_at a.tags a.tags_at

  ttl-merge : (merge mine incoming a).ttl ≡ merge_ttl a.ttl incoming.ttl
  unfolding merge
  ttl-merge = refl

-- The rule for tags does not care about the order: the later replacement, or the union of those
-- at the same time.
latest : ℤ → Bool → ℤ → Bool → Bool
latest at held at' held' =
    if ltb_ℤ at at' then held' else if ltb_ℤ at' at then held else held' || held

latest_swap :
    (s t u : ℤ) (a b c : Bool)
    → latest (max_ℤ s t) (latest s a t b) u c ≡ latest (max_ℤ s u) (latest s a u c) t b
unfolding latest
latest_swap s t u a b c = ground arith

module _ ⦃c : Chrono⦄ (mine : Text) (i j : Merge) (a : Attribute) where
  -- Two peers' copies whose maps are in order, merged in either order, give values that report the
  -- same: every server's count and hours, the tags as a set, their time and the time to live.
  pub merge_comm :
      IsOrdered i
      → IsOrdered j
      → SameReport (merge mine j (merge mine i a)) (merge mine i (merge mine j a))
  unfolding latest
  merge_comm si sj = record {
    counts = λ node. ground (
      arith,
      counter-merge mine j (merge mine i a) sj.counts node,
      counter-merge mine i a si.counts node,
      counter-merge mine i (merge mine j a) si.counts node,
      counter-merge mine j a sj.counts node,
    );
    hours = λ node hour. ground (
      arith,
      hour-merge mine j (merge mine i a) sj node hour,
      hour-merge mine i a si node hour,
      hour-merge mine i (merge mine j a) si node hour,
      hour-merge mine j a sj node hour,
    );
    tags = λ x.
        rw
          (
            tag-merge mine j (merge mine i a) x,
            tag-merge mine i a x,
            tags_at-merge mine i a,
            tag-merge mine i (merge mine j a) x,
            tag-merge mine j a x,
            tags_at-merge mine j a,
          )
          (latest_swap a.tags_at i.tags_at j.tags_at (contains_text x (split_tags a.tags))
            (contains_text x (split_tags i.tags)) (contains_text x (split_tags j.tags)));
    tags_at =
        rw
          (
            tags_at-merge mine j (merge mine i a),
            tags_at-merge mine i a,
            tags_at-merge mine i (merge mine j a),
            tags_at-merge mine j a,
          )
          (max_ℤ_swap a.tags_at i.tags_at j.tags_at);
    ttl =
        rw
          (
            ttl-merge mine j (merge mine i a),
            ttl-merge mine i a,
            ttl-merge mine i (merge mine j a),
            ttl-merge mine j a,
          )
          (merge_ttl_assoc a.ttl i.ttl j.ttl
            ∙ ap (merge_ttl a.ttl) (merge_ttl_comm i.ttl j.ttl)
            ∙ sym (merge_ttl_assoc a.ttl j.ttl i.ttl));
  }

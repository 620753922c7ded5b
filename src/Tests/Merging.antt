-- ===== src/Tests/Merging.antt =====
-- What a peer's copy does to this server's: src/attribute.rs.
use sightingdb.Attribute.Merging.{is_unseen, merge}
use sightingdb.Attribute.Merging.Convergence.{
  SameReport, counter-merge, hour-merge, merge_comm, tag-merge,
}
use sightingdb.Attribute.Merging.Counters.{counter}
use sightingdb.Attribute.Merging.Idempotence.{merge_idem}
use sightingdb.Attribute.Merging.Stats.{buckets_of}
use sightingdb.Common.{refl, true, ◌≡◌}
use sightingdb.Int.{pos}
use sightingdb.Map.{lookup}
use sightingdb.Order.{int_ord, text_ord}
use sightingdb.TagText.{split_tags}
use sightingdb.Tests.Clock.{clock}
use sightingdb.Tests.Peers.{alpha, beta, beta_ordered, from_beta, from_gamma, gamma_ordered, ours}
use sightingdb.Text.{codes, contains_text}

merge_comm_example :
    SameReport
      (merge alpha from_gamma (merge alpha from_beta ours))
      (merge alpha from_beta (merge alpha from_gamma ours))
merge_comm_example = merge_comm alpha from_beta from_gamma ours beta_ordered gamma_ordered

merge_idem_example : merge alpha from_beta (merge alpha from_beta ours) ≡ merge alpha from_beta ours
unfolding is_unseen merge
merge_idem_example = merge_idem alpha from_beta ours (tt, tt) refl

counter-merge_example : counter beta (merge alpha from_beta ours).counts ≡ 3
unfolding lookup
counter-merge_example = counter-merge alpha from_beta ours beta_ordered.counts beta

hour-merge_example : counter (pos 3600) (buckets_of beta (merge alpha from_beta ours).stats) ≡ 3
unfolding lookup
hour-merge_example = hour-merge alpha from_beta ours beta_ordered beta (pos 3600)

tag-merge_example :
    contains_text (codes "tlp:green") (split_tags (merge alpha from_gamma ours).tags) ≡ true
unfolding contains_text split_tags
tag-merge_example = tag-merge alpha from_gamma ours (codes "tlp:green")

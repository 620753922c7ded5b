-- ===== src/Tests/Peers.antt =====
-- Copies of a value on this server and on its peers: src/attribute.rs.
use sightingdb.Attribute.{Attribute, Merge}
use sightingdb.Attribute.Merging.Convergence.{IsOrdered}
use sightingdb.Common.{[], refl, ◌∷◌}
use sightingdb.Int.{pos}
use sightingdb.Map.Sorted.{IsSorted}
use sightingdb.Order.{Text, int_ord, text_ord}
use sightingdb.Text.{codes}

abbrev pub alpha : Text
alpha = codes "alpha"

abbrev pub beta : Text
beta = codes "beta"

abbrev pub gamma : Text
gamma = codes "gamma"

-- seen twice here and once by beta, in the first two hours
abbrev pub ours : Attribute
ours = record {
  value = codes "10.0.0.1";
  first_seen = pos 100;
  last_seen = pos 4000;
  counts = (alpha, 2) ∷ (beta, 1) ∷ [];
  tags = codes "tlp:amber";
  tags_at = pos 0;
  ttl = 60;
  stats = (alpha, (pos 0, 1) ∷ (pos 3600, 1) ∷ []) ∷ [];
  legacy_count = 0;
  legacy_stats = [];
}

-- beta offers a stale count for this server, more of its own, and gamma's
abbrev pub from_beta : Merge
from_beta = record {
  counts = (alpha, 9) ∷ (beta, 3) ∷ (gamma, 2) ∷ [];
  stats = (beta, (pos 3600, 3) ∷ []) ∷ (gamma, (pos 0, 2) ∷ []) ∷ [];
  first_seen = pos 50;
  last_seen = pos 3700;
  tags = codes "tlp:amber, stix-type:ipv4-addr";
  tags_at = pos 0;
  ttl = 30;
}

-- gamma has replaced the tags since
abbrev pub from_gamma : Merge
from_gamma = record {
  counts = (gamma, 5) ∷ [];
  stats = (gamma, (pos 0, 1) ∷ (pos 7200, 4) ∷ []) ∷ [];
  first_seen = pos 60;
  last_seen = pos 7300;
  tags = codes "tlp:green";
  tags_at = pos 1000;
  ttl = 0;
}

abbrev pub two_sorted : IsSorted ours.counts
two_sorted = ((refl, tt), (tt, tt))

abbrev pub beta_ordered : IsOrdered from_beta
beta_ordered = record {
  counts = ((refl, (refl, tt)), ((refl, tt), (tt, tt)));
  stats = ((refl, tt), (tt, tt));
  buckets = ((tt, tt), ((tt, tt), tt));
}

abbrev pub gamma_ordered : IsOrdered from_gamma
gamma_ordered = record {
  counts = (tt, tt);
  stats = (tt, tt);
  buckets = (((refl, tt), (tt, tt)), tt);
}

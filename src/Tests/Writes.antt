-- ===== src/Tests/Writes.antt =====
-- The values of a namespace and the record of latest writes: src/db.rs, src/latest.rs.
use sightingdb.Attribute.{as_merge}
use sightingdb.Common.{
  All, [], arith, false, inl, inr, length, none, refl, some, true, ◌∷◌, ◌≡◌, ◌≤◌,
}
use sightingdb.Int.{pos, ℤ}
use sightingdb.Latest.{Entry, Inner, key_of, push, recent}
use sightingdb.Latest.Bound.{IsShown, recent_bounds}
use sightingdb.Latest.Index.{IsIndexed}
use sightingdb.Latest.Trimming.{push-IsIndexed}
use sightingdb.Map.{lookup}
use sightingdb.Namespace.{
  Namespace, count_value, empty_namespace, merge_payload, record_value, remove_expired,
}
use sightingdb.Namespace.Sweeping.{IsFlagged, count_value-remove_expired, record_value-IsFlagged}
use sightingdb.Order.{Text, nat_ord, text_ord}
use sightingdb.Tests.Clock.{clock}
use sightingdb.Tests.Peers.{alpha, ours}
use sightingdb.Text.{codes, is_slash, trim_matches}

abbrev feed : Namespace
feed = record { cells = (codes "10.0.0.1", ours) ∷ []; has_ttl = true }

record_value-IsFlagged_example :
    IsFlagged (record_value alpha (codes "x") (pos 7) (some 5) 0 [] empty_namespace).namespace
record_value-IsFlagged_example =
    record_value-IsFlagged alpha (codes "x") (pos 7) (some 5) 0 [] empty_namespace (inr tt)

count_value-remove_expired_example :
    (count_value (codes "10.0.0.1") (pos 4060) (remove_expired (pos 4060) feed).0 ≡ 3)
    × (merge_payload (codes "10.0.0.1") (pos 4060) (remove_expired (pos 4060) feed).0
        ≡ some (as_merge ours))
unfolding count_value merge_payload
count_value-remove_expired_example =
    count_value-remove_expired (codes "10.0.0.1") (pos 4060) feed (inl refl) (tt, tt)

abbrev entry : Text → ℤ → Entry
entry value written = record { namespace = codes "feeds"; value = value; written = written }

abbrev fresh : Inner
fresh = record { order = []; position = []; next = 0; dirty = false }

fresh-IsIndexed : IsIndexed fresh
unfolding lookup
fresh-IsIndexed = record {
  order_sorted = tt;
  found = λ at e h. absurd (ground arith);
  filed = λ key at h. absurd (ground arith);
}

push-IsIndexed_example : IsIndexed (push (entry (codes "x") (pos 9)) 2 fresh)
push-IsIndexed_example =
    push-IsIndexed (entry (codes "x") (pos 9)) 2 fresh fresh-IsIndexed (omega arith)

abbrev busy : Inner
busy = record {
  order = (3, entry (codes "x") (pos 9)) ∷ (4, entry (codes "y") (pos 9)) ∷ [];
  position = (key_of (codes "feeds") (codes "x"), 3) ∷ (key_of (codes "feeds") (codes "y"), 4) ∷ [];
  next = 5;
  dirty = false;
}

recent_bounds_example :
    (length (recent 1 none (codes "feeds/") (λ ns. true) (record { capacity = 2; inner = busy }))
      ≤ 1)
    × All
        (IsShown none (trim_matches is_slash (codes "feeds/")) (λ ns. true))
        (recent 1 none (codes "feeds/") (λ ns. true) (record { capacity = 2; inner = busy }))
recent_bounds_example =
    recent_bounds 1 none (codes "feeds/") (λ ns. true) (record { capacity = 2; inner = busy })

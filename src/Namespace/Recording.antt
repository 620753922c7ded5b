-- ===== src/Namespace/Recording.antt =====
-- What one sighting does to a namespace.
use sightingdb.Attribute.{new}
use sightingdb.Chrono.{Chrono, DateTime}
use sightingdb.Common.{Option, arith, if◌then◌else◌, not, some, unwrap_or, ℕ, ◌≡◌}
use sightingdb.Map.{contains, lookup}
use sightingdb.Map.Laws.{contains-lookup, lookup-insert}
use sightingdb.Namespace.{Namespace, record_value, touch}
use sightingdb.Order.{Text, text_ord, ◌==◌}

module _ ⦃c : Chrono⦄ (node value : Text) (when : DateTime) (ttl : Option ℕ) (retention : ℕ)
    (tags : Text) (ns : Namespace) where
  -- The value that is written is the one that was there, or a new one, with the sighting on it; no
  -- other value changes; and the value is new exactly when it was not there.
  pub lookup-record_value :
      (j : Text)
      → (lookup j (record_value node value when ttl retention tags ns).namespace.cells ≡ (
          if value == j
          then some
              (touch node when ttl retention tags (unwrap_or (lookup value ns.cells) (new value)))
          else lookup j ns.cells))
        × ((record_value node value when ttl retention tags ns).is_new
            ≡ not (contains value ns.cells))
  unfolding record_value
  lookup-record_value j =
      let found = unwrap_or (lookup value ns.cells) (new value) in
      let after = touch node when ttl retention tags found in
      (
        ground (arith, lookup-insert value j after ns.cells),
        ground (arith, contains-lookup value ns.cells),
      )

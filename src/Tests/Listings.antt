-- ===== src/Tests/Listings.antt =====
-- What is listed of a server with two shards: src/db.rs.
use sightingdb.Common.{Bool, [], false, refl, true, ◌++◌, ◌↔◌, ◌∷◌, ◌≡◌}
use sightingdb.Database.{Database, ShardMeta}
use sightingdb.Database.Listing.{namespace_page, namespaces_under}
use sightingdb.Database.Listing.Pages.{IsAscending, IsBrowsed, names_on, namespace_page-append}
use sightingdb.Database.Listing.Search.{sightings_of}
use sightingdb.Database.Listing.Search.Limits.{IsFit, sightings_of_bounds}
use sightingdb.Database.Listing.Under.{IsCatalogued, namespaces_under_lem}
use sightingdb.Database.Lookup.{Agrees}
use sightingdb.Database.Values.{namespace_views}
use sightingdb.Database.Values.Filling.{IsListing, namespace_views_lem}
use sightingdb.Int.{pos}
use sightingdb.Map.{Map, lookup}
use sightingdb.Names.{all_namespace, is_internal}
use sightingdb.Names.Below.{IsUnder}
use sightingdb.Order.{Text, text_ord}
use sightingdb.Tests.Clock.{clock}
use sightingdb.Tests.Peers.{ours}
use sightingdb.Tests.Server.{address, server, unreadable}
use sightingdb.Text.{codes, contains_text, is_slash, trim_matches}

abbrev feeds : Text
feeds = codes "feeds/ips"

abbrev lab : Text
lab = codes "lab"

abbrev catalogue : Map Text ShardMeta
catalogue =
    (codes "feeds", record { namespaces = (feeds, tt) ∷ []; resident = true; last_access = pos 0 })
    ∷ (lab, record { namespaces = (lab, tt) ∷ []; resident = false; last_access = pos 0 })
    ∷ []

abbrev two_shards : Database
two_shards = record server {
  namespaces = (feeds, record { cells = (address, ours) ∷ []; has_ttl = true }) ∷ server.namespaces;
  shards = catalogue;
}

abbrev anyone : Text → Bool
anyone name = true

namespaces_under_lem_example :
    (contains_text feeds (namespaces_under (codes "/feeds") anyone two_shards) ≡ true) ↔ (
      IsCatalogued feeds two_shards.shards
      × (is_internal feeds ≡ false)
      × IsUnder feeds (trim_matches is_slash (codes "/feeds"))
      × (anyone feeds ≡ true))
namespaces_under_lem_example = namespaces_under_lem (codes "/feeds") anyone two_shards feeds

namespace_page-append_example :
    (((namespace_page [] 0 1 anyone two_shards).items
          ++ (namespace_page [] 1 1 anyone two_shards).items
        ≡ (namespace_page [] 0 2 anyone two_shards).items)
      × ((namespace_page [] 0 1 anyone two_shards).total
          ≡ (namespace_page [] 1 1 anyone two_shards).total))
    × IsAscending (names_on (namespace_page [] 0 1 anyone two_shards))
    × ((name : Text)
        → (contains_text name (
              names_on (
                namespace_page [] 0
                  (namespace_page [] 0 1 anyone two_shards).total
                  anyone
                  two_shards))
            ≡ true)
          ↔ (IsCatalogued name two_shards.shards × IsBrowsed [] anyone name))
namespace_page-append_example = namespace_page-append [] anyone two_shards 0 1 1

sightings_of_bounds_example :
    IsFit 1 anyone (sightings_of unreadable address 1 anyone (pos 5) two_shards).1.items
sightings_of_bounds_example = sightings_of_bounds 1 anyone unreadable address (pos 5) two_shards

namespace_views_lem_example :
    Agrees two_shards (namespace_views unreadable all_namespace (pos 5) two_shards).0
    × IsListing unreadable
        (pos 5)
        two_shards.namespaces
        (lookup all_namespace two_shards.namespaces)
        (namespace_views unreadable all_namespace (pos 5) two_shards).1
namespace_views_lem_example = namespace_views_lem unreadable (pos 5) all_namespace two_shards refl

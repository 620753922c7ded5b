-- ===== src/Tests/Galaxies.antt =====
-- Galaxies of two mirrors: src/galaxy.rs.
use sightingdb.Common.{
  Bool, List, [], false, inl, length, not, refl, some, true, ℕ, ◌&&◌, ◌+◌, ◌∷◌, ◌≡◌, ◌⊎◌,
}
use sightingdb.Galaxy.{Galaxy, Peer, holders, reader_for, reader_url}
use sightingdb.Galaxy.Choosing.{reader_for-add_peer}
use sightingdb.Galaxy.Editing.{add_peer, clean_url, cleaned, set_enabled, urls}
use sightingdb.Galaxy.Reading.{IsRoute, reader_url_lem}
use sightingdb.Galaxy.Roster.{
  Change, IsRoster, IsRoster-change_all, adding, change_all, probing, removing, switching, updating,
}
use sightingdb.Galaxy.Switching.{holders-set_enabled}
use sightingdb.Int.{pos}
use sightingdb.Order.{Text, text_eq, text_ord}
use sightingdb.Tests.Server.{address}
use sightingdb.Text.{codes, contains_text}

abbrev mirror : Text → Bool → Peer
mirror address on = record {
  url = address;
  key = codes "k";
  stores = record { prefixes = []; everything = true };
  enabled = on;
}

-- a weight in the place of the hash
abbrev lengths : Text → Text → ℕ
lengths value address = length value + length address

abbrev near : Text
near = codes "http://a:1"

abbrev mirrors : Galaxy
mirrors = record {
  peers = mirror near true ∷ mirror (codes "http://bb:2") true ∷ [];
  health = [];
  fixed = [];
}

mirrors-IsRoster : IsRoster mirrors
unfolding contains_text
mirrors-IsRoster = (refl, (refl, tt))

reader_for-add_peer_example :
    (reader_for lengths
        (codes "feeds")
        (codes "v")
        (add_peer (mirror (codes "http://ccc:3/") true) (codes "0.0.0.0:9") mirrors).0
      ≡ some (cleaned (mirror (codes "http://ccc:3/") true)))
    ⊎ (reader_for lengths
          (codes "feeds")
          (codes "v")
          (add_peer (mirror (codes "http://ccc:3/") true) (codes "0.0.0.0:9") mirrors).0
        ≡ reader_for lengths (codes "feeds") (codes "v") mirrors)
reader_for-add_peer_example =
    reader_for-add_peer lengths (codes "feeds") (codes "v") (mirror (codes "http://ccc:3/") true)
      (codes "0.0.0.0:9") mirrors

abbrev changes : List Change
changes =
    adding (mirror (codes "http://ccc:3/") true) (codes "0.0.0.0:9")
    ∷ switching near false
    ∷ probing near (inl (codes "timeout")) (pos 7)
    ∷ updating (mirror near true)
    ∷ removing near
    ∷ []

IsRoster-change_all_example : IsRoster (change_all changes mirrors)
IsRoster-change_all_example = IsRoster-change_all changes mirrors mirrors-IsRoster

holders-set_enabled_example :
    contains_text
      (codes "http://bb:2")
      (urls (holders (codes "feeds") (set_enabled (codes "http://a:1/") false mirrors).0))
    ≡ (not (text_eq (clean_url (codes "http://a:1/")) (codes "http://bb:2"))
        && contains_text (codes "http://bb:2") (urls (holders (codes "feeds") mirrors)))
holders-set_enabled_example =
    holders-set_enabled (codes "feeds") (codes "http://a:1/") (codes "http://bb:2") mirrors
      mirrors-IsRoster

reader_url_lem_example :
    IsRoute lengths
      (codes "feeds")
      (codes "v")
      mirrors
      (reader_url lengths (codes "feeds") (codes "v") mirrors)
reader_url_lem_example = reader_url_lem lengths (codes "feeds") (codes "v") mirrors

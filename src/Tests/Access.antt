-- ===== src/Tests/Access.antt =====
-- Keys, grants and names: src/acl.rs, src/db.rs.
use sightingdb.Acl.{Acl, Grant, admin_grant, all_data, allows, covers, ok}
use sightingdb.Acl.Access.{allows_below}
use sightingdb.Acl.Prefixes.{covers_iff}
use sightingdb.Acl.Render.{IsPlain, data_grant, on_data, parse_grants-render_grants, the_admin}
use sightingdb.Acl.Syntax.{parse_grants, quoted, render_grants}
use sightingdb.Common.{
  List, Option, [], arith, eqb, false, if◌then◌else◌, none, refl, some, true, ◌++◌, ◌↔◌, ◌∷◌, ◌≡◌,
}
use sightingdb.Order.{Text, text_ord}
use sightingdb.Storage.{StoragePolicy}
use sightingdb.Text.{codes, segments, trim}
use sightingdb.Text.Trim.{Lacks}

abbrev misp : Grant
misp = data_grant (codes "cti/ip") true true

abbrev file : Acl
file = record {
  keys = (codes "feed", misp ∷ []) ∷ (codes "root", all_data ∷ admin_grant ∷ []) ∷ [];
}

six_lack_it : Lacks b',' (codes "cti/ip")
six_lack_it = (refl, (refl, (refl, (refl, (refl, (refl, tt))))))

six-IsPlain : IsPlain (codes "cti/ip")
six-IsPlain = (refl, (refl, (refl, (refl, (refl, (refl, tt))))))

-- A reader of strings with nothing escaped: what stands before the quote that ends it.
abbrev to_quote : Text → Option Text
to_quote [] = none
to_quote (c ∷ s) =
    let rest = to_quote s in
    if eqb c 0x22 then some [] else (elim rest [ none ↦ none | some t ↦ some (c ∷ t) ])

abbrev read_basic : Text → Option Text
read_basic [] = none
read_basic (c ∷ s) = if eqb c 0x22 then to_quote s else none

to_quote-plain : (s : Text) → IsPlain s → to_quote (s ++ codes "\"") ≡ some s
to_quote-plain [] h = refl
to_quote-plain (c ∷ s) h =
    let other : eqb c 0x22 ≡ false = ground (arith, h.0) in rw (other, to_quote-plain s h.1) refl

parse_grants-render_grants_example :
    (spec : Text) × (read_basic (quoted (render_grants (misp ∷ admin_grant ∷ []))) ≡ some spec)
    × (parse_grants spec ≡ ok (misp ∷ admin_grant ∷ []))
unfolding trim
parse_grants-render_grants_example =
    parse_grants-render_grants read_basic to_quote-plain misp (admin_grant ∷ [])
      (on_data (codes "cti/ip") true true refl refl six_lack_it six-IsPlain, (the_admin, tt))

covers_iff_example :
    (covers misp (codes "/cti//ip/bad") ≡ true)
    ↔ ((rest : List Text) × (segments (codes "/cti//ip/bad") ≡ segments (codes "cti/ip") ++ rest))
covers_iff_example = covers_iff misp (codes "/cti//ip/bad")

allows_below_example :
    allows (codes "feed") (codes "cti/ip" ++ codes "/bad") (λ g. g.read) file ≡ true
unfolding allows
allows_below_example =
    allows_below (codes "feed") (codes "cti/ip") (codes "bad") (λ g. g.read) file refl

abbrev narrowed : StoragePolicy
narrowed = record { prefixes = codes "feeds" ∷ []; everything = false }

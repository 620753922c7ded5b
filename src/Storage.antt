-- ===== src/Storage.antt =====
-- src/db.rs, `StoragePolicy`: which namespaces this server holds.
pub mod Holding
use sightingdb.Common.{
  Bool, List, [], any, false, if◌then◌else◌, is_nil, not, true, ◌&&◌, ◌++◌, ◌||◌, ◌∷◌,
}
use sightingdb.Names.{is_internal}
use sightingdb.Order.{Text, text_eq}
use sightingdb.Text.{
  after_slash, contains_text, is_empty, is_slash, strip_prefix, trim, trim_matches,
}

pub record StoragePolicy : Type 0 where
  pub prefixes : List Text
  pub everything : Bool

-- `StoragePolicy::everything`, the default
unfoldable pub store_everything : StoragePolicy
store_everything = record { prefixes = []; everything = true }

-- the loop of `from_prefixes` over the prefixes that are left
unfoldable pub collect : List Text → List Text → StoragePolicy
unfolding trim trim_matches contains_text store_everything
collect [] held = record { prefixes = held; everything = false }
collect (raw ∷ rest) held =
    let prefix = trim_matches is_slash (trim raw) in
    let onward = collect rest (if contains_text prefix held then held else held ++ (prefix ∷ [])) in
    if is_empty prefix then store_everything else onward

-- `from_prefixes`
unfoldable pub from_prefixes : List Text → StoragePolicy
unfolding collect
from_prefixes prefixes = collect prefixes []

-- the test of `holds` for one prefix
unfoldable pub holds_under : Text → Text → Bool
unfolding strip_prefix
holds_under namespace prefix =
    text_eq namespace prefix || after_slash (strip_prefix prefix namespace)

-- `holds`
unfoldable pub holds : Text → StoragePolicy → Bool
unfolding is_internal trim_matches holds_under
holds namespace policy =
    if is_internal namespace
    then true
    else if policy.everything
    then true
    else any (holds_under (trim_matches is_slash namespace)) policy.prefixes

-- `is_router`
unfoldable pub is_router : StoragePolicy → Bool
is_router policy = not policy.everything && is_nil policy.prefixes

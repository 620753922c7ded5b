-- ===== src/Names.antt =====
-- src/db.rs and src/persistence.rs: what the name of a namespace says of it.
pub mod Internal
pub mod Below
use sightingdb.Common.{
  Bool, Option, false, first_item, if◌then◌else◌, none, not, some, unwrap_or, ◌&&◌, ◌||◌,
}
use sightingdb.Order.{Text, text_eq}
use sightingdb.Text.{
  after_slash, codes, is_empty, segments, starts_with, starts_with_char, strip_prefix,
}

-- `ALL_NAMESPACE`, `SHADOW_PREFIX`, `CONFIG_PREFIX`, `APIKEYS_NAMESPACE`
abbrev pub all_namespace : Text
all_namespace = codes "_all"

abbrev pub shadow_prefix : Text
shadow_prefix = codes "_shadow/"

abbrev pub config_prefix : Text
config_prefix = codes "_config/"

-- `INTERNAL_SHARD`, `ROOT_SHARD` of src/persistence.rs
abbrev pub internal_shard : Text
internal_shard = codes "_internal"

abbrev pub root_shard : Text
root_shard = codes "_internal"

-- the first path segment: `split('/').find(|segment| !segment.is_empty())`
unfoldable pub first_segment : Text → Option Text
unfolding segments
first_segment namespace = first_item (segments namespace)

-- `is_internal`
unfoldable pub is_internal : Text → Bool
unfolding first_segment
is_internal namespace = elim (first_segment namespace) [
  | none ↦ false
  | some first ↦ starts_with_char b'_' first
]

-- `counts_towards_consensus`
unfoldable pub counts_towards_consensus : Text → Bool
unfolding starts_with
counts_towards_consensus name =
    not (text_eq name all_namespace)
    && not (starts_with shadow_prefix name)
    && not (starts_with config_prefix name)

-- `shard_of` of src/persistence.rs
unfoldable pub shard_of : Text → Text
unfolding first_segment
shard_of namespace =
    let first = unwrap_or (first_segment namespace) root_shard in
    if starts_with_char b'_' first then internal_shard else first

-- `root_of` of src/activity.rs
unfoldable pub root_of : Text → Option Text
unfolding first_segment
root_of namespace = elim (first_segment namespace) [
  | none ↦ none
  | some root ↦ if starts_with_char b'_' root then none else some root
]

-- `under` of src/latest.rs, and the test of `StoragePolicy::holds` and `namespaces_under`
unfoldable pub under : Text → Text → Bool
unfolding strip_prefix
under namespace prefix =
    is_empty prefix || text_eq namespace prefix || after_slash (strip_prefix prefix namespace)

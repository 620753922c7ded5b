-- ===== src/Names/Internal.antt =====
-- Being internal means one thing: the same first segment decides it for writes, for shards and for
-- the counts of activity.
use sightingdb.Common.{
  Bool-cases, Option-cases, [], arith, false, inl, inr, none, refl, some, ◌∷◌, ◌≡◌, ◌≢◌,
}
use sightingdb.Names.{first_segment, internal_shard, is_internal, root_of, shard_of}
use sightingdb.Order.{Text, text_eq}
use sightingdb.Text.{starts_with_char}

not_internal_name : (s : Text) → starts_with_char b'_' s ≡ false → text_eq s internal_shard ≡ false
not_internal_name [] h = refl
not_internal_name (c ∷ s) h = rw h

-- A namespace that has a segment is internal exactly when its shard is the internal one.
pub is_internal-shard_of :
    (namespace : Text)
    → first_segment namespace ≢ none
    → is_internal namespace ≡ text_eq (shard_of namespace) internal_shard
unfolding is_internal shard_of
is_internal-shard_of namespace h = elim (Option-cases (first_segment namespace)) [
  | inl e ↦ absurd (h e)
  | inr (s, e) ↦ elim (Bool-cases (starts_with_char b'_' s)) [
    | inl u ↦ ground arith
    | inr u ↦ ground (arith, not_internal_name s)
  ]
]

-- Where activity is counted the namespace is not internal, and it is counted for its shard.
pub root_of-shard_of :
    (namespace : Text) {root : Text}
    → root_of namespace ≡ some root
    → (is_internal namespace ≡ false) × (shard_of namespace ≡ root)
unfolding root_of is_internal shard_of
root_of-shard_of namespace h = (ground arith, ground arith)

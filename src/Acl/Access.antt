-- ===== src/Acl/Access.antt =====
-- Access is allow-only, and a change to one key leaves the others as they were.
use sightingdb.Acl.{
  Acl, Grant, admin_grant, all_data, allows, can_read, can_write, contains_key, covers, grant_full,
  is_admin, remove_key, set_grants,
}
use sightingdb.Acl.Prefixes.{covers_below}
use sightingdb.Common.{
  Bool, List, Option-cases, [], any, arith, false, if◌then◌else◌, inl, inr, true, ◌&&◌, ◌++◌, ◌∷◌,
  ◌≡◌,
}
use sightingdb.Map.{lookup}
use sightingdb.Map.Laws.{contains-lookup, lookup-insert, lookup-remove}
use sightingdb.Order.{Text, text_eq_iff, text_ord, ◌==◌}

module _ (key other namespace : Text) (permitted : Grant → Bool) (acl : Acl) where
  -- After `set` a key has exactly the access that its new grants give; other keys have what they had.
  pub allows-set_grants :
      (grants : List Grant)
      → allows other namespace permitted (set_grants key grants acl) ≡ (
          if key == other
          then any (λ (g : Grant). permitted g && covers g namespace) grants
          else allows other namespace permitted acl)
  unfolding allows set_grants
  allows-set_grants grants = ground (arith, lookup-insert key other grants acl.keys)

  -- After `remove` a key has no access; other keys have what they had.
  pub allows-remove_key :
      allows other namespace permitted (remove_key key acl).0
      ≡ (if key == other then false else allows other namespace permitted acl)
  unfolding allows remove_key
  allows-remove_key = ground (arith, lookup-remove key other acl.keys)

module _ (key namespace below : Text) (permitted : Grant → Bool) where
  any_below :
      (grants : List Grant)
      → any (λ (g : Grant). permitted g && covers g namespace) grants ≡ true
      → any (λ (g : Grant). permitted g && covers g (namespace ++ (b'/' ∷ below))) grants ≡ true
  any_below [] h = h
  any_below (g ∷ gs) h = ground (arith, covers_below g namespace below, any_below gs)

  -- A permission on a namespace is a permission on every namespace below it.
  pub allows_below :
      (acl : Acl)
      → allows key namespace permitted acl ≡ true
      → allows key (namespace ++ (b'/' ∷ below)) permitted acl ≡ true
  unfolding allows
  allows_below acl h = elim (Option-cases (lookup key acl.keys)) [
    | inl e ↦ absurd (ground arith)
    | inr (grants, e) ↦ rw (e, allows) (any_below grants (rw (e, allows) at h))
  ]

module _ (key namespace : Text) (acl : Acl) where
  -- A key with full access reads and writes every namespace and is an administrator.
  pub can-grant_full :
      (can_read key namespace (grant_full key acl) ≡ true)
      × (can_write key namespace (grant_full key acl) ≡ true)
      × (is_admin key (grant_full key acl) ≡ true)
  unfolding can_read can_write is_admin grant_full
  can-grant_full =
      let e = lookup-insert key key (all_data ∷ admin_grant ∷ []) acl.keys in
      (
        ground (arith, e, text_eq_iff key key),
        ground (arith, e, text_eq_iff key key),
        ground (arith, e, text_eq_iff key key),
      )

  -- A key that is not there may do nothing.
  pub cannot_missing :
      contains_key key acl ≡ false
      → (can_read key namespace acl ≡ false)
        × (can_write key namespace acl ≡ false)
        × (is_admin key acl ≡ false)
  unfolding can_read can_write is_admin contains_key
  cannot_missing h =
      let e = contains-lookup key acl.keys in
      (ground (arith, e), ground (arith, e), ground (arith, e))

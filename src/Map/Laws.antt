-- ===== src/Map/Laws.antt =====
-- What can be looked up after each operation of a map.
use sightingdb.Common.{
  [], arith, false, if◌then◌else◌, is_some, none, refl, some, true, unwrap_or, ◌∷◌, ◌≡◌,
}
use sightingdb.Database.{put}
use sightingdb.Map.{Map, contains, insert, lookup, or_insert, remove}
use sightingdb.Order.{Ord, ◌==◌}

pub beq_refl : {K : Type 0} ⦃o : Ord K⦄ (k : K) → (k == k) ≡ true
beq_refl ⦃o⦄ k = (o.beq_iff k k).1 refl

module _ {K V : Type 0} ⦃o : Ord K⦄ where
  -- What is written is found; every other key keeps what it has.
  pub lookup-insert :
      (at key : K) (put : V) (m : Map K V)
      → lookup key (insert at put m) ≡ (if at == key then some put else lookup key m)
  unfolding lookup insert
  lookup-insert at key put [] = ground arith
  lookup-insert at key put ((first, found) ∷ rest) = ground (
    arith,
    lookup-insert at key put rest,
    o.beq_iff first key,
    o.beq_iff first at,
    o.beq_iff at key,
  )

  pub lookup-remove :
      (k j : K) (m : Map K V) → lookup j (remove k m) ≡ (if k == j then none else lookup j m)
  unfolding lookup remove
  lookup-remove k j [] = ground arith
  lookup-remove k j ((i, w) ∷ m) =
      ground (arith, o.beq_iff i k, o.beq_iff i j, o.beq_iff k j, lookup-remove k j m)

  pub contains-lookup : (k : K) (m : Map K V) → contains k m ≡ is_some (lookup k m)
  unfolding lookup contains
  contains-lookup k [] = refl
  contains-lookup k ((i, w) ∷ m) = ground (arith, contains-lookup k m)

  pub lookup-or_insert :
      (k j : K) (v : V) (m : Map K V)
      → lookup j (or_insert k v m)
        ≡ (if k == j then some (unwrap_or (lookup j m) v) else lookup j m)
  unfolding or_insert
  lookup-or_insert k j v m =
      ground (arith, o.beq_iff k j, lookup-insert k j v m, contains-lookup k m, contains-lookup j m)

  pub contains-insert :
      (k j : K) (v : V) (m : Map K V)
      → contains j (insert k v m) ≡ (if k == j then true else contains j m)
  contains-insert k j v m =
      ground (arith, lookup-insert k j v m, contains-lookup j m, contains-lookup j (insert k v m))

  pub contains-remove :
      (k j : K) (m : Map K V) → contains j (remove k m) ≡ (if k == j then false else contains j m)
  contains-remove k j m =
      ground (arith, lookup-remove k j m, contains-lookup j m, contains-lookup j (remove k m))

  -- Writing the value that is there changes nothing.
  pub or_insert_present : (k : K) (v : V) (m : Map K V) → contains k m ≡ true → or_insert k v m ≡ m
  unfolding or_insert
  or_insert_present k v m h = rw h

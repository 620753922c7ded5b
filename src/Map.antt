-- ===== src/Map.antt =====
-- The maps of the program, `BTreeMap` and `HashMap`, as association lists that `insert` keeps in the
-- order of their keys. `iter` of a `BTreeMap` is in that order; the order of a `HashMap` is not
-- specified, and the order of keys is the one taken here.
pub mod Laws
pub mod Sorted
pub mod Every
use sightingdb.Common.{Bool, List, Option, [], false, if◌then◌else◌, none, some, true, ◌∷◌}
use sightingdb.Order.{Ord, ◌==◌}

abbrev pub Map : Type 0 → Type 0 → Type 0
Map K V = List (K × V)

module _ {K V : Type 0} ⦃o : Ord K⦄ where
  -- `get`
  unfoldable pub lookup : K → Map K V → Option V
  lookup k [] = none
  lookup k ((i, found) ∷ rest) = if i == k then some found else lookup k rest

  -- `contains_key`
  unfoldable pub contains : K → Map K V → Bool
  contains k [] = false
  contains k ((i, found) ∷ rest) = if i == k then true else contains k rest

  -- `insert`
  unfoldable pub insert : K → V → Map K V → Map K V
  insert k v [] = (k, v) ∷ []
  insert k v ((i, old) ∷ rest) =
      if i == k
      then (k, v) ∷ rest
      else if o.lt k i
      then (k, v) ∷ (i, old) ∷ rest
      else (i, old) ∷ insert k v rest

  -- `remove`
  unfoldable pub remove : K → Map K V → Map K V
  remove k [] = []
  remove k ((j, w) ∷ m) = let rest = remove k m in if j == k then rest else (j, w) ∷ rest

  -- `entry(k).or_insert(v)`: the map that it leaves
  unfoldable pub or_insert : K → V → Map K V → Map K V
  unfolding contains insert
  or_insert k v m = if contains k m then m else insert k v m

module _ {K V : Type 0} where
  -- `keys`
  abbrev pub keys : Map K V → List K
  keys [] = []
  keys ((k, v) ∷ m) = k ∷ keys m

  -- `values`
  abbrev pub values : Map K V → List V
  values [] = []
  values ((k, v) ∷ m) = v ∷ values m

-- ===== src/Attribute/Merging/Counters.antt =====
-- What the loops of `merge` do to a counter: it rises to the greater of the two copies.
use sightingdb.Attribute.Merging.{raise_to}
use sightingdb.Common.{
  Bool-cases, arith, false, if◌then◌else◌, inl, inr, ltb, max, some, true, unwrap_or, ℕ, ◌≡◌, ◌≤◌,
}
use sightingdb.Map.{Map, contains, lookup, or_insert}
use sightingdb.Map.Laws.{
  beq_refl, contains-lookup, lookup-insert, lookup-or_insert, or_insert_present,
}
use sightingdb.Map.Sorted.{IsSorted, insert-IsSorted, or_insert-IsSorted}
use sightingdb.Order.{Ord, ◌==◌}

-- The counter under a key, 0 where there is none.
abbrev pub counter : {K : Type 0} ⦃o : Ord K⦄ → K → Map K ℕ → ℕ
counter k m = unwrap_or (lookup k m) 0

-- A counter that is there, and at least `n`.
abbrev pub Holds : {K : Type 0} ⦃o : Ord K⦄ → K → ℕ → Map K ℕ → Type 0
Holds k n m = (contains k m ≡ true) × (n ≤ counter k m)

module _ {K : Type 0} ⦃o : Ord K⦄ where
  pub lookup-raise_to :
      (k j : K) (n : ℕ) (m : Map K ℕ)
      → lookup j (raise_to k n m).0 ≡ (if k == j then some (max (counter j m) n) else lookup j m)
  unfolding raise_to
  lookup-raise_to k j n m =
      ground (arith, o.beq_iff k j, lookup-insert k j n (or_insert k 0 m), lookup-or_insert k j 0 m)

  pub raise_to-IsSorted : (k : K) (n : ℕ) (m : Map K ℕ) → IsSorted m → IsSorted (raise_to k n m).0
  unfolding raise_to
  raise_to-IsSorted k n m s = elim (Bool-cases (ltb (counter k m) n)) [
    | inl e ↦ rw e (insert-IsSorted k n (or_insert k 0 m) (or_insert-IsSorted k 0 m s))
    | inr e ↦ rw e (or_insert-IsSorted k 0 m s)
  ]

  pub raise_to_held : (k : K) (n : ℕ) (m : Map K ℕ) → Holds k n m → raise_to k n m ≡ (m, false)
  unfolding raise_to
  raise_to_held k n m h = ground (arith, or_insert_present k 0 m)

  pub raise_to-Holds : (k : K) (n : ℕ) (m : Map K ℕ) → Holds k n (raise_to k n m).0
  raise_to-Holds k n m = (
    ground (arith, contains-lookup k (raise_to k n m).0, lookup-raise_to k k n m, beq_refl k),
    ground (arith, lookup-raise_to k k n m, beq_refl k),
  )

  pub Holds-raise_to :
      (k j : K) (n i : ℕ) (m : Map K ℕ) → Holds j i m → Holds j i (raise_to k n m).0
  Holds-raise_to k j n i m h = (
    ground
        (arith, contains-lookup j (raise_to k n m).0, contains-lookup j m, lookup-raise_to k j n m),
    ground (arith, lookup-raise_to k j n m),
  )

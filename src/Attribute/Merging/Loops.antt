-- ===== src/Attribute/Merging/Loops.antt =====
-- The loops of `merge` over the counts and the buckets of a peer.
use sightingdb.Attribute.{Buckets}
use sightingdb.Attribute.Merging.{Progress, merge_buckets, merge_count, merge_counts, raise_to}
use sightingdb.Attribute.Merging.Counters.{
  Holds, Holds-raise_to, counter, lookup-raise_to, raise_to-Holds, raise_to-IsSorted, raise_to_held,
}
use sightingdb.Common.{
  All, Bool, Bool-cases, [], arith, false, if◌then◌else◌, inl, inr, max, refl, ℕ, ◌||◌, ◌∷◌, ◌≡◌,
}
use sightingdb.Int.{eqb_ℤ_iff, ℤ}
use sightingdb.Map.{Map, lookup}
use sightingdb.Map.Sorted.{IsSorted, lookup_above}
use sightingdb.Order.{Ord, Text, int_ord, text_eq_iff, text_ord, ◌==◌}

-- What a merge of `incoming` into `counts` leaves as it is: every counter is there, and as great.
abbrev pub HoldsAll : {K : Type 0} ⦃o : Ord K⦄ → Map K ℕ → Map K ℕ → Type 0
HoldsAll incoming m = All (λ e. Holds e.0 e.1 m) incoming

HoldsAll-raise_to :
    {K : Type 0} ⦃o : Ord K⦄ (l : Map K ℕ) (k : K) (n : ℕ) (m : Map K ℕ)
    → HoldsAll l m
    → HoldsAll l (raise_to k n m).0
HoldsAll-raise_to [] k n m h = tt
HoldsAll-raise_to ((j, i) ∷ l) k n m h =
    (Holds-raise_to k j n i m h.0, HoldsAll-raise_to l k n m h.1)

-- the loop over the buckets of one server
module _ where
  pub merge_buckets-IsSorted :
      (l : Buckets) (p : Buckets × Bool) → IsSorted p.0 → IsSorted (merge_buckets l p).0
  unfolding merge_buckets
  merge_buckets-IsSorted [] p s = s
  merge_buckets-IsSorted ((k, n) ∷ l) p s = merge_buckets-IsSorted l _ (raise_to-IsSorted k n p.0 s)

  pub lookup-merge_buckets :
      (b : ℤ) (l : Buckets) (p : Buckets × Bool)
      → IsSorted l
      → counter b (merge_buckets l p).0 ≡ max (counter b p.0) (counter b l)
  unfolding merge_buckets lookup
  lookup-merge_buckets b [] p s = omega arith
  lookup-merge_buckets b ((k, n) ∷ l) p s =
      let after : Buckets × Bool = ((raise_to k n p.0).0, p.1 || (raise_to k n p.0).1) in
      ground (
        arith,
        lookup-merge_buckets b l after s.1,
        lookup-raise_to k b n p.0,
        lookup_above k l s.0,
        eqb_ℤ_iff k b,
      )

  pub Holds-merge_buckets :
      (k : ℤ) (n : ℕ) (l : Buckets) (p : Buckets × Bool)
      → Holds k n p.0
      → Holds k n (merge_buckets l p).0
  unfolding merge_buckets
  Holds-merge_buckets k n [] p h = h
  Holds-merge_buckets k n ((j, i) ∷ l) p h =
      Holds-merge_buckets k n l _ (Holds-raise_to j k i n p.0 h)

  pub merge_buckets-HoldsAll : (l : Buckets) (p : Buckets × Bool) → HoldsAll l (merge_buckets l p).0
  unfolding merge_buckets
  merge_buckets-HoldsAll [] p = tt
  merge_buckets-HoldsAll ((k, n) ∷ l) p =
      (Holds-merge_buckets k n l _ (raise_to-Holds k n p.0), merge_buckets-HoldsAll l _)

  pub merge_buckets_held :
      (l : Buckets) (m : Buckets) (changed : Bool)
      → HoldsAll l m
      → merge_buckets l (m, changed) ≡ (m, changed)
  unfolding merge_buckets
  merge_buckets_held [] m changed h = refl
  merge_buckets_held ((k, n) ∷ l) m changed h =
      rw (raise_to_held k n m h.0, or_false changed) (merge_buckets_held l m changed h.1)
    where
      or_false : (b : Bool) → (b || false) ≡ b
      or_false b = ground arith

-- the loop over the counts
module _ (mine : Text) where
  pub merge_counts-IsSorted :
      (l : Map Text ℕ) (p : Progress) → IsSorted p.counts → IsSorted (merge_counts mine l p).counts
  unfolding merge_counts
  merge_counts-IsSorted [] p s = s
  merge_counts-IsSorted ((k, n) ∷ l) p s = elim (Bool-cases (k == mine)) [
    | inl e ↦ rw (e, IsSorted) (merge_counts-IsSorted l _ s)
    | inr e ↦ rw (e, IsSorted) (merge_counts-IsSorted l _ (raise_to-IsSorted k n p.counts s))
  ]

  -- the contribution of this server is never touched
  pub lookup-merge_counts_mine :
      (l : Map Text ℕ) (p : Progress)
      → lookup mine (merge_counts mine l p).counts ≡ lookup mine p.counts
  unfolding merge_counts
  lookup-merge_counts_mine [] p = refl
  lookup-merge_counts_mine ((k, n) ∷ l) p = ground (
    arith,
    lookup-merge_counts_mine l (merge_count mine k n p),
    lookup-raise_to k mine n p.counts,
  )

  pub counter-merge_counts :
      (node : Text) (l : Map Text ℕ) (p : Progress)
      → IsSorted l
      → counter node (merge_counts mine l p).counts ≡ (
          if node == mine
          then counter node p.counts
          else max (counter node p.counts) (counter node l))
  unfolding merge_counts lookup
  counter-merge_counts node [] p s = ground arith
  counter-merge_counts node ((k, n) ∷ l) p s = ground (
    arith,
    counter-merge_counts node l (merge_count mine k n p) s.1,
    lookup-raise_to k node n p.counts,
    lookup_above k l s.0,
    text_eq_iff k node,
    text_eq_iff k mine,
    text_eq_iff node mine,
  )

-- ===== src/Attribute/Merging/Stats.antt =====
-- The loop of `merge` over the hourly buckets of every server.
use mathlib.Core.Path.{subst}
use sightingdb.Attribute.{Buckets}
use sightingdb.Attribute.Merging.{merge_buckets, merge_node, merge_stats}
use sightingdb.Attribute.Merging.Counters.{counter}
use sightingdb.Attribute.Merging.Loops.{
  Holds-merge_buckets, HoldsAll, lookup-merge_buckets, merge_buckets-HoldsAll, merge_buckets_held,
}
use sightingdb.Common.{
  All, Bool, Bool-cases, Option, [], ap, arith, false, if◌then◌else◌, inl, inr, max, refl, some,
  sym, true, unwrap_or, ◌∷◌, ◌≡◌, ◌⊎◌,
}
use sightingdb.Int.{ℤ}
use sightingdb.Map.{Map, contains, lookup}
use sightingdb.Map.Laws.{beq_refl, contains-lookup, lookup-insert}
use sightingdb.Map.Sorted.{IsSorted, insert-IsSorted, insert_same, lookup_above}
use sightingdb.Order.{Text, int_ord, text_eq_iff, text_ord, ◌==◌}

-- The buckets of a server, none where it has no entry.
abbrev pub buckets_of : Text → Map Text Buckets → Buckets
buckets_of node stats = unwrap_or (lookup node stats) []

module _ (mine : Text) where
  pub lookup-merge_node :
      (j node : Text) (b : Buckets) (p : Map Text Buckets × Bool)
      → lookup j (merge_node mine node b p).0 ≡ (
          if node == mine
          then lookup j p.0
          else if node == j
          then some (merge_buckets b (buckets_of node p.0, p.1)).0
          else lookup j p.0)
  unfolding merge_node
  lookup-merge_node j node b p =
      ground (arith, lookup-insert node j (merge_buckets b (buckets_of node p.0, p.1)).0 p.0)

  merge_node-IsSorted :
      (node : Text) (b : Buckets) (p : Map Text Buckets × Bool)
      → IsSorted p.0
      → IsSorted (merge_node mine node b p).0
  unfolding merge_node
  merge_node-IsSorted node b p s = elim (Bool-cases (node == mine)) [
    | inl e ↦ rw (e, IsSorted) s
    | inr e ↦ rw (e, IsSorted) (insert-IsSorted node _ p.0 s)
  ]

  pub merge_stats-IsSorted :
      (l : Map Text Buckets) (p : Map Text Buckets × Bool)
      → IsSorted p.0
      → IsSorted (merge_stats mine l p).0
  unfolding merge_stats
  merge_stats-IsSorted [] p s = s
  merge_stats-IsSorted ((node, b) ∷ l) p s =
      merge_stats-IsSorted l _ (merge_node-IsSorted node b p s)

  -- Every hour of every other server rises to the greater of the two copies.
  pub counter-merge_stats :
      (node : Text) (hour : ℤ) (l : Map Text Buckets) (p : Map Text Buckets × Bool)
      → IsSorted l
      → All (λ e. IsSorted e.1) l
      → counter hour (buckets_of node (merge_stats mine l p).0) ≡ (
          if node == mine
          then counter hour (buckets_of node p.0)
          else max (counter hour (buckets_of node p.0)) (counter hour (buckets_of node l)))
  unfolding merge_stats lookup
  counter-merge_stats node hour [] p s t = ground arith
  counter-merge_stats node hour ((k, b) ∷ l) p s t = ground (
    arith,
    counter-merge_stats node hour l (merge_node mine k b p) s.1 t.1,
    lookup-merge_node node k b p,
    lookup-merge_buckets hour b (buckets_of k p.0, p.1) t.0,
    lookup_above k l s.0,
    text_eq_iff k node,
    text_eq_iff k mine,
    text_eq_iff node mine,
  )

  -- The entry of a server whose buckets are all there, and as great.
  abbrev pub HoldsNode : Text → Buckets → Map Text Buckets → Type 0
  HoldsNode node b stats =
      ((node == mine) ≡ true) ⊎ ((contains node stats ≡ true) × HoldsAll b (buckets_of node stats))

  HoldsAll-merge_buckets :
      (l b : Buckets) (p : Buckets × Bool) → HoldsAll l p.0 → HoldsAll l (merge_buckets b p).0
  HoldsAll-merge_buckets [] b p h = tt
  HoldsAll-merge_buckets ((k, n) ∷ l) b p h =
      (Holds-merge_buckets k n b p h.0, HoldsAll-merge_buckets l b p h.1)

  HoldsAll-merge_node :
      (j : Text) (l : Buckets) (node : Text) (b : Buckets) (p : Map Text Buckets × Bool)
      → HoldsAll l (buckets_of j p.0)
      → HoldsAll l (buckets_of j (merge_node mine node b p).0)
  HoldsAll-merge_node j l node b p h = elim (Bool-cases (node == mine)) [
    | inl e ↦ subst (HoldsAll l) (unchanged (ground (arith, lookup-merge_node j node b p))) h
    | inr e ↦ elim (Bool-cases (node == j)) [
      | inl f ↦ subst (HoldsAll l) (raised e f) (
          HoldsAll-merge_buckets l b (buckets_of node p.0, p.1)
            (subst (λ x. HoldsAll l (buckets_of x p.0)) (sym ((text_eq_iff node j).0 f)) h))
      | inr f ↦ subst (HoldsAll l) (unchanged (ground (arith, lookup-merge_node j node b p))) h
    ]
  ]
    where
      unchanged :
          lookup j (merge_node mine node b p).0 ≡ lookup j p.0
          → buckets_of j p.0 ≡ buckets_of j (merge_node mine node b p).0
      unchanged e = ap (λ (o : Option Buckets). unwrap_or o []) (sym e)

      raised :
          (node == mine) ≡ false
          → (node == j) ≡ true
          → (merge_buckets b (buckets_of node p.0, p.1)).0
            ≡ buckets_of j (merge_node mine node b p).0
      raised e f = ground (arith, lookup-merge_node j node b p)

  HoldsNode-merge_node :
      (j : Text) (l : Buckets) (node : Text) (b : Buckets) (p : Map Text Buckets × Bool)
      → HoldsNode j l p.0
      → HoldsNode j l (merge_node mine node b p).0
  HoldsNode-merge_node j l node b p (inl e) = inl e
  HoldsNode-merge_node j l node b p (inr h) = inr (
    ground (
      arith,
      contains-lookup j p.0,
      contains-lookup j (merge_node mine node b p).0,
      lookup-merge_node j node b p,
    ),
    HoldsAll-merge_node j l node b p h.1,
  )

  merge_node-HoldsNode :
      (node : Text) (b : Buckets) (p : Map Text Buckets × Bool)
      → HoldsNode node b (merge_node mine node b p).0
  merge_node-HoldsNode node b p = elim (Bool-cases (node == mine)) [
    | inl e ↦ inl e
    | inr e ↦ inr (
      ground (
        arith,
        contains-lookup node (merge_node mine node b p).0,
        lookup-merge_node node node b p,
        beq_refl node,
      ),
      subst (HoldsAll b) (raised e) (merge_buckets-HoldsAll b (buckets_of node p.0, p.1)),
    )
  ]
    where
      raised :
          (node == mine) ≡ false
          → (merge_buckets b (buckets_of node p.0, p.1)).0
            ≡ buckets_of node (merge_node mine node b p).0
      raised e = ground (arith, lookup-merge_node node node b p, beq_refl node)

  -- What a merge of `incoming` leaves as it is.
  abbrev pub HoldsStats : Map Text Buckets → Map Text Buckets → Type 0
  HoldsStats incoming stats = All (λ e. HoldsNode e.0 e.1 stats) incoming

  HoldsNode-merge_stats :
      (node : Text) (b : Buckets) (l : Map Text Buckets) (p : Map Text Buckets × Bool)
      → HoldsNode node b p.0
      → HoldsNode node b (merge_stats mine l p).0
  unfolding merge_stats
  HoldsNode-merge_stats node b [] p h = h
  HoldsNode-merge_stats node b ((k, d) ∷ l) p h =
      HoldsNode-merge_stats node b l _ (HoldsNode-merge_node node b k d p h)

  pub merge_stats-HoldsStats :
      (l : Map Text Buckets) (p : Map Text Buckets × Bool) → HoldsStats l (merge_stats mine l p).0
  unfolding merge_stats
  merge_stats-HoldsStats [] p = tt
  merge_stats-HoldsStats ((k, b) ∷ l) p =
      (HoldsNode-merge_stats k b l _ (merge_node-HoldsNode k b p), merge_stats-HoldsStats l _)

  merge_node_held :
      (node : Text) (b : Buckets) (stats : Map Text Buckets) (changed : Bool)
      → IsSorted stats
      → HoldsNode node b stats
      → merge_node mine node b (stats, changed) ≡ (stats, changed)
  unfolding merge_node
  merge_node_held node b stats changed s (inl e) = rw e
  merge_node_held node b stats changed s (inr h) = elim (Bool-cases (node == mine)) [
    | inl e ↦ rw e
    | inr e ↦
        rw (e, merge_buckets_held b (buckets_of node stats) changed h.1)
          (ap (λ (x : Map Text Buckets). (x, changed)) (insert_same node _ stats s present))
  ]
    where
      present : lookup node stats ≡ some (buckets_of node stats)
      present = ground (arith, contains-lookup node stats)

  pub merge_stats_held :
      (l stats : Map Text Buckets) (changed : Bool)
      → IsSorted stats
      → HoldsStats l stats
      → merge_stats mine l (stats, changed) ≡ (stats, changed)
  unfolding merge_stats
  merge_stats_held [] stats changed s h = refl
  merge_stats_held ((k, b) ∷ l) stats changed s h =
      rw (merge_node_held k b stats changed s h.0) (merge_stats_held l stats changed s h.1)

-- ===== src/Attribute/Merging/Counts.antt =====
-- The loop of `merge` over the counts, run on a copy that holds them already.
use sightingdb.Attribute.Merging.{Progress, merge_count, merge_counts}
use sightingdb.Attribute.Merging.Counters.{Holds, Holds-raise_to, raise_to-Holds, raise_to_held}
use sightingdb.Common.{
  All, Bool-cases, [], arith, if◌then◌else◌, inl, inr, true, ℕ, ◌+◌, ◌∙◌, ◌∷◌, ◌≡◌, ◌⊎◌,
}
use sightingdb.Map.{Map}
use sightingdb.Order.{Text, text_ord, ◌==◌}

module _ (mine : Text) where
  -- The entry of a server that a merge leaves as it is.
  abbrev pub HoldsCount : Text → ℕ → Map Text ℕ → Type 0
  HoldsCount node n counts = ((node == mine) ≡ true) ⊎ Holds node n counts

  abbrev pub HoldsCounts : Map Text ℕ → Map Text ℕ → Type 0
  HoldsCounts incoming counts = All (λ e. HoldsCount e.0 e.1 counts) incoming

  -- How many entries of a peer's copy are this server's own.
  abbrev pub own_entries : Map Text ℕ → ℕ
  own_entries [] = 0
  own_entries ((node, n) ∷ l) = (if node == mine then 1 else 0) + own_entries l

  HoldsCount-merge_count :
      (node : Text) (n : ℕ) (k : Text) (i : ℕ) (p : Progress)
      → HoldsCount node n p.counts
      → HoldsCount node n (merge_count mine k i p).counts
  unfolding merge_count
  HoldsCount-merge_count node n k i p (inl e) = inl e
  HoldsCount-merge_count node n k i p (inr h) = elim (Bool-cases (k == mine)) [
    | inl e ↦ rw e (inr h)
    | inr e ↦ rw e (inr (Holds-raise_to k node i n p.counts h))
  ]

  HoldsCount-merge_counts :
      (node : Text) (n : ℕ) (l : Map Text ℕ) (p : Progress)
      → HoldsCount node n p.counts
      → HoldsCount node n (merge_counts mine l p).counts
  unfolding merge_counts
  HoldsCount-merge_counts node n [] p h = h
  HoldsCount-merge_counts node n ((k, i) ∷ l) p h =
      HoldsCount-merge_counts node n l _ (HoldsCount-merge_count node n k i p h)

  merge_count-HoldsCount :
      (node : Text) (n : ℕ) (p : Progress) → HoldsCount node n (merge_count mine node n p).counts
  unfolding merge_count
  merge_count-HoldsCount node n p = elim (Bool-cases (node == mine)) [
    | inl e ↦ inl e
    | inr e ↦ rw e (inr (raise_to-Holds node n p.counts))
  ]

  pub merge_counts-HoldsCounts :
      (l : Map Text ℕ) (p : Progress) → HoldsCounts l (merge_counts mine l p).counts
  unfolding merge_counts
  merge_counts-HoldsCounts [] p = tt
  merge_counts-HoldsCounts ((k, n) ∷ l) p =
      (HoldsCount-merge_counts k n l _ (merge_count-HoldsCount k n p), merge_counts-HoldsCounts l _)

  merge_count_held :
      (node : Text) (n : ℕ) (p : Progress)
      → HoldsCount node n p.counts
      → merge_count mine node n p
        ≡ record p { ignored_self = p.ignored_self + (if node == mine then 1 else 0) }
  unfolding merge_count
  merge_count_held node n p (inl e) = rw e
  merge_count_held node n p (inr h) = elim (Bool-cases (node == mine)) [
    | inl e ↦ rw e
    | inr e ↦ rw (e, raise_to_held node n p.counts h) (ground arith)
  ]

  -- Nothing changes, and the entries that are this server's own are counted.
  pub merge_counts_held :
      (l : Map Text ℕ) (p : Progress)
      → HoldsCounts l p.counts
      → merge_counts mine l p ≡ record p { ignored_self = p.ignored_self + own_entries l }
  unfolding merge_counts
  merge_counts_held [] p h = ground arith
  merge_counts_held ((k, n) ∷ l) p h =
      rw (merge_count_held k n p h.0) (merge_counts_held l _ h.1 ∙ ground arith)

  pub ignored_self-merge_counts :
      (l : Map Text ℕ) (p : Progress)
      → (merge_counts mine l p).ignored_self ≡ p.ignored_self + own_entries l
  unfolding merge_counts
  ignored_self-merge_counts [] p = omega arith
  ignored_self-merge_counts ((k, n) ∷ l) p =
      ground (arith, ignored_self-merge_counts l (merge_count mine k n p))

-- ===== src/Map/Sorted.antt =====
-- A map holds each key once, in order: `insert` and `remove` keep that, and it makes the length and
-- the keys of a map those of a finite set.
use mathlib.Core.Path.{subst}
use sightingdb.Common.{
  Bool-cases, [], ap, arith, false, if◌then◌else◌, inl, inr, length, none, refl, some, suc, true,
  ◌-◌, ◌∙◌, ◌∷◌, ◌≡◌, ◌≤◌,
}
use sightingdb.Map.{Map, contains, insert, lookup, or_insert, remove}
use sightingdb.Map.Laws.{contains-lookup}
use sightingdb.Order.{Ord, ◌==◌}

-- Every key of `m` is above `k`.
abbrev pub IsAbove : {K V : Type 0} ⦃o : Ord K⦄ → K → Map K V → Type 0
IsAbove k [] = Unit
IsAbove ⦃o⦄ k ((j, v) ∷ m) = (o.lt k j ≡ true) × IsAbove k m

abbrev pub IsSorted : {K V : Type 0} ⦃o : Ord K⦄ → Map K V → Type 0
IsSorted [] = Unit
IsSorted ((k, v) ∷ m) = IsAbove k m × IsSorted m

module _ {K V : Type 0} ⦃o : Ord K⦄ where
  pub IsAbove-trans : (k j : K) (m : Map K V) → o.lt k j ≡ true → IsAbove j m → IsAbove k m
  IsAbove-trans k j [] h a = tt
  IsAbove-trans k j ((i, w) ∷ m) h a = (o.lt_trans k j i h a.0, IsAbove-trans k j m h a.1)

  IsAbove-insert :
      (i k : K) (v : V) (m : Map K V) → o.lt i k ≡ true → IsAbove i m → IsAbove i (insert k v m)
  unfolding insert
  IsAbove-insert i k v [] h a = (h, tt)
  IsAbove-insert i k v ((j, w) ∷ m) h a = elim (Bool-cases (j == k)) [
    | inl e ↦ rw e (h, a.1)
    | inr e ↦ elim (Bool-cases (o.lt k j)) [
      | inl l ↦ rw (e, l) (h, a)
      | inr l ↦ rw (e, l) (a.0, IsAbove-insert i k v m h a.1)
    ]
  ]

  pub insert-IsSorted : (k : K) (v : V) (m : Map K V) → IsSorted m → IsSorted (insert k v m)
  unfolding insert
  insert-IsSorted k v [] s = (tt, tt)
  insert-IsSorted k v ((j, w) ∷ m) s = elim (Bool-cases (j == k)) [
    | inl e ↦ rw e (subst (λ x. IsAbove x m) ((o.beq_iff j k).0 e) s.0, s.1)
    | inr e ↦ elim (Bool-cases (o.lt k j)) [
      | inl l ↦ rw (e, l) ((l, IsAbove-trans k j m l s.0), s)
      | inr l ↦
          rw (e, l)
            (
              IsAbove-insert j k v m (o.lt_total k j l (ne_sym j k e)) s.0,
              insert-IsSorted k v m s.1,
            )
    ]
  ]
    where
      ne_sym : (a b : K) → (a == b) ≡ false → (b == a) ≡ false
      ne_sym a b h = ground (arith, o.beq_iff a b, o.beq_iff b a)

  IsAbove-remove : (i k : K) (m : Map K V) → IsAbove i m → IsAbove i (remove k m)
  unfolding remove
  IsAbove-remove i k [] a = tt
  IsAbove-remove i k ((j, w) ∷ m) a = elim (Bool-cases (j == k)) [
    | inl e ↦ rw e (IsAbove-remove i k m a.1)
    | inr e ↦ rw e (a.0, IsAbove-remove i k m a.1)
  ]

  pub remove-IsSorted : (k : K) (m : Map K V) → IsSorted m → IsSorted (remove k m)
  unfolding remove
  remove-IsSorted k [] s = tt
  remove-IsSorted k ((j, w) ∷ m) s = elim (Bool-cases (j == k)) [
    | inl e ↦ rw e (remove-IsSorted k m s.1)
    | inr e ↦ rw e (IsAbove-remove j k m s.0, remove-IsSorted k m s.1)
  ]

  pub or_insert-IsSorted : (k : K) (v : V) (m : Map K V) → IsSorted m → IsSorted (or_insert k v m)
  unfolding or_insert
  or_insert-IsSorted k v m s = elim (Bool-cases (contains k m)) [
    | inl e ↦ rw e s
    | inr e ↦ rw e (insert-IsSorted k v m s)
  ]

  pub lookup_above : (k : K) (m : Map K V) → IsAbove k m → lookup k m ≡ none
  unfolding lookup
  lookup_above k [] a = refl
  lookup_above k ((j, w) ∷ m) a = ground (arith, o.beq_iff j k, o.lt_irrefl k, lookup_above k m a.1)

  pub lookup_below : (k j : K) (m : Map K V) → o.lt k j ≡ true → IsAbove j m → lookup k m ≡ none
  lookup_below k j m h a = lookup_above k m (IsAbove-trans k j m h a)

  pub remove_absent : (k : K) (m : Map K V) → lookup k m ≡ none → remove k m ≡ m
  unfolding lookup remove
  remove_absent k [] h = refl
  remove_absent k ((j, w) ∷ m) h = ground (arith, remove_absent k m)

  pub length-insert :
      (k : K) (v : V) (m : Map K V)
      → IsSorted m
      → length (insert k v m) ≡ (if contains k m then length m else suc (length m))
  unfolding insert contains
  length-insert k v [] s = refl
  length-insert k v ((j, w) ∷ m) s =
      ground
        (arith, length-insert k v m s.1, IsAbove-trans k j m, lookup_above k m, contains-lookup k m)

  contains-pos : (k : K) (m : Map K V) → contains k m ≡ true → 1 ≤ length m
  unfolding contains
  contains-pos k [] h = ground arith
  contains-pos k ((j, w) ∷ m) h = omega arith

  pub length-remove :
      (k : K) (m : Map K V)
      → IsSorted m
      → length (remove k m) ≡ (if contains k m then length m - 1 else length m)
  unfolding remove contains
  length-remove k [] s = refl
  length-remove k ((j, w) ∷ m) s =
      let ih = length-remove k m s.1 in
      elim (Bool-cases (j == k)) [
        | inl e ↦ rw e (
            ap length (
              remove_absent k m
                (subst (λ x. lookup x m ≡ none) ((o.beq_iff j k).0 e) (lookup_above j m s.0)))
            ∙ omega arith)
        | inr e ↦ elim (Bool-cases (contains k m)) [
          | inl c ↦ rw (e, c) (let ih' = rw c at ih in omega (arith, contains-pos k m c))
          | inr c ↦ rw (e, c) (let ih' = rw c at ih in omega arith)
        ]
      ]

  -- Writing the value that is there changes nothing.
  pub insert_same :
      (k : K) (v : V) (m : Map K V) → IsSorted m → lookup k m ≡ some v → insert k v m ≡ m
  unfolding insert lookup
  insert_same k v [] s h = cc
  insert_same k v ((j, w) ∷ m) s h = elim (Bool-cases (j == k)) [
    | inl e ↦ ground (arith, o.beq_iff j k)
    | inr e ↦ elim (Bool-cases (o.lt k j)) [
      | inl l ↦ absurd (ground (arith, lookup_above k m (IsAbove-trans k j m l s.0)))
      | inr l ↦ rw (e, l) (ap (◌∷◌ (j, w)) (insert_same k v m s.1 (ground arith)))
    ]
  ]

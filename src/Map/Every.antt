-- ===== src/Map/Every.antt =====
-- A predicate of every entry of a map, and maps that keep the entries that pass a test.
use mathlib.Core.Path.{subst}
use sightingdb.Common.{
  All, Bool, Bool-cases, Option, [], arith, if◌then◌else◌, inl, inr, keep, none, refl, some, ◌∷◌,
  ◌≡◌,
}
use sightingdb.Map.{Map, insert, lookup, remove}
use sightingdb.Map.Sorted.{IsAbove, IsSorted, lookup_above}
use sightingdb.Order.{Ord, ◌==◌}

module _ {K V : Type 0} ⦃o : Ord K⦄ (P : V → Type 0) where
  pub Every-insert :
      (k : K) (v : V) (m : Map K V) → P v → All (λ e. P e.1) m → All (λ e. P e.1) (insert k v m)
  unfolding insert
  Every-insert k v [] p h = (p, tt)
  Every-insert k v ((j, w) ∷ m) p h = elim (Bool-cases (j == k)) [
    | inl e ↦ rw e (p, h.1)
    | inr e ↦ elim (Bool-cases (o.lt k j)) [
      | inl l ↦ rw (e, l) (p, h)
      | inr l ↦ rw (e, l) (h.0, Every-insert k v m p h.1)
    ]
  ]

  pub Every-remove : (k : K) (m : Map K V) → All (λ e. P e.1) m → All (λ e. P e.1) (remove k m)
  unfolding remove
  Every-remove k [] h = tt
  Every-remove k ((j, w) ∷ m) h = elim (Bool-cases (j == k)) [
    | inl e ↦ rw e (Every-remove k m h.1)
    | inr e ↦ rw e (h.0, Every-remove k m h.1)
  ]

  pub Every-lookup : (k : K) (m : Map K V) {v : V} → All (λ e. P e.1) m → lookup k m ≡ some v → P v
  unfolding lookup
  Every-lookup k [] h e = absurd (ground arith)
  Every-lookup k ((j, w) ∷ m) h e = elim (Bool-cases (j == k)) [
    | inl f ↦ subst P (ground arith) h.0
    | inr f ↦ Every-lookup k m h.1 (ground arith)
  ]

  pub Every-keep :
      (p : K × V → Bool) (m : Map K V) → All (λ e. P e.1) m → All (λ e. P e.1) (keep p m)
  Every-keep p [] h = tt
  Every-keep p (e ∷ m) h = elim (Bool-cases (p e)) [
    | inl f ↦ rw f (h.0, Every-keep p m h.1)
    | inr f ↦ rw f (Every-keep p m h.1)
  ]

abbrev pub passing : {V : Type 0} → (V → Bool) → Option V → Option V
passing p none = none
passing p (some v) = if p v then some v else none

module _ {K V : Type 0} ⦃o : Ord K⦄ (p : V → Bool) where
  abbrev keep_values : Map K V → Map K V
  keep_values = keep (λ e. p e.1)

  IsAbove-keep : (k : K) (m : Map K V) → IsAbove k m → IsAbove k (keep_values m)
  IsAbove-keep k [] a = tt
  IsAbove-keep k ((j, w) ∷ m) a = elim (Bool-cases (p w)) [
    | inl f ↦ rw f (a.0, IsAbove-keep k m a.1)
    | inr f ↦ rw f (IsAbove-keep k m a.1)
  ]

  pub keep-IsSorted : (m : Map K V) → IsSorted m → IsSorted (keep (λ e. p e.1) m)
  keep-IsSorted [] s = tt
  keep-IsSorted ((j, w) ∷ m) s = elim (Bool-cases (p w)) [
    | inl f ↦ rw f (IsAbove-keep j m s.0, keep-IsSorted m s.1)
    | inr f ↦ rw f (keep-IsSorted m s.1)
  ]

  -- What is kept can be looked up, and the rest cannot.
  pub lookup-keep :
      (k : K) (m : Map K V) → IsSorted m → lookup k (keep (λ e. p e.1) m) ≡ passing p (lookup k m)
  unfolding lookup
  lookup-keep k [] s = refl
  lookup-keep k ((j, w) ∷ m) s = ground (
    arith,
    lookup-keep k m s.1,
    lookup_above j (keep_values m) (IsAbove-keep j m s.0),
    o.beq_iff j k,
  )

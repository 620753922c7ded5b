-- ===== src/Namespace/Sweeping.antt =====
-- The flag `has_ttl`, what a sweep removes, and what a reader sees of it.
use sightingdb.Attribute.{Attribute, is_expired, new}
use sightingdb.Attribute.Expiry.{is_expired-zero}
use sightingdb.Chrono.{Chrono, DateTime}
use sightingdb.Common.{
  All, Bool-cases, List, Option, Option-cases, [], any, ap, arith, false, inl, inr, keep, not, refl,
  sym, true, unwrap_or, ℕ, ◌||◌, ◌∙◌, ◌∷◌, ◌≡◌, ◌⊎◌,
}
use sightingdb.Map.{Map, insert, keys, lookup, values}
use sightingdb.Map.Every.{Every-insert, Every-lookup, lookup-keep, passing}
use sightingdb.Map.Sorted.{IsSorted}
use sightingdb.Namespace.{
  Namespace, count_value, live, merge_payload, record_value, remove_expired, sets_ttl, touch,
}
use sightingdb.Order.{Text, text_ord}

abbrev pub NeverExpires : Attribute → Type 0
NeverExpires a = a.ttl ≡ 0

-- Where the flag is down no value has a time to live, so that a sweep may skip the namespace.
abbrev pub IsFlagged : Namespace → Type 0
IsFlagged ns = (ns.has_ttl ≡ true) ⊎ All (λ e. NeverExpires e.1) ns.cells

module _ ⦃c : Chrono⦄ where
  ttl-touch :
      (node : Text) (when : DateTime) (ttl : Option ℕ) (retention : ℕ) (tags : Text) (a : Attribute)
      → (touch node when ttl retention tags a).ttl ≡ unwrap_or ttl a.ttl
  unfolding touch
  ttl-touch node when ttl retention tags a = ground arith

  cells-record_value :
      (node value : Text) (when : DateTime) (ttl : Option ℕ) (retention : ℕ) (tags : Text)
      (ns : Namespace)
      → (record_value node value when ttl retention tags ns).namespace.cells
        ≡ insert value
            (touch node when ttl retention tags (unwrap_or (lookup value ns.cells) (new value)))
            ns.cells
  unfolding record_value
  cells-record_value node value when ttl retention tags ns = ground arith

  has_ttl-record_value :
      (node value : Text) (when : DateTime) (ttl : Option ℕ) (retention : ℕ) (tags : Text)
      (ns : Namespace)
      → (record_value node value when ttl retention tags ns).namespace.has_ttl
        ≡ (ns.has_ttl || sets_ttl ttl)
  unfolding record_value
  has_ttl-record_value node value when ttl retention tags ns = ground arith

  found_NeverExpires :
      (value : Text) (m : Map Text Attribute)
      → All (λ e. NeverExpires e.1) m
      → NeverExpires (unwrap_or (lookup value m) (new value))
  unfolding new
  found_NeverExpires value m h = elim (Option-cases (lookup value m)) [
    | inl l ↦ rw l
    | inr (a, l) ↦ rw l (Every-lookup NeverExpires value m h l)
  ]

  -- Where the flag is right, recording a sighting leaves it right, whatever time to live the sighting
  -- sets.
  pub record_value-IsFlagged :
      (node value : Text) (when : DateTime) (ttl : Option ℕ) (retention : ℕ) (tags : Text)
      (ns : Namespace)
      → IsFlagged ns
      → IsFlagged (record_value node value when ttl retention tags ns).namespace
  record_value-IsFlagged node value when ttl retention tags ns (inl f) =
      inl (rw (has_ttl-record_value node value when ttl retention tags ns, f))
  record_value-IsFlagged node value when ttl retention tags ns (inr h) =
      let found = unwrap_or (lookup value ns.cells) (new value) in
      elim (Bool-cases (sets_ttl ttl)) [
        | inl e ↦ inl (ground (arith, has_ttl-record_value node value when ttl retention tags ns))
        | inr e ↦ inr (
            rw (cells-record_value node value when ttl retention tags ns) (
              Every-insert NeverExpires value (touch node when ttl retention tags found) ns.cells
                (quiet found e (found_NeverExpires value ns.cells h)) h))
      ]
    where
      quiet :
          (a : Attribute)
          → sets_ttl ttl ≡ false
          → a.ttl ≡ 0
          → (touch node when ttl retention tags a).ttl ≡ 0
      quiet a e z = ground (arith, ttl-touch node when ttl retention tags a)

  all_kept :
      (now : DateTime) (m : Map Text Attribute)
      → any (λ (a : Attribute). is_expired now a) (values m) ≡ false
      → (live now m ≡ m)
        × (◌≡◌ {A = List Text} (keys (keep (λ (e : Text × Attribute). is_expired now e.1) m)) [])
  unfolding live
  all_kept now [] h = (refl, refl)
  all_kept now ((v, a) ∷ m) h = (ground (arith, all_kept now m), ground (arith, all_kept now m))

  none_expired :
      (now : DateTime) (m : Map Text Attribute)
      → All (λ e. NeverExpires e.1) m
      → any (λ (a : Attribute). is_expired now a) (values m) ≡ false
  none_expired now [] h = refl
  none_expired now ((v, a) ∷ m) h = rw (is_expired-zero now a h.0) (none_expired now m h.1)

  -- Where the flag is right, a sweep removes exactly the expired values and names them, whichever of
  -- its shortcuts it takes.
  pub remove_expired_lem :
      (now : DateTime) (ns : Namespace)
      → IsFlagged ns
      → ((remove_expired now ns).0.cells ≡ live now ns.cells)
        × ((remove_expired now ns).1
            ≡ keys (keep (λ (e : Text × Attribute). is_expired now e.1) ns.cells))
  unfolding remove_expired
  remove_expired_lem now ns f = elim (Bool-cases ns.has_ttl) [
    | inr e ↦
        let (a, b) = all_kept now ns.cells (none_expired now ns.cells (unflagged e f)) in
        (rw e (sym a), rw e (sym b))
    | inl e ↦ elim (Bool-cases (any (λ (a : Attribute). is_expired now a) (values ns.cells))) [
      | inr g ↦ let (a, b) = all_kept now ns.cells g in (rw (e, g) (sym a), rw (e, g) (sym b))
      | inl g ↦ (rw (e, g) refl, rw (e, g) refl)
    ]
  ]
    where
      unflagged : ns.has_ttl ≡ false → IsFlagged ns → All (λ e. NeverExpires e.1) ns.cells
      unflagged e (inl g) = absurd (ground arith)
      unflagged e (inr h) = h

  pub lookup-live :
      (value : Text) (now : DateTime) (m : Map Text Attribute)
      → IsSorted m
      → lookup value (live now m)
        ≡ passing (λ (a : Attribute). not (is_expired now a)) (lookup value m)
  unfolding live
  lookup-live value now m s = lookup-keep (λ (a : Attribute). not (is_expired now a)) value m s

  -- Where the flag is right and the values are in order, the count of a value and the copy of it that
  -- a peer is offered do not depend on whether a sweep has run.
  pub count_value-remove_expired :
      (value : Text) (now : DateTime) (ns : Namespace)
      → IsFlagged ns
      → IsSorted ns.cells
      → (count_value value now (remove_expired now ns).0 ≡ count_value value now ns)
        × (merge_payload value now (remove_expired now ns).0 ≡ merge_payload value now ns)
  unfolding count_value merge_payload
  count_value-remove_expired value now ns f s =
      let seen =
        ap (lookup value) (remove_expired_lem now ns f).0 ∙ lookup-live value now ns.cells s in
      (ground (arith, seen), ground (arith, seen))

-- ===== src/Writer/Refusing.antt =====
-- Which writes are refused, and what a refusal leaves.
use mathlib.Core.Path.{subst}
use sightingdb.Chrono.{Chrono, DateTime}
use sightingdb.Common.{
  Bool-cases, Option, [], ap, arith, false, inl, inr, refl, sym, true, ℕ, ◌↔◌, ◌∙◌, ◌∷◌, ◌≡◌, ◌⊎◌,
}
use sightingdb.Database.{Database, ShardData, Written}
use sightingdb.Error.{
  ApiError, config_namespace, empty_value, internal_namespace, invalid_timestamp, not_found,
  not_stored,
}
use sightingdb.Names.{is_internal}
use sightingdb.Order.{Text}
use sightingdb.Storage.{holds}
use sightingdb.Text.{is_empty}
use sightingdb.Writer.{accept, check, write_value}

-- A value that is empty, a namespace of the server's own and a namespace that is not stored here are
-- refused, in this order; every other write is let through.
pub check_iff :
    (db : Database) (namespace value : Text)
    → (check db namespace value ≡ inr tt) ↔ (
        (is_empty value ≡ false)
        × (is_internal namespace ≡ false)
        × (holds namespace db.stores ≡ true))
unfolding check
check_iff db namespace value = ground arith

-- Why a write is answered with an error.
abbrev pub IsReason : Database → Text → Text → ApiError → Type 0
IsReason db namespace value empty_value = value ≡ []
IsReason db namespace value (internal_namespace named) =
    (named ≡ namespace) × (is_empty value ≡ false) × (is_internal namespace ≡ true)
IsReason db namespace value (not_stored named) =
    (named ≡ namespace)
    × (is_empty value ≡ false)
    × (is_internal namespace ≡ false)
    × (holds namespace db.stores ≡ false)
IsReason db namespace value _ = ⊥

is_empty-eq : (s : Text) → is_empty s ≡ true → s ≡ []
is_empty-eq [] h = refl
is_empty-eq (c ∷ s) h = ground (arith, h)

IsReason-check :
    (db : Database) (namespace value : Text)
    → ((e : ApiError) × (check db namespace value ≡ inl e) × IsReason db namespace value e)
      ⊎ (check db namespace value ≡ inr tt)
unfolding check
IsReason-check db namespace value = elim (Bool-cases (is_empty value)) [
  | inl v ↦ inl (empty_value, rw v refl, is_empty-eq value v)
  | inr v ↦ elim (Bool-cases (is_internal namespace)) [
    | inl i ↦ inl (internal_namespace namespace, rw (v, i) refl, (refl, v, i))
    | inr i ↦ elim (Bool-cases (holds namespace db.stores)) [
      | inl s ↦ inr (rw (v, s, i) refl)
      | inr s ↦ inl (not_stored namespace, rw (v, s, i) refl, (refl, v, i, s))
    ]
  ]
]

check-IsReason :
    (db : Database) (namespace value : Text) (e : ApiError)
    → IsReason db namespace value e
    → check db namespace value ≡ inl e
unfolding check
check-IsReason db namespace value empty_value h = rw h refl
check-IsReason db namespace value (internal_namespace named) (same, v, i) = rw (v, i, same) refl
check-IsReason db namespace value (not_stored named) (same, v, i, s) = rw (v, s, i, same) refl
check-IsReason db namespace value config_namespace h = elim h [ ]
check-IsReason db namespace value (not_found m) h = elim h [ ]
check-IsReason db namespace value (invalid_timestamp at) h = elim h [ ]

left_inj : (f e : ApiError) → ◌≡◌ {A = ApiError ⊎ Written} (inl f) (inl e) → f ≡ e
left_inj f e h = cc

module _ ⦃c : Chrono⦄ (read_shard : Text → Option ShardData) (origin : Option Text)
    (namespace value : Text) (when : Option DateTime) (ttl : Option ℕ) (tags : Text)
    (now : DateTime) (db : Database) where
  abbrev outcome : Database × (ApiError ⊎ Written)
  outcome = write_value read_shard origin namespace value when ttl tags now db

  outcome-check : (e : ApiError) → check db namespace value ≡ inl e → outcome ≡ (db, inl e)
  unfolding write_value
  outcome-check e k = rw (write_value, k) refl

  accepted : check db namespace value ≡ inr tt → (e : ApiError) → outcome.1 ≡ inl e → ⊥
  unfolding write_value
  accepted k e h =
      let w : outcome.1 ≡ inr (accept read_shard origin namespace value when ttl tags now db).1 =
        rw (write_value, k) refl in
      ground (arith, w, h)

  -- A write answers with an error exactly where the value is empty, or else the namespace is the server's
  -- own, or else it is not stored here, with the error that says which; and then the database is as it
  -- was, counts of activity and latest writes included.
  pub refused_lem :
      (e : ApiError)
      → ((outcome.1 ≡ inl e) ↔ IsReason db namespace value e)
        × (IsReason db namespace value e → outcome.0 ≡ db)
  refused_lem e = (
    (
      λ h. elim (IsReason-check db namespace value) [
        | inl (f, k, why) ↦
            let same : f ≡ e = left_inj f e (sym (ap (λ p. p.1) (outcome-check f k)) ∙ h) in
            subst (λ x. IsReason db namespace value x) same why
        | inr k ↦ absurd (accepted k e h)
      ],
      λ why. ap (λ p. p.1) (outcome-check e (check-IsReason db namespace value e why)),
    ),
    λ why. ap (λ p. p.0) (outcome-check e (check-IsReason db namespace value e why)),
  )

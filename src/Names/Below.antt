-- ===== src/Names/Below.antt =====
-- What it means for a namespace to be under a prefix.
use sightingdb.Common.{Bool, [], arith, false, inl, inr, refl, true, ◌++◌, ◌||◌, ◌↔◌, ◌∷◌, ◌≡◌, ◌⊎◌}
use sightingdb.Names.{under}
use sightingdb.Order.{Text, text_eq, text_eq_iff}
use sightingdb.Text.{after_slash, is_empty, strip_prefix}
use sightingdb.Text.Prefix.{below_iff}

-- The prefix is empty, is the namespace, or is the namespace cut before one of its slashes.
abbrev pub IsUnder : Text → Text → Type 0
IsUnder namespace prefix =
    (prefix ≡ []) ⊎ ((namespace ≡ prefix) ⊎ ((rest : Text) × (namespace ≡ prefix ++ (b'/' ∷ rest))))

empty_iff : (s : Text) → (is_empty s ≡ true) ↔ (s ≡ [])
empty_iff [] = (λ h. refl, λ h. refl)
empty_iff (c ∷ s) = (λ h. cc, λ h. cc)

cases_of : (a b : Bool) → (a || b) ≡ true → (a ≡ true) ⊎ (b ≡ true)
cases_of true b h = inl refl
cases_of false b h = inr h

or_of : (a b : Bool) → (a ≡ true) ⊎ (b ≡ true) → (a || b) ≡ true
or_of a b (inl h) = ground (arith, h)
or_of a b (inr h) = ground (arith, h)

pub under_iff :
    (namespace prefix : Text) → (under namespace prefix ≡ true) ↔ IsUnder namespace prefix
unfolding under
under_iff namespace prefix =
    let none_given = is_empty prefix in
    let same = text_eq namespace prefix in
    let below = after_slash (strip_prefix prefix namespace) in
    (
      λ h. elim (cases_of (none_given || same) below h) [
        | inl k ↦ elim (cases_of none_given same k) [
          | inl e ↦ inl ((empty_iff prefix).0 e)
          | inr e ↦ inr (inl ((text_eq_iff namespace prefix).0 e))
        ]
        | inr e ↦ inr (inr ((below_iff namespace prefix).0 e))
      ],
      λ h. elim h [
        | inl e ↦
            or_of (none_given || same) below
              (inl (or_of none_given same (inl ((empty_iff prefix).1 e))))
        | inr k ↦ elim k [
          | inl e ↦
              or_of (none_given || same) below
                (inl (or_of none_given same (inr ((text_eq_iff namespace prefix).1 e))))
          | inr e ↦ or_of (none_given || same) below (inr ((below_iff namespace prefix).1 e))
        ]
      ],
    )

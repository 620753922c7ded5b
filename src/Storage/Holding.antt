-- ===== src/Storage/Holding.antt =====
-- What a storage policy holds.
use sightingdb.Common.{
  Bool, Bool-cases, List, [], any, arith, false, if◌then◌else◌, inl, inr, refl, true, ◌++◌, ◌||◌,
  ◌↔◌, ◌∷◌, ◌≡◌, ◌⊎◌,
}
use sightingdb.Names.{is_internal}
use sightingdb.Order.{Text, text_eq, text_eq_iff}
use sightingdb.Storage.{StoragePolicy, collect, holds, holds_under}
use sightingdb.Text.{
  after_slash, contains_text, is_empty, is_slash, strip_prefix, trim, trim_matches,
}
use sightingdb.Text.Prefix.{below_iff}

-- `namespace` is `prefix` or lies below it, by whole path segments.
abbrev pub IsAtOrBelow : Text → Text → Type 0
IsAtOrBelow namespace prefix =
    (namespace ≡ prefix) ⊎ ((rest : Text) × (namespace ≡ prefix ++ (b'/' ∷ rest)))

or_cases : (a b : Bool) → (a || b) ≡ true → (a ≡ true) ⊎ (b ≡ true)
or_cases true b h = inl refl
or_cases false b h = inr h

or_left : (a b : Bool) → a ≡ true → (a || b) ≡ true
or_left a b h = ground arith

or_right : (a b : Bool) → b ≡ true → (a || b) ≡ true
or_right a b h = ground arith

pub holds_under_iff :
    (namespace prefix : Text) → (holds_under namespace prefix ≡ true) ↔ IsAtOrBelow namespace prefix
unfolding holds_under
holds_under_iff namespace prefix = (sound, complete)
  where
    sound :
        (text_eq namespace prefix || after_slash (strip_prefix prefix namespace)) ≡ true
        → IsAtOrBelow namespace prefix
    sound h = elim (or_cases _ _ h) [
      | inl e ↦ inl ((text_eq_iff namespace prefix).0 e)
      | inr e ↦ inr ((below_iff namespace prefix).0 e)
    ]

    complete :
        IsAtOrBelow namespace prefix
        → (text_eq namespace prefix || after_slash (strip_prefix prefix namespace)) ≡ true
    complete (inl e) = or_left _ _ ((text_eq_iff namespace prefix).1 e)
    complete (inr e) = or_right _ _ ((below_iff namespace prefix).1 e)

-- Some prefix of the list is the namespace or lies above it.
pub data IsUnderOne (namespace : Text) : List Text → Type 0 where
  here :
      {prefix : Text} {rest : List Text}
      → IsAtOrBelow namespace prefix
      → IsUnderOne namespace (prefix ∷ rest)
  there :
      {prefix : Text} {rest : List Text}
      → IsUnderOne namespace rest
      → IsUnderOne namespace (prefix ∷ rest)

any_sound :
    (namespace : Text) (prefixes : List Text)
    → any (holds_under namespace) prefixes ≡ true
    → IsUnderOne namespace prefixes
any_sound namespace [] h = absurd (ground arith)
any_sound namespace (p ∷ ps) h = elim (or_cases _ _ h) [
  | inl e ↦ here ((holds_under_iff namespace p).0 e)
  | inr e ↦ there (any_sound namespace ps e)
]

any_complete :
    (namespace : Text) (prefixes : List Text)
    → IsUnderOne namespace prefixes
    → any (holds_under namespace) prefixes ≡ true
any_complete namespace [] u = elim u [ ]
any_complete namespace (p ∷ ps) (here e) = or_left _ _ ((holds_under_iff namespace p).1 e)
any_complete namespace (p ∷ ps) (there u) = or_right _ _ (any_complete namespace ps u)

-- A server holds a namespace exactly when the namespace is internal, the server holds everything,
-- or one of its prefixes is the namespace or lies above it, slashes at either end aside.
pub holds_iff :
    (namespace : Text) (policy : StoragePolicy)
    → (holds namespace policy ≡ true) ↔ (
        (is_internal namespace ≡ true)
        ⊎ ((policy.everything ≡ true)
            ⊎ IsUnderOne (trim_matches is_slash namespace) policy.prefixes))
unfolding holds
holds_iff namespace policy = (sound, complete)
  where
    name : Text
    name = trim_matches is_slash namespace

    sound :
        holds namespace policy ≡ true
        → (is_internal namespace ≡ true)
          ⊎ ((policy.everything ≡ true) ⊎ IsUnderOne name policy.prefixes)
    sound h = elim (Bool-cases (is_internal namespace)) [
      | inl e ↦ inl e
      | inr e ↦ elim (Bool-cases policy.everything) [
        | inl f ↦ inr (inl f)
        | inr f ↦ inr (inr (any_sound name policy.prefixes (ground arith)))
      ]
    ]

    complete :
        (is_internal namespace ≡ true)
          ⊎ ((policy.everything ≡ true) ⊎ IsUnderOne name policy.prefixes)
        → holds namespace policy ≡ true
    complete (inl e) = ground arith
    complete (inr (inl e)) = ground arith
    complete (inr (inr u)) = ground (arith, any_complete name policy.prefixes u)

-- A prefix that is the root, such as `/`, makes the policy hold everything, wherever it stands in
-- the list; only such a prefix does.
pub everything-from_prefixes :
    (prefixes held : List Text)
    → (collect prefixes held).everything
      ≡ any (λ raw. is_empty (trim_matches is_slash (trim raw))) prefixes
unfolding collect
everything-from_prefixes [] held = refl
everything-from_prefixes (p ∷ ps) held = ground (
  arith,
  everything-from_prefixes ps (
      if contains_text (trim_matches is_slash (trim p)) held
      then held
      else held ++ (trim_matches is_slash (trim p) ∷ [])),
)

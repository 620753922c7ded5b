-- ===== src/Text/Prefix.antt =====
-- `strip_prefix` finds exactly the texts that begin with the prefix, and gives the rest.
use mathlib.Core.Path.{ap₂}
use sightingdb.Common.{
  Bool-cases, Option-cases, [], ap, arith, eqb, eqb_iff, inl, inr, refl, some, sym, true, ℕ, ◌++◌,
  ◌↔◌, ◌∙◌, ◌∷◌, ◌≡◌,
}
use sightingdb.Order.{Text}
use sightingdb.Text.{after_slash, starts_with_char, strip_prefix}

pub strip_prefix-append : (p s : Text) → strip_prefix p (p ++ s) ≡ some s
unfolding strip_prefix
strip_prefix-append [] s = refl
strip_prefix-append (c ∷ p) s = rw ((eqb_iff c c).1 refl) (strip_prefix-append p s)

pub append-strip_prefix : (p s : Text) {rest : Text} → strip_prefix p s ≡ some rest → s ≡ p ++ rest
unfolding strip_prefix
append-strip_prefix [] s h = cc
append-strip_prefix (c ∷ p) [] h = absurd (ground arith)
append-strip_prefix (c ∷ p) (d ∷ s) {rest} h = elim (Bool-cases (eqb c d)) [
  | inl e ↦ ap₂ ◌∷◌ (sym ((eqb_iff c d).0 e)) (append-strip_prefix p s (ground arith))
  | inr e ↦ absurd (ground arith)
]

slash_front : (s : Text) → starts_with_char b'/' s ≡ true → (rest : Text) × (s ≡ b'/' ∷ rest)
slash_front [] h = absurd (ground arith)
slash_front (c ∷ s) h = (s, ap (λ (x : ℕ). x ∷ s) ((eqb_iff c b'/').0 h))

-- A text is the prefix and a slash and more exactly when the rest begins with a slash.
pub below_iff :
    (namespace prefix : Text)
    → (after_slash (strip_prefix prefix namespace) ≡ true)
      ↔ ((rest : Text) × (namespace ≡ prefix ++ (b'/' ∷ rest)))
below_iff namespace prefix = (
  λ h. elim (Option-cases (strip_prefix prefix namespace)) [
    | inl e ↦ absurd (ground arith)
    | inr (s, e) ↦
        let (rest, p) = slash_front s (ground arith) in
        (rest, append-strip_prefix prefix namespace e ∙ ap (λ t. prefix ++ t) p)
  ],
  λ (rest, p). ground (arith, strip_prefix-append prefix (b'/' ∷ rest)),
)

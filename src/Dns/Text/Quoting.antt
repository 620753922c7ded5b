-- ===== src/Dns/Text/Quoting.antt =====
-- A quoted field is read back to its end.
use mathlib.Core.List.{append_assoc}
use sightingdb.Common.{
  Bool-cases, Option, [], ap, arith, eqb, false, if◌then◌else◌, inl, inr, none, refl, some, ℕ, ◌++◌,
  ◌∷◌, ◌≡◌,
}
use sightingdb.Dns.Text.{quotation, quote, replace_char}
use sightingdb.Order.{Text}

-- A reader of a quoted field after its opening quote: a backslash takes the character that follows as it
-- is, and a quote ends the field.
unfoldable pub read_quoted : Text → Option (Text × Text)
read_quoted [] = none
read_quoted (c ∷ []) = if eqb c quotation then some ([], []) else none
read_quoted (c ∷ d ∷ s) =
    let after_escape = read_quoted s in
    let onward = read_quoted (d ∷ s) in
    if eqb c quotation
    then some ([], d ∷ s)
    else if eqb c b'\\'
    then elim after_escape [ none ↦ none | some (value, rest) ↦ some (d ∷ value, rest) ]
    else elim onward [ none ↦ none | some (value, rest) ↦ some (c ∷ value, rest) ]

abbrev escape : Text → Text
escape s =
    replace_char quotation (b'\\' ∷ quotation ∷ []) (replace_char b'\\' (b'\\' ∷ b'\\' ∷ []) s)

plain_char :
    (c : ℕ) (s : Text) {value rest : Text}
    → eqb c b'\\' ≡ false
    → eqb c quotation ≡ false
    → read_quoted s ≡ some (value, rest)
    → read_quoted (c ∷ s) ≡ some (c ∷ value, rest)
unfolding read_quoted
plain_char c [] e q h = absurd (ground arith)
plain_char c (d ∷ s) e q h = rw (q, e, h) refl

read_quoted-escape :
    (value rest : Text) → read_quoted (escape value ++ (quotation ∷ rest)) ≡ some (value, rest)
unfolding read_quoted replace_char
read_quoted-escape [] [] = refl
read_quoted-escape [] (d ∷ rest) = refl
read_quoted-escape (c ∷ value) rest = elim (Bool-cases (eqb c b'\\')) [
  | inl e ↦ rw (e, read_quoted-escape value rest) (ap (λ x. some (x ∷ value, rest)) (ground arith))
  | inr e ↦ elim (Bool-cases (eqb c quotation)) [
    | inl q ↦
        rw (e, q, read_quoted-escape value rest) (ap (λ x. some (x ∷ value, rest)) (ground arith))
    | inr q ↦
        rw (e, q)
          (plain_char c (escape value ++ (quotation ∷ rest)) e q (read_quoted-escape value rest))
  ]
]

-- What is quoted is read back whole, whatever it holds, and what follows the field is left: a tag with a
-- space or a quote cannot be taken for the next pair.
pub read_quoted-quote :
    (value rest : Text)
    → (body : Text) × (quote value ++ rest ≡ quotation ∷ body)
      × (read_quoted body ≡ some (value, rest))
unfolding quote
read_quoted-quote value rest = (
  escape value ++ (quotation ∷ rest),
  ap (λ t. quotation ∷ t) (append_assoc (escape value) (quotation ∷ []) rest),
  read_quoted-escape value rest,
)

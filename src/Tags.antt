-- ===== src/Tags.antt =====
-- src/tags.rs: what a tag means, and its colour. The file's text is read by the crate toml: `from_toml`
-- is given what it parsed.
pub mod Valid
pub mod Families
use sightingdb.Common.{
  Bool, List, Option, [], eqb, false, if◌then◌else◌, inl, inr, leb, ltb, none, not, some, true, ℕ,
  ◌&&◌, ◌||◌, ◌∷◌, ◌⊎◌,
}
use sightingdb.Map.{Map, contains, insert, lookup, remove}
use sightingdb.Order.{Text, text_eq, text_ord}
use sightingdb.Text.{all_chars, any_char, byte_len, is_empty, starts_with, strip_prefix, trim}

-- `MAX_NAME`
abbrev pub max_name : ℕ
max_name = 128

pub record Tag : Type 0 where
  pub colour : Text
  pub description : Text

-- `Vocabulary`
abbrev pub Vocabulary : Type 0
Vocabulary = Map Text Tag

pub data TagError : Type 0 where
  needs_name : TagError
  name_too_long : TagError
  has_comma : TagError
  has_outer_space : TagError
  has_control : TagError
  needs_hash : TagError
  bad_colour_length : TagError
  not_hexadecimal : TagError
  no_such_tag : TagError

-- `char::is_control`
abbrev pub is_control : ℕ → Bool
is_control c = ltb c 0x20 || (leb 0x7f c && ltb c 0xa0)

-- `char::is_ascii_hexdigit`
abbrev pub is_hex : ℕ → Bool
is_hex c = (leb b'0' c && leb c b'9') || (leb b'a' c && leb c b'f') || (leb b'A' c && leb c b'F')

-- `validate_colour`
unfoldable pub validate_colour : Text → TagError ⊎ Unit {0}
unfolding strip_prefix
validate_colour colour = elim (strip_prefix (b'#' ∷ []) colour) [
  | none ↦ inl needs_hash
  | some hex ↦
      if not (eqb (byte_len hex) 3) && not (eqb (byte_len hex) 6)
      then inl bad_colour_length
      else if not (all_chars is_hex hex)
      then inl not_hexadecimal
      else inr tt
]

-- `validate`
unfoldable pub validate : Text → Text → TagError ⊎ Unit {0}
unfolding validate_colour trim
validate name colour =
    if is_empty name
    then inl needs_name
    else if ltb max_name (byte_len name)
    then inl name_too_long
    else if any_char (eqb b',') name
    then inl has_comma
    else if not (text_eq (trim name) name)
    then inl has_outer_space
    else if any_char is_control name
    then inl has_control
    else validate_colour colour

-- the loop of `from_toml`: what does not validate is dropped
unfoldable pub keep_valid : List (Text × Tag) → Vocabulary → Vocabulary
unfolding validate insert
keep_valid [] tags = tags
keep_valid ((name, tag) ∷ rest) tags =
    let kept = keep_valid rest (insert name tag tags) in
    let dropped = keep_valid rest tags in
    elim (validate name tag.colour) [ inl e ↦ dropped | inr valid ↦ kept ]

-- `from_toml`, of what was parsed
abbrev pub from_toml : List (Text × Tag) → Vocabulary
from_toml parsed = keep_valid parsed []

-- `name.ends_with(':')`
abbrev pub is_family : Text → Bool
is_family [] = false
is_family (c ∷ []) = eqb c b':'
is_family (c ∷ d ∷ s) = is_family (d ∷ s)

-- the filter of `colour_of`
abbrev pub matches : Text → Text → Bool
matches tag name = is_family name && starts_with name tag

abbrev pub is_longer : Text → Option (Text × Tag) → Bool
is_longer name none = true
is_longer name (some held) = leb (byte_len held.0) (byte_len name)

-- `max_by_key` takes the last of those that are longest
unfoldable pub longest : Text → Vocabulary → Option (Text × Tag) → Option (Text × Tag)
unfolding starts_with
longest tag [] best = best
longest tag ((name, found) ∷ rest) best =
    longest tag rest (if matches tag name && is_longer name best then some (name, found) else best)

-- `colour_of`
unfoldable pub colour_of : Text → Vocabulary → Option Text
unfolding lookup longest
colour_of tag tags = elim (lookup tag tags) [
  | some known ↦ some known.colour
  | none ↦ elim (longest tag tags none) [ none ↦ none | some best ↦ some best.1.colour ]
]

module _ (to_lowercase : Text → Text) where
  -- `normalise_colour`; `to_lowercase` is `str::to_lowercase`
  abbrev pub normalise_colour : Text → Text
  normalise_colour colour = to_lowercase (trim colour)

  -- `set`
  unfoldable pub set_tag : Text → Text → Text → Vocabulary → Vocabulary × (TagError ⊎ Unit {0})
  unfolding validate insert trim
  set_tag name colour description tags = elim (validate (trim name) colour) [
    | inl e ↦ (tags, inl e)
    | inr valid ↦ (
      insert (trim name)
          (record { colour = normalise_colour colour; description = trim description }) tags,
      inr tt,
    )
  ]

-- `remove` of `Vocabulary`
unfoldable pub remove_tag : Text → Vocabulary → Vocabulary × (TagError ⊎ Unit {0})
unfolding contains remove trim
remove_tag name tags =
    if contains (trim name) tags then (remove (trim name) tags, inr tt) else (tags, inl no_such_tag)

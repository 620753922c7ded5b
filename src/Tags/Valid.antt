-- ===== src/Tags/Valid.antt =====
-- Every tag that is kept has a name that a value can carry.
use sightingdb.Common.{
  All, Bool-cases, List, [], arith, eqb, false, inl, inr, ltb, refl, sum_cases, true, ◌∷◌, ◌≡◌,
}
use sightingdb.Map.{contains, insert, remove}
use sightingdb.Order.{Text, text_eq, text_eq_iff, text_lt, text_ord, ◌==◌}
use sightingdb.TagText.{split_tags}
use sightingdb.Tags.{
  Tag, Vocabulary, from_toml, is_control, keep_valid, max_name, remove_tag, set_tag, validate,
}
use sightingdb.Text.{any_char, byte_len, is_empty, join, split, trim}
use sightingdb.Text.Split.{split-join}
use sightingdb.Text.Trim.{Lacks}

-- a name that a value's field of tags can carry as it is
abbrev pub IsUsable : Text → Type 0
IsUsable name =
    (is_empty name ≡ false)
    × (ltb max_name (byte_len name) ≡ false)
    × (any_char (eqb b',') name ≡ false)
    × (text_eq (trim name) name ≡ true)
    × (any_char is_control name ≡ false)

IsUsable-validate : (name colour : Text) → validate name colour ≡ inr tt → IsUsable name
unfolding validate
IsUsable-validate name colour h =
    (ground arith, ground arith, ground arith, ground arith, ground arith)

abbrev pub AllUsable : Vocabulary → Type 0
AllUsable tags = All (λ e. IsUsable e.0) tags

AllUsable-insert :
    (name : Text) (tag : Tag) (tags : Vocabulary)
    → IsUsable name
    → AllUsable tags
    → AllUsable (insert name tag tags)
unfolding insert
AllUsable-insert name tag [] p h = (p, tt)
AllUsable-insert name tag ((j, w) ∷ m) p h = elim (Bool-cases (j == name)) [
  | inl e ↦ rw e (p, h.1)
  | inr e ↦ elim (Bool-cases (text_lt name j)) [
    | inl l ↦ rw (e, l) (p, h)
    | inr l ↦ rw (e, l) (h.0, AllUsable-insert name tag m p h.1)
  ]
]

AllUsable-remove : (name : Text) (tags : Vocabulary) → AllUsable tags → AllUsable (remove name tags)
unfolding remove
AllUsable-remove name [] h = tt
AllUsable-remove name ((j, w) ∷ m) h = elim (Bool-cases (j == name)) [
  | inl e ↦ rw e (AllUsable-remove name m h.1)
  | inr e ↦ rw e (h.0, AllUsable-remove name m h.1)
]

AllUsable-keep_valid :
    (parsed : List (Text × Tag)) (tags : Vocabulary)
    → AllUsable tags
    → AllUsable (keep_valid parsed tags)
unfolding keep_valid
AllUsable-keep_valid [] tags h = h
AllUsable-keep_valid ((name, tag) ∷ rest) tags h = elim (sum_cases (validate name tag.colour)) [
  | inl (e, k) ↦ rw (keep_valid, k) (AllUsable-keep_valid rest tags h)
  | inr (valid, k) ↦
      rw (keep_valid, k)
        (AllUsable-keep_valid rest (insert name tag tags)
          (AllUsable-insert name tag tags (IsUsable-validate name tag.colour k) h))
]

module _ (to_lowercase : Text → Text) (name colour description : Text) (tags : Vocabulary) where
  AllUsable-set_tag :
      AllUsable tags → AllUsable (set_tag to_lowercase name colour description tags).0
  unfolding set_tag
  AllUsable-set_tag h = elim (sum_cases (validate (trim name) colour)) [
    | inl (e, k) ↦ rw (set_tag, k) h
    | inr (valid, k) ↦
        rw (set_tag, k)
          (AllUsable-insert (trim name) _ tags (IsUsable-validate (trim name) colour k) h)
  ]

  AllUsable-remove_tag : AllUsable tags → AllUsable (remove_tag name tags).0
  unfolding remove_tag
  AllUsable-remove_tag h = elim (Bool-cases (contains (trim name) tags)) [
    | inl e ↦ rw e (AllUsable-remove (trim name) tags h)
    | inr e ↦ rw e h
  ]

  -- Whatever file the vocabulary is read from, it holds usable names only; and setting or removing a tag,
  -- accepted or refused, keeps it so.
  pub AllUsable-vocabulary :
      (parsed : List (Text × Tag))
      → AllUsable tags
      → AllUsable (from_toml parsed)
        × AllUsable (set_tag to_lowercase name colour description tags).0
        × AllUsable (remove_tag name tags).0
  AllUsable-vocabulary parsed h =
      (AllUsable-keep_valid parsed [] tt, AllUsable-set_tag h, AllUsable-remove_tag h)

any_char-Lacks : (name : Text) → any_char (eqb b',') name ≡ false → Lacks b',' name
any_char-Lacks [] h = tt
any_char-Lacks (c ∷ s) h = (ground arith, any_char-Lacks s (ground arith))

-- A name that may be kept is read back from a value's field of tags as the one tag it is.
pub split_tags-IsUsable : (name : Text) → IsUsable name → split_tags name ≡ name ∷ []
unfolding split_tags join
split_tags-IsUsable name h =
    let whole : split b',' name ≡ name ∷ [] =
      split-join b',' name [] (any_char-Lacks name h.2, tt) in
    let trimmed : trim name ≡ name = (text_eq_iff (trim name) name).0 h.3 in
    rw (split_tags, whole, trimmed, h.0) refl

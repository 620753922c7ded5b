-- ===== src/Tags/Families.antt =====
-- Which family colours a tag.
use sightingdb.Common.{
  All, Bool, Bool-cases, Option, Option-cases, [], ap, arith, false, if◌then◌else◌, inl, inr, ltb,
  none, refl, some, sym, true, unwrap_or, ◌&&◌, ◌∙◌, ◌∷◌, ◌≡◌, ◌≤◌, ◌⊎◌,
}
use sightingdb.Map.{contains, lookup}
use sightingdb.Order.{Text, text_eq, text_eq_iff, text_ord}
use sightingdb.Tags.{Tag, Vocabulary, colour_of, is_longer, longest, matches}
use sightingdb.Text.{byte_len}

-- no entry of the vocabulary that colours `tag` has a name longer than `name`
abbrev pub IsLongest : Text → Vocabulary → Text → Type 0
IsLongest tag tags name =
    All (λ e. (matches tag e.0 && ltb (byte_len name) (byte_len e.0)) ≡ false) tags

abbrev IsNotBeaten : Option (Text × Tag) → Text × Tag → Type 0
IsNotBeaten none b = Unit {0}
IsNotBeaten (some held) b = byte_len held.0 ≤ byte_len b.0

module _ (tag : Text) where
  same_length :
      (held b : Text × Tag)
      → ◌≡◌ {A = Option (Text × Tag)} (some held) (some b)
      → byte_len held.0 ≤ byte_len b.0
  same_length held b h = ground (arith, ap (λ x. byte_len (unwrap_or x held).0) h)

  matches_of :
      (name : Text) (best : Option (Text × Tag))
      → (matches tag name && is_longer name best) ≡ true
      → matches tag name ≡ true
  matches_of name best e = ground arith

  taken :
      (name : Text) (found : Tag) (b : Text × Tag) (rest : Bool)
      → matches tag name ≡ true
      → some (name, found) ≡ some b
      → (matches tag b.0 ≡ true) × ((if text_eq name b.0 then true else rest) ≡ true)
  taken name found b rest m same =
      let p : name ≡ b.0 =
        ap (λ (x : Option (Text × Tag)). (unwrap_or {A = Text × Tag} x (name, found)).0) same in
      (ap (matches tag) (sym p) ∙ m, rw ((text_eq_iff name b.0).1 p) refl)

  not_beaten :
      (name : Text) (best : Option (Text × Tag)) (b : Text × Tag)
      → (matches tag name && is_longer name best) ≡ true
      → byte_len name ≤ byte_len b.0
      → IsNotBeaten best b
  not_beaten name none b e h = tt
  not_beaten name (some held) b e h = ground arith

  not_longer :
      (name : Text) (best : Option (Text × Tag)) (b : Text × Tag)
      → (matches tag name && is_longer name best) ≡ false
      → IsNotBeaten best b
      → (matches tag name && ltb (byte_len b.0) (byte_len name)) ≡ false
  not_longer name none b e h = ground arith
  not_longer name (some held) b e h = ground arith

  longest_from :
      (tags : Vocabulary) (best : Option (Text × Tag)) {b : Text × Tag}
      → longest tag tags best ≡ some b
      → ((best ≡ some b) ⊎ ((matches tag b.0 ≡ true) × (contains b.0 tags ≡ true)))
        × IsNotBeaten best b
        × IsLongest tag tags b.0
  unfolding longest contains
  longest_from [] none h = absurd (ground arith)
  longest_from [] (some held) {b} h = (inl h, same_length held b h, tt)
  longest_from ((name, found) ∷ tags) best {b} h =
      elim (Bool-cases (matches tag name && is_longer name best)) [
        | inl e ↦
            let (from, bound, rest) = longest_from tags (some (name, found)) {b = b} (rw e at h) in
            (
              elim from [
                | inl same ↦
                    inr (taken name found b (contains b.0 tags) (matches_of name best e) same)
                | inr (m, k) ↦ inr (m, ground (arith, k))
              ],
              not_beaten name best b e bound,
              (ground (arith, bound), rest),
            )
        | inr e ↦
            let (from, bound, rest) = longest_from tags best {b = b} (rw e at h) in
            (
              elim from [ inl same ↦ inl same | inr (m, k) ↦ inr (m, ground (arith, k)) ],
              bound,
              (not_longer name best b e bound, rest),
            )
      ]

  -- A tag that the vocabulary does not have itself takes the colour of a family in the vocabulary that it
  -- begins with, and no family in the vocabulary that it begins with has a longer name.
  pub colour_of_lem :
      (tags : Vocabulary) {colour : Text}
      → lookup tag tags ≡ none
      → colour_of tag tags ≡ some colour
      → (b : Text × Tag) × (b.1.colour ≡ colour)
        × (matches tag b.0 ≡ true)
        × (contains b.0 tags ≡ true)
        × IsLongest tag tags b.0
  unfolding colour_of
  colour_of_lem tags {colour} n h = elim (Option-cases (longest tag tags none)) [
    | inl k ↦ absurd (ground arith)
    | inr (b, k) ↦
        let w : colour_of tag tags ≡ some b.1.colour = rw (colour_of, n, k) refl in
        let same : b.1.colour ≡ colour = ap (λ (x : Option Text). unwrap_or x colour) (sym w ∙ h) in
        let (from, bound, rest) = longest_from tags none {b = b} k in
        elim from [
          | inl nothing ↦ absurd (ground (arith, nothing))
          | inr (m, held) ↦ (b, same, m, held, rest)
        ]
  ]

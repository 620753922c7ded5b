-- ===== src/Dns/Text/Pieces.antt =====
-- The character-strings of a TXT record.
use mathlib.Core.List.{append-nil}
use sightingdb.Common.{
  All, Bool-cases, List, [], ap, arith, inl, inr, leb, length, refl, suc, sym, true, zero, ℕ, ◌++◌,
  ◌+◌, ◌-◌, ◌∙◌, ◌∷◌, ◌≡◌, ◌≤◌,
}
use sightingdb.Dns.Text.{character_strings, max_string, pieces, split_at_boundary}
use sightingdb.Order.{Text}
use sightingdb.Text.{byte_len, join, utf8_width}

within : (w b room : ℕ) → leb w room ≡ true → b ≤ room - w → w + b ≤ room
within w b room e h = ground arith

at_most : (a b c : ℕ) → a ≤ b → suc b ≤ suc c → a ≤ c
at_most a b c h k = omega arith

join_cons : (part : Text) (parts : List Text) → join [] (part ∷ parts) ≡ part ++ join [] parts
unfolding join
join_cons part [] = sym (append-nil part)
join_cons part (p ∷ ps) = refl

split_at_boundary_lem :
    (room : ℕ) (s : Text)
    → ((split_at_boundary room s).0 ++ (split_at_boundary room s).1 ≡ s)
      × (byte_len (split_at_boundary room s).0 ≤ room)
unfolding split_at_boundary
split_at_boundary_lem room [] = (refl, omega arith)
split_at_boundary_lem room (c ∷ s) = elim (Bool-cases (leb (utf8_width c) room)) [
  | inl e ↦
      let (joined, bound) = split_at_boundary_lem (room - utf8_width c) s in
      rw e (
        ap (λ t. c ∷ t) joined,
        within (utf8_width c) (byte_len (split_at_boundary (room - utf8_width c) s).0) room e bound,
      )
  | inr e ↦ rw e (refl, omega arith)
]

length-rest : (room : ℕ) (s : Text) → length (split_at_boundary room s).1 ≤ length s
unfolding split_at_boundary
length-rest room [] = omega arith
length-rest room (c ∷ s) = ground (arith, length-rest (room - utf8_width c) s)

-- A character has at most four bytes, so that a turn takes one.
takes_one : (c : ℕ) (s : Text) → length (split_at_boundary max_string (c ∷ s)).1 ≤ length s
unfolding split_at_boundary
takes_one c s = ground (arith, length-rest (max_string - utf8_width c) s)

abbrev pub IsShort : Text → Type 0
IsShort part = byte_len part ≤ max_string

pieces_lem :
    (fuel : ℕ) (s : Text)
    → length s ≤ fuel
    → (join [] (pieces fuel s) ≡ s) × All IsShort (pieces fuel s)
unfolding pieces join
pieces_lem zero [] h = (refl, tt)
pieces_lem zero (c ∷ s) h = absurd (omega arith)
pieces_lem (suc fuel) [] h = (refl, tt)
pieces_lem (suc fuel) (c ∷ s) h =
    let cut = split_at_boundary max_string (c ∷ s) in
    let (joined, bound) = split_at_boundary_lem max_string (c ∷ s) in
    let (later, short) =
      pieces_lem fuel cut.1 (at_most (length cut.1) (length s) fuel (takes_one c s) h) in
    (join_cons cut.0 (pieces fuel cut.1) ∙ ap (λ t. cut.0 ++ t) later ∙ joined, (bound, short))

-- The strings of a record joined are the text, and none has more than 255 bytes, whatever the text:
-- the loop ends with all of it.
pub character_strings_lem :
    (s : Text) → (join [] (character_strings s) ≡ s) × All IsShort (character_strings s)
unfolding character_strings join
character_strings_lem s = elim (Bool-cases (leb (byte_len s) max_string)) [
  | inl e ↦ rw e (refl, (ground arith, tt))
  | inr e ↦ rw e (pieces_lem (length s) s (omega arith))
]

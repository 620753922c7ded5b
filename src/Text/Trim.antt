-- ===== src/Text/Trim.antt =====
-- Trimming: a trimmed text is trimmed already, and trimming brings no character in.
use sightingdb.Common.{
  All, Bool, Bool-cases, [], ap, arith, eqb, false, if◌then◌else◌, inl, inr, refl, true, ℕ, ◌&&◌,
  ◌∙◌, ◌∷◌, ◌≡◌,
}
use sightingdb.Order.{Text}
use sightingdb.Text.{is_empty, is_whitespace, trim, trim_end, trim_matches, trim_start}

-- No character of `s` is `c`.
abbrev pub Lacks : ℕ → Text → Type 0
Lacks c = All (λ x. eqb x c ≡ false)

module _ (p : ℕ → Bool) where
  trim_end_idem : (s : Text) → trim_end p (trim_end p s) ≡ trim_end p s
  unfolding trim_end
  trim_end_idem [] = refl
  trim_end_idem (c ∷ s) = ground (arith, trim_end_idem s)

  trim_start_idem : (s : Text) → trim_start p (trim_start p s) ≡ trim_start p s
  unfolding trim_start
  trim_start_idem [] = refl
  trim_start_idem (c ∷ s) = ground (arith, trim_start_idem s)

  trim_end-trim_start : (s : Text) → trim_end p s ≡ s → trim_end p (trim_start p s) ≡ trim_start p s
  unfolding trim_start trim_end
  trim_end-trim_start [] h = refl
  trim_end-trim_start (c ∷ s) h = ground (arith, trim_end-trim_start s)

  pub trim_matches_idem : (s : Text) → trim_matches p (trim_matches p s) ≡ trim_matches p s
  unfolding trim_matches
  trim_matches_idem s =
      ap (trim_start p) (trim_end-trim_start (trim_end p s) (trim_end_idem s))
      ∙ trim_start_idem (trim_end p s)

  module _ (c : ℕ) where
    Lacks-trim_start : (s : Text) → Lacks c s → Lacks c (trim_start p s)
    unfolding trim_start
    Lacks-trim_start [] h = tt
    Lacks-trim_start (x ∷ s) h = elim (Bool-cases (p x)) [
      | inl e ↦ rw e (Lacks-trim_start s h.1)
      | inr e ↦ rw e h
    ]

    Lacks-trim_end : (s : Text) → Lacks c s → Lacks c (trim_end p s)
    unfolding trim_end
    Lacks-trim_end [] h = tt
    Lacks-trim_end (x ∷ s) h = elim (Bool-cases (is_empty (trim_end p s) && p x)) [
      | inl e ↦ rw e tt
      | inr e ↦ rw e (h.0, Lacks-trim_end s h.1)
    ]

    pub Lacks-trim_matches : (s : Text) → Lacks c s → Lacks c (trim_matches p s)
    unfolding trim_matches
    Lacks-trim_matches s h = Lacks-trim_start (trim_end p s) (Lacks-trim_end s h)

pub trim_idem : (s : Text) → trim (trim s) ≡ trim s
unfolding trim
trim_idem = trim_matches_idem is_whitespace

pub Lacks-trim : (c : ℕ) (s : Text) → Lacks c s → Lacks c (trim s)
unfolding trim
Lacks-trim = Lacks-trim_matches is_whitespace

module _ (p : ℕ → Bool) where
  -- What trims away in front of a text does not matter.
  pub trim_matches_cons :
      (c : ℕ) (s : Text) → p c ≡ true → trim_matches p (c ∷ s) ≡ trim_matches p s
  unfolding trim_matches trim_start trim_end
  trim_matches_cons c s h = empty_or_not (trim_end p s)
    where
      empty_or_not :
          (r : Text) → trim_start p (if is_empty r && p c then [] else c ∷ r) ≡ trim_start p r
      empty_or_not [] = rw h
      empty_or_not (x ∷ r) = rw h

  -- A text that begins with a character that stays keeps it.
  pub trim_end_cons : (c : ℕ) (s : Text) → p c ≡ false → trim_end p (c ∷ s) ≡ c ∷ trim_end p s
  unfolding trim_end
  trim_end_cons c s h = ground arith

  pub trim_start_cons : (c : ℕ) (s : Text) → p c ≡ false → trim_start p (c ∷ s) ≡ c ∷ s
  unfolding trim_start
  trim_start_cons c s h = rw h

  pub trim_matches-trim_end : (s : Text) → trim_matches p (trim_end p s) ≡ trim_matches p s
  unfolding trim_matches
  trim_matches-trim_end s = ap (trim_start p) (trim_end_idem p s)

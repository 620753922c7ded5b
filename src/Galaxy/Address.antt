-- ===== src/Galaxy/Address.antt =====
-- The address in the URL of a peer.
use sightingdb.Common.{
  Option, [], ap, arith, length, length-append, none, refl, some, suc, zero, ℕ, ◌+◌, ◌∙◌, ◌∷◌, ◌≡◌,
  ◌≤◌,
}
use sightingdb.Galaxy.Editing.{strip_all, trim_start_matches}
use sightingdb.Order.{Text}
use sightingdb.Text.{strip_prefix}
use sightingdb.Text.Prefix.{append-strip_prefix}

strip_prefix-shorter :
    (prefix s rest : Text)
    → strip_prefix prefix s ≡ some rest
    → length s ≡ length prefix + length rest
strip_prefix-shorter prefix s rest h =
    ap (λ (t : Text). length t) (append-strip_prefix prefix s h) ∙ length-append prefix rest

module _ (p : ℕ) (ps : Text) where
  no_characters : (s : Text) → length s ≤ 0 → strip_prefix (p ∷ ps) s ≡ none
  unfolding strip_prefix
  no_characters [] h = refl
  no_characters (c ∷ s) h = ground (arith, h)

  -- A prefix taken off as often as there are characters is not there any more.
  strip_prefix-strip_all :
      (n : ℕ) (s : Text) → length s ≤ n → strip_prefix (p ∷ ps) (strip_all n (p ∷ ps) s) ≡ none
  unfolding strip_all
  strip_prefix-strip_all zero s h = no_characters s h
  strip_prefix-strip_all (suc n) s h = once (strip_prefix (p ∷ ps) s) refl (λ rest e.
      strip_prefix-strip_all n rest (omega (arith, h, strip_prefix-shorter (p ∷ ps) s rest e)))
    where
      once :
          (found : Option Text)
          → strip_prefix (p ∷ ps) s ≡ found
          → ((rest : Text)
              → strip_prefix (p ∷ ps) s ≡ some rest
              → strip_prefix (p ∷ ps) (strip_all n (p ∷ ps) rest) ≡ none)
          → strip_prefix (p ∷ ps) (elim found [ none ↦ s | some rest ↦ strip_all n (p ∷ ps) rest ])
            ≡ none
      once none e onward = e
      once (some rest) e onward = onward rest e

-- `trim_start_matches` leaves no prefix at the start.
strip_prefix-trim_start_matches :
    (p : ℕ) (ps s : Text) → strip_prefix (p ∷ ps) (trim_start_matches (p ∷ ps) s) ≡ none
unfolding trim_start_matches
strip_prefix-trim_start_matches p ps s = strip_prefix-strip_all p ps (length s) s (omega arith)

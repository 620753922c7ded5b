-- ===== src/Text/Split.antt =====
-- Splitting on a separator and joining by it undo one another.
use sightingdb.Common.{
  All, Bool, Bool-cases, List, [], ap, arith, eqb, eqb_iff, false, inl, inr, keep, map, not, refl,
  true, ℕ, ◌++◌, ◌∙◌, ◌∷◌, ◌≡◌, ◌≢◌,
}
use sightingdb.Order.{Text}
use sightingdb.Text.{is_empty, join, push_front, segments, split}
use sightingdb.Text.Trim.{Lacks}

Lacks-push_front :
    (sep c : ℕ) (ss : List Text)
    → eqb c sep ≡ false
    → All (Lacks sep) ss
    → All (Lacks sep) (push_front c ss)
Lacks-push_front sep c [] e h = ((e, tt), tt)
Lacks-push_front sep c (s ∷ ss) e h = ((e, h.0), h.1)

-- No piece has the separator in it.
pub Lacks-split : (sep : ℕ) (s : Text) → All (Lacks sep) (split sep s)
unfolding split
Lacks-split sep [] = (tt, tt)
Lacks-split sep (c ∷ s) = elim (Bool-cases (eqb c sep)) [
  | inl e ↦ rw e (tt, Lacks-split sep s)
  | inr e ↦ rw e (Lacks-push_front sep c (split sep s) e (Lacks-split sep s))
]

split_lacking : (sep : ℕ) (s : Text) → Lacks sep s → split sep s ≡ s ∷ []
unfolding split
split_lacking sep [] h = refl
split_lacking sep (c ∷ s) h = rw (h.0, split_lacking sep s h.1)

split-append : (sep : ℕ) (s t : Text) → Lacks sep s → split sep (s ++ (sep ∷ t)) ≡ s ∷ split sep t
unfolding split
split-append sep [] t h = rw (eqb_refl sep)
  where
    eqb_refl : (n : ℕ) → eqb n n ≡ true
    eqb_refl n = ground arith
split-append sep (c ∷ s) t h = rw (h.0, split-append sep s t h.1)

-- Pieces without the separator come back from their join.
pub split-join :
    (sep : ℕ) (s : Text) (ss : List Text)
    → All (Lacks sep) (s ∷ ss)
    → split sep (join (sep ∷ []) (s ∷ ss)) ≡ s ∷ ss
unfolding join
split-join sep s [] h = split_lacking sep s h.0
split-join sep s (t ∷ ss) h =
    split-append sep s (join (sep ∷ []) (t ∷ ss)) h.0 ∙ ap (◌∷◌ s) (split-join sep t ss h.1)

push_front-append :
    (c : ℕ) (ss ts : List Text) → ss ≢ [] → push_front c (ss ++ ts) ≡ push_front c ss ++ ts
push_front-append c [] ts h = absurd (h refl)
push_front-append c (s ∷ ss) ts h = refl

push_front-ne-nil : (c : ℕ) (ss : List Text) → push_front c ss ≢ []
push_front-ne-nil c [] h = cc
push_front-ne-nil c (s ∷ ss) h = cc

split-ne-nil : (sep : ℕ) (s : Text) → split sep s ≢ []
unfolding split
split-ne-nil sep [] h = cc
split-ne-nil sep (c ∷ s) h = elim (Bool-cases (eqb c sep)) [
  | inl e ↦ let h' = rw e at h in cc
  | inr e ↦ push_front-ne-nil c (split sep s) (rw e at h)
]

-- A separator between two texts separates their pieces.
pub split_between : (sep : ℕ) (s t : Text) → split sep (s ++ (sep ∷ t)) ≡ split sep s ++ split sep t
unfolding split
split_between sep [] t = rw ((eqb_iff sep sep).1 refl)
split_between sep (c ∷ s) t = elim (Bool-cases (eqb c sep)) [
  | inl e ↦ rw e (ap (◌∷◌ []) (split_between sep s t))
  | inr e ↦
      rw (e, split_between sep s t)
        (push_front-append c (split sep s) (split sep t) (split-ne-nil sep s))
]

keep-append {ℓ} :
    {A : Type ℓ} (p : A → Bool) (xs ys : List A) → keep p (xs ++ ys) ≡ keep p xs ++ keep p ys
keep-append p [] ys = refl
keep-append p (x ∷ xs) ys = elim (Bool-cases (p x)) [
  | inl e ↦ rw e (ap (◌∷◌ x) (keep-append p xs ys))
  | inr e ↦ rw e (keep-append p xs ys)
]

-- The segments of a path below another are those of the one, then those of the other.
pub segments-append : (s t : Text) → segments (s ++ (b'/' ∷ t)) ≡ segments s ++ segments t
unfolding segments
segments-append s t =
    ap (keep (λ segment. not (is_empty segment))) (split_between b'/' s t)
    ∙ keep-append (λ segment. not (is_empty segment)) (split b'/' s) (split b'/' t)

-- As `split-join`, where a space follows each separator: it stays in front of the pieces.
pub split-join_spaced :
    (sep : ℕ) (s : Text) (ss : List Text)
    → eqb 32 sep ≡ false
    → All (Lacks sep) (s ∷ ss)
    → split sep (join (sep ∷ 32 ∷ []) (s ∷ ss)) ≡ s ∷ map (λ t. 32 ∷ t) ss
unfolding join split
split-join_spaced sep s [] e h = split_lacking sep s h.0
split-join_spaced sep s (t ∷ ss) e h =
    split-append sep s (32 ∷ join (sep ∷ 32 ∷ []) (t ∷ ss)) h.0
    ∙ ap (◌∷◌ s) (rw (e, split-join_spaced sep t ss e h.1))

-- ===== src/Attribute/TagSet.antt =====
-- Tags are a set that is written as a text: what `split_tags` reads back from what `add_tags` and
-- `set_tags` write.
use sightingdb.Attribute.{Attribute, set_tags}
use sightingdb.Common.{
  All, All-append, Bool, Bool-cases, List, [], ap, arith, false, if◌then◌else◌, inl, inr, keep, map,
  not, refl, true, ◌++◌, ◌||◌, ◌∙◌, ◌∷◌, ◌≡◌,
}
use sightingdb.Int.{ℤ}
use sightingdb.Order.{Text, text_eq, text_eq_iff}
use sightingdb.TagText.{add_tags, has_new, push_new, split_tags}
use sightingdb.Text.{contains_text, is_empty, join, split, trim}
use sightingdb.Text.Split.{Lacks-split, split-join}
use sightingdb.Text.Trim.{Lacks, Lacks-trim, trim_idem}

-- A tag as `split_tags` gives it: not empty, trimmed, and with no comma in it.
abbrev pub IsClean : Text → Type 0
IsClean tag = (is_empty tag ≡ false) × (trim tag ≡ tag) × Lacks b',' tag

IsClean-pieces :
    (pieces : List Text)
    → All (Lacks b',') pieces
    → All IsClean (keep (λ tag. not (is_empty tag)) (map trim pieces))
IsClean-pieces [] h = tt
IsClean-pieces (t ∷ ts) h = elim (Bool-cases (is_empty (trim t))) [
  | inl e ↦ rw e (IsClean-pieces ts h.1)
  | inr e ↦ rw e ((e, trim_idem t, Lacks-trim b',' t h.0), IsClean-pieces ts h.1)
]

pub split_tags-IsClean : (tags : Text) → All IsClean (split_tags tags)
unfolding split_tags
split_tags-IsClean tags = IsClean-pieces (split b',' tags) (Lacks-split b',' tags)

keep_clean : (ts : List Text) → All IsClean ts → keep (λ tag. not (is_empty tag)) (map trim ts) ≡ ts
keep_clean [] h = refl
keep_clean (t ∷ ts) h = rw (h.0.1, h.0.0) (ap (◌∷◌ t) (keep_clean ts h.1))

lacking : (ts : List Text) → All IsClean ts → All (Lacks b',') ts
lacking [] h = tt
lacking (t ∷ ts) h = (h.0.2, lacking ts h.1)

-- What is joined is read back, tag by tag and in order.
pub split_tags-join : (ts : List Text) → All IsClean ts → split_tags (join (b',' ∷ []) ts) ≡ ts
unfolding split_tags join trim
split_tags-join [] h = refl
split_tags-join (t ∷ ts) h =
    ap (λ pieces. keep (λ tag. not (is_empty tag)) (map trim pieces))
      (split-join b',' t ts (lacking (t ∷ ts) h))
    ∙ keep_clean (t ∷ ts) h

contains_text-append :
    (x : Text) (ts us : List Text)
    → contains_text x (ts ++ us) ≡ (contains_text x ts || contains_text x us)
unfolding contains_text
contains_text-append x [] us = refl
contains_text-append x (t ∷ ts) us = ground (arith, contains_text-append x ts us)

pub contains_text-push_new :
    (x : Text) (ts held : List Text)
    → contains_text x (push_new ts held) ≡ (contains_text x ts || contains_text x held)
unfolding push_new contains_text
contains_text-push_new x [] held = refl
contains_text-push_new x (t ∷ ts) held = ground (
  arith,
  contains_text-push_new x ts (if contains_text t held then held else held ++ (t ∷ [])),
  contains_text-append x held (t ∷ []),
  text_eq_iff t x,
)

-- Every tag of `ts` is held.
abbrev pub AllIn : List Text → List Text → Type 0
AllIn ts held = All (λ t. contains_text t held ≡ true) ts

pub has_new_known : (ts held : List Text) → AllIn ts held → has_new ts held ≡ false
unfolding has_new
has_new_known [] held h = refl
has_new_known (t ∷ ts) held h = rw h.0 (has_new_known ts held h.1)

known_has_new :
    (x : Text) (ts held : List Text)
    → has_new ts held ≡ false
    → contains_text x ts ≡ true
    → contains_text x held ≡ true
unfolding has_new contains_text
known_has_new x [] held h k = ground arith
known_has_new x (t ∷ ts) held h k = ground (arith, known_has_new x ts held, text_eq_iff t x)

pub AllIn-of :
    (ts held : List Text)
    → ((x : Text) → contains_text x ts ≡ true → contains_text x held ≡ true)
    → AllIn ts held
unfolding contains_text
AllIn-of [] held h = tt
AllIn-of (t ∷ ts) held h = (
  h t (rw ((text_eq_iff t t).1 refl)),
  AllIn-of ts held (λ x k. h x (or_right (text_eq t x) _ k)),
)
  where
    or_right : (a b : Bool) → b ≡ true → (a || b) ≡ true
    or_right a b e = ground arith

push_new-IsClean :
    (ts held : List Text) → All IsClean ts → All IsClean held → All IsClean (push_new ts held)
unfolding push_new
push_new-IsClean [] held h k = k
push_new-IsClean (t ∷ ts) held h k = elim (Bool-cases (contains_text t held)) [
  | inl e ↦ rw e (push_new-IsClean ts held h.1 k)
  | inr e ↦ rw e (push_new-IsClean ts _ h.1 (All-append IsClean held (t ∷ []) k (h.0, tt)))
]

-- A tag is held after `add_tags` exactly when it was held or is one of the new ones.
pub contains_text-add_tags :
    (x new_tags held : Text)
    → contains_text x (split_tags (add_tags new_tags held))
      ≡ (contains_text x (split_tags new_tags) || contains_text x (split_tags held))
unfolding add_tags
contains_text-add_tags x new_tags held = elim (Bool-cases (has_new added old)) [
  | inl e ↦
      rw
        (
          e,
          split_tags-join (push_new added old)
              (push_new-IsClean added old (split_tags-IsClean new_tags) (split_tags-IsClean held)),
        )
        (contains_text-push_new x added old)
  | inr e ↦ rw e (ground (arith, known_has_new x added old e))
]
  where
    added : List Text
    added = split_tags new_tags

    old : List Text
    old = split_tags held

-- Tags that are all held change nothing, the order and the spelling of the text included.
pub add_tags_known :
    (new_tags held : Text)
    → AllIn (split_tags new_tags) (split_tags held)
    → add_tags new_tags held ≡ held
unfolding add_tags
add_tags_known new_tags held h = rw (has_new_known (split_tags new_tags) (split_tags held) h)

-- Adding the same tags again changes nothing, the text that they are written in included.
pub add_tags_idem :
    (new_tags held : Text) → add_tags new_tags (add_tags new_tags held) ≡ add_tags new_tags held
add_tags_idem new_tags held = add_tags_known new_tags (add_tags new_tags held) (
    AllIn-of (split_tags new_tags) (split_tags (add_tags new_tags held))
      (λ x k. contains_text-add_tags x new_tags held ∙ rw k))

-- A tag is held after `set_tags` exactly when it is one of those that were set.
pub contains_text-set_tags :
    (x new_tags : Text) (at : ℤ) (a : Attribute)
    → contains_text x (split_tags (set_tags new_tags at a).tags)
      ≡ contains_text x (split_tags new_tags)
unfolding set_tags contains_text
contains_text-set_tags x new_tags at a =
    rw
      (split_tags-join (push_new (split_tags new_tags) [])
        (push_new-IsClean (split_tags new_tags) [] (split_tags-IsClean new_tags) tt))
      (contains_text-push_new x (split_tags new_tags) []
        ∙ or_false (contains_text x (split_tags new_tags)))
  where
    or_false : (b : Bool) → (b || false) ≡ b
    or_false b = ground arith

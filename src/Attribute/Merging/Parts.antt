-- ===== src/Attribute/Merging/Parts.antt =====
-- The window, the tags and the time to live under `merge`.
use sightingdb.Attribute.Merging.{merge_first, merge_last, merge_tags, merge_ttl}
use sightingdb.Attribute.TagSet.{AllIn-of, add_tags_idem, add_tags_known, contains_text-add_tags}
use sightingdb.Chrono.{DateTime}
use sightingdb.Common.{
  Bool, Option, [], arith, eqb, false, if◌then◌else◌, leb, min, none, refl, some, suc, true, zero,
  ℕ, ◌||◌, ◌∷◌, ◌≡◌, ◌≤◌,
}
use sightingdb.Int.{eqb_ℤ_iff, ltb_ℤ, ltb_ℤ_irrefl, max_ℤ, ℤ}
use sightingdb.Order.{Text}
use sightingdb.TagText.{add_tags, split_tags}
use sightingdb.Text.{contains_text, split}

-- The shorter of two times to live, where 0 is the longest of all.
pub merge_ttl_comm : (a b : ℕ) → merge_ttl a b ≡ merge_ttl b a
unfolding merge_ttl
merge_ttl_comm zero zero = refl
merge_ttl_comm zero (suc b) = refl
merge_ttl_comm (suc a) zero = refl
merge_ttl_comm (suc a) (suc b) = omega arith

merge_ttl_pos : (a b : ℕ) → (x : ℕ) × (merge_ttl (suc a) b ≡ suc x) × (x ≤ a)
unfolding merge_ttl
merge_ttl_pos a zero = (a, refl, omega arith)
merge_ttl_pos a (suc b) = (min a b, omega arith, omega arith)

pub merge_ttl_lem :
    (a b : ℕ)
    → merge_ttl a b ≡ (if eqb a 0 then b else if eqb b 0 then a else if leb a b then a else b)
unfolding merge_ttl
merge_ttl_lem zero b = ground arith
merge_ttl_lem (suc a) zero = ground arith
merge_ttl_lem (suc a) (suc b) = ground arith

-- Three times to live merge to the same one, however they are grouped.
pub merge_ttl_assoc : (a b c : ℕ) → merge_ttl (merge_ttl a b) c ≡ merge_ttl a (merge_ttl b c)
merge_ttl_assoc a b c = ground (
  arith,
  merge_ttl_lem a b,
  merge_ttl_lem b c,
  merge_ttl_lem (merge_ttl a b) c,
  merge_ttl_lem a (merge_ttl b c),
)

pub merge_ttl_idem : (a b : ℕ) → merge_ttl (merge_ttl a b) b ≡ merge_ttl a b
merge_ttl_idem a b = ground (arith, merge_ttl_lem a b, merge_ttl_lem (merge_ttl a b) b)

-- Once a first sighting is merged, merging it again changes nothing, even where the value still
-- looks unseen; likewise the last sighting.
pub merge_first_idem :
    (unseen again : Bool) (theirs : Option DateTime) (ours : DateTime)
    → (again ≡ true → unseen ≡ true)
    → merge_first again theirs (merge_first unseen theirs ours).0
      ≡ ((merge_first unseen theirs ours).0, false)
unfolding merge_first
merge_first_idem unseen again none ours h = refl
merge_first_idem unseen again (some t) ours h = ground (arith, ltb_ℤ_irrefl t, eqb_ℤ_iff t t)

pub merge_last_idem :
    (unseen again : Bool) (theirs : Option DateTime) (ours : DateTime)
    → (again ≡ true → unseen ≡ true)
    → merge_last again theirs (merge_last unseen theirs ours).0
      ≡ ((merge_last unseen theirs ours).0, false)
unfolding merge_last
merge_last_idem unseen again none ours h = refl
merge_last_idem unseen again (some t) ours h = ground (arith, ltb_ℤ_irrefl t, eqb_ℤ_iff t t)

-- The later replacement of a tag set is taken whole; equal times give the union.
pub contains_text-merge_tags :
    (x theirs : Text) (theirs_at : ℤ) (ours : Text) (ours_at : ℤ)
    → contains_text x (split_tags (merge_tags theirs theirs_at ours ours_at).0) ≡ (
        if ltb_ℤ ours_at theirs_at
        then contains_text x (split_tags theirs)
        else if ltb_ℤ theirs_at ours_at
        then contains_text x (split_tags ours)
        else contains_text x (split_tags theirs) || contains_text x (split_tags ours))
unfolding merge_tags split_tags split contains_text
contains_text-merge_tags x [] theirs_at ours ours_at = ground arith
contains_text-merge_tags x (t ∷ ts) theirs_at ours ours_at =
    ground (arith, contains_text-add_tags x (t ∷ ts) ours)

pub tags_at-merge_tags :
    (theirs : Text) (theirs_at : ℤ) (ours : Text) (ours_at : ℤ)
    → (merge_tags theirs theirs_at ours ours_at).1 ≡ max_ℤ ours_at theirs_at
unfolding merge_tags
tags_at-merge_tags theirs theirs_at ours ours_at = ground arith

add_tags_self : (tags : Text) → add_tags tags tags ≡ tags
add_tags_self tags =
    add_tags_known tags tags (AllIn-of (split_tags tags) (split_tags tags) (λ x k. k))

pub merge_tags_idem :
    (theirs : Text) (theirs_at : ℤ) (ours : Text) (ours_at : ℤ)
    → merge_tags theirs theirs_at
        (merge_tags theirs theirs_at ours ours_at).0
        (merge_tags theirs theirs_at ours ours_at).1
      ≡ merge_tags theirs theirs_at ours ours_at
unfolding merge_tags
merge_tags_idem [] theirs_at ours ours_at = ground (arith, ltb_ℤ_irrefl theirs_at)
merge_tags_idem (t ∷ ts) theirs_at ours ours_at =
    ground (arith, ltb_ℤ_irrefl theirs_at, add_tags_self (t ∷ ts), add_tags_idem (t ∷ ts) ours)

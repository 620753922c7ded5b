-- ===== src/Latest/Bound.antt =====
-- How much is remembered, and how much is shown.
use sightingdb.Common.{
  All, All-append, Bool, Bool-cases, List, Option, [], arith, false, inl, inr, leb, length,
  length-append, min, none, reverse, some, true, ℕ, ◌&&◌, ◌++◌, ◌||◌, ◌∷◌, ◌≡◌, ◌≤◌,
}
use sightingdb.Int.{ltb_ℤ, ℤ}
use sightingdb.Latest.{
  Entry, Inner, Latest, append_entry, is_older, key_of_entry, max_limit, push, recent, scan,
  trim_inner, trim_order,
}
use sightingdb.Map.{Map, remove, values}
use sightingdb.Names.{under}
use sightingdb.Names.Below.{IsUnder, under_iff}
use sightingdb.Order.{Text, text_ord}
use sightingdb.Text.{is_slash, trim_matches}

length-trim_order :
    (capacity : ℕ) (order : Map ℕ Entry) (position : Map Text ℕ)
    → length (trim_order capacity order position).0 ≤ capacity
unfolding trim_order
length-trim_order capacity [] position = omega arith
length-trim_order capacity ((at, e) ∷ rest) position =
    ground (arith, length-trim_order capacity rest (remove (key_of_entry e) position))

-- After a write no more than the capacity is remembered.
pub length-push :
    (entry : Entry) (capacity : ℕ) (inner : Inner)
    → length (push entry capacity inner).order ≤ capacity
unfolding push trim_inner
length-push entry capacity inner =
    length-trim_order capacity (append_entry entry inner).order (append_entry entry inner).position

-- Written at `since` or later, where a time was given.
abbrev pub IsRecent : Option ℤ → ℤ → Type 0
IsRecent none written = Unit
IsRecent (some since) written = ltb_ℤ written since ≡ false

-- An entry that may be shown: under the prefix, visible, and not older than was asked.
abbrev pub IsShown : Option ℤ → Text → (Text → Bool) → Entry → Type 0
IsShown since prefix visible e =
    IsUnder e.namespace prefix × (visible e.namespace ≡ true) × IsRecent since e.written

IsRecent-is_older :
    (since : Option ℤ) (written : ℤ) → is_older since written ≡ false → IsRecent since written
IsRecent-is_older none written h = tt
IsRecent-is_older (some since) written h = h

module _ (limit : ℕ) (since : Option ℤ) (prefix : Text) (visible : Text → Bool) where
  scan-IsShown :
      (es found : List Entry)
      → All (IsShown since prefix visible) found
      → All (IsShown since prefix visible) (scan limit since prefix visible es found)
  unfolding scan
  scan-IsShown [] found h = h
  scan-IsShown (e ∷ es) found h =
      elim (Bool-cases (leb limit (length found) || is_older since e.written)) [
        | inl stop ↦ rw stop h
        | inr on ↦ elim (Bool-cases (under e.namespace prefix && visible e.namespace)) [
          | inl show ↦
              rw (on, show)
                (scan-IsShown es (found ++ (e ∷ [])) (
                  All-append (IsShown since prefix visible) found (e ∷ []) h (
                    (
                      (under_iff e.namespace prefix).0 (ground arith),
                      ground arith,
                      IsRecent-is_older since e.written (ground arith),
                    ),
                    tt,
                  )))
          | inr hide ↦ rw (on, hide) (scan-IsShown es found h)
        ]
      ]

  length-scan :
      (es found : List Entry)
      → length found ≤ limit
      → length (scan limit since prefix visible es found) ≤ limit
  unfolding scan
  length-scan [] found h = h
  length-scan (e ∷ es) found h = ground (
    arith,
    length-scan es found,
    length-scan es (found ++ (e ∷ [])),
    length-append {0} found (e ∷ []),
  )

-- What a request is answered: no more than it asked for, nor than the most that is ever shown; and
-- nothing from a namespace that it may not see, from outside the prefix, or from before `since`.
pub recent_bounds :
    (limit : ℕ) (since : Option ℤ) (prefix : Text) (visible : Text → Bool) (latest : Latest)
    → (length (recent limit since prefix visible latest) ≤ min limit max_limit)
      × All
          (IsShown since (trim_matches is_slash prefix) visible)
          (recent limit since prefix visible latest)
unfolding recent
recent_bounds limit since prefix visible latest =
    let es = reverse (values latest.inner.order) in
    (
      length-scan (min limit max_limit) since (trim_matches is_slash prefix) visible es []
          (omega arith),
      scan-IsShown (min limit max_limit) since (trim_matches is_slash prefix) visible es [] tt,
    )

-- ===== src/Database/Listing/Pages.antt =====
-- Pages of a listing.
use mathlib.Core.Path.{subst}
use sightingdb.Common.{
  All, Bool, List, [], ap, arith, drop, false, inl, inr, keep, length, map, not, refl, suc, sym,
  take, true, zero, ℕ, ◌&&◌, ◌++◌, ◌+◌, ◌||◌, ◌↔◌, ◌∙◌, ◌∷◌, ◌≡◌, ◌⊎◌,
}
use sightingdb.Database.{Database}
use sightingdb.Database.Listing.{
  NamespaceEntry, is_browsable, listed_names, name_set, namespace_entry, namespace_page, page_names,
  passes_filter, sorted_names,
}
use sightingdb.Database.Listing.Under.{IsCatalogued, sorted_names_iff}
use sightingdb.Map.{Map, keys}
use sightingdb.Map.Sorted.{IsAbove, IsSorted, insert-IsSorted}
use sightingdb.Names.{all_namespace, config_prefix}
use sightingdb.Namespace.{Page}
use sightingdb.Order.{Text, text_eq, text_lt, text_ord}
use sightingdb.Text.{contains_text, has_part, is_empty, starts_with, to_ascii_lowercase}

take_none : {A : Type 0} (k : ℕ) → take {A = A} k [] ≡ []
take_none zero = refl
take_none (suc k) = refl

drop_none : {A : Type 0} (k : ℕ) → drop {A = A} k [] ≡ []
drop_none zero = refl
drop_none (suc k) = refl

zero_plus : (n : ℕ) → n ≡ zero + n
zero_plus n = omega arith

suc_plus : (m n : ℕ) → suc (m + n) ≡ suc m + n
suc_plus m n = omega arith

take-drop : {A : Type 0} (m n : ℕ) (xs : List A) → take m xs ++ take n (drop m xs) ≡ take (m + n) xs
take-drop zero n xs = ap (λ k. take k xs) (zero_plus n)
take-drop (suc m) n [] = take_none n ∙ sym (take_none (suc m + n))
take-drop (suc m) n (x ∷ xs) =
    ap (λ t. x ∷ t) (take-drop m n xs) ∙ ap (λ k. take k (x ∷ xs)) (suc_plus m n)

drop-drop : {A : Type 0} (k m : ℕ) (xs : List A) → drop m (drop k xs) ≡ drop (k + m) xs
drop-drop zero m xs = ap (λ k. drop k xs) (zero_plus m)
drop-drop (suc k) m [] = drop_none m ∙ sym (drop_none (suc k + m))
drop-drop (suc k) m (x ∷ xs) = drop-drop k m xs ∙ ap (λ j. drop j (x ∷ xs)) (suc_plus k m)

map-append : {A B : Type 0} (f : A → B) (xs ys : List A) → map f (xs ++ ys) ≡ map f xs ++ map f ys
map-append f [] ys = refl
map-append f (x ∷ xs) ys = ap (λ t. f x ∷ t) (map-append f xs ys)

-- Each name comes before all that follow it.
abbrev pub IsAscending : List Text → Type 0
IsAscending [] = Unit
IsAscending (name ∷ rest) = All (λ later. text_lt name later ≡ true) rest × IsAscending rest

All-above :
    {V : Type 0} (name : Text) (m : Map Text V)
    → IsAbove name m
    → All (λ later. text_lt name later ≡ true) (keys m)
All-above name [] h = tt
All-above name ((k, v) ∷ rest) h = (h.0, All-above name rest h.1)

IsAscending-keys : {V : Type 0} (m : Map Text V) → IsSorted m → IsAscending (keys m)
IsAscending-keys [] h = tt
IsAscending-keys ((k, v) ∷ rest) h = (All-above k rest h.0, IsAscending-keys rest h.1)

name_set-IsSorted : (names : List Text) → IsSorted (name_set names)
unfolding name_set
name_set-IsSorted [] = tt
name_set-IsSorted (name ∷ rest) = insert-IsSorted name tt (name_set rest) (name_set-IsSorted rest)

All-take : {A : Type 0} (P : A → Type 0) (n : ℕ) (xs : List A) → All P xs → All P (take n xs)
All-take P zero xs h = tt
All-take P (suc n) [] h = tt
All-take P (suc n) (x ∷ xs) h = (h.0, All-take P n xs h.1)

IsAscending-take : (n : ℕ) (names : List Text) → IsAscending names → IsAscending (take n names)
IsAscending-take zero names h = tt
IsAscending-take (suc n) [] h = tt
IsAscending-take (suc n) (x ∷ rest) h =
    (All-take (λ later. text_lt x later ≡ true) n rest h.0, IsAscending-take n rest h.1)

IsAscending-drop : (n : ℕ) (names : List Text) → IsAscending names → IsAscending (drop n names)
IsAscending-drop zero names h = h
IsAscending-drop (suc n) [] h = tt
IsAscending-drop (suc n) (x ∷ rest) h = IsAscending-drop n rest h.1

take_all : {A : Type 0} (xs : List A) → take (length xs) xs ≡ xs
take_all [] = refl
take_all (x ∷ xs) = ap (λ t. x ∷ t) (take_all xs)

-- the names on a page
abbrev pub names_on : Page NamespaceEntry → List Text
names_on page = map (λ (e : NamespaceEntry). e.namespace) page.items

names_of_entries :
    (db : Database) (names : List Text)
    → map (λ (e : NamespaceEntry). e.namespace) (map (namespace_entry db) names) ≡ names
unfolding namespace_entry
names_of_entries db [] = refl
names_of_entries db (x ∷ rest) = ap (λ t. x ∷ t) (names_of_entries db rest)

-- A namespace that a listing shows: neither `_all` nor inside `_config/`, with the filter somewhere in its name, whatever
-- the case of letters, and one that may be seen.
abbrev pub IsBrowsed : Text → (Text → Bool) → Text → Type 0
IsBrowsed filter allowed name =
    (starts_with config_prefix name ≡ false)
    × (text_eq name all_namespace ≡ false)
    × ((filter ≡ []) ⊎ (has_part (to_ascii_lowercase filter) (to_ascii_lowercase name) ≡ true))
    × (allowed name ≡ true)

lower_none : (filter : Text) → is_empty (to_ascii_lowercase filter) ≡ is_empty filter
unfolding to_ascii_lowercase
lower_none [] = refl
lower_none (c ∷ filter) = refl

is_empty-eq : (s : Text) → is_empty s ≡ true → s ≡ []
is_empty-eq [] h = refl
is_empty-eq (c ∷ s) h = ground (arith, h)

-- the test of `namespace_page`
abbrev shows : Text → (Text → Bool) → Text → Bool
shows filter allowed name =
    is_browsable name && passes_filter (to_ascii_lowercase filter) name && allowed name

tests_split :
    (a b c d e : Bool)
    → (not a && not b && (c || d) && e) ≡ true
    → (a ≡ false) × (b ≡ false) × ((c ≡ true) ⊎ (d ≡ true)) × (e ≡ true)
tests_split false false true d true h = (refl, refl, inl refl, refl)
tests_split false false false true true h = (refl, refl, inr refl, refl)
tests_split true b c d e h = ground (arith, h)
tests_split false true c d e h = ground (arith, h)
tests_split false false false false e h = ground (arith, h)
tests_split false false c d false h = ground (arith, h)

tests_join :
    (a b c d e : Bool)
    → (a ≡ false) × (b ≡ false) × ((c ≡ true) ⊎ (d ≡ true)) × (e ≡ true)
    → (not a && not b && (c || d) && e) ≡ true
tests_join a b c d e (ha, hb, inl hc, he) = ground (arith, ha, hb, hc, he)
tests_join a b c d e (ha, hb, inr hd, he) = ground (arith, ha, hb, hd, he)

shows_iff :
    (filter : Text) (allowed : Text → Bool) (name : Text)
    → (shows filter allowed name ≡ true) ↔ IsBrowsed filter allowed name
unfolding passes_filter
shows_iff filter allowed name =
    let none_given = is_empty (to_ascii_lowercase filter) in
    let part = has_part (to_ascii_lowercase filter) (to_ascii_lowercase name) in
    let inside = starts_with config_prefix name in
    let is_all = text_eq name all_namespace in
    (
      λ h.
          let (outside, plain, matched, seen) =
            tests_split inside is_all none_given part (allowed name) h in
          (
            outside,
            plain,
            elim matched [
              | inl k ↦ inl (is_empty-eq filter (sym (lower_none filter) ∙ k))
              | inr k ↦ inr k
            ],
            seen,
          ),
      λ (outside, plain, matched, seen). tests_join inside is_all none_given part (allowed name) (
        outside,
        plain,
        elim matched [ inl k ↦ inl (lower_none filter ∙ ap is_empty k) | inr k ↦ inr k ],
        seen,
      ),
    )

module _ (filter : Text) (allowed : Text → Bool) (db : Database) where
  abbrev page : ℕ → ℕ → Page NamespaceEntry
  page offset limit = namespace_page filter offset limit allowed db

  names_on_lem :
      (offset limit : ℕ)
      → names_on (page offset limit) ≡ take limit (drop offset (page_names filter allowed db))
  unfolding namespace_page
  names_on_lem offset limit =
      names_of_entries db (take limit (drop offset (page_names filter allowed db)))

  page-append :
      (offset m n : ℕ)
      → (page offset m).items ++ (page (offset + m) n).items ≡ (page offset (m + n)).items
  unfolding namespace_page
  page-append offset m n =
      let names = page_names filter allowed db in
      ap
        (λ t.
          map (namespace_entry db) (take m (drop offset names))
          ++ map (namespace_entry db) (take n t))
        (sym (drop-drop offset m names))
      ∙ sym (
          map-append (namespace_entry db) (take m (drop offset names))
            (take n (drop m (drop offset names))))
      ∙ ap (map (namespace_entry db)) (take-drop m n (drop offset names))

  page-IsAscending : (offset limit : ℕ) → IsAscending (names_on (page offset limit))
  unfolding page_names
  page-IsAscending offset limit =
      let kept = keep (shows filter allowed) (listed_names db.shards) in
      subst (λ names. IsAscending names) (sym (names_on_lem offset limit))
        (IsAscending-take limit (drop offset (sorted_names kept)) (
          IsAscending-drop offset (sorted_names kept)
            (IsAscending-keys (name_set kept) (name_set-IsSorted kept))))

  whole_page : names_on (page 0 (page 0 0).total) ≡ page_names filter allowed db
  unfolding namespace_page
  whole_page =
      names_on_lem 0 (length (page_names filter allowed db))
      ∙ take_all (page_names filter allowed db)

  -- Two pages that follow each other are one longer page, of the same total; the names on a page ascend,
  -- so none stands there twice; and the page of all of them has exactly the namespaces of the catalogue,
  -- in memory or not, that pass the filter and may be seen, save `_all` and those inside `_config/`.
  pub namespace_page-append :
      (offset m n : ℕ)
      → (((page offset m).items ++ (page (offset + m) n).items ≡ (page offset (m + n)).items)
          × ((page offset m).total ≡ (page (offset + m) n).total))
        × IsAscending (names_on (page offset m))
        × ((name : Text)
            → (contains_text name (names_on (page 0 (page offset m).total)) ≡ true)
              ↔ (IsCatalogued name db.shards × IsBrowsed filter allowed name))
  unfolding namespace_page page_names
  namespace_page-append offset m n = (
    (page-append offset m n, refl),
    page-IsAscending offset m,
    λ name.
        let found = sorted_names_iff (shows filter allowed) name db.shards in
        (
          λ h.
              let (listed, t) = found.0 (sym (ap (contains_text name) whole_page) ∙ h) in
              (listed, (shows_iff filter allowed name).0 t),
          λ (listed, browsed).
              ap (contains_text name) whole_page
              ∙ found.1 (listed, (shows_iff filter allowed name).1 browsed),
        ),
  )

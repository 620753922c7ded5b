-- ===== src/Dns/Name/Resolving.antt =====
-- What a query name has to look like to be resolved.
use mathlib.Core.List.{append_assoc}
use mathlib.Core.Path.{subst}
use sightingdb.Common.{
  Bool-cases, List, Memᴰ, Option, Option-cases, [], ap, arith, false, inl, inr, is_nil, none, refl,
  some, sym, true, ℕ, ◌++◌, ◌∙◌, ◌∷◌, ◌≡◌,
}
use sightingdb.Dns.Name.{
  Encoding, Exposed, NameLookup, decode, find_exposed, resolve, select, split_last, strip_suffix,
  with_value,
}
use sightingdb.Order.{Text, text_eq, text_eq_iff}
use sightingdb.Text.{same_labels}

same_labels_lem : (ss ts : List Text) → same_labels ss ts ≡ true → ss ≡ ts
same_labels_lem [] [] h = refl
same_labels_lem [] (t ∷ ts) h = cc
same_labels_lem (s ∷ ss) [] h = cc
same_labels_lem (s ∷ ss) (t ∷ ts) h = ground (arith, text_eq_iff s t, same_labels_lem ss ts)

strip_suffix_lem :
    (suffix labels : List Text) {front : List Text}
    → strip_suffix suffix labels ≡ some front
    → labels ≡ front ++ suffix
unfolding strip_suffix
strip_suffix_lem [] [] h = ground arith
strip_suffix_lem (s ∷ suffix) [] h = cc
strip_suffix_lem suffix (label ∷ rest) {front} h =
    elim (Bool-cases (same_labels (label ∷ rest) suffix)) [
      | inl e ↦ ground (arith, same_labels_lem (label ∷ rest) suffix e)
      | inr e ↦ elim (Option-cases (strip_suffix suffix rest)) [
        | inl n ↦ absurd (ground arith)
        | inr (r, k) ↦ ground (arith, strip_suffix_lem suffix rest k)
      ]
    ]

split_last-none : (labels : List Text) → split_last labels ≡ none → labels ≡ []
unfolding split_last
split_last-none [] h = refl
split_last-none (x ∷ rest) h = elim (Option-cases (split_last rest)) [
  | inl n ↦ absurd (ground arith)
  | inr ((l, f), k) ↦ absurd (ground arith)
]

split_last_lem :
    (labels : List Text) {last : Text} {front : List Text}
    → split_last labels ≡ some (last, front)
    → labels ≡ front ++ (last ∷ [])
unfolding split_last
split_last_lem [] h = cc
split_last_lem (x ∷ rest) {last} {front} h = elim (Option-cases (split_last rest)) [
  | inl n ↦ ground (arith, split_last-none rest n)
  | inr ((l, f), k) ↦ ground (arith, split_last_lem rest k)
]

find_exposed_lem :
    (label : Text) (es : List Exposed) {found : Exposed}
    → find_exposed label es ≡ some found
    → Memᴰ found es × (found.label ≡ label)
unfolding find_exposed
find_exposed_lem label [] h = cc
find_exposed_lem label (e ∷ es) {found} h = elim (Bool-cases (text_eq e.label label)) [
  | inl t ↦
      let same : found ≡ e = ground arith in
      (Memᴰ.head same, ap (λ (x : Exposed). x.label) same ∙ (text_eq_iff e.label label).0 t)
  | inr t ↦
      let later = find_exposed_lem label es {found = found} (ground arith) in
      (Memᴰ.tail later.0, later.1)
]

module _ (base32_decode : Text → Option (List ℕ)) (utf8 : List ℕ → Option Text) where
  abbrev decode_with : List Text → Encoding → Option Text
  decode_with = decode base32_decode utf8

  with_value_lem :
      (value_labels : List Text) (e : Exposed) {l : NameLookup}
      → with_value base32_decode utf8 e (decode_with value_labels e.encoding) ≡ some l
      → (l.exposed ≡ e) × (decode_with value_labels e.encoding ≡ some l.value)
  with_value_lem value_labels e {l} h = elim (Option-cases (decode_with value_labels e.encoding)) [
    | inl n ↦ absurd (ground arith)
    | inr (value, d) ↦ ground arith
  ]

  select_lem :
      (exposed : List Exposed) (label : Text) (value_labels : List Text) {l : NameLookup}
      → select base32_decode utf8 exposed (some (label, value_labels)) ≡ some l
      → (is_nil value_labels ≡ false)
        × Memᴰ l.exposed exposed
        × (l.exposed.label ≡ label)
        × (decode_with value_labels l.exposed.encoding ≡ some l.value)
  select_lem exposed label value_labels {l} h = elim (Option-cases (find_exposed label exposed)) [
    | inl n ↦ absurd (ground arith)
    | inr (e, f) ↦ elim (Bool-cases (is_nil value_labels)) [
      | inl n ↦ absurd (ground arith)
      | inr n ↦
          let chosen : (l.exposed ≡ e) × (decode_with value_labels e.encoding ≡ some l.value) =
            with_value_lem value_labels e (ground arith) in
          (
            n,
            subst (λ x. Memᴰ x exposed) (sym chosen.0) (find_exposed_lem label exposed f).0,
            ap (λ (x : Exposed). x.label) chosen.0 ∙ (find_exposed_lem label exposed f).1,
            ap (λ (x : Exposed). decode_with value_labels x.encoding) chosen.0 ∙ chosen.1,
          )
    ]
  ]

  -- A name that is resolved is a value's labels, then the label of one of the exposures given, then the
  -- zone's, with at least one label for the value, and the value is those labels decoded as that exposure
  -- says.
  pub resolve_lem :
      (qlabels zone : List Text) (exposed : List Exposed) {l : NameLookup}
      → resolve base32_decode utf8 qlabels zone exposed ≡ some l
      → (value_labels : List Text) × (qlabels ≡ value_labels ++ (l.exposed.label ∷ zone))
        × (is_nil value_labels ≡ false)
        × Memᴰ l.exposed exposed
        × (decode base32_decode utf8 value_labels l.exposed.encoding ≡ some l.value)
  unfolding resolve
  resolve_lem qlabels zone exposed {l} h = elim (Option-cases (strip_suffix zone qlabels)) [
    | inl n ↦ absurd (ground arith)
    | inr (rest, s) ↦ elim (Option-cases (split_last rest)) [
      | inl n ↦ absurd (ground arith)
      | inr ((label, value_labels), k) ↦
          let chosen = select_lem exposed label value_labels {l = l} (ground arith) in
          let joined : qlabels ≡ value_labels ++ (l.exposed.label ∷ zone) =
            rw (chosen.2, strip_suffix_lem zone qlabels s, split_last_lem rest k)
              (append_assoc value_labels (label ∷ []) zone) in
          (value_labels, joined, chosen.0, chosen.1, chosen.3)
    ]
  ]

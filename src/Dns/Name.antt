-- ===== src/Dns/Name.antt =====
-- src/dns/name.rs: a query name as a namespace and a value. Labels are in lower case. `base32` stands
-- for the crate data-encoding, and `utf8` for `String::from_utf8`.
pub mod Spelling
pub mod Resolving
use sightingdb.Common.{
  Bool, List, Option, [], eqb, false, if◌then◌else◌, is_nil, length, ltb, map, none, not, reverse,
  some, true, ℕ, ◌&&◌, ◌*◌, ◌+◌, ◌||◌, ◌∷◌,
}
use sightingdb.Dns.Address.{hex_value, read_u8, show_ipv4, show_ipv6}
use sightingdb.Order.{Text, text_eq}
use sightingdb.Text.{
  codes, is_empty, join, same_labels, starts_with_char, to_ascii_lowercase, trim, upper,
}

pub data Encoding : Type 0 where
  ip : Encoding
  domain : Encoding
  base32 : Encoding

-- `Encoding::parse`: nothing for an error
unfoldable pub parse_encoding : Text → Option Encoding
unfolding trim to_ascii_lowercase
parse_encoding raw =
    let name = to_ascii_lowercase (trim raw) in
    if text_eq name (codes "ip")
    then some ip
    else if text_eq name (codes "domain")
    then some domain
    else if text_eq name (codes "base32")
    then some base32
    else none

pub record Exposed : Type 0 where
  pub label : Text
  pub namespace : Text
  pub encoding : Encoding

-- `Lookup` of src/dns/name.rs
pub record NameLookup : Type 0 where
  pub exposed : Exposed
  pub value : Text

abbrev is_short : Text → Bool
is_short [] = true
is_short (c ∷ []) = true
is_short (c ∷ d ∷ s) = false

-- `parse_canonical_u8`
unfoldable pub parse_canonical_u8 : Text → Option ℕ
unfolding read_u8
parse_canonical_u8 label =
    if is_empty label || (not (is_short label) && starts_with_char b'0' label)
    then none
    else read_u8 label

-- a label of one byte, as a hexadecimal digit
unfoldable pub nibble_of : Text → Option ℕ
unfolding hex_value
nibble_of [] = none
nibble_of (c ∷ []) = if ltb c 0x80 then hex_value c else none
nibble_of (c ∷ d ∷ s) = none

-- each label by `read`, nothing if one cannot be read
unfoldable pub read_each : (Text → Option ℕ) → List Text → Option (List ℕ)
read_each read [] = some []
read_each read (label ∷ rest) =
    let others = read_each read rest in
    elim (read label) [
      | none ↦ none
      | some n ↦ elim others [ none ↦ none | some ns ↦ some (n ∷ ns) ]
    ]

-- two nibbles to an octet, two octets to a segment
abbrev segments_of : List ℕ → List ℕ
segments_of (a ∷ b ∷ c ∷ d ∷ rest) = ((a * 16 + b) * 256 + (c * 16 + d)) ∷ segments_of rest
segments_of _ = []

abbrev pub as_ipv4 : Option (List ℕ) → Option Text
as_ipv4 none = none
as_ipv4 (some octets) = some (show_ipv4 octets)

abbrev as_ipv6 : Option (List ℕ) → Option Text
as_ipv6 none = none
as_ipv6 (some nibbles) = some (show_ipv6 (segments_of nibbles))

-- `decode_ip`
unfoldable pub decode_ip : List Text → Option Text
unfolding read_each parse_canonical_u8 nibble_of show_ipv4 show_ipv6
decode_ip labels =
    if eqb (length labels) 4
    then as_ipv4 (read_each parse_canonical_u8 (reverse labels))
    else if eqb (length labels) 32
    then as_ipv6 (read_each nibble_of (reverse labels))
    else none

-- `slice::strip_suffix`, by the front: nothing where the suffix is not the end
unfoldable pub strip_suffix : List Text → List Text → Option (List Text)
strip_suffix suffix [] = if is_nil suffix then some [] else none
strip_suffix suffix (label ∷ rest) =
    let onward = strip_suffix suffix rest in
    if same_labels (label ∷ rest) suffix
    then some []
    else elim onward [ none ↦ none | some front ↦ some (label ∷ front) ]

-- `slice::split_last`
unfoldable pub split_last : List Text → Option (Text × List Text)
split_last [] = none
split_last (x ∷ rest) = elim (split_last rest) [
  | none ↦ some (x, [])
  | some (last, front) ↦ some (last, x ∷ front)
]

-- `exposed.iter().find(|e| e.label == *label)`
unfoldable pub find_exposed : Text → List Exposed → Option Exposed
find_exposed label [] = none
find_exposed label (e ∷ es) =
    let rest = find_exposed label es in if text_eq e.label label then some e else rest

module _ (base32_decode : Text → Option (List ℕ)) (utf8 : List ℕ → Option Text) where
  abbrev decoded_text : Option (List ℕ) → Option Text
  decoded_text none = none
  decoded_text (some bytes) = utf8 bytes

  -- `decode_base32`
  unfoldable pub decode_base32 : List Text → Option Text
  unfolding join
  decode_base32 labels = decoded_text (base32_decode (map upper (join [] labels)))

  -- `decode`
  unfoldable pub decode : List Text → Encoding → Option Text
  unfolding decode_ip decode_base32 join
  decode labels ip = decode_ip labels
  decode labels domain = some (join (b'.' ∷ []) labels)
  decode labels base32 = decode_base32 labels

  abbrev pub with_value : Exposed → Option Text → Option NameLookup
  with_value e none = none
  with_value e (some value) = some (record { exposed = e; value = value })

  abbrev pub decode_for : List Text → Option Exposed → Option NameLookup
  decode_for value_labels none = none
  decode_for value_labels (some e) = with_value e (decode value_labels e.encoding)

  abbrev pub select : List Exposed → Option (Text × List Text) → Option NameLookup
  select exposed none = none
  select exposed (some (label, value_labels)) =
      if is_nil value_labels then none else decode_for value_labels (find_exposed label exposed)

  -- `resolve`
  unfoldable pub resolve : List Text → List Text → List Exposed → Option NameLookup
  unfolding strip_suffix split_last find_exposed decode
  resolve qlabels zone exposed = elim (strip_suffix zone qlabels) [
    | none ↦ none
    | some rest ↦ select exposed (split_last rest)
  ]

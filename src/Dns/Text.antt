-- ===== src/Dns/Text.antt =====
-- src/dns/answer.rs: the text of a TXT record. `show_u64` and `show_i64` give what `format!` prints.
pub mod Pieces
pub mod Quoting
pub mod Decimal
use sightingdb.Attribute.{count}
use sightingdb.Common.{
  List, [], eqb, if◌then◌else◌, leb, length, ltb, suc, zero, ℕ, ◌%◌, ◌++◌, ◌+◌, ◌-◌, ◌/◌, ◌∷◌,
}
use sightingdb.Int.{negsuc, pos, ℤ}
use sightingdb.Order.{Text}
use sightingdb.Text.{byte_len, is_empty, utf8_width}

abbrev pub quotation : ℕ
quotation = 34

-- `str::replace` of one character
unfoldable pub replace_char : ℕ → Text → Text → Text
replace_char from to [] = []
replace_char from to (c ∷ s) =
    let rest = replace_char from to s in if eqb c from then to ++ rest else c ∷ rest

-- `quote`
unfoldable pub quote : Text → Text
unfolding replace_char
quote value =
    let escaped =
      replace_char quotation (b'\\' ∷ quotation ∷ [])
        (replace_char b'\\' (b'\\' ∷ b'\\' ∷ []) value) in
    quotation ∷ (escaped ++ (quotation ∷ []))

-- `MAX` of `character_strings`
abbrev pub max_string : ℕ
max_string = 255

-- the longest front that ends at a character boundary and has at most `room` bytes, and what follows
unfoldable pub split_at_boundary : ℕ → Text → Text × Text
split_at_boundary room [] = ([], [])
split_at_boundary room (c ∷ s) =
    let rest = split_at_boundary (room - utf8_width c) s in
    if leb (utf8_width c) room then (c ∷ rest.0, rest.1) else ([], c ∷ s)

-- the loop of `character_strings`, on fuel
unfoldable pub pieces : ℕ → Text → List Text
unfolding split_at_boundary
pieces zero s = []
pieces (suc fuel) s =
    let (part, rest) = split_at_boundary max_string s in
    let later = pieces fuel rest in if is_empty s then [] else part ∷ later

-- `character_strings`: each turn takes at least one character, so their number is enough fuel
unfoldable pub character_strings : Text → List Text
unfolding pieces
character_strings s = if leb (byte_len s) max_string then s ∷ [] else pieces (length s) s

-- the digits of `n`, before `s`
unfoldable pub digits : ℕ → ℕ → Text → Text
digits zero n s = s
digits (suc fuel) n s =
    let further = digits fuel (n / 10) ((b'0' + n % 10) ∷ s) in
    if ltb n 10 then (b'0' + n) ∷ s else further

-- a `u64` has at most twenty digits
unfoldable pub show_u64 : ℕ → Text
unfolding digits
show_u64 n = digits 20 n []

unfoldable pub show_i64 : ℤ → Text
unfolding show_u64
show_i64 (pos n) = show_u64 n
show_i64 (negsuc n) = b'-' ∷ show_u64 (n + 1)

-- `magnitude`
unfoldable pub magnitude : ℕ → ℕ
magnitude count =
    if leb count 0
    then 0
    else if leb count 1
    then 1
    else if leb count 9
    then 2
    else if leb count 99
    then 3
    else if leb count 999
    then 4
    else if leb count 9999
    then 5
    else if leb count 99999
    then 6
    else if leb count 999999
    then 7
    else if leb count 9999999
    then 8
    else 9

-- ===== src/Dns/Address.antt =====
-- Addresses as the standard library writes and reads them, which src/dns/name.rs relies on.
use sightingdb.Common.{
  Bool, List, Option, [], drop, eqb, false, if◌then◌else◌, leb, ltb, map, none, some, take, ℕ, ◌%◌,
  ◌&&◌, ◌*◌, ◌++◌, ◌+◌, ◌-◌, ◌/◌, ◌∷◌,
}
use sightingdb.Order.{Text}
use sightingdb.Text.{codes, join, segments}

-- `char::to_digit(16)`
unfoldable pub hex_value : ℕ → Option ℕ
hex_value c =
    if leb b'0' c && leb c b'9'
    then some (c - b'0')
    else if leb b'a' c && leb c b'f'
    then some (c - b'a' + 10)
    else if leb b'A' c && leb c b'F'
    then some (c - b'A' + 10)
    else none

-- the loop of `u8::from_str` over the digits
unfoldable pub read_digits : ℕ → Text → Option ℕ
read_digits acc [] = some acc
read_digits acc (c ∷ s) =
    let rest = read_digits (acc * 10 + (c - b'0')) s in
    if leb b'0' c && leb c b'9'
    then (if leb (acc * 10 + (c - b'0')) 255 then rest else none)
    else none

-- `u8::from_str`, which takes a sign `+`
unfoldable pub read_u8 : Text → Option ℕ
unfolding read_digits
read_u8 [] = none
read_u8 (c ∷ []) = read_digits 0 (c ∷ [])
read_u8 (c ∷ d ∷ s) = if eqb c b'+' then read_digits 0 (d ∷ s) else read_digits 0 (c ∷ d ∷ s)

-- a `u8` in decimal
unfoldable pub show_u8 : ℕ → Text
show_u8 n =
    if ltb n 10
    then (b'0' + n) ∷ []
    else if ltb n 100
    then (b'0' + n / 10) ∷ (b'0' + n % 10) ∷ []
    else (b'0' + n / 100) ∷ (b'0' + n / 10 % 10) ∷ (b'0' + n % 10) ∷ []

-- `Ipv4Addr` as a text
unfoldable pub show_ipv4 : List ℕ → Text
unfolding show_u8 join
show_ipv4 octets = join (b'.' ∷ []) (map show_u8 octets)

abbrev hex_digit : ℕ → ℕ
hex_digit n = if ltb n 10 then b'0' + n else b'a' + (n - 10)

-- a `u16` in hexadecimal
unfoldable pub show_u16 : ℕ → Text
show_u16 n =
    if ltb n 16
    then hex_digit n ∷ []
    else if ltb n 256
    then hex_digit (n / 16) ∷ hex_digit (n % 16) ∷ []
    else if ltb n 4096
    then hex_digit (n / 256) ∷ hex_digit (n / 16 % 16) ∷ hex_digit (n % 16) ∷ []
    else hex_digit (n / 4096)
      ∷ hex_digit (n / 256 % 16)
      ∷ hex_digit (n / 16 % 16)
      ∷ hex_digit (n % 16)
      ∷ []

-- the longest run of zeros, the first of several: where it starts, and its length
unfoldable pub longest_run : ℕ → ℕ × ℕ → ℕ × ℕ → List ℕ → ℕ × ℕ
longest_run at current longest [] = longest
longest_run at (start, size) longest (segment ∷ rest) =
    let grown : ℕ × ℕ = (if eqb size 0 then at else start, size + 1) in
    let current' : ℕ × ℕ = if eqb segment 0 then grown else (0, 0) in
    longest_run (at + 1) current' (if ltb longest.1 current'.1 then current' else longest) rest

abbrev show_segments : List ℕ → Text
show_segments segments = join (b':' ∷ []) (map show_u16 segments)

-- `to_ipv4_mapped`
unfoldable pub is_ipv4_mapped : List ℕ → Bool
is_ipv4_mapped (a ∷ b ∷ c ∷ d ∷ e ∷ f ∷ rest) =
    eqb a 0 && eqb b 0 && eqb c 0 && eqb d 0 && eqb e 0 && eqb f 0xffff
is_ipv4_mapped _ = false

abbrev low_octets : List ℕ → List ℕ
low_octets [] = []
low_octets (segment ∷ rest) = segment / 256 ∷ segment % 256 ∷ low_octets rest

-- `Ipv6Addr` as a text, from its eight segments
unfoldable pub show_ipv6 : List ℕ → Text
unfolding is_ipv4_mapped show_ipv4 longest_run show_u16 join
show_ipv6 segments =
    let (start, size) = longest_run 0 (0, 0) (0, 0) segments in
    if is_ipv4_mapped segments
    then codes "::ffff:" ++ show_ipv4 (low_octets (drop 6 segments))
    else if ltb 1 size
    then show_segments (take start segments)
      ++ (codes "::" ++ show_segments (drop (start + size) segments))
    else show_segments segments

-- ===== src/Dns/Name/Spelling.antt =====
-- One address has one spelling, signs aside.
use sightingdb.Common.{
  All, List, Option-cases, [], ap, arith, inl, inr, map, refl, some, sym, ℕ, ◌<◌, ◌∷◌, ◌≡◌,
}
use sightingdb.Dns.Address.{read_digits, show_ipv4, show_u8}
use sightingdb.Dns.Name.{as_ipv4, decode_ip, parse_canonical_u8, read_each}
use sightingdb.Order.{Text}
use sightingdb.Text.{join}
use sightingdb.Text.Trim.{Lacks}

-- A label that is read as an octet and has no sign is the octet's decimal spelling.
parse_canonical_u8_lem :
    (label : Text) (n : ℕ)
    → Lacks b'+' label
    → parse_canonical_u8 label ≡ some n
    → label ≡ show_u8 n
unfolding parse_canonical_u8 read_digits show_u8
parse_canonical_u8_lem [] n l h = absurd (ground arith)
parse_canonical_u8_lem (a ∷ []) n l h = ground arith
parse_canonical_u8_lem (a ∷ b ∷ []) n l h = ground arith
parse_canonical_u8_lem (a ∷ b ∷ c ∷ []) n l h = ground arith
parse_canonical_u8_lem (a ∷ b ∷ c ∷ d ∷ s) n l h = absurd (ground arith)

parse_canonical_u8-show_u8 : (n : ℕ) → n < 256 → parse_canonical_u8 (show_u8 n) ≡ some n
unfolding parse_canonical_u8 read_digits show_u8
parse_canonical_u8-show_u8 n h = ground arith

read_each_lem :
    (labels : List Text) (ns : List ℕ)
    → All (Lacks b'+') labels
    → read_each parse_canonical_u8 labels ≡ some ns
    → labels ≡ map show_u8 ns
unfolding read_each
read_each_lem [] ns l h = rw (sym (some-inj h)) refl
  where
    some-inj : {a b : List ℕ} → some a ≡ some b → a ≡ b
    some-inj e = cc
read_each_lem (label ∷ rest) ns l h = elim (Option-cases (parse_canonical_u8 label)) [
  | inl n ↦ absurd (ground arith)
  | inr (n, e) ↦ elim (Option-cases (read_each parse_canonical_u8 rest)) [
    | inl k ↦ absurd (ground arith)
    | inr (others, k) ↦
        ground (arith, parse_canonical_u8_lem label n l.0 e, read_each_lem rest others l.1 k)
  ]
]

as_ipv4_lem :
    (labels : List Text) {value : Text}
    → All (Lacks b'+') labels
    → as_ipv4 (read_each parse_canonical_u8 labels) ≡ some value
    → value ≡ join (b'.' ∷ []) labels
unfolding show_ipv4
as_ipv4_lem labels {value} l h = elim (Option-cases (read_each parse_canonical_u8 labels)) [
  | inl n ↦ absurd (ground arith)
  | inr (ns, k) ↦ rw (read_each_lem labels ns l k) (ground arith)
]

-- Four labels without a sign that are read as an address are read as those labels in reverse, so that
-- an address has one spelling.
pub decode_ip_lem :
    (a b c d : Text) {value : Text}
    → All (Lacks b'+') (a ∷ b ∷ c ∷ d ∷ [])
    → decode_ip (a ∷ b ∷ c ∷ d ∷ []) ≡ some value
    → value ≡ join (b'.' ∷ []) (d ∷ c ∷ b ∷ a ∷ [])
unfolding decode_ip
decode_ip_lem a b c d l h =
    as_ipv4_lem (d ∷ c ∷ b ∷ a ∷ []) (l.1.1.1.0, (l.1.1.0, (l.1.0, (l.0, tt)))) h

-- The octets' labels are read as the octets.
read_each-show_u8 :
    (ns : List ℕ) → All (λ n. n < 256) ns → read_each parse_canonical_u8 (map show_u8 ns) ≡ some ns
unfolding read_each
read_each-show_u8 [] l = refl
read_each-show_u8 (n ∷ ns) l =
    ground (arith, parse_canonical_u8-show_u8 n l.0, read_each-show_u8 ns l.1)

-- The reversed octets of an address are read as the address.
pub decode_ip-show_u8 :
    (a b c d : ℕ)
    → a < 256
    → b < 256
    → c < 256
    → d < 256
    → decode_ip (show_u8 d ∷ show_u8 c ∷ show_u8 b ∷ show_u8 a ∷ [])
      ≡ some (show_ipv4 (a ∷ b ∷ c ∷ d ∷ []))
unfolding decode_ip
decode_ip-show_u8 a b c d ha hb hc hd =
    ap as_ipv4 (read_each-show_u8 (a ∷ b ∷ c ∷ d ∷ []) (ha, (hb, (hc, (hd, tt)))))

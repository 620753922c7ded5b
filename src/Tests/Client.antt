-- ===== src/Tests/Client.antt =====
-- Reads, writes and DNS queries of a client: src/sighting_reader.rs, src/sighting_writer.rs, src/dns.
use sightingdb.Common.{
  All, List, Memᴰ, Option, [], false, inl, is_nil, none, refl, some, true, ℕ, ◌++◌, ◌↔◌, ◌∷◌, ◌≡◌,
}
use sightingdb.Database.Consensus.{tallied}
use sightingdb.Database.Known.{is_known}
use sightingdb.Dns.Answer.{Request, Responder, respond, type_a}
use sightingdb.Dns.Answer.Readonly.{lookup-respond}
use sightingdb.Dns.Name.{Exposed, decode, decode_ip, ip, resolve}
use sightingdb.Dns.Name.Resolving.{resolve_lem}
use sightingdb.Dns.Name.Spelling.{decode_ip_lem}
use sightingdb.Dns.Text.{character_strings, quotation, quote}
use sightingdb.Dns.Text.Pieces.{IsShort, character_strings_lem}
use sightingdb.Dns.Text.Quoting.{read_quoted, read_quoted-quote}
use sightingdb.Error.{internal_namespace}
use sightingdb.Int.{pos}
use sightingdb.Map.{contains, lookup}
use sightingdb.Names.{all_namespace}
use sightingdb.Namespace.{record_value}
use sightingdb.Order.{Text, text_ord}
use sightingdb.Reader.{read}
use sightingdb.Reader.Shadow.{IsAnswer, lookup-read, read-IsAnswer, view_of}
use sightingdb.Tests.Clock.{clock}
use sightingdb.Tests.Peers.{two_sorted}
use sightingdb.Tests.Server.{address, server, unreadable}
use sightingdb.Text.{codes, join, starts_with}
use sightingdb.Writer.{check, write_value}
use sightingdb.Writer.Accepting.{tallied-write_value}
use sightingdb.Writer.Refusing.{IsReason, refused_lem}

abbrev feeds : Text
feeds = codes "feeds"

-- the server holds the tally of `address`, read here as a namespace like any other
read-IsAnswer_example :
    IsAnswer all_namespace address
      (is_known all_namespace server)
      (view_of unreadable all_namespace address true true (pos 5) server server)
      (read unreadable all_namespace address true true (pos 5) server).1
unfolding starts_with
read-IsAnswer_example =
    read-IsAnswer unreadable all_namespace address true true (pos 5) server refl refl

lookup-read_example :
    lookup all_namespace
      (read unreadable all_namespace address true true (pos 5) server).0.namespaces
    ≡ lookup all_namespace server.namespaces
unfolding starts_with
lookup-read_example =
    lookup-read unreadable all_namespace address true true (pos 5) server refl all_namespace

refused_lem_example :
    (((write_value unreadable none all_namespace address none none [] (pos 5) server).1
        ≡ inl (internal_namespace all_namespace))
      ↔ IsReason server all_namespace address (internal_namespace all_namespace))
    × (IsReason server all_namespace address (internal_namespace all_namespace)
        → (write_value unreadable none all_namespace address none none [] (pos 5) server).0
          ≡ server)
refused_lem_example =
    refused_lem unreadable none all_namespace address none none [] (pos 5) server
      (internal_namespace all_namespace)

tallied-write_value_example :
    tallied address (write_value unreadable none feeds address none none [] (pos 5) server).0 ≡ 4
unfolding check lookup record_value contains
tallied-write_value_example =
    tallied-write_value unreadable none feeds address none none [] (pos 5) server refl refl
      two_sorted address

abbrev zone : List Text
zone = codes "sdb" ∷ codes "example" ∷ []

abbrev malware : Exposed
malware = record { label = codes "ips"; namespace = feeds; encoding = ip }

abbrev no_base32 : Text → Option (List ℕ)
no_base32 s = none

abbrev ascii : List ℕ → Option Text
ascii bytes = some bytes

abbrev octet_labels : List Text
octet_labels = codes "1" ∷ codes "0" ∷ codes "0" ∷ codes "10" ∷ []

resolve_lem_example :
    (value_labels : List Text) × (octet_labels ++ (codes "ips" ∷ zone)
      ≡ value_labels ++ (codes "ips" ∷ zone))
    × (is_nil value_labels ≡ false)
    × Memᴰ malware (malware ∷ [])
    × (decode no_base32 ascii value_labels ip ≡ some address)
unfolding resolve
resolve_lem_example =
    resolve_lem no_base32 ascii (octet_labels ++ (codes "ips" ∷ zone)) zone (malware ∷ [])
      {l = record { exposed = malware; value = address }} refl

decode_ip_lem_example :
    address ≡ join (b'.' ∷ []) (codes "10" ∷ codes "0" ∷ codes "0" ∷ codes "1" ∷ [])
unfolding decode_ip
decode_ip_lem_example =
    decode_ip_lem (codes "1") (codes "0") (codes "0") (codes "10")
      ((refl, tt), ((refl, tt), ((refl, tt), ((refl, (refl, tt)), tt)))) refl

abbrev responder : Responder
responder = record { zone = zone; exposed = malware ∷ []; ttl = 60; shadow = false }

abbrev request : Request
request = record {
  is_query = true;
  queries =
      record { name = octet_labels ++ (codes "ips" ∷ zone); query_type = type_a; is_in = true }
      ∷ [];
}

lookup-respond_example :
    lookup all_namespace
      (respond unreadable no_base32 ascii
        (λ bytes. bytes)
        responder
        request
        (pos 5)
        server).0.namespaces
    ≡ lookup all_namespace server.namespaces
lookup-respond_example =
    lookup-respond unreadable no_base32 ascii (λ bytes. bytes) responder (pos 5) server refl refl
      request all_namespace

character_strings_lem_example :
    (join [] (character_strings (codes "count=3")) ≡ codes "count=3")
    × All IsShort (character_strings (codes "count=3"))
character_strings_lem_example = character_strings_lem (codes "count=3")

read_quoted-quote_example :
    (body : Text) × (quote (codes "a\\b") ++ codes " x" ≡ quotation ∷ body)
    × (read_quoted body ≡ some (codes "a\\b", codes " x"))
read_quoted-quote_example = read_quoted-quote (codes "a\\b") (codes " x")

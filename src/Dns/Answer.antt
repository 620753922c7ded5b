-- ===== src/Dns/Answer.antt =====
-- src/dns/answer.rs: a query of the zone, answered from the database. Of a `Message` of hickory-proto
-- what the program reads and sets is kept; `hostmaster` stands for the label it puts before the zone.
pub mod Readonly
use Prim.Native.Char.{code}
use sightingdb.Attribute.{AttributeView, view}
use sightingdb.Chrono.{Chrono, DateTime}
use sightingdb.Common.{
  Bool, List, Option, [], eqb, false, if◌then◌else◌, inl, inr, is_some, length, map, none, not,
  some, ℕ, ◌∷◌, ◌⊎◌,
}
use sightingdb.Database.{Database, ShardData}
use sightingdb.Dns.Name.{Exposed, NameLookup, resolve, strip_suffix}
use sightingdb.Dns.Text.{character_strings, magnitude, quote, show_i64, show_u64}
use sightingdb.Error.{ApiError, not_found}
use sightingdb.Order.{Text}
use sightingdb.Reader.{read}
use sightingdb.Text.{codes, join, to_ascii_lowercase}

pub data RecordType : Type 0 where
  type_a : RecordType
  type_txt : RecordType
  type_any : RecordType
  type_soa : RecordType
  type_ns : RecordType
  other_type : ℕ → RecordType

pub data RData : Type 0 where
  ipv4_address : ℕ → ℕ → ℕ → ℕ → RData
  strings : List Text → RData
  name_server : List Text → RData
  authority : List Text → List Text → ℕ → ℕ → ℕ → ℕ → ℕ → RData

-- `Record` of hickory-proto
pub record Answer : Type 0 where
  pub name : List Text
  pub ttl : ℕ
  pub rdata : RData

-- `Outcome`
pub data Outcome : Type 0 where
  answers : List Answer → Outcome
  no_data : Outcome
  nx_domain : Outcome
  refused : Outcome

pub data ResponseCode : Type 0 where
  no_error : ResponseCode
  form_err : ResponseCode
  nx_domain_code : ResponseCode
  not_imp : ResponseCode
  refused_code : ResponseCode

-- `Query`, with the bytes of each label of its name: `is_in` says that its class is `IN`
pub record Query : Type 0 where
  pub name : List (List ℕ)
  pub query_type : RecordType
  pub is_in : Bool

-- a request: `is_query` says that its operation is `Query`
pub record Request : Type 0 where
  pub is_query : Bool
  pub queries : List Query

pub record Response : Type 0 where
  pub code : ResponseCode
  pub queries : List Query
  pub answers : List Answer
  pub authorities : List Answer

-- `Responder`; its `zone_labels` are `labels_of` its zone
pub record Responder : Type 0 where
  pub zone : List (List ℕ)
  pub exposed : List Exposed
  pub ttl : ℕ
  pub shadow : Bool

-- `labels_of`; `lossy` is `String::from_utf8_lossy`
unfoldable pub labels_of : (List ℕ → Text) → List (List ℕ) → List Text
unfolding to_ascii_lowercase
labels_of lossy name = map (λ (label : List ℕ). to_ascii_lowercase (lossy label)) name

-- `soa_record`
unfoldable pub soa_record : Responder → Answer
soa_record r = record {
  name = r.zone;
  ttl = r.ttl;
  rdata = authority r.zone (codes "hostmaster" ∷ r.zone) 1 3600 600 86400 r.ttl;
}

-- `answer_apex`
unfoldable pub answer_apex : Responder → RecordType → Outcome
unfolding soa_record
answer_apex r type_soa = answers (soa_record r ∷ [])
answer_apex r type_ns =
    answers (record { name = r.zone; ttl = r.ttl; rdata = name_server r.zone } ∷ [])
answer_apex r _ = no_data

-- `a_record`
unfoldable pub a_record : Responder → List Text → AttributeView → Answer
unfolding magnitude
a_record r name view = record {
  name = name;
  ttl = r.ttl;
  rdata = ipv4_address 127 0 0 (magnitude view.count);
}

-- the text of `txt_record`
unfoldable pub txt_text : AttributeView → Text
unfolding show_u64 show_i64 quote join
txt_text view = join [] (
    codes "count="
    ∷ show_u64 view.count
    ∷ codes " first_seen="
    ∷ show_i64 view.first_seen
    ∷ codes " last_seen="
    ∷ show_i64 view.last_seen
    ∷ codes " consensus="
    ∷ show_u64 view.consensus
    ∷ codes " ttl="
    ∷ show_u64 view.ttl
    ∷ codes " tags="
    ∷ quote view.tags
    ∷ [])

-- `txt_record`
unfoldable pub txt_record : Responder → List Text → AttributeView → Answer
unfolding txt_text character_strings
txt_record r name view = record {
  name = name;
  ttl = r.ttl;
  rdata = strings (character_strings (txt_text view));
}

-- the records for a value that was found
unfoldable pub answer_type : Responder → List Text → RecordType → AttributeView → Outcome
unfolding a_record txt_record
answer_type r name type_a view = answers (a_record r name view ∷ [])
answer_type r name type_txt view = answers (txt_record r name view ∷ [])
answer_type r name type_any view = answers (a_record r name view ∷ txt_record r name view ∷ [])
answer_type r name _ view = no_data

-- the answer of the reader, as an outcome
unfoldable pub outcome_of : Responder → Query → ApiError ⊎ AttributeView → Outcome
unfolding answer_type
outcome_of r query (inr view) = answer_type r query.name query.query_type view
outcome_of r query (inl (not_found missing)) = nx_domain
outcome_of r query (inl _) = refused

-- the end of `respond`
unfoldable pub respond_with : Responder → Query → Outcome → Response
unfolding soa_record
respond_with r query (answers records) = record {
  code = no_error;
  queries = query ∷ [];
  answers = records;
  authorities = [];
}
respond_with r query no_data = record {
  code = no_error;
  queries = query ∷ [];
  answers = [];
  authorities = soa_record r ∷ [];
}
respond_with r query nx_domain = record {
  code = nx_domain_code;
  queries = query ∷ [];
  answers = [];
  authorities = soa_record r ∷ [];
}
respond_with r query refused = record {
  code = refused_code;
  queries = query ∷ [];
  answers = [];
  authorities = [];
}

-- a response that holds no records
abbrev pub bare : ResponseCode → List Query → Response
bare code queries = record { code = code; queries = queries; answers = []; authorities = [] }

module _ ⦃c : Chrono⦄ (read_shard : Text → Option ShardData)
    (base32_decode : Text → Option (List ℕ)) (utf8 : List ℕ → Option Text)
    (lossy : List ℕ → Text) where
  -- the lookup of `answer`, once a name is resolved
  unfoldable pub answer_found :
      Responder → Query → Option NameLookup → DateTime → Database → Database × Outcome
  unfolding read outcome_of
  answer_found r query none now db = (db, nx_domain)
  answer_found r query (some found) now db =
      let (db', result) =
        read read_shard found.exposed.namespace found.value false r.shadow now db in
      (db', outcome_of r query result)

  -- `answer`
  unfoldable pub answer : Responder → Query → DateTime → Database → Database × Outcome
  unfolding labels_of strip_suffix resolve answer_apex answer_found
  answer r query now db =
      let qlabels = labels_of lossy query.name in
      let zone_labels = labels_of lossy r.zone in
      let found =
        answer_found r query (resolve base32_decode utf8 qlabels zone_labels r.exposed) now db in
      if not (is_some (strip_suffix zone_labels qlabels))
      then (db, refused)
      else if eqb (length qlabels) (length zone_labels)
      then (db, answer_apex r query.query_type)
      else found

  -- `respond`, for the first query
  unfoldable pub respond_query : Responder → Query → DateTime → Database → Database × Response
  unfolding answer respond_with
  respond_query r query now db =
      let (db', outcome) = answer r query now db in
      if not query.is_in
      then (db, bare not_imp (query ∷ []))
      else (db', respond_with r query outcome)

  -- the queries of `respond`: the first is answered
  unfoldable pub respond_first : Responder → List Query → DateTime → Database → Database × Response
  unfolding respond_query
  respond_first r [] now db = (db, bare form_err [])
  respond_first r (query ∷ later) now db = respond_query r query now db

  -- `respond`
  unfoldable pub respond : Responder → Request → DateTime → Database → Database × Response
  unfolding respond_first
  respond r request now db =
      let result = respond_first r request.queries now db in
      if not request.is_query then (db, bare not_imp []) else result

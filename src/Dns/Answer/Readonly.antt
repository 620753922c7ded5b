-- ===== src/Dns/Answer/Readonly.antt =====
-- What a query leaves in the database.
use sightingdb.Chrono.{Chrono, DateTime}
use sightingdb.Common.{
  Bool, Bool-cases, List, Option, [], eqb, false, if◌then◌else◌, inl, inr, is_some, length, none,
  not, refl, some, true, ℕ, ◌∙◌, ◌∷◌, ◌≡◌,
}
use sightingdb.Database.{Database, ShardData}
use sightingdb.Dns.Answer.{
  Outcome, Query, Request, Responder, answer, answer_apex, answer_found, bare, labels_of, not_imp,
  refused, respond, respond_first, respond_query, respond_with,
}
use sightingdb.Dns.Name.{NameLookup, resolve, strip_suffix}
use sightingdb.Map.{lookup}
use sightingdb.Names.{config_prefix}
use sightingdb.Order.{Text, text_ord}
use sightingdb.Reader.{read}
use sightingdb.Reader.Shadow.{lookup-read}
use sightingdb.Text.{starts_with}

module _ ⦃c : Chrono⦄ (read_shard : Text → Option ShardData)
    (base32_decode : Text → Option (List ℕ)) (utf8 : List ℕ → Option Text) (lossy : List ℕ → Text)
    (r : Responder) (now : DateTime) (db : Database) (closed : db.has_store ≡ false)
    (quiet : r.shadow ≡ false) where
  -- the namespaces are those of before
  abbrev Keeps : Database → Type 0
  Keeps after = (j : Text) → lookup j after.namespaces ≡ lookup j db.namespaces

  branch :
      {A : Type 0} (b : Bool) (x y : Database × A)
      → Keeps x.0
      → Keeps y.0
      → Keeps (if b then x else y).0
  branch true x y h k = h
  branch false x y h k = k

  Keeps-answer_found :
      (query : Query) (found : Option NameLookup)
      → Keeps (answer_found read_shard base32_decode utf8 lossy r query found now db).0
  unfolding answer_found
  Keeps-answer_found query none j = refl
  Keeps-answer_found query (some found) j =
      elim (Bool-cases (starts_with config_prefix found.exposed.namespace)) [
        | inl e ↦ rw (read, e) refl
        | inr e ↦
            lookup-read read_shard found.exposed.namespace found.value false r.shadow now db closed
              j
            ∙ rw (e, quiet) refl
      ]

  Keeps-answer :
      (query : Query) → Keeps (answer read_shard base32_decode utf8 lossy r query now db).0
  unfolding answer
  Keeps-answer query =
      let qlabels = labels_of lossy query.name in
      let zone_labels = labels_of lossy r.zone in
      let found =
        answer_found read_shard base32_decode utf8 lossy r query
          (resolve base32_decode utf8 qlabels zone_labels r.exposed) now db in
      let apex : Database × Outcome = (db, answer_apex r query.query_type) in
      let is_apex = eqb (length qlabels) (length zone_labels) in
      branch (not (is_some (strip_suffix zone_labels qlabels))) (db, refused)
        (if is_apex then apex else found) (λ j. refl)
        (branch is_apex apex found (λ j. refl)
          (Keeps-answer_found query (resolve base32_decode utf8 qlabels zone_labels r.exposed)))

  Keeps-respond_query :
      (query : Query) → Keeps (respond_query read_shard base32_decode utf8 lossy r query now db).0
  unfolding respond_query
  Keeps-respond_query query =
      let (db', outcome) = answer read_shard base32_decode utf8 lossy r query now db in
      branch (not query.is_in) (db, bare not_imp (query ∷ [])) (db', respond_with r query outcome)
        (λ j. refl) (Keeps-answer query)

  Keeps-respond_first :
      (queries : List Query)
      → Keeps (respond_first read_shard base32_decode utf8 lossy r queries now db).0
  unfolding respond_first
  Keeps-respond_first [] j = refl
  Keeps-respond_first (query ∷ later) j = Keeps-respond_query query j

  -- In a server without a store whose DNS lookups are not recorded, no request of a client changes any
  -- namespace.
  pub lookup-respond :
      (request : Request) (j : Text)
      → lookup j (respond read_shard base32_decode utf8 lossy r request now db).0.namespaces
        ≡ lookup j db.namespaces
  unfolding respond
  lookup-respond request j =
      branch (not request.is_query) (db, bare not_imp [])
        (respond_first read_shard base32_decode utf8 lossy r request.queries now db) (λ i. refl)
        (Keeps-respond_first request.queries) j

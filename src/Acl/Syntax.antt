-- ===== src/Acl/Syntax.antt =====
-- src/acl.rs: the syntax of grants, as it is written and as it is parsed.
use sightingdb.Acl.{Checked, Grant, admin_grant, err, no_grants, ok, unknown_permission}
use sightingdb.Common.{
  Bool, List, Option, [], false, if◌then◌else◌, is_nil, keep, map, none, not, some, true, ◌++◌,
  ◌||◌, ◌∷◌,
}
use sightingdb.Dns.Text.{pieces}
use sightingdb.Map.{Map}
use sightingdb.Order.{Text, text_eq}
use sightingdb.Reader.{read}
use sightingdb.Text.{codes, is_empty, join, split, split_once, trim}

abbrev pub letters : Bool → Bool → Text
letters true true = codes "rw"
letters true false = codes "r"
letters false true = codes "w"
letters false false = []

-- `Grant::to_spec`
unfoldable pub to_spec : Grant → Text
to_spec g =
    if g.admin
    then codes "admin"
    else if not (g.read || g.write)
    then []
    else if is_empty g.prefix
    then letters g.read g.write
    else letters g.read g.write ++ (codes ":" ++ g.prefix)

-- the `match` on `permissions` in `parse_grants`
unfoldable pub parse_letters : Text → Option (Bool × Bool)
parse_letters permissions =
    if text_eq permissions (codes "r")
    then some (true, false)
    else if text_eq permissions (codes "w")
    then some (false, true)
    else if text_eq permissions (codes "rw") || text_eq permissions (codes "wr")
    then some (true, true)
    else none

abbrev pub clause_parts : Text → Option (Text × Text) → Text × Text
clause_parts part none = (part, [])
clause_parts part (some (permissions, prefix)) = (trim permissions, trim prefix)

abbrev pub clause_grant : Text → Text → Option (Bool × Bool) → Checked Grant
clause_grant permissions prefix none = err (unknown_permission permissions)
clause_grant permissions prefix (some (read, write)) =
    ok (record { prefix = prefix; read = read; write = write; admin = false })

-- one trimmed clause that is not empty
unfoldable pub parse_clause : Text → Checked Grant
unfolding parse_letters split_once trim admin_grant
parse_clause part =
    let parts = clause_parts part (split_once b':' part) in
    if text_eq parts.0 (codes "admin")
    then ok admin_grant
    else clause_grant parts.0 parts.1 (parse_letters parts.0)

abbrev pub with_grant : Checked Grant → Checked (List Grant) → Checked (List Grant)
with_grant (err e) rest = err e
with_grant (ok g) (err e) = err e
with_grant (ok g) (ok gs) = ok (g ∷ gs)

-- the loop of `parse_grants`
unfoldable pub parse_clauses : List Text → Checked (List Grant)
unfolding parse_clause trim
parse_clauses [] = ok []
parse_clauses (piece ∷ pieces) =
    let rest = parse_clauses pieces in
    if is_empty (trim piece) then rest else with_grant (parse_clause (trim piece)) rest

abbrev pub require_some : Checked (List Grant) → Checked (List Grant)
require_some (err e) = err e
require_some (ok []) = err no_grants
require_some (ok (g ∷ gs)) = ok (g ∷ gs)

-- `parse_grants`
unfoldable pub parse_grants : Text → Checked (List Grant)
unfolding parse_clauses split
parse_grants spec = require_some (parse_clauses (split b',' spec))

-- the grants of one key as `to_toml` writes them
unfoldable pub render_grants : List Grant → Text
unfolding to_spec join
render_grants grants = join (codes ", ") (keep (λ s. not (is_empty s)) (map to_spec grants))

-- a key or a value in `to_toml`: nothing is escaped
abbrev pub quoted : Text → Text
quoted s = codes "\"" ++ (s ++ codes "\"")

-- the entries of `to_toml`, below its fixed header; `entries` sorts by key
unfoldable pub render_entries : Map Text (List Grant) → Text
unfolding render_grants to_spec
render_entries [] = []
render_entries ((key, grants) ∷ rest) =
    (if is_nil (keep (λ s. not (is_empty s)) (map to_spec grants))
      then []
      else quoted key ++ (codes " = " ++ (quoted (render_grants grants) ++ codes "\n")))
    ++ render_entries rest

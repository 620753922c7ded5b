-- ===== src/Acl.antt =====
-- src/acl.rs: which API keys exist and what each may do, and the syntax of grants. An
-- `anyhow::Error` is a constructor of `AclError` for each message.
pub mod Syntax
pub mod Prefixes
pub mod Access
pub mod Render
use sightingdb.Common.{
  Bool, List, Option, [], any, eqb, false, if◌then◌else◌, keep, length, ltb, none, some, true, ℕ,
  ◌&&◌, ◌||◌, ◌∷◌,
}
use sightingdb.Map.{Map, contains, insert, keys, lookup, remove, values}
use sightingdb.Order.{Text, text_eq, text_ord}
use sightingdb.Reader.{read}
use sightingdb.Text.{byte_len, codes, is_empty, is_whitespace, segments, starts_with_char}

pub data AclError : Type 0 where
  empty_key : AclError
  key_too_long : AclError
  bad_key_char : ℕ → AclError
  namespace_too_long : AclError
  bad_namespace_char : ℕ → AclError
  internal_prefix : Text → AclError
  unknown_permission : Text → AclError
  no_grants : AclError

pub data Checked (A : Type 0) : Type 0 where
  ok : A → Checked A
  err : AclError → Checked A

pub record Grant : Type 0 where
  pub prefix : Text
  pub read : Bool
  pub write : Bool
  pub admin : Bool

-- `Grant::all_data`
unfoldable pub all_data : Grant
all_data = record { prefix = []; read = true; write = true; admin = false }

-- `Grant::admin`
unfoldable pub admin_grant : Grant
admin_grant = record { prefix = []; read = false; write = false; admin = true }

-- the loop of `covers`: the wanted segments against the actual ones
unfoldable pub walk : List Text → List Text → Bool
walk [] actual = true
walk (w ∷ ws) [] = false
walk (w ∷ ws) (s ∷ ss) = if text_eq s w then walk ws ss else false

-- `Grant::covers`
unfoldable pub covers : Grant → Text → Bool
unfolding walk segments
covers g namespace = walk (segments g.prefix) (segments namespace)

-- `chars().find(p)`
unfoldable pub find : (ℕ → Bool) → Text → Option ℕ
find p [] = none
find p (c ∷ s) = if p c then some c else find p s

abbrev pub is_one_of : Text → ℕ → Bool
is_one_of [] c = false
is_one_of (d ∷ s) c = eqb c d || is_one_of s c

unfoldable pub is_bad_key_char : ℕ → Bool
unfolding is_whitespace
is_bad_key_char c = is_whitespace c || is_one_of (codes "=:,[];#\\\"'") c

unfoldable pub is_bad_namespace_char : ℕ → Bool
unfolding is_whitespace
is_bad_namespace_char c = is_whitespace c || is_one_of (codes "=:,[];#") c

abbrev pub reject : (ℕ → AclError) → Option ℕ → Checked (Unit {0}) → Checked (Unit {0})
reject e none k = k
reject e (some bad) k = err (e bad)

-- `validate_key`
unfoldable pub validate_key : Text → Checked (Unit {0})
unfolding find is_bad_key_char
validate_key key =
    if is_empty key
    then err empty_key
    else if ltb 256 (byte_len key)
    then err key_too_long
    else reject bad_key_char (find is_bad_key_char key) (ok tt)

-- `validate_namespace`
unfoldable pub validate_namespace : Text → Checked (Unit {0})
unfolding find is_bad_namespace_char
validate_namespace namespace =
    if ltb 512 (byte_len namespace)
    then err namespace_too_long
    else reject bad_namespace_char (find is_bad_namespace_char namespace)
        (if starts_with_char b'_' namespace then err (internal_prefix namespace) else ok tt)

pub record Acl : Type 0 where
  pub keys : Map Text (List Grant)

-- `Acl::new`
abbrev pub empty_acl : Acl
empty_acl = record { keys = [] }

unfoldable pub grant_full : Text → Acl → Acl
unfolding insert all_data admin_grant
grant_full key acl = record { keys = insert key (all_data ∷ admin_grant ∷ []) acl.keys }

-- `Acl::set`
unfoldable pub set_grants : Text → List Grant → Acl → Acl
unfolding insert
set_grants key grants acl = record { keys = insert key grants acl.keys }

-- `Acl::remove`
unfoldable pub remove_key : Text → Acl → Acl × Bool
unfolding remove contains
remove_key key acl = (record { keys = remove key acl.keys }, contains key acl.keys)

-- `Acl::contains`
unfoldable pub contains_key : Text → Acl → Bool
unfolding contains
contains_key key acl = contains key acl.keys

-- `Acl::admin_count`
unfoldable pub admin_count : Acl → ℕ
admin_count acl = length (keep (any (λ (g : Grant). g.admin)) (values acl.keys))

-- `Acl::allows`
unfoldable pub allows : Text → Text → (Grant → Bool) → Acl → Bool
unfolding lookup covers
allows key namespace permitted acl = elim (lookup key acl.keys) [
  | none ↦ false
  | some grants ↦ any (λ (g : Grant). permitted g && covers g namespace) grants
]

unfoldable pub can_read : Text → Text → Acl → Bool
unfolding allows
can_read key namespace = allows key namespace (λ g. g.read)

unfoldable pub can_write : Text → Text → Acl → Bool
unfolding allows
can_write key namespace = allows key namespace (λ g. g.write)

unfoldable pub is_admin : Text → Acl → Bool
unfolding lookup
is_admin key acl = elim (lookup key acl.keys) [
  | none ↦ false
  | some grants ↦ any (λ (g : Grant). g.admin) grants
]

-- ===== src/Galaxy.antt =====
-- src/galaxy.rs, the peers of this server: which of them can be used, which one a read goes to, and
-- what their probes found. `weigh` stands for the first eight bytes of the SHA-256 of a value and an
-- address; the messages of the log are left out.
pub mod Editing
pub mod Choosing
pub mod Roster
pub mod Switching
pub mod Reading
mod Address
use sightingdb.Common.{
  Bool, List, Option, [], false, if◌then◌else◌, inl, inr, is_nil, keep, ltb, map, none, not, some,
  suc, true, unwrap_or, ℕ, ◌&&◌, ◌||◌, ◌∷◌, ◌⊎◌,
}
use sightingdb.Int.{pos, ℤ}
use sightingdb.Map.{Map, insert, lookup, values}
use sightingdb.Namespace.{live}
use sightingdb.Order.{Text, text_ord}
use sightingdb.Rejections.{enabled}
use sightingdb.Storage.{StoragePolicy, holds}
use sightingdb.Text.{contains_text}

-- src/config.rs, `Peer`
pub record Peer : Type 0 where
  pub url : Text
  pub key : Text
  pub stores : StoragePolicy
  pub enabled : Bool

pub record PeerHealth : Type 0 where
  pub url : Text
  pub online : Bool
  pub probed : Bool
  pub last_seen : ℤ
  pub latency_ms : Option ℕ
  pub version : Option Text
  pub error : Option Text
  pub failures : ℕ
  pub catching_up : Bool

-- `PeerHealth::unprobed`
abbrev pub unprobed : Text → PeerHealth
unprobed url = record {
  url = url;
  online = false;
  probed = false;
  last_seen = pos 0;
  latency_ms = none;
  version = none;
  error = none;
  failures = 0;
  catching_up = false;
}

-- What a probe of a peer that answered found.
pub record Probed : Type 0 where
  pub version : Option Text
  pub latency_ms : ℕ
  pub catching_up : Bool

-- The fields of `Galaxy` that choosing and editing peers read.
pub record Galaxy : Type 0 where
  pub peers : List Peer
  pub health : Map Text PeerHealth
  pub fixed : List Text

pub data ForwardError : Type 0 where
  no_holder : ForwardError
  all_down : (namespace : Text) → ForwardError
  too_many_hops : ForwardError
  unreachable : (message : Text) → ForwardError

-- the health that `Galaxy::new` begins with
abbrev pub first_health : List Peer → Map Text PeerHealth
unfolding insert
first_health [] = []
first_health (peer ∷ rest) = insert peer.url (unprobed peer.url) (first_health rest)

-- `Galaxy::new`
unfoldable pub new_galaxy : List Peer → List Text → Galaxy
new_galaxy peers fixed = record { peers = peers; health = first_health peers; fixed = fixed }

-- `peers`
unfoldable pub enabled_peers : Galaxy → List Peer
enabled_peers galaxy = keep (λ peer. peer.enabled) galaxy.peers

-- the test of `holders`
abbrev pub is_holder : Text → Peer → Bool
is_holder namespace peer = peer.enabled && holds namespace peer.stores

-- `holders`
unfoldable pub holders : Text → Galaxy → List Peer
unfolding holds
holders namespace galaxy = keep (is_holder namespace) galaxy.peers

-- `is_none_or(|known| known.online || !known.probed)`
abbrev pub may_answer : Option PeerHealth → Bool
may_answer none = true
may_answer (some known) = known.online || not known.probed

-- `live_holders`
unfoldable pub live_holders : Text → Galaxy → List Peer
unfolding lookup holders
live_holders namespace galaxy =
    keep (λ peer. may_answer (lookup peer.url galaxy.health)) (holders namespace galaxy)

-- the loop of `max_by_key`: of items with the same key, the last
abbrev pub best_of : (Peer → ℕ) → Peer → List Peer → Peer
best_of weight best [] = best
best_of weight best (peer ∷ rest) =
    best_of weight (if ltb (weight peer) (weight best) then best else peer) rest

-- `max_by_key`
abbrev pub max_by_key : (Peer → ℕ) → List Peer → Option Peer
max_by_key weight [] = none
max_by_key weight (peer ∷ rest) = some (best_of weight peer rest)

-- the addresses that are catching up, in `reader_for`
abbrev pub behind : Galaxy → List Text
behind galaxy = map (λ known. known.url) (keep (λ known. known.catching_up) (values galaxy.health))

-- the peers that `reader_for` chooses from
unfoldable pub choose_from : Text → Galaxy → List Peer
unfolding live_holders contains_text
choose_from namespace galaxy =
    let live = live_holders namespace galaxy in
    let current = keep (λ peer. not (contains_text peer.url (behind galaxy))) live in
    if is_nil current then live else current

-- `health`
unfoldable pub health_rows : Galaxy → List PeerHealth
unfolding lookup
health_rows galaxy =
    map (λ peer. unwrap_or (lookup peer.url galaxy.health) (unprobed peer.url)) galaxy.peers

abbrev pub u32_max : ℕ
u32_max = 0xFFFFFFFF

-- what `record` makes of the entry
abbrev pub after_probe : Text ⊎ Probed → ℤ → PeerHealth → PeerHealth
after_probe (inr found) now entry = record entry {
  probed = true;
  online = true;
  last_seen = now;
  latency_ms = some found.latency_ms;
  version = found.version;
  error = none;
  failures = 0;
  catching_up = found.catching_up;
}
after_probe (inl message) now entry = record entry {
  probed = true;
  online = false;
  latency_ms = none;
  error = some message;
  failures = if ltb entry.failures u32_max then suc entry.failures else entry.failures;
}

-- `record`
unfoldable pub record_probe : Text → Text ⊎ Probed → ℤ → Galaxy → Galaxy
unfolding lookup insert
record_probe url outcome now galaxy =
    let entry = unwrap_or (lookup url galaxy.health) (unprobed url) in
    record galaxy { health = insert url (after_probe outcome now entry) galaxy.health }

module _ (weigh : Text → Text → ℕ) where
  -- `reader_for`
  unfoldable pub reader_for : Text → Text → Galaxy → Option Peer
  unfolding choose_from
  reader_for namespace value galaxy =
      max_by_key (λ peer. weigh value peer.url) (choose_from namespace galaxy)

  -- `reader_url`
  unfoldable pub reader_url : Text → Text → Galaxy → ForwardError ⊎ Text
  unfolding holders reader_for
  reader_url namespace value galaxy =
      if is_nil (holders namespace galaxy)
      then inl no_holder
      else (elim (reader_for namespace value galaxy) [
        | none ↦ inl (all_down namespace)
        | some peer ↦ inr peer.url
      ])

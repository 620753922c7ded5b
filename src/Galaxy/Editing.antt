-- ===== src/Galaxy/Editing.antt =====
-- src/galaxy.rs: the changes that the management interface makes to the peers while the server runs.
use sightingdb.Common.{
  Bool, List, Option, [], eqb, false, if◌then◌else◌, inl, inr, keep, length, map, none, not, some,
  suc, true, zero, ℕ, ◌&&◌, ◌++◌, ◌||◌, ◌∷◌, ◌⊎◌,
}
use sightingdb.Galaxy.{Galaxy, Peer}
use sightingdb.Map.{remove}
use sightingdb.Order.{Text, text_eq, text_ord}
use sightingdb.Rejections.{enabled}
use sightingdb.Text.{
  codes, contains_text, is_empty, is_slash, starts_with, strip_prefix, trim, trim_end,
}

-- `rsplit_once(sep)`
unfoldable rsplit_once : ℕ → Text → Option (Text × Text)
rsplit_once sep [] = none
rsplit_once sep (c ∷ s) = elim (rsplit_once sep s) [
  | some (a, b) ↦ some (c ∷ a, b)
  | none ↦ if eqb c sep then some ([], s) else none
]

-- `trim_start_matches(prefix)`: the first argument bounds the prefixes taken off.
unfoldable pub strip_all : ℕ → Text → Text → Text
unfolding strip_prefix
strip_all zero prefix s = s
strip_all (suc n) prefix s = elim (strip_prefix prefix s) [
  | none ↦ s
  | some rest ↦ strip_all n prefix rest
]

-- `trim_start_matches(prefix)` for a prefix that is not empty, which can go as often as there are
-- characters
unfoldable pub trim_start_matches : Text → Text → Text
unfolding strip_all
trim_start_matches prefix s = strip_all (length s) prefix s

-- `trim_start_matches("https://").trim_start_matches("http://")`
abbrev without_scheme : Text → Text
without_scheme url =
    trim_start_matches (codes "http://") (trim_start_matches (codes "https://") url)

-- `trim().trim_end_matches('/')`
unfoldable pub clean_url : Text → Text
unfolding trim trim_end
clean_url url = trim_end is_slash (trim url)

abbrev pub every_interface : List Text
every_interface = codes "0.0.0.0" ∷ codes "[::]" ∷ codes "::" ∷ []

abbrev pub loopback : List Text
loopback = codes "127.0.0.1" ∷ codes "localhost" ∷ codes "[::1]" ∷ codes "::1" ∷ []

-- the test of hosts and ports in `is_own_address`
abbrev pub same_server : Option (Text × Text) → Option (Text × Text) → Bool
unfolding contains_text
same_server none asked = false
same_server (some own) none = false
same_server (some (own_host, own_port)) (some (host, port)) =
    text_eq port own_port && contains_text own_host every_interface && contains_text host loopback

-- `is_own_address`
unfoldable pub is_own_address : Text → Text → Bool
unfolding trim_start_matches trim_end rsplit_once
is_own_address url own_listen =
    let host_port = trim_end is_slash (without_scheme url) in
    if text_eq host_port own_listen
    then true
    else same_server (rsplit_once b':' own_listen) (rsplit_once b':' host_port)

pub data AddPeer : Type 0 where
  invalid : (message : Text) → AddPeer
  already_there : (message : Text) → AddPeer

-- `is_fixed`
unfoldable pub is_fixed : Text → Galaxy → Bool
unfolding clean_url contains_text
is_fixed url galaxy = contains_text (clean_url url) galaxy.fixed

-- `editable_peers`
unfoldable pub editable_peers : Galaxy → List Peer
unfolding is_fixed
editable_peers galaxy = keep (λ peer. not (is_fixed peer.url galaxy)) galaxy.peers

-- the peer that `add_peer` and `update_peer` go on with
abbrev pub cleaned : Peer → Peer
unfolding clean_url trim
cleaned peer = record peer { url = clean_url peer.url; key = trim peer.key }

abbrev pub urls : List Peer → List Text
urls = map (λ peer. peer.url)

-- the tests of `add_peer` that look at the peer only
unfoldable pub refusal_of : Peer → Text → Option AddPeer
unfolding starts_with trim_start_matches is_own_address
refusal_of peer own_listen =
    if not (starts_with (codes "http://") peer.url || starts_with (codes "https://") peer.url)
    then some (invalid (codes "a peer URL starts with http:// or https://"))
    else if is_empty (without_scheme peer.url)
    then some (invalid (codes "a peer URL needs a host"))
    else if is_empty peer.key
    then some (invalid (codes "a peer needs the key this server will authenticate with there"))
    else if is_own_address peer.url own_listen
    then some (
        invalid
          (peer.url ++ codes " is this server's own address, which would make it its own mirror"))
    else none

-- the rest of `add_peer`, for a peer that is cleaned and what those tests found
abbrev pub with_peer : Peer → Galaxy → Galaxy
with_peer peer galaxy = record galaxy { peers = galaxy.peers ++ (peer ∷ []) }

unfoldable pub enlist : Option AddPeer → Peer → Galaxy → Galaxy × (AddPeer ⊎ Peer)
unfolding contains_text is_fixed
enlist (some refusal) peer galaxy = (galaxy, inl refusal)
enlist none peer galaxy =
    if contains_text peer.url (urls galaxy.peers)
    then (galaxy, inl (already_there (peer.url ++ codes " is already in this galaxy")))
    else if is_fixed peer.url galaxy
    then (
      galaxy,
      inl (
          already_there (
            peer.url
            ++ codes " is declared in the configuration file, so it cannot be changed here")),
    )
    else (with_peer peer galaxy, inr peer)

-- `add_peer`
unfoldable pub add_peer : Peer → Text → Galaxy → Galaxy × (AddPeer ⊎ Peer)
unfolding refusal_of enlist
add_peer peer own_listen galaxy =
    enlist (refusal_of (cleaned peer) own_listen) (cleaned peer) galaxy

-- `remove_peer`
unfoldable pub remove_peer : Text → Galaxy → Galaxy × Bool
unfolding clean_url remove
remove_peer given galaxy =
    let url = clean_url given in
    let kept = keep (λ peer. not (text_eq peer.url url)) galaxy.peers in
    if eqb (length kept) (length galaxy.peers)
    then (record galaxy { peers = kept }, false)
    else (record galaxy { peers = kept; health = remove url galaxy.health }, true)

-- `iter().find(|known| known.url == url)`
unfoldable pub find_url : Text → List Peer → Option Peer
find_url url [] = none
find_url url (known ∷ rest) =
    let later = find_url url rest in if text_eq known.url url then some known else later

-- an assignment to the peer that `iter_mut().find(|known| known.url == url)` finds
unfoldable pub put_first : Text → Peer → List Peer → List Peer
put_first url peer [] = []
put_first url peer (known ∷ rest) =
    let later = put_first url peer rest in
    if text_eq known.url url then peer ∷ rest else known ∷ later

-- `set_enabled`, for what was found
unfoldable pub switch : Text → Bool → Option Peer → Galaxy → Galaxy × Option Peer
unfolding put_first remove
switch url enabled none galaxy = (galaxy, none)
switch url enabled (some known) galaxy =
    let updated = record known { enabled = enabled } in
    (
      record galaxy {
        peers = put_first url updated galaxy.peers;
        health = remove url galaxy.health;
      },
      some updated,
    )

-- `set_enabled`
unfoldable pub set_enabled : Text → Bool → Galaxy → Galaxy × Option Peer
unfolding clean_url find_url switch
set_enabled given enabled galaxy =
    switch (clean_url given) enabled (find_url (clean_url given) galaxy.peers) galaxy

-- `update_peer`, for a peer that is cleaned and what was found at its address
unfoldable pub replace_peer : Peer → Option Peer → Galaxy → Galaxy × Option Peer
unfolding put_first
replace_peer peer none galaxy = (galaxy, none)
replace_peer peer (some known) galaxy =
    (record galaxy { peers = put_first peer.url peer galaxy.peers }, some peer)

-- `update_peer`
unfoldable pub update_peer : Peer → Galaxy → Galaxy × Option Peer
unfolding find_url replace_peer
update_peer given galaxy =
    let peer = cleaned given in
    if is_empty peer.key
    then (galaxy, none)
    else replace_peer peer (find_url peer.url galaxy.peers) galaxy

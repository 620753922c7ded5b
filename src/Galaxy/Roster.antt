-- ===== src/Galaxy/Roster.antt =====
-- The list of peers under the changes that the management interface makes to it.
use mathlib.Core.Path.{subst}
use sightingdb.Common.{
  Bool, Bool-cases, List, Option, [], ap, arith, eqb, false, inl, inr, keep, length, none, not,
  refl, some, sym, unwrap_or, ◌++◌, ◌||◌, ◌∙◌, ◌∷◌, ◌≡◌, ◌⊎◌,
}
use sightingdb.Galaxy.{Galaxy, Peer, Probed, record_probe}
use sightingdb.Galaxy.Editing.{
  AddPeer, add_peer, clean_url, cleaned, enlist, find_url, is_fixed, put_first, refusal_of,
  remove_peer, replace_peer, set_enabled, switch, update_peer, urls, with_peer,
}
use sightingdb.Int.{ℤ}
use sightingdb.Order.{Text, text_eq, text_eq_iff, text_ord}
use sightingdb.Rejections.{enabled}
use sightingdb.Text.{contains_text, is_empty}

-- No address stands in the list twice.
abbrev pub AreDistinct : List Text → Type 0
AreDistinct [] = Unit
AreDistinct (url ∷ rest) = (contains_text url rest ≡ false) × AreDistinct rest

-- The peers of a galaxy have different addresses.
abbrev pub IsRoster : Galaxy → Type 0
IsRoster galaxy = AreDistinct (urls galaxy.peers)

contains_text-append_one :
    (url : Text) (peers : List Peer) (last : Peer)
    → contains_text url (urls (peers ++ (last ∷ [])))
      ≡ (contains_text url (urls peers) || text_eq last.url url)
unfolding contains_text
contains_text-append_one url [] last = ground arith
contains_text-append_one url (peer ∷ rest) last =
    rw (contains_text-append_one url rest last) (ground arith)

text_eq_sym : (s t : Text) → text_eq s t ≡ false → text_eq t s ≡ false
text_eq_sym s t h = ground (arith, text_eq_iff s t, text_eq_iff t s)

AreDistinct-append_one :
    (peers : List Peer) (last : Peer)
    → contains_text last.url (urls peers) ≡ false
    → AreDistinct (urls peers)
    → AreDistinct (urls (peers ++ (last ∷ [])))
unfolding contains_text
AreDistinct-append_one [] last h d = (refl, tt)
AreDistinct-append_one (peer ∷ rest) last h d = (
  contains_text-append_one peer.url rest last
      ∙ ground (arith, d.0, h, text_eq_iff peer.url last.url, text_eq_iff last.url peer.url),
  AreDistinct-append_one rest last (ground (arith, h)) d.1,
)

contains_text-keep_url :
    (url gone : Text) (peers : List Peer)
    → contains_text url (urls peers) ≡ false
    → contains_text url (urls (keep (λ peer. not (text_eq peer.url gone)) peers)) ≡ false
unfolding contains_text
contains_text-keep_url url gone [] h = refl
contains_text-keep_url url gone (peer ∷ rest) h =
    ground (arith, h, contains_text-keep_url url gone rest)

AreDistinct-keep :
    (gone : Text) (peers : List Peer)
    → AreDistinct (urls peers)
    → AreDistinct (urls (keep (λ peer. not (text_eq peer.url gone)) peers))
AreDistinct-keep gone [] d = tt
AreDistinct-keep gone (peer ∷ rest) d = elim (Bool-cases (text_eq peer.url gone)) [
  | inl e ↦ rw e (AreDistinct-keep gone rest d.1)
  | inr e ↦ rw e (contains_text-keep_url peer.url gone rest d.0, AreDistinct-keep gone rest d.1)
]

-- `add_peer` leaves the galaxy as it was, or has the cleaned peer at the end, whose address is new.
enlist-cases :
    (refusal : Option AddPeer) (peer : Peer) (galaxy : Galaxy)
    → ((enlist refusal peer galaxy).0 ≡ galaxy)
      ⊎ (((enlist refusal peer galaxy).0 ≡ with_peer peer galaxy)
          × (contains_text peer.url (urls galaxy.peers) ≡ false))
unfolding enlist
enlist-cases (some refusal) peer galaxy = inl refl
enlist-cases none peer galaxy = elim (Bool-cases (contains_text peer.url (urls galaxy.peers))) [
  | inl k ↦ inl (rw k refl)
  | inr k ↦ elim (Bool-cases (is_fixed peer.url galaxy)) [
    | inl f ↦ inl (rw (k, f) refl)
    | inr f ↦ inr (rw (k, f) (refl, refl))
  ]
]

pub add_peer-cases :
    (peer : Peer) (own_listen : Text) (galaxy : Galaxy)
    → ((add_peer peer own_listen galaxy).0 ≡ galaxy)
      ⊎ (((add_peer peer own_listen galaxy).0 ≡ with_peer (cleaned peer) galaxy)
          × (contains_text (cleaned peer).url (urls galaxy.peers) ≡ false))
unfolding add_peer
add_peer-cases peer own_listen galaxy =
    enlist-cases (refusal_of (cleaned peer) own_listen) (cleaned peer) galaxy

-- A peer put at its own address leaves all addresses where they were.
urls-put_first :
    (url : Text) (peer : Peer) (peers : List Peer)
    → peer.url ≡ url
    → urls (put_first url peer peers) ≡ urls peers
unfolding put_first
urls-put_first url peer [] same = refl
urls-put_first url peer (known ∷ rest) same = elim (Bool-cases (text_eq known.url url)) [
  | inl e ↦ rw e (ap (λ u. u ∷ urls rest) (same ∙ sym ((text_eq_iff known.url url).0 e)))
  | inr e ↦ rw e (ap (λ us. known.url ∷ us) (urls-put_first url peer rest same))
]

find_url-url :
    (url : Text) (peers : List Peer) (known : Peer)
    → find_url url peers ≡ some known
    → known.url ≡ url
unfolding find_url
find_url-url url [] known h = ground (arith, h)
find_url-url url (first ∷ rest) known h = elim (Bool-cases (text_eq first.url url)) [
  | inl e ↦
      let same : some first ≡ some known = rw e at h in
      ap (λ o. (unwrap_or o first).url) (sym same) ∙ (text_eq_iff first.url url).0 e
  | inr e ↦ find_url-url url rest known (rw e at h)
]

-- One change of the galaxy while the server runs.
pub data Change : Type 0 where
  adding : Peer → Text → Change
  removing : Text → Change
  switching : Text → Bool → Change
  updating : Peer → Change
  probing : Text → Text ⊎ Probed → ℤ → Change

unfoldable pub change_by : Change → Galaxy → Galaxy
unfolding add_peer remove_peer set_enabled update_peer record_probe
change_by (adding peer own_listen) galaxy = (add_peer peer own_listen galaxy).0
change_by (removing url) galaxy = (remove_peer url galaxy).0
change_by (switching url enabled) galaxy = (set_enabled url enabled galaxy).0
change_by (updating peer) galaxy = (update_peer peer galaxy).0
change_by (probing url outcome now) galaxy = record_probe url outcome now galaxy

unfoldable pub change_all : List Change → Galaxy → Galaxy
unfolding change_by
change_all [] galaxy = galaxy
change_all (change ∷ rest) galaxy = change_all rest (change_by change galaxy)

IsRoster-add_peer :
    (peer : Peer) (own_listen : Text) (galaxy : Galaxy)
    → IsRoster galaxy
    → IsRoster (add_peer peer own_listen galaxy).0
IsRoster-add_peer peer own_listen galaxy d = elim (add_peer-cases peer own_listen galaxy) [
  | inl e ↦ subst (λ g. IsRoster g) (sym e) d
  | inr (e, fresh) ↦
      subst (λ g. IsRoster g) (sym e) (AreDistinct-append_one galaxy.peers (cleaned peer) fresh d)
]

IsRoster-remove_peer :
    (url : Text) (galaxy : Galaxy) → IsRoster galaxy → IsRoster (remove_peer url galaxy).0
unfolding remove_peer
IsRoster-remove_peer url galaxy d =
    let kept = keep (λ peer. not (text_eq peer.url (clean_url url))) galaxy.peers in
    elim (Bool-cases (eqb (length kept) (length galaxy.peers))) [
      | inl e ↦ rw e (AreDistinct-keep (clean_url url) galaxy.peers d)
      | inr e ↦ rw e (AreDistinct-keep (clean_url url) galaxy.peers d)
    ]

IsRoster-switch :
    (url : Text) (on : Bool) (found : Option Peer) (galaxy : Galaxy)
    → find_url url galaxy.peers ≡ found
    → IsRoster galaxy
    → IsRoster (switch url on found galaxy).0
unfolding switch
IsRoster-switch url on none galaxy h d = d
IsRoster-switch url on (some known) galaxy h d =
    subst (λ us. AreDistinct us)
      (sym (
        urls-put_first url (record known { enabled = on }) galaxy.peers
          (find_url-url url galaxy.peers known h)))
      d

IsRoster-replace_peer :
    (peer : Peer) (found : Option Peer) (galaxy : Galaxy)
    → IsRoster galaxy
    → IsRoster (replace_peer peer found galaxy).0
unfolding replace_peer
IsRoster-replace_peer peer none galaxy d = d
IsRoster-replace_peer peer (some known) galaxy d =
    subst (λ us. AreDistinct us) (sym (urls-put_first peer.url peer galaxy.peers refl)) d

IsRoster-update_peer :
    (peer : Peer) (galaxy : Galaxy) → IsRoster galaxy → IsRoster (update_peer peer galaxy).0
unfolding update_peer
IsRoster-update_peer peer galaxy d = elim (Bool-cases (is_empty (cleaned peer).key)) [
  | inl e ↦ rw e d
  | inr e ↦
      rw e
        (IsRoster-replace_peer (cleaned peer) (find_url (cleaned peer).url galaxy.peers) galaxy d)
]

IsRoster-change_by :
    (change : Change) (galaxy : Galaxy) → IsRoster galaxy → IsRoster (change_by change galaxy)
unfolding change_by set_enabled record_probe
IsRoster-change_by (adding peer own_listen) galaxy d = IsRoster-add_peer peer own_listen galaxy d
IsRoster-change_by (removing url) galaxy d = IsRoster-remove_peer url galaxy d
IsRoster-change_by (switching url enabled) galaxy d =
    IsRoster-switch (clean_url url) enabled (find_url (clean_url url) galaxy.peers) galaxy refl d
IsRoster-change_by (updating peer) galaxy d = IsRoster-update_peer peer galaxy d
IsRoster-change_by (probing url outcome now) galaxy d = d

-- No two peers have the same address after any changes of a galaxy in which no two have: peers added,
-- removed, switched on or off, or replaced, and probes recorded, in any order.
pub IsRoster-change_all :
    (changes : List Change) (galaxy : Galaxy)
    → IsRoster galaxy
    → IsRoster (change_all changes galaxy)
unfolding change_all
IsRoster-change_all [] galaxy d = d
IsRoster-change_all (change ∷ rest) galaxy d =
    IsRoster-change_all rest (change_by change galaxy) (IsRoster-change_by change galaxy d)

-- ===== src/Galaxy/Switching.antt =====
-- A peer taken out of service.
use mathlib.Core.Path.{subst}
use sightingdb.Common.{
  Bool, Bool-cases, List, Option, [], arith, false, inl, inr, keep, none, not, refl, some, sym,
  ◌&&◌, ◌∙◌, ◌∷◌, ◌≡◌,
}
use sightingdb.Galaxy.{Galaxy, Peer, holders, is_holder}
use sightingdb.Galaxy.Editing.{clean_url, find_url, put_first, set_enabled, switch, urls}
use sightingdb.Galaxy.Roster.{AreDistinct, IsRoster}
use sightingdb.Order.{Text, text_eq, text_eq_iff, text_ord}
use sightingdb.Text.{contains_text}

contains_text-kept :
    (p : Peer → Bool) (url : Text) (peers : List Peer)
    → contains_text url (urls peers) ≡ false
    → contains_text url (urls (keep p peers)) ≡ false
unfolding contains_text
contains_text-kept p url [] h = refl
contains_text-kept p url (peer ∷ rest) h =
    let later = contains_text-kept p url rest in ground (arith, h, later)

-- A peer of another address in front does not matter.
other_first :
    (p : Peer → Bool) (url : Text) (peer : Peer) (rest : List Peer)
    → text_eq peer.url url ≡ false
    → contains_text url (urls (keep p (peer ∷ rest))) ≡ contains_text url (urls (keep p rest))
unfolding contains_text
other_first p url peer rest h = ground (arith, h)

-- a peer that fails the test `p`, put in the place of one that may pass it
kept-put_first :
    (p : Peer → Bool) (url other : Text) (off : Peer) (peers : List Peer)
    → p off ≡ false
    → AreDistinct (urls peers)
    → contains_text other (urls (keep p (put_first url off peers)))
      ≡ (not (text_eq url other) && contains_text other (urls (keep p peers)))
unfolding contains_text put_first
kept-put_first p url other off [] h d = ground arith
kept-put_first p url other off (known ∷ rest) h d = elim (Bool-cases (text_eq known.url url)) [
  | inl e ↦ elim (Bool-cases (text_eq url other)) [
    | inl k ↦
        rw (e, h, k)
          (contains_text-kept p other rest (
            subst (λ v. contains_text v (urls rest) ≡ false)
              ((text_eq_iff known.url url).0 e ∙ (text_eq_iff url other).0 k) d.0))
    | inr k ↦
        rw (e, h, k)
          (sym (
            other_first p other known rest
              (subst (λ v. text_eq v other ≡ false) (sym ((text_eq_iff known.url url).0 e)) k)))
  ]
  | inr e ↦ elim (Bool-cases (p known)) [
    | inl k ↦
        rw (e, k, kept-put_first p url other off rest h d.1)
          (ground (
            arith,
            e,
            text_eq_iff known.url other,
            text_eq_iff url other,
            text_eq_iff known.url url,
          ))
    | inr k ↦ rw (e, k) (kept-put_first p url other off rest h d.1)
  ]
]

find_url-none :
    (url : Text) (peers : List Peer)
    → find_url url peers ≡ none
    → contains_text url (urls peers) ≡ false
unfolding find_url contains_text
find_url-none url [] h = refl
find_url-none url (known ∷ rest) h = elim (Bool-cases (text_eq known.url url)) [
  | inl e ↦ let h' : some known ≡ none = rw e at h in ground (arith, h')
  | inr e ↦ rw e (find_url-none url rest (rw e at h))
]

absent :
    (p : Peer → Bool) (url other : Text) (peers : List Peer)
    → find_url url peers ≡ none
    → contains_text other (urls (keep p peers))
      ≡ (not (text_eq url other) && contains_text other (urls (keep p peers)))
absent p url other peers h = elim (Bool-cases (text_eq url other)) [
  | inl k ↦ rw k (
      contains_text-kept p other peers (
        subst (λ v. contains_text v (urls peers) ≡ false) ((text_eq_iff url other).0 k)
          (find_url-none url peers h)))
  | inr k ↦ rw k refl
]

switch_lem :
    (namespace url other : Text) (found : Option Peer) (galaxy : Galaxy)
    → find_url url galaxy.peers ≡ found
    → IsRoster galaxy
    → contains_text other (urls (holders namespace (switch url false found galaxy).0))
      ≡ (not (text_eq url other) && contains_text other (urls (holders namespace galaxy)))
unfolding holders switch
switch_lem namespace url other none galaxy h d =
    absent (is_holder namespace) url other galaxy.peers h
switch_lem namespace url other (some known) galaxy h d =
    kept-put_first (is_holder namespace) url other (record known { enabled = false }) galaxy.peers
      refl d

-- Where no two peers have the same address, a peer that is switched off holds no namespace any more,
-- and every other peer holds what it did, also where there is no peer to switch off.
pub holders-set_enabled :
    (namespace url other : Text) (galaxy : Galaxy)
    → IsRoster galaxy
    → contains_text other (urls (holders namespace (set_enabled url false galaxy).0)) ≡ (
        not (text_eq (clean_url url) other)
        && contains_text other (urls (holders namespace galaxy)))
unfolding set_enabled
holders-set_enabled namespace url other galaxy d =
    switch_lem namespace (clean_url url) other (find_url (clean_url url) galaxy.peers) galaxy refl d

-- ===== src/Galaxy/Choosing.antt =====
-- The peer that a read is sent to.
use sightingdb.Common.{
  Bool, Bool-cases, List, [], ap, arith, false, if◌then◌else◌, inl, inr, is_nil, keep, ltb, not,
  refl, some, true, ℕ, ◌++◌, ◌∙◌, ◌∷◌, ◌≡◌, ◌⊎◌,
}
use sightingdb.Galaxy.{
  Galaxy, Peer, behind, best_of, choose_from, holders, is_holder, live_holders, max_by_key,
  may_answer, reader_for,
}
use sightingdb.Galaxy.Editing.{add_peer, cleaned, with_peer}
use sightingdb.Galaxy.Roster.{add_peer-cases}
use sightingdb.Map.{lookup}
use sightingdb.Namespace.{live}
use sightingdb.Order.{Text, text_ord}
use sightingdb.Text.{contains_text}

module _ (weight : Peer → ℕ) where
  best_of-append :
      (best : Peer) (rest : List Peer) (last : Peer)
      → best_of weight best (rest ++ (last ∷ [])) ≡ (
          if ltb (weight last) (weight (best_of weight best rest))
          then best_of weight best rest
          else last)
  best_of-append best [] last = refl
  best_of-append best (peer ∷ rest) last =
      best_of-append (if ltb (weight peer) (weight best) then best else peer) rest last

  -- One more item at the end wins, or changes nothing.
  max_by_key-append :
      (items : List Peer) (last : Peer)
      → (max_by_key weight (items ++ (last ∷ [])) ≡ some last)
        ⊎ (max_by_key weight (items ++ (last ∷ [])) ≡ max_by_key weight items)
  max_by_key-append [] last = inl refl
  max_by_key-append (peer ∷ rest) last =
      elim (Bool-cases (ltb (weight last) (weight (best_of weight peer rest)))) [
        | inl e ↦ inr (ap some (best_of-append peer rest last ∙ rw e refl))
        | inr e ↦ inl (ap some (best_of-append peer rest last ∙ rw e refl))
      ]

keep-append_one :
    (p : Peer → Bool) (items : List Peer) (last : Peer)
    → (keep p (items ++ (last ∷ [])) ≡ keep p items ++ (last ∷ []))
      ⊎ (keep p (items ++ (last ∷ [])) ≡ keep p items)
keep-append_one p [] last = elim (Bool-cases (p last)) [
  | inl e ↦ inl (rw e refl)
  | inr e ↦ inr (rw e refl)
]
keep-append_one p (item ∷ rest) last = elim (Bool-cases (p item)) [
  | inl e ↦ elim (keep-append_one p rest last) [
    | inl k ↦ inl (rw e (ap (◌∷◌ item) k))
    | inr k ↦ inr (rw e (ap (◌∷◌ item) k))
  ]
  | inr e ↦ elim (keep-append_one p rest last) [ inl k ↦ inl (rw e k) | inr k ↦ inr (rw e k) ]
]

is_nil-append : (items : List Peer) (last : Peer) → is_nil (items ++ (last ∷ [])) ≡ false
is_nil-append [] last = refl
is_nil-append (item ∷ rest) last = refl

max_by_key-only :
    (weight : Peer → ℕ) (items : List Peer) (last : Peer)
    → is_nil items ≡ true
    → max_by_key weight (items ++ (last ∷ [])) ≡ some last
max_by_key-only weight [] last h = refl
max_by_key-only weight (item ∷ rest) last h = ground (arith, h)

-- `choose_from`, for the live holders
abbrev pub chosen : (Peer → Bool) → List Peer → List Peer
chosen ready live = if is_nil (keep ready live) then live else keep ready live

max_by_key-chosen :
    (weight : Peer → ℕ) (ready : Peer → Bool) (live : List Peer) (last : Peer)
    → (max_by_key weight (chosen ready (live ++ (last ∷ []))) ≡ some last)
      ⊎ (max_by_key weight (chosen ready (live ++ (last ∷ [])))
          ≡ max_by_key weight (chosen ready live))
max_by_key-chosen weight ready live last = elim (keep-append_one ready live last) [
  | inl k ↦
      rw (k, is_nil-append (keep ready live) last)
        (elim (Bool-cases (is_nil (keep ready live))) [
          | inl e ↦ inl (max_by_key-only weight (keep ready live) last e)
          | inr e ↦ rw e (max_by_key-append weight (keep ready live) last)
        ])
  | inr k ↦ rw k (elim (Bool-cases (is_nil (keep ready live))) [
    | inl e ↦ rw e (max_by_key-append weight live last)
    | inr e ↦ rw e (inr refl)
  ])
]

-- the addresses that a read may go to before the others
abbrev pub is_ready : Galaxy → Peer → Bool
is_ready galaxy peer = not (contains_text peer.url (behind galaxy))

live_holders-with_peer :
    (namespace : Text) (peer : Peer) (galaxy : Galaxy)
    → (live_holders namespace (with_peer peer galaxy)
        ≡ live_holders namespace galaxy ++ (peer ∷ []))
      ⊎ (live_holders namespace (with_peer peer galaxy) ≡ live_holders namespace galaxy)
unfolding live_holders holders
live_holders-with_peer namespace peer galaxy =
    elim (keep-append_one (is_holder namespace) galaxy.peers peer) [
      | inl k ↦ rw k (
          keep-append_one (λ peer. may_answer (lookup peer.url galaxy.health))
            (keep (is_holder namespace) galaxy.peers) peer)
      | inr k ↦ inr (rw k refl)
    ]

module _ (weigh : Text → Text → ℕ) where
  reader_for-with_peer :
      (namespace value : Text) (peer : Peer) (galaxy : Galaxy)
      → (reader_for weigh namespace value (with_peer peer galaxy) ≡ some peer)
        ⊎ (reader_for weigh namespace value (with_peer peer galaxy)
            ≡ reader_for weigh namespace value galaxy)
  unfolding reader_for choose_from
  reader_for-with_peer namespace value peer galaxy =
      elim (live_holders-with_peer namespace peer galaxy) [
        | inl k ↦ rw k (
            max_by_key-chosen (λ peer. weigh value peer.url) (is_ready galaxy)
              (live_holders namespace galaxy) peer)
        | inr k ↦ inr (rw k refl)
      ]

  -- Adding a peer moves the reads of a value to that peer or leaves them where they were: never from one
  -- peer that was there to another.
  pub reader_for-add_peer :
      (namespace value : Text) (peer : Peer) (own_listen : Text) (galaxy : Galaxy)
      → (reader_for weigh namespace value (add_peer peer own_listen galaxy).0 ≡ some (cleaned peer))
        ⊎ (reader_for weigh namespace value (add_peer peer own_listen galaxy).0
            ≡ reader_for weigh namespace value galaxy)
  reader_for-add_peer namespace value peer own_listen galaxy =
      elim (add_peer-cases peer own_listen galaxy) [
        | inl e ↦ inr (ap (reader_for weigh namespace value) e)
        | inr (e, fresh) ↦ rw e (reader_for-with_peer namespace value (cleaned peer) galaxy)
      ]

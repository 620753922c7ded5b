-- ===== src/Galaxy/Reading.antt =====
-- What a read that is sent on can rely on.
use mathlib.Core.Path.{subst}
use sightingdb.Common.{
  All, Bool, Bool-cases, List, Memᴰ, Option, [], ap, arith, false, if◌then◌else◌, inl, inr, is_nil,
  keep, ltb, map, none, not, refl, some, sym, true, ℕ, ◌||◌, ◌∙◌, ◌∷◌, ◌≡◌, ◌≤◌, ◌⊎◌,
}
use sightingdb.Galaxy.{
  ForwardError, Galaxy, Peer, PeerHealth, all_down, behind, best_of, choose_from, holders,
  is_holder, live_holders, max_by_key, may_answer, no_holder, reader_for, reader_url,
}
use sightingdb.Galaxy.Choosing.{is_ready}
use sightingdb.Map.{lookup, values}
use sightingdb.Order.{Text, text_eq, text_ord}
use sightingdb.Storage.{holds}
use sightingdb.Text.{contains_text}

module _ (weight : Peer → ℕ) where
  Memᴰ-best_of : (best : Peer) (rest : List Peer) → Memᴰ (best_of weight best rest) (best ∷ rest)
  Memᴰ-best_of best [] = Memᴰ.head refl
  Memᴰ-best_of best (peer ∷ rest) = elim (Bool-cases (ltb (weight peer) (weight best))) [
    | inl e ↦ rw e (past (Memᴰ-best_of best rest))
    | inr e ↦ rw e (Memᴰ.tail (Memᴰ-best_of peer rest))
  ]
    where
      past : {found : Peer} → Memᴰ found (best ∷ rest) → Memᴰ found (best ∷ peer ∷ rest)
      past (Memᴰ.head e) = Memᴰ.head e
      past (Memᴰ.tail m) = Memᴰ.tail (Memᴰ.tail m)

  All-best_of :
      (best : Peer) (rest : List Peer)
      → All (λ peer. weight peer ≤ weight (best_of weight best rest)) (best ∷ rest)
  All-best_of best [] = (omega arith, tt)
  All-best_of best (peer ∷ rest) =
      let next = if ltb (weight peer) (weight best) then best else peer in
      let later = All-best_of next rest in
      let (below, above) = either best peer in
      (omega (arith, below, later.0), (omega (arith, above, later.0), later.1))
    where
      either :
          (best peer : Peer)
          → (weight best ≤ weight (if ltb (weight peer) (weight best) then best else peer))
            × (weight peer ≤ weight (if ltb (weight peer) (weight best) then best else peer))
      either best peer = elim (Bool-cases (ltb (weight peer) (weight best))) [
        | inl e ↦ rw e (omega arith, ground (arith, e))
        | inr e ↦ rw e (ground (arith, e), omega arith)
      ]

Memᴰ-keep :
    (p : Peer → Bool) (peers : List Peer) {peer : Peer}
    → Memᴰ peer (keep p peers)
    → Memᴰ peer peers × (p peer ≡ true)
Memᴰ-keep p [] m = elim m [ ]
Memᴰ-keep p (first ∷ rest) {peer} m = elim (Bool-cases (p first)) [
  | inl e ↦ from_front e (Memᴰ-keep p rest) (rw e at m)
  | inr e ↦ let (m', h) = Memᴰ-keep p rest (rw e at m) in (Memᴰ.tail m', h)
]
  where
    from_front :
        p first ≡ true
        → (Memᴰ peer (keep p rest) → Memᴰ peer rest × (p peer ≡ true))
        → Memᴰ peer (first ∷ keep p rest)
        → Memᴰ peer (first ∷ rest) × (p peer ≡ true)
    from_front e later (Memᴰ.head same) = (Memᴰ.head same, ap p same ∙ e)
    from_front e later (Memᴰ.tail m') = let (m'', h) = later m' in (Memᴰ.tail m'', h)

-- What is known of the peer does not say that it is down.
abbrev pub IsUp : Option PeerHealth → Type 0
IsUp none = Unit
IsUp (some known) = (known.online ≡ true) ⊎ (known.probed ≡ false)

-- The last probe of the peer failed.
abbrev pub IsDown : Option PeerHealth → Type 0
IsDown none = ⊥
IsDown (some known) = (known.online ≡ false) × (known.probed ≡ true)

-- None of the health that is known is of a peer at this address that is catching up.
abbrev pub IsCurrent : Text → List PeerHealth → Type 0
IsCurrent url = All (λ known. (known.catching_up ≡ false) ⊎ (text_eq known.url url ≡ false))

-- Some of it is.
abbrev pub IsBehind : Text → List PeerHealth → Type 0
IsBehind url [] = ⊥
IsBehind url (known ∷ rest) =
    ((known.catching_up ≡ true) × (text_eq known.url url ≡ true)) ⊎ IsBehind url rest

-- The peer is disabled, does not hold the namespace, or is down.
abbrev pub IsOut : Text → Galaxy → Peer → Type 0
IsOut namespace galaxy peer =
    (peer.enabled ≡ false)
    ⊎ ((holds namespace peer.stores ≡ false) ⊎ IsDown (lookup peer.url galaxy.health))

-- The peer is enabled, holds the namespace, and is not known to be down; it is not catching up, unless
-- every other such peer is; and every peer that could serve the read as well has no more weight for the
-- value.
abbrev pub IsReader : (Text → Text → ℕ) → Text → Text → Galaxy → Peer → Type 0
IsReader weigh namespace value galaxy peer =
    Memᴰ peer galaxy.peers
    × (peer.enabled ≡ true)
    × (holds namespace peer.stores ≡ true)
    × IsUp (lookup peer.url galaxy.health)
    × (IsCurrent peer.url (values galaxy.health)
        ⊎ All (λ other. IsOut namespace galaxy other ⊎ IsBehind other.url (values galaxy.health))
            galaxy.peers)
    × All
        (λ other.
          IsOut namespace galaxy other
          ⊎ ((IsBehind other.url (values galaxy.health) × IsCurrent peer.url (values galaxy.health))
              ⊎ (weigh value other.url ≤ weigh value peer.url)))
        galaxy.peers

-- The peer is disabled or does not hold the namespace.
abbrev pub IsNoHolder : Text → Peer → Type 0
IsNoHolder namespace peer = (peer.enabled ≡ false) ⊎ (holds namespace peer.stores ≡ false)

-- What `reader_url` answers, and why.
abbrev pub IsRoute : (Text → Text → ℕ) → Text → Text → Galaxy → ForwardError ⊎ Text → Type 0
IsRoute weigh namespace value galaxy (inl no_holder) = All (IsNoHolder namespace) galaxy.peers
IsRoute weigh namespace value galaxy (inl (all_down named)) =
    (named ≡ namespace)
    × ((peer : Peer) × Memᴰ peer galaxy.peers
        × (peer.enabled ≡ true)
        × (holds namespace peer.stores ≡ true))
    × All (IsOut namespace galaxy) galaxy.peers
IsRoute weigh namespace value galaxy (inl _) = ⊥
IsRoute weigh namespace value galaxy (inr url) =
    (peer : Peer) × (peer.url ≡ url) × IsReader weigh namespace value galaxy peer

is_nil-eq : (peers : List Peer) → is_nil peers ≡ true → peers ≡ []
is_nil-eq [] h = refl
is_nil-eq (peer ∷ rest) h = ground (arith, h)

IsUp-may_answer : (found : Option PeerHealth) → may_answer found ≡ true → IsUp found
IsUp-may_answer none h = tt
IsUp-may_answer (some known) h = elim (Bool-cases known.online) [
  | inl e ↦ inl e
  | inr e ↦ inr (ground (arith, h, e))
]

IsDown-may_answer : (found : Option PeerHealth) → may_answer found ≡ false → IsDown found
IsDown-may_answer none h = ground (arith, h)
IsDown-may_answer (some known) h = (ground (arith, h), ground (arith, h))

flip_false : (b : Bool) → not b ≡ false → b ≡ true
flip_false b h = ground (arith, h)

flip_true : (b : Bool) → not b ≡ true → b ≡ false
flip_true b h = ground (arith, h)

-- the addresses among some health that are catching up
abbrev late : List PeerHealth → List Text
late known = map (λ k. k.url) (keep (λ k. k.catching_up) known)

IsCurrent-late :
    (url : Text) (known : List PeerHealth)
    → contains_text url (late known) ≡ false
    → IsCurrent url known
unfolding contains_text
IsCurrent-late url [] h = tt
IsCurrent-late url (k ∷ rest) h = elim (Bool-cases k.catching_up) [
  | inl e ↦
      let h' : (text_eq k.url url || contains_text url (late rest)) ≡ false = rw e at h in
      (inr (ground (arith, h')), IsCurrent-late url rest (ground (arith, h')))
  | inr e ↦ (inl e, IsCurrent-late url rest (rw e at h))
]

IsBehind-late :
    (url : Text) (known : List PeerHealth)
    → contains_text url (late known) ≡ true
    → IsBehind url known
unfolding contains_text
IsBehind-late url [] h = ground (arith, h)
IsBehind-late url (k ∷ rest) h = elim (Bool-cases k.catching_up) [
  | inl e ↦ elim (Bool-cases (text_eq k.url url)) [
    | inl f ↦ inl (e, f)
    | inr f ↦
        let h' : (text_eq k.url url || contains_text url (late rest)) ≡ true = rw e at h in
        inr (IsBehind-late url rest (ground (arith, h', f)))
  ]
  | inr e ↦ inr (IsBehind-late url rest (rw e at h))
]

-- A property that holds of the peers that pass a test, and of those that fail it, holds of all.
All-keep :
    (P : Peer → Type 0) (p : Peer → Bool) (peers : List Peer)
    → ((peer : Peer) → p peer ≡ false → P peer)
    → All P (keep p peers)
    → All P peers
All-keep P p [] f h = tt
All-keep P p (peer ∷ rest) f h = elim (Bool-cases (p peer)) [
  | inl e ↦ let h' : P peer × All P (keep p rest) = rw e at h in (h'.0, All-keep P p rest f h'.1)
  | inr e ↦ (f peer e, All-keep P p rest f (rw e at h))
]

All-map :
    (P Q : Peer → Type 0) (peers : List Peer)
    → ((peer : Peer) → P peer → Q peer)
    → All P peers
    → All Q peers
All-map P Q [] f h = tt
All-map P Q (peer ∷ rest) f h = (f peer h.0, All-map P Q rest f h.1)

module _ (namespace : Text) (galaxy : Galaxy) where
  abbrev live : List Peer
  live = live_holders namespace galaxy

  -- What holds of the live holders, and of the peers that are out, holds of all.
  All-live :
      (P : Peer → Type 0)
      → ((peer : Peer) → IsOut namespace galaxy peer → P peer)
      → All P live
      → All P galaxy.peers
  unfolding live_holders holders
  All-live P f h =
      All-keep P (is_holder namespace) galaxy.peers (λ peer e. f peer (out peer e))
        (All-keep P (λ peer. may_answer (lookup peer.url galaxy.health))
          (keep (is_holder namespace) galaxy.peers)
          (λ peer e. f peer (inr (inr (IsDown-may_answer (lookup peer.url galaxy.health) e)))) h)
    where
      out : (peer : Peer) → is_holder namespace peer ≡ false → IsOut namespace galaxy peer
      out peer e = elim (Bool-cases peer.enabled) [
        | inl k ↦ inr (inl (ground (arith, e, k)))
        | inr k ↦ inl k
      ]

  abbrev current : List Peer
  current = keep (is_ready galaxy) live

  IsBehind-ready :
      (peer : Peer) → is_ready galaxy peer ≡ false → IsBehind peer.url (values galaxy.health)
  IsBehind-ready peer e =
      IsBehind-late peer.url (values galaxy.health)
        (flip_false (contains_text peer.url (behind galaxy)) e)

  IsCurrent-ready :
      (peer : Peer) → is_ready galaxy peer ≡ true → IsCurrent peer.url (values galaxy.health)
  IsCurrent-ready peer e =
      IsCurrent-late peer.url (values galaxy.health)
        (flip_true (contains_text peer.url (behind galaxy)) e)

  abbrev OutOrBehind : Peer → Type 0
  OutOrBehind other = IsOut namespace galaxy other ⊎ IsBehind other.url (values galaxy.health)

  all_behind : current ≡ [] → All OutOrBehind galaxy.peers
  all_behind e =
      All-live OutOrBehind (λ peer out. inl out)
        (All-keep OutOrBehind (is_ready galaxy) live (λ peer k. inr (IsBehind-ready peer k))
          (subst (λ ps. All OutOrBehind ps) (sym e) tt))

  none_live : choose_from namespace galaxy ≡ [] → live ≡ []
  unfolding choose_from
  none_live h = elim (Bool-cases (is_nil current)) [
    | inl e ↦ rw e at h
    | inr e ↦ let h' : current ≡ [] = rw e at h in ground (arith, e, ap is_nil h')
  ]

  -- the facts of a live holder
  served :
      (peer : Peer)
      → Memᴰ peer live
      → Memᴰ peer galaxy.peers
        × (peer.enabled ≡ true)
        × (holds namespace peer.stores ≡ true)
        × IsUp (lookup peer.url galaxy.health)
  unfolding live_holders holders
  served peer m =
      let (m', up) =
        Memᴰ-keep (λ peer. may_answer (lookup peer.url galaxy.health))
          (keep (is_holder namespace) galaxy.peers) m in
      let (m'', holder) = Memᴰ-keep (is_holder namespace) galaxy.peers m' in
      (
        m'',
        ground (arith, holder),
        ground (arith, holder),
        IsUp-may_answer (lookup peer.url galaxy.health) up,
      )

  module _ (weigh : Text → Text → ℕ) (value : Text) where
    abbrev IsLess : Peer → Peer → Type 0
    IsLess peer other = weigh value other.url ≤ weigh value peer.url

    abbrev IsBeaten : Peer → Peer → Type 0
    IsBeaten peer other =
        IsOut namespace galaxy other
        ⊎ ((IsBehind other.url (values galaxy.health) × IsCurrent peer.url (values galaxy.health))
            ⊎ IsLess peer other)

    IsReader-chosen :
        (peer : Peer)
        → Memᴰ peer (choose_from namespace galaxy)
        → All (IsLess peer) (choose_from namespace galaxy)
        → IsReader weigh namespace value galaxy peer
    unfolding choose_from
    IsReader-chosen peer m most = elim (Bool-cases (is_nil current)) [
      | inl e ↦
          let facts = served peer (rw e at m) in
          let most' : All (IsLess peer) live = rw e at most in
          (
            facts.0,
            facts.1,
            facts.2,
            facts.3,
            inr (all_behind (is_nil-eq current e)),
            All-live (IsBeaten peer) (λ other out. inl out)
                (All-map (IsLess peer) (IsBeaten peer) live (λ other less. inr (inr less)) most'),
          )
      | inr e ↦
          let (m', ready) = Memᴰ-keep (is_ready galaxy) live (rw e at m) in
          let most' : All (IsLess peer) current = rw e at most in
          let facts = served peer m' in
          let now = IsCurrent-ready peer ready in
          (
            facts.0,
            facts.1,
            facts.2,
            facts.3,
            inl now,
            All-live (IsBeaten peer) (λ other out. inl out)
                (All-keep (IsBeaten peer) (is_ready galaxy) live
                  (λ other k. inr (inl (IsBehind-ready other k, now)))
                  (All-map (IsLess peer) (IsBeaten peer) current (λ other less. inr (inr less))
                    most')),
          )
    ]

    IsReader-best_of :
        (first : Peer) (rest : List Peer)
        → choose_from namespace galaxy ≡ first ∷ rest
        → IsReader weigh namespace value galaxy (best_of (λ peer. weigh value peer.url) first rest)
    IsReader-best_of first rest h =
        let weight = λ (peer : Peer). weigh value peer.url in
        IsReader-chosen (best_of weight first rest)
          (subst (λ peers. Memᴰ (best_of weight first rest) peers) (sym h)
            (Memᴰ-best_of weight first rest))
          (subst (λ peers. All (λ other. weight other ≤ weight (best_of weight first rest)) peers)
            (sym h) (All-best_of weight first rest))

-- the answer of `reader_url`, for what `max_by_key` chose
abbrev answer_with : Text → Option Peer → ForwardError ⊎ Text
answer_with namespace none = inl (all_down namespace)
answer_with namespace (some peer) = inr peer.url

some_holder :
    (namespace : Text) (peers : List Peer)
    → is_nil (keep (is_holder namespace) peers) ≡ false
    → (peer : Peer) × Memᴰ peer peers × (peer.enabled ≡ true) × (holds namespace peer.stores ≡ true)
some_holder namespace [] h = ground (arith, h)
some_holder namespace (peer ∷ rest) h = elim (Bool-cases (is_holder namespace peer)) [
  | inl e ↦ (peer, Memᴰ.head refl, ground (arith, e), ground (arith, e))
  | inr e ↦
      let (found, m, on, held) = some_holder namespace rest (rw e at h) in
      (found, Memᴰ.tail m, on, held)
]

no_holders :
    (namespace : Text) (peers : List Peer)
    → keep (is_holder namespace) peers ≡ []
    → All (IsNoHolder namespace) peers
no_holders namespace peers h =
    All-keep (IsNoHolder namespace) (is_holder namespace) peers
      (λ peer e. elim (Bool-cases peer.enabled) [
        | inl k ↦ inr (ground (arith, e, k))
        | inr k ↦ inl k
      ])
      (subst (λ ps. All (IsNoHolder namespace) ps) (sym h) tt)

module _ (weigh : Text → Text → ℕ) (namespace value : Text) (galaxy : Galaxy) where
  route :
      (from : List Peer)
      → choose_from namespace galaxy ≡ from
      → is_nil (holders namespace galaxy) ≡ false
      → IsRoute weigh namespace value galaxy
          (answer_with namespace (max_by_key (λ peer. weigh value peer.url) from))
  unfolding holders
  route [] h some_hold = (
    refl,
    some_holder namespace galaxy.peers some_hold,
    All-live namespace galaxy (IsOut namespace galaxy) (λ peer out. out)
        (subst (λ ps. All (IsOut namespace galaxy) ps) (sym (none_live namespace galaxy h)) tt),
  )
  route (first ∷ rest) h some_hold = (
    best_of (λ peer. weigh value peer.url) first rest,
    refl,
    IsReader-best_of namespace galaxy weigh value first rest h,
  )

  -- A read of a value is routed to a peer that is enabled, holds the namespace and is not down, one that
  -- is not catching up unless all of them are, and of those to one of the greatest weight; it fails only
  -- where no enabled peer holds the namespace, or where all that do are down, and the error says which.
  pub reader_url_lem :
      IsRoute weigh namespace value galaxy (reader_url weigh namespace value galaxy)
  unfolding reader_url reader_for holders
  reader_url_lem = elim (Bool-cases (is_nil (holders namespace galaxy))) [
    | inl e ↦ rw e (no_holders namespace galaxy.peers (is_nil-eq (holders namespace galaxy) e))
    | inr e ↦ rw e (route (choose_from namespace galaxy) refl e)
  ]

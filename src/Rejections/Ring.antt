-- ===== src/Rejections/Ring.antt =====
-- The ring keeps the newest rejections, and no more than its capacity.
use mathlib.Core.List.{reverse-append}
use sightingdb.Common.{
  Bool-cases, List, [], arith, drop, first_item, inl, inr, keep, leb, length, length-append, ltb,
  none, refl, reverse, some, suc, sym, take, true, zero, ℕ, ◌++◌, ◌+◌, ◌-◌, ◌<◌, ◌∙◌, ◌∷◌, ◌≡◌, ◌≤◌,
}
use sightingdb.Int.{ℤ}
use sightingdb.Order.{Text}
use sightingdb.Rejections.{
  Rejection, Rejections, Source, is_wanted, make_room, recent_rejections, record_rejection,
}

length-make_room :
    (capacity : ℕ) (es : List Rejection) → 0 < capacity → length (make_room capacity es) < capacity
unfolding make_room
length-make_room capacity [] h = h
length-make_room capacity (e ∷ es) h = ground (arith, length-make_room capacity es h)

drop_none : (n : ℕ) (es : List Rejection) → n ≡ 0 → drop n es ≡ es
drop_none n es h = rw h refl

drop_one : (n m : ℕ) (e : Rejection) (es : List Rejection) → n ≡ suc m → drop n (e ∷ es) ≡ drop m es
drop_one n m e es h = rw h refl

-- Making room drops the oldest, and no more of them than one entry needs.
make_room_lem :
    (capacity : ℕ) (es : List Rejection)
    → 0 < capacity
    → make_room capacity es ≡ drop (length es + 1 - capacity) es
unfolding make_room
make_room_lem capacity [] h = sym (drop_none (0 + 1 - capacity) [] (omega arith))
make_room_lem capacity (e ∷ es) h = elim (Bool-cases (leb capacity (suc (length es)))) [
  | inl l ↦ rw l (
      make_room_lem capacity es h
      ∙ sym (
          drop_one (suc (length es) + 1 - capacity) (length es + 1 - capacity) e es (ground arith)))
  | inr l ↦ rw l (sym (drop_none (suc (length es) + 1 - capacity) (e ∷ es) (ground arith)))
]

first_item-take :
    (n : ℕ) (x : Rejection) (xs : List Rejection) → 0 < n → first_item (take n (x ∷ xs)) ≡ some x
first_item-take zero x xs h = absurd (omega arith)
first_item-take (suc n) x xs h = refl

module _ (namespace value reason : Text) (source : Source) (now : ℤ) (log : Rejections) where
  abbrev pub rejection : Rejection
  rejection = record {
    when = now;
    namespace = namespace;
    value = value;
    reason = reason;
    source = source;
  }

  -- Where the log is switched on, what is kept is the newest of the old entries, as many as leave room
  -- for one, and then the new one.
  pub record_rejection_lem :
      0 < log.capacity
      → (record_rejection namespace value reason source now log).entries
        ≡ drop (length log.entries + 1 - log.capacity) log.entries ++ (rejection ∷ [])
  unfolding record_rejection
  record_rejection_lem h =
      let e : ltb 0 log.capacity ≡ true = ground arith in
      rw (e, make_room_lem log.capacity log.entries h) refl

  -- A log within its capacity stays within it, also where the capacity is 0.
  pub length-record_rejection :
      length log.entries ≤ log.capacity
      → length (record_rejection namespace value reason source now log).entries ≤ log.capacity
  unfolding record_rejection
  length-record_rejection h = elim (Bool-cases (ltb 0 log.capacity)) [
    | inl e ↦
        rw (e, length-append (make_room log.capacity log.entries) (rejection ∷ []))
          (ground (arith, length-make_room log.capacity log.entries))
    | inr e ↦ rw e h
  ]

  -- Where the log is switched on, a rejection comes first in an answer that asks for one or more entries
  -- from every namespace.
  pub recent-record_rejection :
      (limit : ℕ)
      → 0 < log.capacity
      → 0 < limit
      → first_item
          (recent_rejections none limit (record_rejection namespace value reason source now log))
        ≡ some rejection
  unfolding recent_rejections is_wanted
  recent-record_rejection limit h k =
      let old = drop (length log.entries + 1 - log.capacity) log.entries in
      rw (record_rejection_lem h, reverse-append old (rejection ∷ []))
        (first_item-take limit rejection (keep (is_wanted none) (reverse old)) k)

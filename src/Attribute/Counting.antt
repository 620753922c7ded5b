-- ===== src/Attribute/Counting.antt =====
-- What `increment` and `decrement` do to the counts and to the window of a value.
use sightingdb.Attribute.{Attribute, add_at, count, decrement, increment}
use sightingdb.Attribute.Merging.Counters.{counter}
use sightingdb.Chrono.{Chrono, DateTime}
use sightingdb.Common.{
  [], arith, eqb, false, if◌then◌else◌, inr, ltb, true, unwrap_or, ℕ, ◌%◌, ◌+◌, ◌-◌, ◌<◌, ◌||◌, ◌∷◌,
  ◌≡◌, ◌⊎◌,
}
use sightingdb.Int.{ltb_ℤ, ltb_ℤ_irrefl}
use sightingdb.Map.{Map, insert, lookup, remove, values}
use sightingdb.Map.Laws.{lookup-insert, lookup-remove}
use sightingdb.Map.Sorted.{IsSorted, lookup_above, lookup_below, remove_absent}
use sightingdb.Order.{Ord, Text, text_eq_iff, text_ord, ◌==◌}
use sightingdb.Word.{add_u64, sum_u64-total, total, u64_mod}

module _ {K : Type 0} ⦃o : Ord K⦄ where
  pub total-insert :
      (k : K) (v : ℕ) (m : Map K ℕ)
      → IsSorted m
      → total (values (insert k v m)) + unwrap_or (lookup k m) 0 ≡ total (values m) + v
  unfolding insert lookup
  total-insert k v [] s = omega arith
  total-insert k v ((j, w) ∷ m) s = ground (arith, total-insert k v m s.1, lookup_below k j m)

  pub total-remove :
      (k : K) (m : Map K ℕ)
      → IsSorted m
      → total (values (remove k m)) + unwrap_or (lookup k m) 0 ≡ total (values m)
  unfolding remove lookup
  total-remove k [] s = omega arith
  total-remove k ((j, w) ∷ m) s =
      ground (arith, total-remove k m s.1, o.beq_iff j k, lookup_above j m s.0, remove_absent j m)

module _ ⦃c : Chrono⦄ (node : Text) (when : DateTime) (retention : ℕ) (a : Attribute) where
  counts-increment : (increment node when retention a).counts ≡ add_at node 1 a.counts
  unfolding increment
  counts-increment = ground arith

  -- Where the counts are in order, a sighting adds one to the total, in `u64`.
  pub count-increment :
      IsSorted a.counts → count (increment node when retention a) ≡ add_u64 (count a) 1
  unfolding count add_at add_u64
  count-increment s = rw counts-increment (
      omega (
        arith,
        sum_u64-total (values a.counts),
        sum_u64-total (values (add_at node 1 a.counts)),
        total-insert node ((unwrap_or (lookup node a.counts) 0 + 1) % u64_mod) a.counts s,
      ))

  -- A sighting adds one, in `u64`, to the count of the server that records it, and to no other.
  pub counter-increment :
      (j : Text)
      → counter j (increment node when retention a).counts
        ≡ (if node == j then add_u64 (counter j a.counts) 1 else counter j a.counts)
  unfolding add_at
  counter-increment j = rw counts-increment (
      ground (
        arith,
        lookup-insert node j (add_u64 (counter node a.counts) 1) a.counts,
        text_eq_iff node j,
      ))

  -- The window takes the sighting in; it starts at it if the value had no sightings.
  pub window-increment :
      ((increment node when retention a).first_seen
        ≡ (if eqb (count a) 0 || ltb_ℤ when a.first_seen then when else a.first_seen))
      × ((increment node when retention a).last_seen
          ≡ (if eqb (count a) 0 || ltb_ℤ a.last_seen when then when else a.last_seen))
  unfolding increment
  window-increment = (ground arith, ground arith)

-- A value with sightings was first seen no later than it was last seen.
abbrev pub IsWindow : Attribute → Type 0
IsWindow a = (eqb (count a) 0 ≡ true) ⊎ (ltb_ℤ a.last_seen a.first_seen ≡ false)

module _ ⦃c : Chrono⦄ (node : Text) (when : DateTime) (retention : ℕ) (a : Attribute) where
  -- From a window that is in order, the sighting lies in the new window, which is in order.
  pub increment-IsWindow :
      IsWindow a
      → (ltb_ℤ when (increment node when retention a).first_seen ≡ false)
        × (ltb_ℤ (increment node when retention a).last_seen when ≡ false)
        × IsWindow (increment node when retention a)
  increment-IsWindow w =
      let (f, l) = window-increment node when retention a in
      (rw f (starts w), rw l (ends w), inr (rw (f, l) (ordered w)))
    where
      starts :
          IsWindow a
          → ltb_ℤ when (if eqb (count a) 0 || ltb_ℤ when a.first_seen then when else a.first_seen)
            ≡ false
      starts w = ground (arith, ltb_ℤ_irrefl when)

      ends :
          IsWindow a
          → ltb_ℤ (if eqb (count a) 0 || ltb_ℤ a.last_seen when then when else a.last_seen) when
            ≡ false
      ends w = ground (arith, ltb_ℤ_irrefl when)

      ordered :
          IsWindow a
          → ltb_ℤ
              (if eqb (count a) 0 || ltb_ℤ a.last_seen when then when else a.last_seen)
              (if eqb (count a) 0 || ltb_ℤ when a.first_seen then when else a.first_seen)
            ≡ false
      ordered w = ground (arith, ltb_ℤ_irrefl when)

module _ (node : Text) (a : Attribute) where
  -- A server gives back one of its own sightings, if it has one, and no one else's.
  pub counter-decrement :
      (j : Text)
      → counter j (decrement node a).0.counts
        ≡ (if node == j then counter j a.counts - 1 else counter j a.counts)
  unfolding decrement
  counter-decrement j = ground (
    arith,
    lookup-insert node j (counter node a.counts - 1) a.counts,
    lookup-remove node j a.counts,
    text_eq_iff node j,
  )

  -- The total falls by that sighting, in a copy whose counts are in order and fit in a `u64`, and
  -- it is what `decrement` returns.
  pub count-decrement :
      IsSorted a.counts
      → total (values a.counts) < u64_mod
      → ((decrement node a).1 ≡ count (decrement node a).0)
        × (count (decrement node a).0 + (if ltb 0 (counter node a.counts) then 1 else 0) ≡ count a)
  unfolding decrement
  count-decrement s fits = (
    ground arith,
    ground (
      arith,
      sum_u64-total (values a.counts),
      sum_u64-total (values (remove node a.counts)),
      sum_u64-total (values (insert node (counter node a.counts - 1) a.counts)),
      total-insert node (counter node a.counts - 1) a.counts s,
      total-remove node a.counts s,
    ),
  )

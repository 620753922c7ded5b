-- ===== src/Latest/Index.antt =====
-- The two maps of the record are one another's index, so that each value of a namespace stands in it
-- once.
use mathlib.Core.Path.{subst}
use sightingdb.Common.{Bool-cases, Option-cases, arith, inl, inr, none, some, sym, ℕ, ◌+◌, ◌<◌, ◌≡◌}
use sightingdb.Latest.{Entry, Inner, append_entry, key_of_entry, remove_at}
use sightingdb.Map.{insert, lookup, remove}
use sightingdb.Map.Laws.{lookup-insert, lookup-remove}
use sightingdb.Map.Sorted.{IsSorted, insert-IsSorted, remove-IsSorted}
use sightingdb.Order.{Text, nat_ord, text_eq, text_eq_iff, text_ord}
use sightingdb.Word.{add_u64, u64_mod}

pub record IsIndexed (inner : Inner) : Type 0 where
  pub order_sorted : IsSorted inner.order
  pub found :
      (at : ℕ) (e : Entry)
      → lookup at inner.order ≡ some e
      → (lookup (key_of_entry e) inner.position ≡ some at) × (at < inner.next)
  pub filed :
      (key : Text) (at : ℕ)
      → lookup key inner.position ≡ some at
      → (e : Entry) × (lookup at inner.order ≡ some e) × (key_of_entry e ≡ key)

remove_at_absent :
    (key : Text) (inner : Inner) → lookup key inner.position ≡ none → remove_at key inner ≡ inner
unfolding remove_at
remove_at_absent key inner l = rw (l, remove_at)

pub remove_at_present :
    (key : Text) (inner : Inner) (at : ℕ)
    → lookup key inner.position ≡ some at
    → remove_at key inner
      ≡ record inner { position = remove key inner.position; order = remove at inner.order }
unfolding remove_at
remove_at_present key inner at l = rw (l, remove_at)

pub remove_at-IsIndexed :
    (key : Text) (inner : Inner) → IsIndexed inner → IsIndexed (remove_at key inner)
remove_at-IsIndexed key inner h = elim (Option-cases (lookup key inner.position)) [
  | inl l ↦ subst IsIndexed (sym (remove_at_absent key inner l)) h
  | inr (at, l) ↦ subst IsIndexed (sym (remove_at_present key inner at l)) (record {
    order_sorted = remove-IsSorted at inner.order h.order_sorted;
    found = found at l;
    filed = filed at l;
  })
]
  where
    found :
        (at : ℕ)
        → lookup key inner.position ≡ some at
        → (j : ℕ) (e : Entry) → lookup j (remove at inner.order) ≡ some e
        → (lookup (key_of_entry e) (remove key inner.position) ≡ some j) × (j < inner.next)
    found at l j e p =
        let q : lookup j inner.order ≡ some e = ground (arith, lookup-remove at j inner.order) in
        let r = h.found j e q in
        (
          ground (
            arith,
            lookup-remove at j inner.order,
            lookup-remove key (key_of_entry e) inner.position,
            text_eq_iff key (key_of_entry e),
          ),
          r.1,
        )

    filed :
        (at : ℕ)
        → lookup key inner.position ≡ some at
        → (k : Text) (j : ℕ) → lookup k (remove key inner.position) ≡ some j
        → (e : Entry) × (lookup j (remove at inner.order) ≡ some e) × (key_of_entry e ≡ k)
    filed at l k j p =
        let q : lookup k inner.position ≡ some j =
          ground (arith, lookup-remove key k inner.position) in
        let (e, r, s) = h.filed k j q in
        (
          e,
          ground (
            arith,
            lookup-remove at j inner.order,
            lookup-remove key k inner.position,
            text_eq_iff key k,
            h.filed key at l,
          ),
          s,
        )

cleared_position : (key : Text) (inner : Inner) → lookup key (remove_at key inner).position ≡ none
unfolding remove_at
cleared_position key inner =
    ground (arith, lookup-remove key key inner.position, text_eq_iff key key)

next-remove_at : (key : Text) (inner : Inner) → (remove_at key inner).next ≡ inner.next
unfolding remove_at
next-remove_at key inner = ground arith

-- an entry under a fresh key, at the end
append_cleared : Entry → Inner → Inner
append_cleared entry inner = record inner {
  next = add_u64 inner.next 1;
  order = insert inner.next entry inner.order;
  position = insert (key_of_entry entry) inner.next inner.position;
}

append_cleared-IsIndexed :
    (entry : Entry) (inner : Inner)
    → IsIndexed inner
    → lookup (key_of_entry entry) inner.position ≡ none
    → inner.next + 1 < u64_mod
    → IsIndexed (append_cleared entry inner)
unfolding append_cleared add_u64
append_cleared-IsIndexed entry inner h fresh room = record {
  order_sorted = insert-IsSorted inner.next entry inner.order h.order_sorted;
  found = λ at e p. (
    ground (
      arith,
      lookup-insert inner.next at entry inner.order,
      lookup-insert (key_of_entry entry) (key_of_entry e) inner.next inner.position,
      h.found at e,
      text_eq_iff (key_of_entry entry) (key_of_entry e),
    ),
    ground (arith, lookup-insert inner.next at entry inner.order, h.found at e),
  );
  filed = λ key at p. filed key at p;
}
  where
    filed :
        (key : Text) (at : ℕ)
        → lookup key (insert (key_of_entry entry) inner.next inner.position) ≡ some at
        → (e : Entry) × (lookup at (insert inner.next entry inner.order) ≡ some e)
          × (key_of_entry e ≡ key)
    filed key at p = elim (Bool-cases (text_eq (key_of_entry entry) key)) [
      | inl t ↦ (
        entry,
        ground (
          arith,
          lookup-insert (key_of_entry entry) key inner.next inner.position,
          lookup-insert inner.next at entry inner.order,
        ),
        (text_eq_iff (key_of_entry entry) key).0 t,
      )
      | inr t ↦
          let (e, q, r) =
            h.filed key at
              (ground (arith, lookup-insert (key_of_entry entry) key inner.next inner.position)) in
          (e, ground (arith, lookup-insert inner.next at entry inner.order, h.found at e), r)
    ]

-- Appending keeps the index, while positions are left.
pub append_entry-IsIndexed :
    (entry : Entry) (inner : Inner)
    → IsIndexed inner
    → inner.next + 1 < u64_mod
    → IsIndexed (append_entry entry inner)
unfolding append_entry append_cleared
append_entry-IsIndexed entry inner h room =
    append_cleared-IsIndexed entry (remove_at (key_of_entry entry) inner)
      (remove_at-IsIndexed (key_of_entry entry) inner h)
      (cleared_position (key_of_entry entry) inner)
      (rw (next-remove_at (key_of_entry entry) inner) room)

-- ===== src/Latest/Trimming.antt =====
-- Dropping the oldest entries keeps the index.
use mathlib.Core.Path.{subst}
use sightingdb.Common.{
  Bool, Bool-cases, [], ap, arith, eqb_iff, inl, inr, length, ltb, some, ℕ, ◌+◌, ◌<◌, ◌∙◌, ◌∷◌, ◌≡◌,
}
use sightingdb.Latest.{Entry, Inner, append_entry, key_of_entry, push, trim_inner, trim_order}
use sightingdb.Latest.Index.{
  IsIndexed, append_entry-IsIndexed, remove_at-IsIndexed, remove_at_present,
}
use sightingdb.Map.{Map, lookup, remove}
use sightingdb.Map.Sorted.{IsSorted, lookup_above, remove_absent}
use sightingdb.Order.{Text, nat_ord, text_ord}
use sightingdb.Word.{u64_mod}

lookup_first : (at : ℕ) (e : Entry) (rest : Map ℕ Entry) → lookup at ((at, e) ∷ rest) ≡ some e
unfolding lookup
lookup_first at e rest = ground (arith, eqb_iff at at)

remove_first :
    (at : ℕ) (e : Entry) (rest : Map ℕ Entry)
    → IsSorted ((at, e) ∷ rest)
    → remove at ((at, e) ∷ rest) ≡ rest
unfolding remove
remove_first at e rest s =
    ground (arith, eqb_iff at at, remove_absent at rest (lookup_above at rest s.0))

without_oldest :
    (at : ℕ) (oldest : Entry) (rest : Map ℕ Entry) (position : Map Text ℕ) (upto : ℕ)
    (changed : Bool)
    → IsIndexed
        (record { order = (at, oldest) ∷ rest; position = position; next = upto; dirty = changed })
    → IsIndexed (record {
      order = rest;
      position = remove (key_of_entry oldest) position;
      next = upto;
      dirty = changed;
    })
without_oldest at oldest rest position upto changed h =
    let inner : Inner = record {
      order = (at, oldest) ∷ rest;
      position = position;
      next = upto;
      dirty = changed;
    } in
    let key = key_of_entry oldest in
    let gone =
      remove_at_present key inner at (h.found at oldest (lookup_first at oldest rest)).0
      ∙ ap (λ (order : Map ℕ Entry). record inner { order = order; position = remove key position })
          (remove_first at oldest rest h.order_sorted) in
    subst IsIndexed gone (remove_at-IsIndexed key inner h)

-- The loop that drops the oldest entries keeps the index as well.
trim_order-IsIndexed :
    (capacity : ℕ) (order : Map ℕ Entry) (position : Map Text ℕ) (upto : ℕ) (changed : Bool)
    → IsIndexed (record { order = order; position = position; next = upto; dirty = changed })
    → IsIndexed (record {
      order = (trim_order capacity order position).0;
      position = (trim_order capacity order position).1;
      next = upto;
      dirty = changed;
    })
unfolding trim_order
trim_order-IsIndexed capacity [] position upto changed h = h
trim_order-IsIndexed capacity ((at, oldest) ∷ rest) position upto changed h =
    elim (Bool-cases (ltb capacity (length ((at, oldest) ∷ rest)))) [
      | inl e ↦ rw e (
          trim_order-IsIndexed capacity rest (remove (key_of_entry oldest) position) upto changed
            (without_oldest at oldest rest position upto changed h))
      | inr e ↦ rw e h
    ]

-- Recording a write keeps the two maps one another's index, so that each value of a namespace is
-- remembered once, as long as the next position but one fits in a `u64`.
pub push-IsIndexed :
    (entry : Entry) (capacity : ℕ) (inner : Inner)
    → IsIndexed inner
    → inner.next + 1 < u64_mod
    → IsIndexed (push entry capacity inner)
unfolding push trim_inner
push-IsIndexed entry capacity inner h room =
    let appended = append_entry entry inner in
    trim_order-IsIndexed capacity appended.order appended.position appended.next appended.dirty
      (append_entry-IsIndexed entry inner h room)

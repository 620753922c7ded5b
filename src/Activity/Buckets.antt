-- ===== src/Activity/Buckets.antt =====
-- What one event leaves in the buckets.
use sightingdb.Activity.{Tally, add_tally, bucket_start, bump, oldest_kept, split_off}
use sightingdb.Common.{
  Bool-cases, Option, Option-cases, [], ap, arith, false, if◌then◌else◌, inl, inr, is_some, none,
  not, refl, some, sym, ℕ, ◌&&◌, ◌*◌, ◌-◌, ◌∙◌, ◌∷◌, ◌≡◌,
}
use sightingdb.Int.{eqb_ℤ, eqb_ℤ_iff, ltb_ℤ, ltb_ℤ-minus, ℤ}
use sightingdb.Map.{Map, insert, lookup}
use sightingdb.Map.Laws.{lookup-insert}
use sightingdb.Order.{int_ord, ◌==◌}

-- What is not below the bound stays, and the rest goes.
lookup-split_off :
    {V : Type 0} (oldest at : ℤ) (m : Map ℤ V)
    → lookup at (split_off oldest m) ≡ (if ltb_ℤ at oldest then none else lookup at m)
unfolding lookup split_off
lookup-split_off oldest at [] = ground arith
lookup-split_off oldest at ((i, v) ∷ m) =
    ground (arith, lookup-split_off oldest at m, eqb_ℤ_iff i at)

-- a bucket with an event added to it
abbrev pub with_event : Tally → Option Tally → Tally
with_event counts none = counts
with_event counts (some old) = add_tally old counts

start_is_kept :
    (now : ℤ) (step retained : ℕ)
    → ltb_ℤ (bucket_start now step) (oldest_kept now step retained) ≡ false
unfolding oldest_kept
start_is_kept now step retained = ltb_ℤ-minus (bucket_start now step) ((retained - 1) * step)

-- An event is added to its bucket. Where that bucket is new, those before the oldest that is kept go;
-- every other bucket stays as it was.
pub lookup-bump :
    (now : ℤ) (step retained : ℕ) (counts : Tally) (m : Map ℤ Tally) (at : ℤ)
    → lookup at (bump now step retained counts m) ≡ (
        if bucket_start now step == at
        then some (with_event counts (lookup at m))
        else if not (is_some (lookup (bucket_start now step) m))
            && ltb_ℤ at (oldest_kept now step retained)
        then none
        else lookup at m)
unfolding bump
lookup-bump now step retained counts m at =
    let start = bucket_start now step in
    elim (Option-cases (lookup start m)) [
      | inl n ↦
          rw
            (
              bump,
              n,
              lookup-split_off (oldest_kept now step retained) at (insert start counts m),
              lookup-insert start at counts m,
            )
            (ground (arith, start_is_kept now step retained, eqb_ℤ_iff start at))
      | inr (old, h) ↦ elim (Bool-cases (eqb_ℤ start at)) [
        | inl e ↦
            let same : lookup at m ≡ some old =
              ap (λ k. lookup k m) (sym ((eqb_ℤ_iff start at).0 e)) ∙ h in
            rw (bump, h, lookup-insert start at (add_tally old counts) m, e, same) refl
        | inr e ↦ rw (bump, h, lookup-insert start at (add_tally old counts) m, e) refl
      ]
    ]

-- ===== src/Activity/Restoring.antt =====
-- What a restart puts back.
use sightingdb.Activity.{Tally, add_tally, no_tally, restore_buckets}
use sightingdb.Common.{
  Bool-cases, Option, [], ap, inl, inr, none, refl, some, sym, unwrap_or, ◌∙◌, ◌∷◌, ◌≡◌,
}
use sightingdb.Int.{eqb_ℤ, eqb_ℤ_iff, ℤ}
use sightingdb.Map.{Map, insert, lookup}
use sightingdb.Map.Laws.{lookup-insert}
use sightingdb.Map.Sorted.{IsSorted, lookup_above}
use sightingdb.Order.{int_ord}

-- a bucket with what was saved of it
abbrev pub with_saved : Option Tally → Option Tally → Option Tally
with_saved none held = held
with_saved (some counts) held = some (add_tally (unwrap_or held no_tally) counts)

-- Each bucket that was saved is added to the one that is held, and the others stay as they are: what
-- was counted before the restore is not lost.
pub lookup-restore_buckets :
    (saved held : Map ℤ Tally) (at : ℤ)
    → IsSorted saved
    → lookup at (restore_buckets saved held) ≡ with_saved (lookup at saved) (lookup at held)
unfolding restore_buckets lookup
lookup-restore_buckets [] held at o = refl
lookup-restore_buckets ((i, counts) ∷ saved) held at o =
    let added = add_tally (unwrap_or (lookup i held) no_tally) counts in
    elim (Bool-cases (eqb_ℤ i at)) [
      | inl e ↦
          let same = (eqb_ℤ_iff i at).0 e in
          let nothing : lookup at saved ≡ none =
            ap (λ k. lookup k saved) (sym same) ∙ lookup_above i saved o.0 in
          rw
            (
              e,
              lookup-restore_buckets saved (insert i added held) at o.1,
              lookup-insert i at added held,
              e,
              nothing,
            )
            (ap (λ k. some (add_tally (unwrap_or (lookup k held) no_tally) counts)) same)
      | inr e ↦
          rw
            (
              e,
              lookup-restore_buckets saved (insert i added held) at o.1,
              lookup-insert i at added held,
              e,
            )
            refl
    ]

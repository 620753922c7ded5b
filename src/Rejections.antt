-- ===== src/Rejections.antt =====
-- src/rejections.rs: the values that were not written, and why, in a ring of fixed capacity. A method
-- holds the mutex from its first read to its last write, so a method is one step.
pub mod Ring
use sightingdb.Common.{
  Bool, List, Option, [], if◌then◌else◌, keep, leb, length, ltb, none, not, reverse, some, take,
  true, ℕ, ◌++◌, ◌∷◌,
}
use sightingdb.Int.{ℤ}
use sightingdb.Order.{Text}
use sightingdb.Storage.{holds_under}

pub data Source : Type 0 where
  write : Source
  bulk_write : Source
  management : Source
  ingest : Source

pub record Rejection : Type 0 where
  pub when : ℤ
  pub namespace : Text
  pub value : Text
  pub reason : Text
  pub source : Source

-- the newest entry is the last
pub record Rejections : Type 0 where
  pub entries : List Rejection
  pub capacity : ℕ

-- `Rejections::new`
abbrev pub no_rejections : ℕ → Rejections
no_rejections capacity = record { entries = []; capacity = capacity }

-- `enabled`
abbrev pub enabled : Rejections → Bool
enabled log = ltb 0 log.capacity

-- the loop of `record`: `pop_front` takes the head
unfoldable pub make_room : ℕ → List Rejection → List Rejection
make_room capacity [] = []
make_room capacity (oldest ∷ rest) =
    let onward = make_room capacity rest in
    if leb capacity (length (oldest ∷ rest)) then onward else oldest ∷ rest

-- `record`, at the second `now`
unfoldable pub record_rejection : Text → Text → Text → Source → ℤ → Rejections → Rejections
unfolding make_room
record_rejection namespace value reason source now log =
    let entry : Rejection = record {
      when = now;
      namespace = namespace;
      value = value;
      reason = reason;
      source = source;
    } in
    if not (enabled log)
    then log
    else record log { entries = make_room log.capacity log.entries ++ (entry ∷ []) }

-- the filter of `recent`
unfoldable pub is_wanted : Option Text → Rejection → Bool
unfolding holds_under
is_wanted none entry = true
is_wanted (some wanted) entry = holds_under entry.namespace wanted

-- `recent`
unfoldable pub recent_rejections : Option Text → ℕ → Rejections → List Rejection
unfolding is_wanted
recent_rejections namespace limit log =
    take limit (keep (is_wanted namespace) (reverse log.entries))

-- `clear`
unfoldable pub clear_rejections : Rejections → Rejections
clear_rejections log = record log { entries = [] }

-- ===== src/Namespace.antt =====
-- src/db.rs, `Namespace`: the values of one namespace. Each method holds the locks that it needs from
-- its first read to its last write, so a method is one step; `HashMap` iterates by key here.
pub mod Recording
pub mod Sweeping
use sightingdb.Attribute.{
  Attribute, AttributeView, Merge, Merged, as_merge, count, decrement, increment, is_expired,
  migrate, new, set_tags, set_ttl, view,
}
use sightingdb.Attribute.Merging.{merge, merged}
use sightingdb.Chrono.{Chrono, DateTime, unix_epoch}
use sightingdb.Common.{
  Bool, List, Option, [], any, drop, eqb, false, if◌then◌else◌, keep, length, ltb, map, none, not,
  some, take, true, unwrap_or, ℕ, ◌||◌, ◌∷◌,
}
use sightingdb.Int.{eqb_ℤ}
use sightingdb.Map.{Map, contains, insert, keys, lookup, remove, values}
use sightingdb.Order.{Text, text_ord}
use sightingdb.TagText.{add_tags}
use sightingdb.Text.{is_empty}
use sightingdb.Word.{total}

pub record Namespace : Type 0 where
  pub cells : Map Text Attribute
  pub has_ttl : Bool

-- `Namespace::default`
abbrev pub empty_namespace : Namespace
empty_namespace = record { cells = []; has_ttl = false }

pub record Page (A : Type 0) : Type 0 where
  pub items : List A
  pub total : ℕ
  pub offset : ℕ

unfoldable pub migrate_all : Text → Map Text Attribute → Map Text Attribute
unfolding migrate
migrate_all node [] = []
migrate_all node ((value, a) ∷ rest) = (value, migrate node a) ∷ migrate_all node rest

-- `from_values`
unfoldable pub from_values : Map Text Attribute → Text → Namespace
unfolding migrate_all
from_values cells node = record {
  cells = migrate_all node cells;
  has_ttl = any (λ (a : Attribute). ltb 0 a.ttl) (values cells);
}

abbrev pub with_ttl : Option ℕ → Attribute → Attribute
with_ttl none a = a
with_ttl (some t) a = set_ttl t a

abbrev pub sets_ttl : Option ℕ → Bool
sets_ttl none = false
sets_ttl (some t) = ltb 0 t

unfoldable pub with_tags : Text → Attribute → Attribute
unfolding add_tags
with_tags tags a = if is_empty tags then a else record a { tags = add_tags tags a.tags }

pub record Recorded : Type 0 where
  pub namespace : Namespace
  pub count : ℕ
  pub is_new : Bool

-- `value_names`
abbrev pub value_names : Namespace → List Text
value_names ns = keys ns.cells

-- `release`
unfoldable pub release : Text → Text → Namespace → Namespace
unfolding lookup insert remove decrement
release node value ns = elim (lookup value ns.cells) [
  | none ↦ ns
  | some a ↦ record ns {
    cells =
        if eqb (decrement node a).1 0
        then remove value ns.cells
        else insert value (decrement node a).0 ns.cells;
  }
]

module _ ⦃c : Chrono⦄ where
  -- the body that both paths of `record` share, on the attribute that it finds or makes
  unfoldable pub touch : Text → DateTime → Option ℕ → ℕ → Text → Attribute → Attribute
  unfolding set_ttl with_tags increment
  touch node when ttl retention tags a =
      increment node when retention (with_tags tags (with_ttl ttl a))

  -- `record`: the fast path where the value is there, the slow path where it is not
  unfoldable pub record_value : Text → Text → DateTime → Option ℕ → ℕ → Text → Namespace → Recorded
  unfolding lookup insert touch new count
  record_value node value when ttl retention tags ns =
      let has_ttl = ns.has_ttl || sets_ttl ttl in
      elim (lookup value ns.cells) [
        | some a ↦
            let after = touch node when ttl retention tags a in
            record {
              namespace = record { cells = insert value after ns.cells; has_ttl = has_ttl };
              count = count after;
              is_new = false;
            }
        | none ↦
            let after = touch node when ttl retention tags (new value) in
            record {
              namespace = record { cells = insert value after ns.cells; has_ttl = has_ttl };
              count = count after;
              is_new = true;
            }
      ]

  -- `set_count`, at the instant `now`: the namespace, and whether anything changed
  unfoldable pub set_count : Text → Text → ℕ → DateTime → Namespace → Namespace × Bool
  unfolding lookup insert remove contains new count
  set_count node value n now ns =
      let a = unwrap_or (lookup value ns.cells) (new value) in
      let stamped = eqb_ℤ a.first_seen unix_epoch in
      if eqb n 0
      then (record ns { cells = remove value ns.cells }, contains value ns.cells)
      else if eqb (count a) n
      then (record ns { cells = insert value a ns.cells }, false)
      else (
        record ns {
          cells =
              insert value
                (record a {
                  counts = (node, n) ∷ [];
                  first_seen = if stamped then now else a.first_seen;
                  last_seen = if stamped then now else a.last_seen;
                })
                ns.cells;
        },
        true,
      )

  -- `merge`: the namespace, what the merge returned, and whether the value is new
  unfoldable pub merge_value : Text → Text → Merge → Namespace → Namespace × Merged × Bool
  unfolding lookup insert contains new merge merged
  merge_value node value incoming ns =
      let a = unwrap_or (lookup value ns.cells) (new value) in
      (
        record {
          cells = insert value (merge node incoming a) ns.cells;
          has_ttl = ns.has_ttl || ltb 0 incoming.ttl;
        },
        merged node incoming a,
        not (contains value ns.cells),
      )

  -- the values that are not expired, in the order of their names
  unfoldable pub live : DateTime → Map Text Attribute → Map Text Attribute
  unfolding is_expired
  live now = keep (λ e. not (is_expired now e.1))

  -- `merge_page`
  unfoldable pub merge_page : ℕ → ℕ → DateTime → Namespace → Page (Text × Merge)
  unfolding live as_merge
  merge_page offset limit now ns = record {
    items =
        map (λ (e : Text × Attribute). (e.0, as_merge e.1))
          (take limit (drop offset (live now ns.cells)));
    total = length (live now ns.cells);
    offset = offset;
  }

  -- `merge_payload`
  unfoldable pub merge_payload : Text → DateTime → Namespace → Option Merge
  unfolding lookup is_expired as_merge
  merge_payload value now ns = elim (lookup value ns.cells) [
    | none ↦ none
    | some a ↦ if is_expired now a then none else some (as_merge a)
  ]

  -- `view`
  unfoldable pub view_value : Text → ℕ → Bool → DateTime → Namespace → Option AttributeView
  unfolding lookup is_expired view
  view_value value consensus with_stats now ns = elim (lookup value ns.cells) [
    | none ↦ none
    | some a ↦ if is_expired now a then none else some (view consensus with_stats a)
  ]

  -- `count`
  unfoldable pub count_value : Text → DateTime → Namespace → ℕ
  unfolding lookup is_expired count
  count_value value now ns = elim (lookup value ns.cells) [
    | none ↦ 0
    | some a ↦ if is_expired now a then 0 else count a
  ]

  -- `all_views`, in the order of keys; the program's order is that of a `HashMap`, which is unspecified
  unfoldable pub all_views : Bool → DateTime → Namespace → List AttributeView
  unfolding live view
  all_views with_stats now ns =
      map (λ (e : Text × Attribute). view 0 with_stats e.1) (live now ns.cells)

  -- `remove_expired`: the namespace, and the names of the values removed
  unfoldable pub remove_expired : DateTime → Namespace → Namespace × List Text
  unfolding live is_expired
  remove_expired now ns =
      if not ns.has_ttl
      then (ns, [])
      else if not (any (λ (a : Attribute). is_expired now a) (values ns.cells))
      then (ns, [])
      else (
        record ns { cells = live now ns.cells },
        keys (keep (λ (e : Text × Attribute). is_expired now e.1) ns.cells),
      )

  -- `retag`: the namespace, and whether there was a value to tag
  unfoldable pub retag : Text → Text → DateTime → Namespace → Namespace × Bool
  unfolding lookup insert is_expired set_tags
  retag value tags now ns = elim (lookup value ns.cells) [
    | none ↦ (ns, false)
    | some a ↦ if is_expired now a then (ns, false) else (
      record ns { cells = insert value (set_tags tags (c.timestamp_millis now) a) ns.cells },
      true,
    )
  ]

-- ===== src/Latest.antt =====
-- src/latest.rs: the values written most recently, and where. A method holds the mutex from its first
-- read to its last write, so a method is one step. `visible` stands for the caller's closure; it is
-- asked of a namespace as often as it is met, which gives what the program's cache of answers gives.
pub mod Index
pub mod Trimming
pub mod Bound
use sightingdb.Common.{
  Bool, List, Option, [], eqb, false, if◌then◌else◌, is_nil, leb, length, ltb, min, none, not,
  reverse, some, true, ℕ, ◌&&◌, ◌++◌, ◌||◌, ◌∷◌,
}
use sightingdb.Int.{ltb_ℤ, ℤ}
use sightingdb.Map.{Map, insert, keys, lookup, remove, values}
use sightingdb.Names.{is_internal, under}
use sightingdb.Order.{Text, nat_ord, text_eq, text_ord}
use sightingdb.Text.{is_slash, trim_matches}
use sightingdb.Word.{add_u64}

abbrev pub max_limit : ℕ
max_limit = 1000

pub record Entry : Type 0 where
  pub namespace : Text
  pub value : Text
  pub written : ℤ

pub record Inner : Type 0 where
  pub order : Map ℕ Entry
  pub position : Map Text ℕ
  pub next : ℕ
  pub dirty : Bool

pub record Latest : Type 0 where
  pub capacity : ℕ
  pub inner : Inner

-- `DEFAULT_CAPACITY`
abbrev pub default_capacity : ℕ
default_capacity = 10000

-- `Latest::default`
abbrev pub default_latest : Latest
default_latest = record {
  capacity = default_capacity;
  inner = record { order = []; position = []; next = 0; dirty = false };
}

-- `key_of`: a NUL stands between the two
unfoldable pub key_of : Text → Text → Text
key_of namespace value = namespace ++ (0 ∷ value)

abbrev pub key_of_entry : Entry → Text
key_of_entry e = key_of e.namespace e.value

-- `Inner::remove`
unfoldable pub remove_at : Text → Inner → Inner
unfolding lookup remove
remove_at key inner = elim (lookup key inner.position) [
  | none ↦ inner
  | some at ↦ record inner { position = remove key inner.position; order = remove at inner.order }
]

-- the loop of `Inner::trim`: `pop_first` is the head of the map
unfoldable pub trim_order : ℕ → Map ℕ Entry → Map Text ℕ → Map ℕ Entry × Map Text ℕ
unfolding key_of remove
trim_order capacity [] position = ([], position)
trim_order capacity ((at, oldest) ∷ rest) position =
    let onward = trim_order capacity rest (remove (key_of_entry oldest) position) in
    if ltb capacity (length ((at, oldest) ∷ rest)) then onward else ((at, oldest) ∷ rest, position)

-- `Inner::trim`
unfoldable pub trim_inner : ℕ → Inner → Inner
unfolding trim_order
trim_inner capacity inner =
    let (order, position) = trim_order capacity inner.order inner.position in
    record inner { order = order; position = position }

-- `Inner::push`, before it trims
unfoldable pub append_entry : Entry → Inner → Inner
unfolding key_of remove_at insert add_u64
append_entry entry inner =
    let cleared = remove_at (key_of_entry entry) inner in
    record cleared {
      next = add_u64 cleared.next 1;
      order = insert cleared.next entry cleared.order;
      position = insert (key_of_entry entry) cleared.next cleared.position;
    }

-- `Inner::push`
unfoldable pub push : Entry → ℕ → Inner → Inner
unfolding append_entry trim_inner
push entry capacity inner = trim_inner capacity (append_entry entry inner)

-- `set_capacity`
unfoldable pub set_capacity : ℕ → Latest → Latest
unfolding trim_inner
set_capacity capacity latest =
    let trimmed = trim_inner capacity latest.inner in
    record {
      capacity = capacity;
      inner = record trimmed {
        dirty = trimmed.dirty || not (eqb (length trimmed.order) (length latest.inner.order));
      };
    }

-- `record_at`
unfoldable pub record_at : Text → Text → ℤ → Latest → Latest
unfolding is_internal push
record_at namespace value written latest =
    if eqb latest.capacity 0 || is_internal namespace then latest else record latest {
      inner =
          record (push (record { namespace = namespace; value = value; written = written })
            latest.capacity latest.inner) { dirty = true };
    }

unfoldable pub remove_keys : List Text → Inner → Inner
unfolding remove_at
remove_keys [] inner = inner
remove_keys (key ∷ keys) inner = remove_keys keys (remove_at key inner)

-- the keys of the entries of one namespace, in `forget_namespace`
abbrev pub keys_in : Text → List Entry → List Text
keys_in namespace [] = []
keys_in namespace (e ∷ es) =
    if text_eq e.namespace namespace
    then key_of_entry e ∷ keys_in namespace es
    else keys_in namespace es

-- `forget_namespace`
unfoldable pub forget_namespace : Text → Latest → Latest
unfolding remove_keys key_of
forget_namespace namespace latest =
    let gone = keys_in namespace (values latest.inner.order) in
    if is_nil gone
    then latest
    else record latest { inner = record (remove_keys gone latest.inner) { dirty = true } }

abbrev pub is_older : Option ℤ → ℤ → Bool
is_older none written = false
is_older (some since) written = ltb_ℤ written since

-- the loop of `recent`, newest first
unfoldable pub scan : ℕ → Option ℤ → Text → (Text → Bool) → List Entry → List Entry → List Entry
unfolding under
scan limit since prefix visible [] found = found
scan limit since prefix visible (e ∷ es) found =
    let onward =
      scan limit since prefix visible es
        (if under e.namespace prefix && visible e.namespace then found ++ (e ∷ []) else found) in
    if leb limit (length found) || is_older since e.written then found else onward

-- `recent`
unfoldable pub recent : ℕ → Option ℤ → Text → (Text → Bool) → Latest → List Entry
unfolding scan trim_matches
recent limit since prefix visible latest =
    scan (min limit max_limit) since (trim_matches is_slash prefix) visible
      (reverse (values latest.inner.order)) []

-- `take_snapshot`
unfoldable pub take_snapshot : Bool → Latest → Latest × Option (List Entry)
take_snapshot force latest = if not latest.inner.dirty && not force then (latest, none) else (
  record latest { inner = record latest.inner { dirty = false } },
  some (values latest.inner.order),
)

-- `mark_dirty`
unfoldable pub mark_record_dirty : Latest → Latest
mark_record_dirty latest = record latest { inner = record latest.inner { dirty = true } }

unfoldable pub push_all : List Entry → ℕ → Inner → Inner
unfolding push
push_all [] capacity inner = inner
push_all (e ∷ es) capacity inner = push_all es capacity (push e capacity inner)

-- `restore`
unfoldable pub restore : List Entry → Latest → Latest
unfolding push_all
restore saved latest = record latest {
  inner =
      push_all (saved ++ values latest.inner.order) latest.capacity
        (record latest.inner { order = []; position = [] });
}

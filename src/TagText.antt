-- ===== src/TagText.antt =====
-- src/attribute.rs: tags, a set that is kept as a text with commas.
use sightingdb.Common.{
  Bool, List, Option, [], false, first_item, if◌then◌else◌, keep, map, none, not, some, ◌&&◌, ◌++◌,
  ◌||◌, ◌∷◌,
}
use sightingdb.Order.{Text, text_eq}
use sightingdb.Text.{contains_text, is_empty, join, lower, split, split_once, trim}

-- `split_tags`
unfoldable pub split_tags : Text → List Text
unfolding split trim
split_tags tags = keep (λ tag. not (is_empty tag)) (map trim (split b',' tags))

-- `str::eq_ignore_ascii_case`
abbrev pub eq_ignore_ascii_case : Text → Text → Bool
eq_ignore_ascii_case s t = text_eq (map lower s) (map lower t)

abbrev pub value_under : Text → Option (Text × Text) → List Text
value_under key none = []
value_under key (some (name, value)) =
    if eq_ignore_ascii_case (trim name) key && not (is_empty (trim value))
    then trim value ∷ []
    else []

-- the `filter_map` of `tag_values`
unfoldable pub values_of : Text → List Text → List Text
unfolding split_once trim
values_of key [] = []
values_of key (tag ∷ rest) = value_under key (split_once b':' tag) ++ values_of key rest

unfoldable pub tag_values : Text → Text → List Text
unfolding split_tags values_of
tag_values tags key = values_of key (split_tags tags)

unfoldable pub tag_value : Text → Text → Option Text
unfolding tag_values
tag_value tags key = first_item (tag_values tags key)

-- the join that `add_tags` makes when it adds something: the tags that are not held yet
unfoldable pub push_new : List Text → List Text → List Text
unfolding contains_text
push_new [] merged = merged
push_new (tag ∷ rest) merged =
    push_new rest (if contains_text tag merged then merged else merged ++ (tag ∷ []))

-- the flag `changed` of `add_tags`
unfoldable pub has_new : List Text → List Text → Bool
unfolding contains_text
has_new [] merged = false
has_new (tag ∷ rest) merged =
    let is_held = contains_text tag merged in
    not is_held || has_new rest (if is_held then merged else merged ++ (tag ∷ []))

-- `add_tags`, as the text that it leaves in `self.tags`
unfoldable pub add_tags : Text → Text → Text
unfolding split_tags push_new has_new join
add_tags new_tags held =
    if has_new (split_tags new_tags) (split_tags held)
    then join (b',' ∷ []) (push_new (split_tags new_tags) (split_tags held))
    else held

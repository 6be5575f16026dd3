-- ===== src/ActionItems.antt =====
-- src/action_items.rs: the action items in the text of a message, one `- ` line for each.
pub mod Fields
use thought_khoral_room_gate.Prelude.{
  ℕ, String, Bool, true, false, ◌&&◌, ◌||◌, Option, none, some, List, [], ◌∷◌, ◌++◌, map, Result,
  ok, err, ◌>>=◌, ok_or, leb, ◌==◌, if◌then◌else◌,
}
use thought_khoral_room_gate.Text.{
  Text, chars, text, trim_start, trim, strip_prefix, split_on, lines, split_once, text_eq, is_empty,
}

pub record ActionItem : Type 0 where
  pub text : Text
  pub owner : Option Text
  pub due : Option Text

pub data ParseError : Type 0 where
  empty_field unsupported_field : ParseError

-- `replacen(pattern, "", 1)`.
unfoldable pub remove_first : Text → Text → Text
unfolding strip_prefix
remove_first pattern_text [] = []
remove_first pattern_text (c ∷ cs) =
    let rest = remove_first pattern_text cs in
    elim (strip_prefix pattern_text (c ∷ cs)) [ none ↦ c ∷ rest | some after ↦ after ]

abbrev pub is_none : Option Text → Bool
is_none none = true
is_none (some _) = false

abbrev pub required : Text → Result ParseError Text
required value = if is_empty value then err empty_field else ok value

-- `match name.trim()`.
unfoldable pub assign_field :
    Text → Text → Option Text → Option Text → Result ParseError (Option Text × Option Text)
unfolding text_eq
assign_field name value owner due =
    if text_eq name (chars "owner") && is_none owner
    then ok (some value, due)
    else if text_eq name (chars "due") && is_none due
    then ok (owner, some value)
    else err unsupported_field

-- `for field in fields`.
unfoldable pub parse_fields :
    List Text → Option Text → Option Text → Result ParseError (Option Text × Option Text)
unfolding split_once trim assign_field
parse_fields [] owner due = ok (owner, due)
parse_fields (field ∷ fields) owner due = elim (split_once b':' field) [
  | none ↦ err unsupported_field
  | some (name, value) ↦ elim (required (trim value)) [
    | err e ↦ err e
    | ok found ↦ elim (assign_field (trim name) found owner due) [
      | err e ↦ err e
      | ok (owner', due') ↦ parse_fields fields owner' due'
    ]
  ]
]

-- One line below its `- `.
unfoldable pub parse_item : List Text → Result ParseError ActionItem
unfolding parse_fields trim
parse_item [] = err empty_field
parse_item (first ∷ fields) = do
  found ← required (trim first)
  (owner, due) ← parse_fields fields none none
  ok (record { text = found; owner = owner; due = due })

abbrev pub bullet : Text → Option Text
bullet line = strip_prefix (chars "- ") (trim_start line)

unfoldable pub parse_lines : List Text → Result ParseError (List ActionItem)
unfolding parse_item split_on strip_prefix trim_start trim
parse_lines [] = ok []
parse_lines (line ∷ rest) = elim (bullet line) [
  | none ↦ parse_lines rest
  | some content ↦ elim (parse_item (map trim (split_on b'|' content))) [
    | err e ↦ err e
    | ok item ↦ elim (parse_lines rest) [ err e ↦ err e | ok items ↦ ok (item ∷ items) ]
  ]
]

unfoldable pub extract_action_items : String → Result ParseError (List ActionItem)
unfolding remove_first lines parse_lines
extract_action_items source =
    parse_lines (lines (remove_first (chars "@action-items") (chars source)))

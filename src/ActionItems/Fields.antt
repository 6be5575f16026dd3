-- ===== src/ActionItems/Fields.antt =====
-- src/action_items.rs: what the parser lets through.
use thought_khoral_room_gate.Prelude.{
  ℕ, suc, length, ap, sym, ok_inj, ◌≡◌, String, false, Option, none, some, List, [], ◌∷◌, map, ok,
  arith, All, Option-cases, Result-cases, inl, inr, Bool-cases, ◌&&◌, subst,
}
use thought_khoral_room_gate.Text.{
  Text, chars, trim, split_once, split_on, text_eq, is_empty, lines,
}
use thought_khoral_room_gate.ActionItems.{
  ActionItem, ParseError, required, is_none, assign_field, parse_fields, parse_item, parse_lines,
  bullet, remove_first, extract_action_items,
}

abbrev pub IsFilled : Option Text → Type 0
IsFilled none = Unit {0}
IsFilled (some t) = is_empty t ≡ false

required-eq-ok : (value found : Text) → required value ≡ ok found → is_empty found ≡ false
required-eq-ok [] found h = cc
required-eq-ok (c ∷ cs) found h = ground (arith, h)

assign_field-IsFilled :
    (name value : Text) (owner due : Option Text) (x : Option Text × Option Text)
    → is_empty value ≡ false
    → IsFilled owner
    → IsFilled due
    → assign_field name value owner due ≡ ok x
    → IsFilled x.0 × IsFilled x.1
unfolding assign_field
assign_field-IsFilled name value owner due x v o d h =
    elim (Bool-cases (text_eq name (chars "owner") && is_none owner)) [
      | inl is_owner ↦
          let e : (some value, due) ≡ x = ok_inj {E = ParseError} (ground (arith, h, is_owner)) in
          subst (λ (y : Option Text × Option Text). IsFilled y.0 × IsFilled y.1) e (v, d)
      | inr other ↦ elim (Bool-cases (text_eq name (chars "due") && is_none due)) [
        | inl is_due ↦
            let e : (owner, some value) ≡ x =
              ok_inj {E = ParseError} (ground (arith, h, other, is_due)) in
            subst (λ (y : Option Text × Option Text). IsFilled y.0 × IsFilled y.1) e (o, v)
        | inr neither ↦ ground (arith, h, other, neither)
      ]
    ]

parse_fields-IsFilled :
    (fields : List Text) (owner due : Option Text) (x : Option Text × Option Text)
    → IsFilled owner
    → IsFilled due
    → parse_fields fields owner due ≡ ok x
    → IsFilled x.0 × IsFilled x.1
unfolding parse_fields
parse_fields-IsFilled [] owner due x o d h =
    let e : (owner, due) ≡ x = ok_inj {E = ParseError} h in
    subst (λ (y : Option Text × Option Text). IsFilled y.0 × IsFilled y.1) e (o, d)
parse_fields-IsFilled (field ∷ fields) owner due x o d h =
    elim (Option-cases (split_once b':' field)) [
      | inl e ↦ ground (arith, h, e)
      | inr ((name, value), e) ↦ elim (Result-cases (required (trim value))) [
        | inr (bad, e') ↦ ground (arith, h, e, e')
        | inl (found, e') ↦ elim (Result-cases (assign_field (trim name) found owner due)) [
          | inr (bad, e'') ↦ ground (arith, h, e, e', e'')
          | inl ((owner', due'), e'') ↦
              let (o', d') =
                assign_field-IsFilled (trim name) found owner due (owner', due')
                  (required-eq-ok (trim value) found e') o d e'' in
              parse_fields-IsFilled fields owner' due' x o' d' (ground (arith, h, e, e', e''))
        ]
      ]
    ]

-- A text, and an owner and a due date that have one where they are given.
abbrev pub IsComplete : ActionItem → Type 0
IsComplete item = (is_empty item.text ≡ false) × IsFilled item.owner × IsFilled item.due

parse_item-IsComplete :
    (pieces : List Text) (item : ActionItem) → parse_item pieces ≡ ok item → IsComplete item
unfolding parse_item
parse_item-IsComplete [] item h = cc
parse_item-IsComplete (first ∷ fields) item h = elim (Result-cases (required (trim first))) [
  | inr (bad, e) ↦ ground (arith, h, e)
  | inl (found, e) ↦ elim (Result-cases (parse_fields fields none none)) [
    | inr (bad, e') ↦ ground (arith, h, e, e')
    | inl ((owner, due), e') ↦
        let (o, d) = parse_fields-IsFilled fields none none (owner, due) tt tt e' in
        let is : record { text = found; owner = owner; due = due } ≡ item =
          ok_inj {E = ParseError} (ground (arith, h, e, e')) in
        subst IsComplete is (required-eq-ok (trim first) found e, o, d)
  ]
]

parse_lines-IsComplete :
    (rows : List Text) (items : List ActionItem)
    → parse_lines rows ≡ ok items
    → All IsComplete items
unfolding parse_lines
parse_lines-IsComplete [] items h = subst (All IsComplete) (ok_inj {E = ParseError} h) tt
parse_lines-IsComplete (line ∷ rows) items h = elim (Option-cases (bullet line)) [
  | inl e ↦ parse_lines-IsComplete rows items (ground (arith, h, e))
  | inr (content, e) ↦ elim (Result-cases (parse_item (map trim (split_on b'|' content)))) [
    | inr (bad, e') ↦ ground (arith, h, e, e')
    | inl (item, e') ↦ elim (Result-cases (parse_lines rows)) [
      | inr (bad, e'') ↦ ground (arith, h, e, e', e'')
      | inl (rest, e'') ↦
          let is : item ∷ rest ≡ items = ok_inj {E = ParseError} (ground (arith, h, e, e', e'')) in
          subst (All IsComplete) is (
            parse_item-IsComplete (map trim (split_on b'|' content)) item e',
            parse_lines-IsComplete rows rest e'',
          )
    ]
  ]
]

-- The lines that are action items.
abbrev pub count_bullets : List Text → ℕ
count_bullets [] = 0
count_bullets (line ∷ rows) = elim (bullet line) [
  | none ↦ count_bullets rows
  | some _ ↦ suc (count_bullets rows)
]

parse_lines-length :
    (rows : List Text) (items : List ActionItem)
    → parse_lines rows ≡ ok items
    → length items ≡ count_bullets rows
unfolding parse_lines
parse_lines-length [] items h = ap length (sym (ok_inj {E = ParseError} h))
parse_lines-length (line ∷ rows) items h = elim (Option-cases (bullet line)) [
  | inl e ↦ ground (arith, e, parse_lines-length rows items (ground (arith, h, e)))
  | inr (content, e) ↦ elim (Result-cases (parse_item (map trim (split_on b'|' content)))) [
    | inr (bad, e') ↦ ground (arith, h, e, e')
    | inl (item, e') ↦ elim (Result-cases (parse_lines rows)) [
      | inr (bad, e'') ↦ ground (arith, h, e, e', e'')
      | inl (rest, e'') ↦
          let is : item ∷ rest ≡ items = ok_inj {E = ParseError} (ground (arith, h, e, e', e'')) in
          let tail = parse_lines-length rows rest e'' in ground (arith, e, tail, ap length (sym is))
    ]
  ]
]

-- What is extracted from a message has one item for each `- ` line below the first mention of the
-- agent, and every item has a text, and an owner or a due date only with a text: none is empty.
pub extract_action_items-IsComplete :
    (source : String) (items : List ActionItem)
    → extract_action_items source ≡ ok items
    → All IsComplete items
      × (length items ≡ count_bullets (lines (remove_first (chars "@action-items") (chars source))))
unfolding extract_action_items
extract_action_items-IsComplete source items h =
    let rows = lines (remove_first (chars "@action-items") (chars source)) in
    (parse_lines-IsComplete rows items h, parse_lines-length rows items h)

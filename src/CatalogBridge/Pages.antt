-- ===== src/CatalogBridge/Pages.antt =====
-- src/catalog_bridge.rs: the pages that are read one after the other.
use thought_khoral_room_gate.Prelude.{
  ℕ, zero, suc, ◌+◌, ◌≤◌, ◌<◌, ◌≡◌, refl, ap, ◌∙◌, String, true, false, ◌&&◌, Option, none, some,
  List, [], ◌∷◌, ◌++◌, ok, err, length, take, drop, leb, ltb, str_eq, str_eq_iff, arith, unwrap_or,
  Bool-cases, Option-cases, Result-cases, inl, inr, if◌then◌else◌,
}
use thought_khoral_room_gate.Json.{
  Value, null, string, object, json_array, as_array, as_str, at, value_eq, insert, Fields,
}
use thought_khoral_room_gate.Json.Laws.{lookup-insert, value_eq_sound, list_of-items_of}
use thought_khoral_room_gate.Conversation.{Crates}
use thought_khoral_room_gate.Conversation.Protocol.{validate_profile_value, codex_agent_id}
use thought_khoral_room_gate.Conversation.Claims.{set_entry}
use thought_khoral_room_gate.CatalogBridge.Fetch.{Answer, read_chunks, check_page, fetch}
use thought_khoral_room_gate.CatalogBridge.Cursors.{
  Held, Bridge, put, resume, offset_of, end_of, slice, digest_of, new_cursor, hold, make_room, cut,
  page,
}

take_append_drop : (j : ℕ) (xs : List Value) → take j xs ++ drop j xs ≡ xs
take_append_drop zero xs = refl
take_append_drop (suc j) [] = refl
take_append_drop (suc j) (x ∷ xs) = ap (λ r. x ∷ r) (take_append_drop j xs)

take-length : (xs : List Value) → take (length xs) xs ≡ xs
take-length [] = refl
take-length (x ∷ xs) = ap (λ r. x ∷ r) (take-length xs)

-- A page and what is after it are what is left from its start.
slice-append :
    (xs : List Value) (i j : ℕ) → i ≤ j → j ≤ length xs → slice i j xs ++ drop j xs ≡ drop i xs
slice-append xs zero j h k = take_append_drop j xs
slice-append xs (suc i) zero h k = absurd (omega arith)
slice-append [] (suc i) (suc j) h k = absurd (omega arith)
slice-append (x ∷ xs) (suc i) (suc j) h k = slice-append xs i j (omega arith) (omega arith)

slice-length : (xs : List Value) (i : ℕ) → slice i (length xs) xs ≡ drop i xs
slice-length xs i = ap (λ r. drop i r) (take-length xs)

-- A key of an object that was set is read back, and the others are as before.
at-set_entry :
    (k j : String) (v : Value) (fs : Fields)
    → at (set_entry k v (object fs)) j ≡ (if str_eq k j then v else at (object fs) j)
at-set_entry k j v fs = ground (arith, lookup-insert k j v fs)

-- What is fetched names no next page.
check_page-last :
    (crates : Crates) (parse : List ℕ → Option Value) (page v : Value)
    → check_page crates parse page ≡ ok v
    → as_str (at v "nextCursor") ≡ none
unfolding check_page
check_page-last crates parse page v h =
    elim (Result-cases (validate_profile_value crates.is_valid "catalog" page)) [
      | inr (e, invalid) ↦ absurd (ground arith)
      | inl (u, valid) ↦ elim (Bool-cases (value_eq (at page "nextCursor") null)) [
        | inr other ↦ absurd (ground arith)
        | inl last ↦
            let same : page ≡ v = ground arith in
            rw (← same) (ap as_str (value_eq_sound (at page "nextCursor") null last))
      ]
    ]

fetch_last :
    (crates : Crates) (parse : List ℕ → Option Value) (answer : Option Answer) (v : Value)
    → fetch crates parse answer ≡ ok v
    → as_str (at v "nextCursor") ≡ none
unfolding fetch
fetch_last crates parse none v h = absurd (ground arith)
fetch_last crates parse (some answer) v h = elim (Result-cases (read_chunks [] answer.chunks)) [
  | inr (e, broken) ↦ absurd (ground arith)
  | inl (bytes, whole) ↦ elim (Option-cases (parse bytes)) [
    | inl garbled ↦ absurd (ground arith)
    | inr (page, parsed) ↦ check_page-last crates parse page v (ground arith)
  ]
]

module _ (crates : Crates) (parse : List ℕ → Option Value)
    (any_key : List (String × Held) → Option String) where
  -- What a client gets that follows the cursors, at most so many times; the upstream answers each query.
  unfoldable pub follow : ℕ → ℕ → (ℕ → Option Answer) → Option String → Bridge → Option (List Value)
  unfolding page
  follow zero limit answers cursor bridge = none
  follow (suc n) limit answers cursor bridge =
      elim (page crates parse any_key codex_agent_id cursor limit (answers n) bridge) [
        | err e ↦ none
        | ok (v, bridge') ↦
            let models = unwrap_or (as_array (at v "data")) [] in
            elim (as_str (at v "nextCursor")) [
              | none ↦ some models
              | some next ↦ elim (follow n limit answers (some next) bridge') [
                | none ↦ none
                | some more ↦ some (models ++ more)
              ]
            ]
      ]

  module _ (fs : Fields) (xs : List Value) (limit : ℕ) (answers : ℕ → Option Answer)
      (small : 1 ≤ limit) (large : limit ≤ 100)
      (same : (i : ℕ) → fetch crates parse (answers i) ≡ ok (object fs))
      (whole : as_array (at (object fs) "data") ≡ some xs) where
    abbrev Starts : Option String → Bridge → ℕ → Type 0
    Starts cursor bridge offset =
        (held : Option Held) × (resume cursor bridge ≡ ok (held, bridge))
        × (offset_of held (digest_of crates parse any_key (object fs)) ≡ ok offset)

    page_is_cut :
        (n offset : ℕ) (cursor : Option String) (bridge : Bridge)
        → Starts cursor bridge offset
        → page crates parse any_key codex_agent_id cursor limit (answers n) bridge
          ≡ cut crates parse any_key (object fs) offset limit bridge
    unfolding page
    page_is_cut n offset cursor bridge (held, found, starts) =
        let admitted : (leb 1 limit && leb limit 100) ≡ true = ground arith in
        rw (page, admitted, found, same n, starts) refl

    last_page : ℕ → Value
    last_page offset = set_entry "data" (json_array (slice offset (length xs) xs)) (object fs)

    cut_last :
        (offset : ℕ) (bridge : Bridge)
        → offset ≤ length xs
        → length xs ≤ offset + limit
        → cut crates parse any_key (object fs) offset limit bridge ≡ ok (last_page offset, bridge)
    unfolding cut last_page
    cut_last offset bridge h k =
        let starts : leb offset (length xs) ≡ true = ground arith in
        let ends : end_of offset limit xs ≡ length xs = ground arith in
        let no_next : ltb (length xs) (length xs) ≡ false = ground arith in
        rw (cut, whole, starts, ends, no_next) refl

    next_page : ℕ → Bridge → Value
    next_page offset bridge =
        set_entry "nextCursor" (string (new_cursor crates parse any_key bridge))
          (set_entry "data" (json_array (slice offset (offset + limit) xs)) (object fs))

    next_bridge : ℕ → Bridge → Bridge
    next_bridge offset bridge = record {
      cursors =
          put (new_cursor crates parse any_key bridge)
            (record {
              digest = digest_of crates parse any_key (object fs);
              offset = offset + limit;
            })
            (make_room crates parse any_key bridge.cursors);
      drawn = suc bridge.drawn;
    }

    cut_next :
        (offset : ℕ) (bridge : Bridge)
        → offset + limit < length xs
        → cut crates parse any_key (object fs) offset limit bridge
          ≡ ok (next_page offset bridge, next_bridge offset bridge)
    unfolding cut next_page next_bridge hold
    cut_next offset bridge h =
        let starts : leb offset (length xs) ≡ true = ground arith in
        let ends : end_of offset limit xs ≡ offset + limit = ground arith in
        let more : ltb (offset + limit) (length xs) ≡ true = ground arith in
        rw (cut, whole, starts, ends, more) refl

    next_Starts :
        (offset : ℕ) (bridge : Bridge)
        → Starts
            (some (new_cursor crates parse any_key bridge))
            (next_bridge offset bridge)
            (offset + limit)
    unfolding next_bridge resume offset_of
    next_Starts offset bridge =
        let found : str_eq (new_cursor crates parse any_key bridge)
              (new_cursor crates parse any_key bridge)
            ≡ true =
          (str_eq_iff _ _).1 refl in
        let bound : str_eq (digest_of crates parse any_key (object fs))
              (digest_of crates parse any_key (object fs))
            ≡ true =
          (str_eq_iff _ _).1 refl in
        (
          some (record {
            digest = digest_of crates parse any_key (object fs);
            offset = offset + limit;
          }),
          rw (resume, found) refl,
          rw (offset_of, bound) refl,
        )

    part_of_last :
        (offset : ℕ) → as_array (at (last_page offset) "data") ≡ some (slice offset (length xs) xs)
    unfolding last_page
    part_of_last offset =
        ap as_array (at-set_entry "data" "data" (json_array (slice offset (length xs) xs)) fs)
        ∙ ap some (list_of-items_of (slice offset (length xs) xs))

    cursor_of_last : (offset : ℕ) → as_str (at (last_page offset) "nextCursor") ≡ none
    unfolding last_page
    cursor_of_last offset =
        ap as_str (at-set_entry "data" "nextCursor" (json_array (slice offset (length xs) xs)) fs)
        ∙ fetch_last crates parse (answers 0) (object fs) (same 0)

    part_of_next :
        (offset : ℕ) (bridge : Bridge)
        → as_array (at (next_page offset bridge) "data") ≡ some (slice offset (offset + limit) xs)
    unfolding next_page
    part_of_next offset bridge =
        let part = json_array (slice offset (offset + limit) xs) in
        let cursor = string (new_cursor crates parse any_key bridge) in
        ap as_array (at-set_entry "nextCursor" "data" cursor (insert "data" part fs))
        ∙ ap as_array (at-set_entry "data" "data" part fs)
        ∙ ap some (list_of-items_of (slice offset (offset + limit) xs))

    cursor_of_next :
        (offset : ℕ) (bridge : Bridge)
        → as_str (at (next_page offset bridge) "nextCursor")
          ≡ some (new_cursor crates parse any_key bridge)
    unfolding next_page
    cursor_of_next offset bridge =
        let part = json_array (slice offset (offset + limit) xs) in
        let cursor = string (new_cursor crates parse any_key bridge) in
        ap as_str (at-set_entry "nextCursor" "nextCursor" cursor (insert "data" part fs))

    follow-drop :
        (n offset : ℕ) (cursor : Option String) (bridge : Bridge)
        → Starts cursor bridge offset
        → offset ≤ length xs
        → length xs < offset + n
        → follow n limit answers cursor bridge ≡ some (drop offset xs)
    unfolding follow
    follow-drop zero offset cursor bridge starts h k = absurd (omega arith)
    follow-drop (suc n) offset cursor bridge starts h k =
        let first = page_is_cut n offset cursor bridge starts in
        elim (Bool-cases (ltb (offset + limit) (length xs))) [
          | inl more ↦
              let next = cut_next offset bridge (ground arith) in
              let rest =
                follow-drop n (offset + limit) (some (new_cursor crates parse any_key bridge))
                  (next_bridge offset bridge) (next_Starts offset bridge) (ground arith)
                  (omega arith) in
              rw
                (
                  follow,
                  first,
                  next,
                  cursor_of_next offset bridge,
                  rest,
                  part_of_next offset bridge,
                )
                (ap some (slice-append xs offset (offset + limit) (omega arith) (ground arith)))
          | inr no_more ↦
              let last = cut_last offset bridge h (ground arith) in
              rw (follow, first, last, cursor_of_last offset, part_of_last offset)
                (ap some (slice-length xs offset))
        ]

  -- While the upstream answers each query with the same catalog, that is an object whose "data" is a list
  -- of models: a client that starts without a cursor, with pages of 1 to 100 models, and follows the
  -- cursors it is given comes to the end, within one query more than there are models, and has read
  -- every model of the catalog once and in order; whatever cursors the bridge held before, and
  -- whichever of them it drops to make room.
  pub pages_give_catalog :
      (fs : Fields) (xs : List Value) (limit : ℕ) (answers : ℕ → Option Answer) (bridge : Bridge)
      → 1 ≤ limit
      → limit ≤ 100
      → ((i : ℕ) → fetch crates parse (answers i) ≡ ok (object fs))
      → as_array (at (object fs) "data") ≡ some xs
      → follow (suc (length xs)) limit answers none bridge ≡ some xs
  unfolding resume offset_of
  pages_give_catalog fs xs limit answers bridge small large same whole =
      follow-drop fs xs limit answers small large same whole (suc (length xs)) 0 none bridge
        (none, refl, refl) (omega arith) (omega arith)

-- ===== src/CatalogBridge/Cursors.antt =====
-- src/catalog_bridge.rs: a page of the catalog, and the cursors at which the next ones start.
use thought_khoral_room_gate.Prelude.{
  ℕ, suc, ◌+◌, String, Bool, ◌&&◌, not, Option, none, some, List, ◌∷◌, Result, ok, err, ensure,
  ok_or, find, keep, length, take, drop, leb, ltb, ◌==◌, str_eq, if◌then◌else◌,
}
use thought_khoral_room_gate.Tx.{Tx, pure, lift, ◌>>=◌}
use thought_khoral_room_gate.Json.{Value, string, json_array, as_array, at}
use thought_khoral_room_gate.Env.{Uuid}
use thought_khoral_room_gate.Conversation.{Crates}
use thought_khoral_room_gate.Conversation.Protocol.{
  ConversationError, codex_agent_id, runtime_unavailable, conversation_stale,
}
use thought_khoral_room_gate.Conversation.Claims.{set_entry}
use thought_khoral_room_gate.CatalogBridge.Fetch.{Answer, fetch}

-- The catalog that a cursor belongs to, and where its page starts.
pub record Held : Type 0 where
  pub digest : String
  pub offset : ℕ

-- The map of the cursors, and the number of calls of `Uuid::new_v4`.
pub record Bridge : Type 0 where
  pub cursors : List (String × Held)
  pub drawn : ℕ

abbrev pub is_cursor : String → String × Held → Bool
is_cursor key entry = str_eq entry.0 key

abbrev remove : String → List (String × Held) → List (String × Held)
remove key cursors = keep (λ entry. not (is_cursor key entry)) cursors

abbrev pub put : String → Held → List (String × Held) → List (String × Held)
put key held cursors = (key, held) ∷ remove key cursors

-- The cursor that the query starts from.
unfoldable pub resume : Option String → Tx Bridge ConversationError (Option Held)
resume none bridge = ok (none, bridge)
resume (some cursor) bridge = elim (find (is_cursor cursor) bridge.cursors) [
  | none ↦ err runtime_unavailable
  | some entry ↦ ok (some entry.1, bridge)
]

unfoldable pub offset_of : Option Held → String → Result ConversationError ℕ
offset_of none digest = ok 0
offset_of (some held) digest =
    if str_eq held.digest digest then ok held.offset else err conversation_stale

abbrev pub end_of : ℕ → ℕ → List Value → ℕ
end_of offset limit models =
    if leb (offset + limit) (length models) then offset + limit else length models

-- `data[offset..end]`.
abbrev pub slice : ℕ → ℕ → List Value → List Value
slice offset end models = drop offset (take end models)

-- `any_key` is `cursors.keys().next()`: a `HashMap` has no order of its own.
module _ (crates : Crates) (parse : List ℕ → Option Value)
    (any_key : List (String × Held) → Option String) where
  abbrev pub make_room : List (String × Held) → List (String × Held)
  make_room cursors =
      if leb 1024 (length cursors)
      then elim (any_key cursors) [ none ↦ cursors | some old ↦ remove old cursors ]
      else cursors

  abbrev pub digest_of : Value → String
  digest_of page = crates.sha256_hex (crates.to_json page)

  abbrev pub new_cursor : Bridge → String
  new_cursor bridge = crates.env.uuid_to_string (crates.env.new_v4 bridge.drawn)

  unfoldable pub hold : Held → Value → Tx Bridge ConversationError Value
  hold held page bridge = ok (
    set_entry "nextCursor" (string (new_cursor bridge)) page,
    record {
      cursors = put (new_cursor bridge) held (make_room bridge.cursors);
      drawn = suc bridge.drawn;
    },
  )

  -- The page of the catalog that starts at the offset.
  unfoldable pub cut : Value → ℕ → ℕ → Tx Bridge ConversationError Value
  unfolding hold
  cut full offset limit = do
    models ← lift (ok_or (as_array (at full "data")) runtime_unavailable)
    _ ← lift (ensure (leb offset (length models)) runtime_unavailable)
    let end = end_of offset limit models
    let part = set_entry "data" (json_array (slice offset end models)) full
    if ltb end (length models)
        then hold (record { digest = digest_of full; offset = end }) part
        else pure part

  unfoldable pub page : Uuid → Option String → ℕ → Option Answer → Tx Bridge ConversationError Value
  unfolding resume fetch offset_of cut
  page agent cursor limit answer = do
    _ ←
        lift
          (ensure (agent == codex_agent_id && (leb 1 limit && leb limit 100)) runtime_unavailable)
    held ← resume cursor
    full ← lift (fetch crates parse answer)
    offset ← lift (offset_of held (digest_of full))
    cut full offset limit

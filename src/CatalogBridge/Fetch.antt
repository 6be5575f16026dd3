-- ===== src/CatalogBridge/Fetch.antt =====
-- src/catalog_bridge.rs: the request for the whole catalog, up to what is accepted of its answer.
use thought_khoral_room_gate.Prelude.{
  ℕ, ◌+◌, Bool, true, ◌&&◌, Option, none, some, List, [], ◌∷◌, ◌++◌, Result, ok, err, ◌>>=◌, ensure,
  ok_or, map_err, length, leb, ◌==◌, if◌then◌else◌,
}
use thought_khoral_room_gate.Json.{Value, null, value_eq, at}
use thought_khoral_room_gate.Conversation.{Crates}
use thought_khoral_room_gate.Conversation.Protocol.{
  ConversationError, validate_profile_value, runtime_unavailable,
}

-- `reqwest::Response`: `none` is a chunk that fails to come.
pub record Answer : Type 0 where
  pub status : ℕ
  pub content_length : Option ℕ
  pub chunks : List (Option (List ℕ))

abbrev pub max_catalog_bytes : ℕ
max_catalog_bytes = 1048576

abbrev fits : Option ℕ → Bool
fits none = true
fits (some n) = leb n max_catalog_bytes

-- The loop over the chunks; `bytes` is never longer than the bound.
unfoldable pub read_chunks : List ℕ → List (Option (List ℕ)) → Result ConversationError (List ℕ)
read_chunks bytes [] = ok bytes
read_chunks bytes (none ∷ chunks) = err runtime_unavailable
read_chunks bytes (some chunk ∷ chunks) =
    let rest = read_chunks (bytes ++ chunk) chunks in
    if leb (length bytes + length chunk) max_catalog_bytes then rest else err runtime_unavailable

-- `parse` is `parse_strict_json` on top of `serde_json`.
module _ (crates : Crates) (parse : List ℕ → Option Value) where
  unfoldable pub check_page : Value → Result ConversationError Value
  unfolding validate_profile_value
  check_page page = do
    _ ← map_err (λ _. runtime_unavailable) (validate_profile_value crates.is_valid "catalog" page)
    _ ← ensure (value_eq (at page "nextCursor") null) runtime_unavailable
    ok page

  -- `none` is a request that fails.
  unfoldable pub fetch : Option Answer → Result ConversationError Value
  unfolding read_chunks check_page
  fetch none = err runtime_unavailable
  fetch (some answer) = do
    _ ← ensure (answer.status == 200 && fits answer.content_length) runtime_unavailable
    bytes ← read_chunks [] answer.chunks
    page ← ok_or (parse bytes) runtime_unavailable
    check_page page

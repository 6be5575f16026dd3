-- ===== src/Conversation/Catalog.antt =====
-- src/conversation_service.rs: the catalog of models, page by page, and whether it offers the settings
-- that a turn selects.
use thought_khoral_room_gate.Prelude.{
  ℕ, zero, suc, String, Bool, true, false, not, Option, none, some, List, [], ◌∷◌, Result, ok, err,
  ◌>>=◌, ensure, ok_or, map_err, any, leb, str_eq, if◌then◌else◌,
}
use thought_khoral_room_gate.Text.{octet_length}
use thought_khoral_room_gate.Json.{Value, null, string, as_str, as_array, value_eq, at}
use thought_khoral_room_gate.Conversation.{Crates}
use thought_khoral_room_gate.Conversation.Protocol.{
  ConversationError, validate_profile_value, invalid_task_input, conversation_stale,
  runtime_unavailable,
}
use thought_khoral_room_gate.Conversation.Policy.{ConversationPolicy}

-- `CatalogQuery::page` for the agent: the answer to the nth query, and whether the queries of one
-- call end within the five seconds that it waits.
pub record CatalogQuery : Type 0 where
  pub page : ℕ → Option String → Result ConversationError Value
  pub in_time : Bool

abbrev seen : List (Option String) → Option String → Bool
seen ids id =
    any
      (λ other. elim other [
        | none ↦ elim id [ none ↦ true | some _ ↦ false ]
        | some a ↦ elim id [ none ↦ false | some b ↦ str_eq a b ]
      ])
      ids

-- `HashSet::insert` of the entries' identifiers; `none` on a repeated one.
distinct_ids : List Value → List (Option String) → Option (List (Option String))
distinct_ids [] ids = some ids
distinct_ids (v ∷ vs) ids =
    let rest = distinct_ids vs (as_str (at v "id") ∷ ids) in
    if seen ids (as_str (at v "id")) then none else rest

-- One round of the loop over the models.
check_model : Value → List (Option String) → Result ConversationError (List (Option String))
unfolding distinct_ids
check_model model models = do
  _ ← ensure (not (seen models (as_str (at model "id")))) runtime_unavailable
  efforts ← ok_or (as_array (at model "supportedReasoningEfforts")) runtime_unavailable
  ids ← ok_or (distinct_ids efforts []) runtime_unavailable
  let default = at model "defaultReasoningEffort"
  _ ← ensure (if value_eq default null then true else seen ids (as_str default)) runtime_unavailable
  ok (as_str (at model "id") ∷ models)

check_models : List Value → List (Option String) → Result ConversationError (Unit {0})
unfolding check_model
check_models [] models = ok tt
check_models (model ∷ rest) models = check_model model models >>= check_models rest

-- The models that were seen, and whether the selected pair was found at the last model of its name.
pub record Search : Type 0 where
  pub models : List String
  pub found : Bool

search_model : Value → Value → Search → Result ConversationError Search
search_model selected model search = do
  id ← ok_or (as_str (at model "id")) runtime_unavailable
  _ ← ensure (not (any (str_eq id) search.models)) runtime_unavailable
  if value_eq (at model "id") (at selected "model")
      then (do
        efforts ← ok_or (as_array (at model "supportedReasoningEfforts")) runtime_unavailable
        ok (record {
          models = id ∷ search.models;
          found = any (λ e. value_eq (at e "id") (at selected "reasoningEffort")) efforts;
        }))
      else ok (record search { models = id ∷ search.models })

search_models : Value → List Value → Search → Result ConversationError Search
unfolding search_model
search_models selected [] search = ok search
search_models selected (model ∷ models) search =
    search_model selected model search >>= search_models selected models

module _ (crates : Crates) (policy : ConversationPolicy) where
  unfoldable pub validate_catalog : Value → Result ConversationError (Unit {0})
  unfolding validate_profile_value check_models
  validate_catalog page = do
    _ ← map_err (λ _. runtime_unavailable) (validate_profile_value crates.is_valid "catalog" page)
    _ ← ensure (leb (octet_length (crates.to_json page)) 1048576) runtime_unavailable
    _ ←
        ensure (value_eq (at page "catalogRevision") (string policy.catalog_revision))
          conversation_stale
    models ← ok_or (as_array (at page "data")) runtime_unavailable
    check_models models []

  search_page : Value → Value → Search → Result ConversationError Search
  unfolding validate_catalog search_models
  search_page selected page search = do
    _ ← validate_catalog page
    models ← ok_or (as_array (at page "data")) runtime_unavailable
    search_models selected models search

  -- The rounds that are left, and the cursors so far.
  unfoldable pub search_pages :
      ℕ
      → CatalogQuery
      → Value
      → Option String
      → List String
      → Search
      → Result ConversationError (Unit {0})
  unfolding search_page
  search_pages zero catalog selected cursor cursors search = err runtime_unavailable
  search_pages (suc n) catalog selected cursor cursors search = do
    page ← catalog.page n cursor
    next_search ← search_page selected page search
    elim (as_str (at page "nextCursor")) [
      | none ↦ if next_search.found then ok tt else err invalid_task_input
      | some next ↦
          let more = search_pages n catalog selected (some next) (next ∷ cursors) next_search in
          if any (str_eq next) cursors then err runtime_unavailable else more
    ]

  unfoldable pub validate_catalog_selection :
      CatalogQuery → Value → Result ConversationError (Unit {0})
  unfolding search_pages
  validate_catalog_selection catalog selected =
      search_pages 100 catalog selected none [] (record { models = []; found = false })

  -- `tokio::time::timeout` around it.
  unfoldable pub selection_in_time : CatalogQuery → Value → Result ConversationError (Unit {0})
  unfolding validate_catalog_selection
  selection_in_time catalog selected =
      if catalog.in_time
      then validate_catalog_selection catalog selected
      else err runtime_unavailable

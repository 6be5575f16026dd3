-- ===== src/Conversation/Service.antt =====
-- src/conversation_service.rs: the requests of the workers and the reads of the browsers, after their
-- authentication, with the statuses of their answers.
use thought_khoral_room_gate.Prelude.{
  ℕ, String, Bool, false, ◌&&◌, not, Option, none, some, List, [], ◌∷◌, Result, ok, err, ◌>>=◌, ◌+◌,
  ensure, ok_or, map_err, is_some, ◌==◌, str_eq,
}
use thought_khoral_room_gate.Text.{Text, chars, text, trim, split_on}
use thought_khoral_room_gate.Json.{
  Value, null, string, json, as_str, as_object, value_eq, at, Fields, end, field,
}
use thought_khoral_room_gate.Env.{Uuid}
use thought_khoral_room_gate.Store.{RoomEvent}
use thought_khoral_room_gate.Conversation.{ConversationWorld, Crates, json_uuid}
use thought_khoral_room_gate.Conversation.Protocol.{
  ConversationError, code, codex_agent_id, profile_version, invalid_task_input, forbidden,
  runtime_unavailable, authentication_required, session_unavailable, timeout,
  conversation_interrupted, conversation_busy, conversation_stale, context_mismatch,
  context_too_large, execution_failed, duplicate_conflict,
}
use thought_khoral_room_gate.Conversation.Policy.{ConversationPolicy}
use thought_khoral_room_gate.Conversation.Claims.{Times}
use thought_khoral_room_gate.Conversation.Claims as Store
use thought_khoral_room_gate.Conversation.Updates.{Clocks, ConversationUpdateOutcome}
use thought_khoral_room_gate.Conversation.Reports.{record_update}
use thought_khoral_room_gate.Conversation.Views as Views

-- The parts of a request that the handlers read; the body is `none` where `to_bytes` fails, also past
-- its bound.
pub record Request : Type 0 where
  pub query : Option String
  pub content_type : Option String
  pub lease_token : Option String
  pub body : Option (List ℕ)

pub record Response : Type 0 where
  pub status : ℕ
  pub content : Option Value

abbrev pub status_of : ConversationError → ℕ
status_of invalid_task_input = 400
status_of authentication_required = 401
status_of forbidden = 403
status_of session_unavailable = 404
status_of context_too_large = 413
status_of runtime_unavailable = 503
status_of timeout = 409
status_of conversation_interrupted = 409
status_of conversation_busy = 409
status_of conversation_stale = 409
status_of context_mismatch = 409
status_of execution_failed = 409
status_of duplicate_conflict = 409

abbrev pub profile_error : ConversationError → Response
profile_error error = record {
  status = status_of error;
  content = some (
      json (
        ("profileVersion", string profile_version)
        ∷ (("code", string (code error))
            ∷ (("message", string (code error)) ∷ (("requestId", null) ∷ [])))));
}

abbrev pub success : Value → Response
success value = record { status = 200; content = some value }

abbrev pub response : Result ConversationError Value → Response
response (ok value) = success value
response (err error) = profile_error error

unfoldable pub no_query : Request → Result ConversationError (Unit {0})
no_query request = ensure (not (is_some request.query)) invalid_task_input

-- `value.split(';').next().map(str::trim) == Some("application/json")`.
abbrev first_piece : List Text → Text
first_piece [] = []
first_piece (piece ∷ pieces) = piece

unfoldable pub is_json : Option String → Bool
unfolding split_on trim
is_json none = false
is_json (some value) =
    str_eq (text (trim (first_piece (split_on 59 (chars value))))) "application/json"

abbrev field_count : Fields → ℕ
field_count end = 0
field_count (field k v fs) = 1 + field_count fs

abbrev has_two_fields : Option Fields → Bool
has_two_fields none = false
has_two_fields (some fs) = field_count fs == 2

-- `parse` is `parse_strict_json` on top of `serde_json`.
module _ (crates : Crates) (policy : ConversationPolicy) (parse : List ℕ → Option Value) where
  unfoldable pub canonical_uuid : String → Result ConversationError Uuid
  canonical_uuid value = do
    id ← ok_or (crates.env.uuid_parse value) invalid_task_input
    _ ← ensure (str_eq (crates.env.uuid_to_string id) value) invalid_task_input
    ok id

  unfoldable pub lease : Request → Result ConversationError Uuid
  unfolding canonical_uuid
  lease request = do
    value ← ok_or request.lease_token forbidden
    map_err (λ _. forbidden) (canonical_uuid value)

  unfoldable pub body : Request → Result ConversationError Value
  unfolding no_query is_json
  body request = do
    _ ← no_query request
    _ ← ensure (is_json request.content_type) invalid_task_input
    bytes ← ok_or request.body context_too_large
    ok_or (parse bytes) invalid_task_input

  unfoldable pub task_and_lease : String → Request → Result ConversationError (Uuid × Uuid)
  unfolding no_query canonical_uuid lease
  task_and_lease task request = do
    _ ← no_query request
    task_id ← canonical_uuid task
    token ← lease request
    ok (task_id, token)

  unfoldable pub context :
      Times → String → Request → ConversationWorld → ConversationWorld × Response
  unfolding task_and_lease Store.packet
  context times task request w = elim (task_and_lease task request) [
    | err error ↦ (w, profile_error error)
    | ok (task_id, token) ↦
        let (w', result) = Store.packet crates policy times task_id token w in (w', response result)
  ]

  abbrev authority_of : Value → Value
  authority_of packet = json (
      ("profileVersion", string profile_version)
      ∷ (("taskId", at packet "taskId")
          ∷ (("generation", at (at packet "conversation") "generation")
              ∷ (("contextDigest", at (at packet "context") "digest")
                  ∷ (("expiresAt", at packet "expiresAt")
                      ∷ (("authorizationExpiresAt", at packet "authorizationExpiresAt") ∷ []))))))

  abbrev authority_response : Result ConversationError Value → Response
  authority_response (ok packet) = success (authority_of packet)
  authority_response (err error) = profile_error error

  unfoldable pub authority :
      Times → String → Request → ConversationWorld → ConversationWorld × Response
  unfolding task_and_lease Store.packet
  authority times task request w = elim (task_and_lease task request) [
    | err error ↦ (w, profile_error error)
    | ok (task_id, token) ↦
        let (w', result) = Store.packet crates policy times task_id token w in
        (w', authority_response result)
  ]

  unfoldable pub receipt : String → Request → ConversationWorld → Response
  unfolding no_query canonical_uuid Views.receipt
  receipt task request w = response (do
    _ ← no_query request
    task_id ← canonical_uuid task
    Views.receipt crates policy task_id w)

  unfoldable pub conversation : String → String → Request → ConversationWorld → Response
  unfolding no_query canonical_uuid Views.conversation_view
  conversation room agent request w = response (do
    _ ← no_query request
    room_id ← canonical_uuid room
    agent_id ← canonical_uuid agent
    Views.conversation_view crates policy room_id agent_id w)

  unfoldable pub task_view : String → String → Request → ConversationWorld → Response
  unfolding no_query canonical_uuid Views.task_view
  task_view room task request w = response (do
    _ ← no_query request
    room_id ← canonical_uuid room
    task_id ← canonical_uuid task
    Views.task_view crates policy room_id task_id w)

  unfoldable pub read_claim : Request → Result ConversationError String
  unfolding body
  read_claim request = do
    value ← body request
    _ ←
        ensure
          (has_two_fields (as_object value)
            && value_eq (at value "agentId") (json_uuid crates.env codex_agent_id))
          invalid_task_input
    ok_or (as_str (at value "leaseOwner")) invalid_task_input

  abbrev claim_response : Result ConversationError (Option Value) → Response
  claim_response (ok (some value)) = success value
  claim_response (ok none) = record { status = 204; content = none }
  claim_response (err error) = profile_error error

  unfoldable pub claim : (ℕ → Times) → Request → ConversationWorld → ConversationWorld × Response
  unfolding read_claim Store.claim
  claim times request w = elim (read_claim request) [
    | err error ↦ (w, profile_error error)
    | ok owner ↦
        let (w', result) = Store.claim crates policy owner times w in (w', claim_response result)
  ]

  unfoldable pub read_update : String → Request → Result ConversationError (Uuid × Uuid × Value)
  unfolding lease body canonical_uuid
  read_update task request = do
    token ← lease request
    report ← body request
    task_id ← canonical_uuid task
    ok (task_id, token, report)

  -- The event, if there is one, is published before the answer.
  abbrev pub update_response :
      Result ConversationError ConversationUpdateOutcome → Response × Option RoomEvent
  update_response (err error) = (profile_error error, none)
  update_response (ok outcome) = (success outcome.response, outcome.event)

  unfoldable pub update :
      Clocks
      → String
      → Request
      → ConversationWorld
      → ConversationWorld × (Response × Option RoomEvent)
  unfolding read_update record_update
  update clocks task request w = elim (read_update task request) [
    | err error ↦ (w, (profile_error error, none))
    | ok (task_id, token, report) ↦
        let (w', result) = record_update crates policy task_id token clocks report w in
        (w', update_response result)
  ]

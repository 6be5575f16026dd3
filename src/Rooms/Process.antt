-- ===== src/Rooms/Process.antt =====
-- src/rooms.rs: `GatewayState::process`, one request as one transaction.
pub mod Branches
pub mod Growth
pub mod Retry
pub mod History
use thought_khoral_room_gate.Prelude.{
  ℕ, String, Bool, true, false, ◌&&◌, Option, none, some, List, [], ◌∷◌, ◌++◌, Result, ok, err,
  if◌then◌else◌,
}
use thought_khoral_room_gate.Tx.{Tx, ◌>>=◌, pure, fail, lift, or_else}
use thought_khoral_room_gate.Json.{Value, value_eq}
use thought_khoral_room_gate.Env.{Uuid, Instant, Env}
use thought_khoral_room_gate.Protocol
use thought_khoral_room_gate.Protocol.{
  RpcError, invalid_request, forbidden, conflicting_duplicate, internal_error, ChatSend,
  ValidatedRequest, session_authenticate, join, chat_send, decision_propose, decision_transition,
  decision_delete, agent_task_start, AgentTaskStart,
}
use thought_khoral_room_gate.Protocol.Fingerprint.{fingerprint}
use thought_khoral_room_gate.Auth.{Actor, as_str, is_human}
use thought_khoral_room_gate.Store.{RoomEvent, World}
use thought_khoral_room_gate.Store.Events.{
  append_event_in_transaction, prior_request, record_request,
}
use thought_khoral_room_gate.Store.Tasks.{start_agent_task_in_transaction}
use thought_khoral_room_gate.Rooms.{RoomParticipant}
use thought_khoral_room_gate.Rooms.Mentions.{Unicode}
use thought_khoral_room_gate.Rooms.Audience.{
  resolve_chat_audience, normalized_chat_payload, invokes_action_items,
}
use thought_khoral_room_gate.Rooms.ActionItems.{run_action_items}
use thought_khoral_room_gate.Rooms.Participants.{Presence, participant_snapshot}
use thought_khoral_room_gate.Rooms.Decisions.{
  append_as_actor, propose_decision, transition_decision_in_transaction,
  delete_decision_in_transaction,
}

pub record ProcessedRequest : Type 0 where
  pub events : List RoomEvent
  pub duplicate : Bool

-- What a call of `process` reads beside the database: the presence map, whether the conversation
-- policy is enabled, and PostgreSQL's NOW().
pub record Surroundings : Type 0 where
  pub presence : Presence
  pub conversations_enabled : Bool
  pub now : Instant

-- The requests that only a human may make.
unfoldable pub needs_human : ValidatedRequest → Bool
needs_human (decision_transition _) = true
needs_human (decision_delete _) = true
needs_human (agent_task_start _) = true
needs_human _ = false

module _ (env : Env) (unicode : Unicode) (around : Surroundings) (actor : Actor) where
  unfoldable pub send_chat_among :
      List RoomParticipant → ChatSend → Tx World RpcError (List RoomEvent)
  send_chat_among participants request = do
    audience_ids ← lift (resolve_chat_audience env unicode actor participants request)
    message ←
        append_as_actor env actor request.room_id request.request_id "message.created"
          (normalized_chat_payload env request audience_ids) request.occurred_at
    replies ←
        (if invokes_action_items actor request
          then run_action_items env request actor.id message
          else pure [])
    pure (message ∷ replies)

  -- The branch `ValidatedRequest::ChatSend`. The snapshot reads through the pool, so it sees what is
  -- committed; this transaction has written nothing yet.
  unfoldable pub send_chat : ChatSend → Tx World RpcError (List RoomEvent)
  send_chat request w =
      let participants =
        participant_snapshot env around.conversations_enabled w.room_events request.room_id
          around.presence in
      send_chat_among participants request w

  unfoldable pub start_task : AgentTaskStart → Tx World RpcError (List RoomEvent)
  start_task request = do
    result ←
        or_else
          (start_agent_task_in_transaction env around.now actor.id actor.display_name request false)
          internal_error
    pure result.events

  -- `let events = match request { … }`.
  unfoldable pub perform : ValidatedRequest → Tx World RpcError (List RoomEvent)
  perform (chat_send request) = send_chat request
  perform (decision_propose request) = propose_decision env actor request
  perform (decision_transition request) = transition_decision_in_transaction env actor request
  perform (decision_delete request) = delete_decision_in_transaction env actor request
  perform (agent_task_start request) = start_task request
  perform (join _) = fail invalid_request
  perform (session_authenticate _) = fail invalid_request

  unfoldable pub process_new : Uuid → Uuid → ValidatedRequest → Tx World RpcError ProcessedRequest
  process_new room_id request_id request = do
    events ← perform request
    _ ← or_else (record_request room_id request_id (fingerprint env request) events) internal_error
    pure (record { events = events; duplicate = false })

  -- A retry changes nothing: the transaction is rolled back.
  unfoldable pub process_repeat :
      ValidatedRequest → Value → List RoomEvent → Tx World RpcError ProcessedRequest
  process_repeat request prior_fingerprint events =
      if value_eq prior_fingerprint (fingerprint env request)
      then pure (record { events = events; duplicate = true })
      else fail conflicting_duplicate

  unfoldable pub process_in_room :
      Uuid → Uuid → ValidatedRequest → Tx World RpcError ProcessedRequest
  process_in_room room_id request_id request w = elim (prior_request w room_id request_id) [
    | none ↦ process_new room_id request_id request w
    | some (prior_fingerprint, events) ↦ process_repeat request prior_fingerprint events w
  ]

  abbrev process_addressed :
      ValidatedRequest → Option Uuid → Option Uuid → Tx World RpcError ProcessedRequest
  process_addressed request (some room_id) (some request_id) =
      process_in_room room_id request_id request
  process_addressed request _ _ = fail invalid_request

  abbrev is_mutation : ValidatedRequest → Bool
  is_mutation (join _) = false
  is_mutation (session_authenticate _) = false
  is_mutation _ = true

  unfoldable pub process : ValidatedRequest → Tx World RpcError ProcessedRequest
  unfolding needs_human Protocol.room_id Protocol.request_id
  process request =
      let accepted =
        process_addressed request (Protocol.room_id request) (Protocol.request_id request) in
      if needs_human request
      then (if is_human actor.role then accepted else fail forbidden)
      else if is_mutation request
      then accepted
      else fail invalid_request

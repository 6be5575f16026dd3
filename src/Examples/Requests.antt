-- ===== src/Examples/Requests.antt =====
-- Requests of a room.
use thought_khoral_room_gate.Prelude.{
  ◌≡◌, refl, true, false, ◌||◌, none, some, [], ◌∷◌, Result, ok, err, ◌⊎◌, ◌==◌, drop, any, arith,
  if◌then◌else◌,
}
use thought_khoral_room_gate.Json.{value_eq, json}
use thought_khoral_room_gate.Env.{Uuid}
use thought_khoral_room_gate.Protocol
use thought_khoral_room_gate.Protocol.{
  RpcError, conflicting_duplicate, ValidatedRequest, chat_send, decision_propose,
  decision_transition, decision_delete, DecisionPropose, DecisionTransition, DecisionDelete,
  ChatSend, confirm, participant, mentioned,
}
use thought_khoral_room_gate.Protocol.Fingerprint.{fingerprint}
use thought_khoral_room_gate.Store.{World, NewEvent}
use thought_khoral_room_gate.Store.Events.{
  room_log, events_after, append_event_in_transaction, new_v4, record_request, prior_request,
}
use thought_khoral_room_gate.Protocol.Validity.{is_valid_room_event}
use thought_khoral_room_gate.Store.Events.Later.{Later, Later-refl}
use thought_khoral_room_gate.Store.Events.Log.{
  IsWellFormed, next_event, appended, append_event_in_transaction_lem,
}
use thought_khoral_room_gate.Rooms.{RoomParticipant}
use thought_khoral_room_gate.Rooms.Audience.{
  is_room, normalized_chat_payload, resolve_chat_audience, collect_audience,
}
use thought_khoral_room_gate.Rooms.Mentions.{participant_mention_tokens}
use thought_khoral_room_gate.Rooms.Mentions.Validate.{validate_mentions}
use thought_khoral_room_gate.Rooms.Audience.Members.{
  has, addresses, IsAscending, resolve_chat_audience-members,
}
use thought_khoral_room_gate.Rooms.Visibility.{payload_visible_to}
use thought_khoral_room_gate.Rooms.Visibility.Chat.{chat_visibility}
use thought_khoral_room_gate.Store.Events.Replay.{events_after-drop}
use thought_khoral_room_gate.Auth.{is_human}
use thought_khoral_room_gate.Rooms.Decisions.Table.{IsKeyed, status_of}
use thought_khoral_room_gate.Rooms.Decisions.Lifecycle.{table}
use thought_khoral_room_gate.Rooms.Decisions.Lifecycle.Moves.{Done}
use thought_khoral_room_gate.Rooms.Decisions.Lifecycle.Steps.{process-Moves, settled_stays}
use thought_khoral_room_gate.Rooms.Decisions.{
  append_as_actor, propose_decision, insert_decision, transition_decision_in_transaction,
  apply_action, settle_decision, update_status, delete_decision_in_transaction,
}
use thought_khoral_room_gate.Rooms.Process.{
  ProcessedRequest, perform, process_new, process_in_room, process,
}
use thought_khoral_room_gate.Rooms.Process.Retry.{process_retry}
use thought_khoral_room_gate.Rooms.Process.History.{
  Run, here, next, empty_world, empty-IsWellFormed, Run-IsWellFormed, replay_after-Run,
}
use thought_khoral_room_gate.Examples.Setting.{
  env, env_laws, unicode, around, maya, no_answer, state_of, answer_of,
}

abbrev pub proposal : DecisionPropose
proposal = record {
  id = "1";
  contract_version = "n2n.room.v1";
  request_id = 2;
  room_id = 1;
  occurred_at = 5;
  title = "Ship";
  summary = "on Friday";
  source_event_ids = [];
}

abbrev proposed : Result RpcError (ProcessedRequest × World)
proposed = process env unicode around maya (decision_propose proposal) empty_world

abbrev pub after_proposal : World
after_proposal = state_of proposed

is_proposed :
    process env unicode around maya (decision_propose proposal) empty_world
    ≡ ok (answer_of no_answer proposed, after_proposal)
unfolding process process_in_room process_new perform propose_decision insert_decision
    append_as_actor append_event_in_transaction new_v4 record_request prior_request
    is_valid_room_event
is_proposed = refl

not_duplicate : (answer_of no_answer proposed).duplicate ≡ false
unfolding process process_in_room process_new perform propose_decision insert_decision
    append_as_actor append_event_in_transaction new_v4 record_request prior_request
    is_valid_room_event
not_duplicate = refl

process_retry_example :
    process env unicode around maya (decision_propose proposal) after_proposal ≡ (
      if value_eq
        (fingerprint env (decision_propose proposal))
        (fingerprint env (decision_propose proposal))
      then ok (
        record { events = (answer_of no_answer proposed).events; duplicate = true },
        after_proposal,
      )
      else err conflicting_duplicate)
unfolding Protocol.room_id Protocol.request_id
process_retry_example =
    process_retry env unicode around around maya maya (decision_propose proposal)
      (decision_propose proposal) 1 2 empty_world after_proposal after_proposal
      (answer_of no_answer proposed) env_laws (empty-IsWellFormed env) refl refl is_proposed
      not_duplicate (Later-refl after_proposal) refl refl refl

pub Run-of_proposal : Run env unicode empty_world after_proposal
Run-of_proposal =
    next around maya (decision_propose proposal) (answer_of no_answer proposed) here is_proposed

replay_after-Run_example :
    events_after after_proposal.room_events 1 0 ≡ drop 0 (room_log 1 after_proposal.room_events)
replay_after-Run_example = replay_after-Run env unicode after_proposal 1 0 env_laws Run-of_proposal

Run-IsWellFormed_example : IsWellFormed env after_proposal × Later empty_world after_proposal
Run-IsWellFormed_example =
    Run-IsWellFormed env unicode env_laws (empty-IsWellFormed env) Run-of_proposal

events_after-drop_example :
    events_after after_proposal.room_events 1 1 ≡ drop 1 (room_log 1 after_proposal.room_events)
events_after-drop_example =
    events_after-drop {env = env} after_proposal 1 1 Run-IsWellFormed_example.0

abbrev confirmation : DecisionTransition
confirmation = record {
  id = "2";
  contract_version = "n2n.room.v1";
  request_id = 3;
  room_id = 1;
  occurred_at = 6;
  decision_id = 0;
  action = confirm;
  edited_title = none;
  edited_summary = none;
}

abbrev confirmed : Result RpcError (ProcessedRequest × World)
confirmed = process env unicode around maya (decision_transition confirmation) after_proposal

abbrev pub after_confirmation : World
after_confirmation = state_of confirmed

is_confirmed :
    process env unicode around maya (decision_transition confirmation) after_proposal
    ≡ ok (answer_of no_answer confirmed, after_confirmation)
unfolding process process_in_room prior_request process_new perform propose_decision new_v4
    insert_decision append_as_actor append_event_in_transaction is_valid_room_event record_request
    transition_decision_in_transaction apply_action settle_decision update_status
    delete_decision_in_transaction
is_confirmed = refl

IsKeyed-proposal : IsKeyed (table after_proposal)
unfolding process process_in_room prior_request process_new perform propose_decision new_v4
    insert_decision append_as_actor append_event_in_transaction is_valid_room_event record_request
    transition_decision_in_transaction apply_action settle_decision update_status
    delete_decision_in_transaction
IsKeyed-proposal = (refl, tt)

process-Moves_example :
    Done
      (decision_transition confirmation)
      (answer_of no_answer confirmed).duplicate
      (table after_proposal)
      (table after_confirmation)
process-Moves_example =
    process-Moves env unicode around maya (decision_transition confirmation) after_proposal
      after_confirmation (answer_of no_answer confirmed) IsKeyed-proposal is_confirmed

abbrev deletion : DecisionDelete
deletion = record {
  id = "3";
  contract_version = "n2n.room.v1";
  request_id = 4;
  room_id = 1;
  occurred_at = 7;
  decision_id = 0;
}

abbrev deleted : Result RpcError (ProcessedRequest × World)
deleted = process env unicode around maya (decision_delete deletion) after_confirmation

is_deleted :
    process env unicode around maya (decision_delete deletion) after_confirmation
    ≡ ok (answer_of no_answer deleted, state_of deleted)
unfolding process process_in_room prior_request process_new perform propose_decision new_v4
    insert_decision append_as_actor append_event_in_transaction is_valid_room_event record_request
    transition_decision_in_transaction apply_action settle_decision update_status
    delete_decision_in_transaction
is_deleted = refl

IsKeyed-confirmation : IsKeyed (table after_confirmation)
unfolding process process_in_room prior_request process_new perform propose_decision new_v4
    insert_decision append_as_actor append_event_in_transaction is_valid_room_event record_request
    transition_decision_in_transaction apply_action settle_decision update_status
    delete_decision_in_transaction
IsKeyed-confirmation = (refl, tt)

is_active : status_of 0 (table after_confirmation) ≡ some "active"
unfolding process process_in_room prior_request process_new perform propose_decision new_v4
    insert_decision append_as_actor append_event_in_transaction is_valid_room_event record_request
    transition_decision_in_transaction apply_action settle_decision update_status
    delete_decision_in_transaction
is_active = refl

settled_stays_example :
    (status_of 0 (table (state_of deleted)) ≡ some "active")
    ⊎ ((status_of 0 (table (state_of deleted)) ≡ none)
        × (is_human maya.role ≡ true)
        × ((r : DecisionDelete) × (decision_delete deletion ≡ decision_delete r)
            × (r.decision_id ≡ 0)))
settled_stays_example =
    settled_stays env unicode around maya (decision_delete deletion) after_confirmation
      (state_of deleted) (answer_of no_answer deleted) 0 "active" IsKeyed-confirmation is_deleted
      is_active (λ h. cc h)

abbrev liam : RoomParticipant
liam = record { id = 9; role = "human"; display_name = "liam"; online = true }

abbrev message : ChatSend
message = record {
  id = "4";
  contract_version = "n2n.room.v1";
  request_id = 5;
  room_id = 1;
  occurred_at = 8;
  text = "hello";
  mentions = participant 9 "liam" ∷ [];
  delivery = mentioned;
}

is_resolved : resolve_chat_audience env unicode maya (liam ∷ []) message ≡ ok (7 ∷ 9 ∷ [])
unfolding resolve_chat_audience validate_mentions participant_mention_tokens collect_audience
is_resolved = refl

resolve_chat_audience-members_example :
    IsAscending (7 ∷ 9 ∷ [])
    × ((id : Uuid)
        → has id (7 ∷ 9 ∷ []) ≡ ((7 == id) || any (addresses (liam ∷ []) id) message.mentions))
resolve_chat_audience-members_example =
    resolve_chat_audience-members env unicode maya (liam ∷ []) message (7 ∷ 9 ∷ []) refl is_resolved

chat_visibility_example :
    payload_visible_to env (normalized_chat_payload env message (7 ∷ 9 ∷ [])) 9
    ≡ (is_room message.delivery || ((7 == 9) || any (addresses (liam ∷ []) 9) message.mentions))
chat_visibility_example =
    chat_visibility env env_laws unicode maya (liam ∷ []) message (7 ∷ 9 ∷ []) 9 is_resolved

abbrev note : NewEvent
note = record {
  room_id = 1;
  request_id = 6;
  event_type = "agent.task.queued";
  actor_id = 7;
  actor_role = "human";
  actor_display_name = some "Maya";
  payload = json [];
  occurred_at = 9;
}

append_event_in_transaction_lem_example :
    append_event_in_transaction env note after_proposal
    ≡ ok (next_event env note after_proposal, appended env note after_proposal)
unfolding is_valid_room_event process process_in_room prior_request process_new perform
    propose_decision new_v4 insert_decision append_as_actor append_event_in_transaction
    record_request
append_event_in_transaction_lem_example =
    append_event_in_transaction_lem env note after_proposal Run-IsWellFormed_example.0 refl refl
      (omega arith)

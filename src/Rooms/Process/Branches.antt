-- ===== src/Rooms/Process/Branches.antt =====
-- The branches of `process`: each appends to the log of its room alone, and returns what it appended.
use thought_khoral_room_gate.Prelude.{
  String, ◌≡◌, refl, false, none, List, [], ◌∷◌, ◌++◌, ok_or, arith, ◌==◌, str_eq,
}
use thought_khoral_room_gate.Tx.{or_else}
use thought_khoral_room_gate.Json.{Value}
use thought_khoral_room_gate.Env.{Uuid, Instant, Env, EnvLaws}
use thought_khoral_room_gate.Protocol.{
  invalid_request, internal_error, ChatSend, DecisionAction, confirm, edit, dismiss,
  DecisionPropose, DecisionTransition, DecisionDelete, AgentTaskStart,
}
use thought_khoral_room_gate.Auth.{Actor}
use thought_khoral_room_gate.Store.{RoomEvent, DecisionRow, TaskRow, World, invalid_agent_task}
use thought_khoral_room_gate.Store.Events.{new_v4, prior_request}
use thought_khoral_room_gate.Store.Events.Growth.{
  Emits, Emits-at, Emits-gets, Emits-lift, Emits-pure, Emits-fail, Emits-if, Emits-or_else,
  Emits-bind, Emits-silent, Emits-append, Emits-new_v4,
}
use thought_khoral_room_gate.Store.Tasks.{
  insert_agent_task, requested_event, queued_task, next_revision, start_new_task,
  start_agent_task_in_transaction,
}
use thought_khoral_room_gate.Rooms.Mentions.{Unicode}
use thought_khoral_room_gate.Rooms.Audience.{invokes_action_items}
use thought_khoral_room_gate.Rooms.ActionItems.{append_as_agent, run_action_items}
use thought_khoral_room_gate.Rooms.Decisions.{
  append_as_actor, fetch_decision, insert_decision, update_status, delete_decision,
  propose_decision, settle_decision, edit_decision, apply_action,
  transition_decision_in_transaction, delete_decision_in_transaction,
}
use thought_khoral_room_gate.Rooms.Process.{Surroundings, send_chat_among, send_chat}

pub start-eq-new :
    (env : Env) (now : Instant) (requester_id : Uuid) (name : String) (start : AgentTaskStart)
    (w : World)
    → prior_request w start.room_id start.request_id ≡ none
    → start_agent_task_in_transaction env now requester_id name start false w
      ≡ start_new_task env now requester_id name start false w
unfolding start_agent_task_in_transaction
start-eq-new env now requester_id name start w fresh = rw (fresh, start_agent_task_in_transaction)

abbrev pub whole : List RoomEvent → List RoomEvent
whole events = events

module _ (env : Env) (laws : EnvLaws env) (actor : Actor) where
  append_as_actor-Emits :
      {xs : List RoomEvent} (room_id request_id : Uuid) (event_type : String) (payload : Value)
      (occurred_at : Instant)
      → Emits env room_id xs
          (λ e. xs ++ e ∷ [])
          (append_as_actor env actor room_id request_id event_type payload occurred_at)
  unfolding append_as_actor
  append_as_actor-Emits room_id request_id event_type payload occurred_at =
      Emits-or_else env room_id _ internal_error (Emits-append env room_id _ laws refl)

  fresh_id-Emits :
      {xs : List RoomEvent} (room_id : Uuid)
      → Emits env room_id xs (λ _. xs) (or_else (new_v4 env) internal_error)
  fresh_id-Emits room_id = Emits-or_else env room_id _ internal_error (Emits-new_v4 env room_id)

  insert_decision-Emits :
      {xs : List RoomEvent} (room_id : Uuid) (row : DecisionRow)
      → Emits env room_id xs (λ _. xs) (or_else (insert_decision row) internal_error)
  unfolding insert_decision
  insert_decision-Emits room_id row = Emits-or_else env room_id _ internal_error (
      Emits-silent env room_id (insert_decision row)
        (λ w a after h. (ground arith, ground arith, ground arith)))

  pub propose_decision-Emits :
      (request : DecisionPropose)
      → Emits env request.room_id [] whole (propose_decision env actor request)
  unfolding propose_decision
  propose_decision-Emits request =
      Emits-bind env request.room_id _ _ (fresh_id-Emits request.room_id) λ decision_id.
        Emits-bind env request.room_id _ _ (insert_decision-Emits request.room_id _) λ _.
          Emits-bind env request.room_id _ _
            (append_as_actor-Emits request.room_id request.request_id _ _ request.occurred_at)
            λ event. Emits-pure env request.room_id (event ∷ []) refl

  update_status-Emits :
      {xs : List RoomEvent} (room_id decision_id : Uuid) (status : String) (at : Instant)
      → Emits env room_id xs (λ _. xs) (update_status decision_id status at)
  unfolding update_status
  update_status-Emits room_id decision_id status at =
      Emits-silent env room_id (update_status decision_id status at)
        (λ w a after h. (ground arith, ground arith, ground arith))

  fetch_decision-Emits :
      {xs : List RoomEvent} (room_id decision_id : Uuid)
      → Emits env room_id xs (λ _. xs) (fetch_decision decision_id room_id)
  unfolding fetch_decision
  fetch_decision-Emits room_id decision_id =
      Emits-silent env room_id (fetch_decision decision_id room_id)
        (λ w a after h. (ground arith, ground arith, ground arith))

  delete_decision-Emits :
      {xs : List RoomEvent} (room_id decision_id : Uuid)
      → Emits env room_id xs (λ _. xs) (delete_decision decision_id room_id)
  unfolding delete_decision
  delete_decision-Emits room_id decision_id =
      Emits-silent env room_id (delete_decision decision_id room_id)
        (λ w a after h. (ground arith, ground arith, ground arith))

  settle_decision-Emits :
      (request : DecisionTransition) (row : DecisionRow) (status event_type : String)
      → Emits env request.room_id [] whole (settle_decision env actor request row status event_type)
  unfolding settle_decision
  settle_decision-Emits request row status event_type =
      Emits-bind env request.room_id _ _ (update_status-Emits request.room_id _ status _) λ _.
        Emits-bind env request.room_id _ _
          (append_as_actor-Emits request.room_id request.request_id _ _ request.occurred_at)
          λ event. Emits-pure env request.room_id (event ∷ []) refl

  edit_decision-Emits :
      (request : DecisionTransition) (row : DecisionRow) (title summary : String)
      → Emits env request.room_id [] whole (edit_decision env actor request row title summary)
  unfolding edit_decision
  edit_decision-Emits request row title summary =
      Emits-bind env request.room_id _ _ (fresh_id-Emits request.room_id) λ replacement_id.
        Emits-bind env request.room_id _ _ (update_status-Emits request.room_id _ "superseded" _)
          λ _. Emits-bind env request.room_id _ _ (insert_decision-Emits request.room_id _) λ _.
            Emits-bind env request.room_id _ _
              (append_as_actor-Emits request.room_id request.request_id _ _ request.occurred_at)
              λ edited.
                Emits-bind env request.room_id _ _
                  (append_as_actor-Emits request.room_id request.request_id _ _ request.occurred_at)
                  λ activated. Emits-pure env request.room_id (edited ∷ activated ∷ []) refl

  apply_action-Emits :
      (action : DecisionAction) (request : DecisionTransition) (row : DecisionRow)
      → Emits env request.room_id [] whole (apply_action env actor action request row)
  unfolding apply_action
  apply_action-Emits confirm request row = settle_decision-Emits request row _ _
  apply_action-Emits dismiss request row = settle_decision-Emits request row _ _
  apply_action-Emits edit request row =
      Emits-bind env request.room_id _ _
        (Emits-lift env request.room_id (ok_or request.edited_title invalid_request))
        λ title.
          Emits-bind env request.room_id _ _
            (Emits-lift env request.room_id (ok_or request.edited_summary invalid_request))
            λ summary. edit_decision-Emits request row title summary

  pub transition_decision-Emits :
      (request : DecisionTransition)
      → Emits env request.room_id [] whole (transition_decision_in_transaction env actor request)
  unfolding transition_decision_in_transaction
  transition_decision-Emits request =
      Emits-bind env request.room_id _ _ (fetch_decision-Emits request.room_id request.decision_id)
        λ row.
          Emits-bind env request.room_id {f = λ _. []} _ _
            (Emits-if env request.room_id (str_eq row.status "draft") _ _
              (Emits-pure env request.room_id tt refl) (Emits-fail env request.room_id _))
            λ _. apply_action-Emits request.action request row

  pub delete_decision_in_transaction-Emits :
      (request : DecisionDelete)
      → Emits env request.room_id [] whole (delete_decision_in_transaction env actor request)
  unfolding delete_decision_in_transaction
  delete_decision_in_transaction-Emits request =
      Emits-bind env request.room_id _ _ (fetch_decision-Emits request.room_id request.decision_id)
        λ row.
          Emits-bind env request.room_id _ _
            (append_as_actor-Emits request.room_id request.request_id _ _ request.occurred_at)
            λ event.
              Emits-bind env request.room_id _ _
                (delete_decision-Emits request.room_id request.decision_id)
                λ _. Emits-pure env request.room_id (event ∷ []) refl

  append_as_agent-Emits :
      {xs : List RoomEvent} (request : ChatSend) (event_type : String) (payload : Value)
      → Emits env request.room_id xs
          (λ e. xs ++ e ∷ [])
          (append_as_agent env request event_type payload)
  unfolding append_as_agent
  append_as_agent-Emits request event_type payload =
      Emits-or_else env request.room_id _ internal_error
        (Emits-append env request.room_id _ laws refl)

  run_action_items-Emits :
      (request : ChatSend) (requester_id : Uuid) (message : RoomEvent)
      → Emits env request.room_id
          (message ∷ [])
          (λ replies. message ∷ replies)
          (run_action_items env request requester_id message)
  unfolding run_action_items
  run_action_items-Emits request requester_id message =
      Emits-bind env request.room_id _ _ (fresh_id-Emits request.room_id) λ task_id.
        Emits-bind env request.room_id _ _ (append_as_agent-Emits request _ _) λ queued.
          Emits-bind env request.room_id _ _ (append_as_agent-Emits request _ _) λ running.
            Emits-bind env request.room_id _ _ (append_as_agent-Emits request _ _)
              λ finished. Emits-pure env request.room_id (queued ∷ running ∷ finished ∷ []) refl

  insert_agent_task-Emits :
      {xs : List RoomEvent} (room_id : Uuid) (row : TaskRow)
      → Emits env room_id xs (λ _. xs) (insert_agent_task row)
  unfolding insert_agent_task
  insert_agent_task-Emits room_id row =
      Emits-silent env room_id (insert_agent_task row)
        (λ w a after h. (ground arith, ground arith, ground arith))

  pub start_new_task-Emits :
      (now : Instant) (requester_id : Uuid) (name : String) (start : AgentTaskStart)
      → Emits env start.room_id []
          (λ r. r.events)
          (start_new_task env now requester_id name start false)
  unfolding start_new_task
  start_new_task-Emits now requester_id name start =
      Emits-bind env start.room_id _ _ (Emits-new_v4 env start.room_id) λ task_id.
        Emits-bind env start.room_id _ _
          (Emits-gets env start.room_id (next_revision start.room_id))
          λ revision.
            Emits-bind env start.room_id _ _
              (Emits-append env start.room_id
                (requested_event env task_id requester_id name start revision) laws refl)
              λ requested.
                Emits-bind env start.room_id {f = λ _. requested ∷ []} _ _
                  (Emits-if env start.room_id (requested.sequence == revision) _ _
                    (Emits-pure env start.room_id tt refl)
                    (Emits-fail env start.room_id invalid_agent_task))
                  λ _.
                    Emits-bind env start.room_id _ _
                      (insert_agent_task-Emits start.room_id
                        (queued_task env now task_id requester_id start revision))
                      λ _.
                        Emits-bind env start.room_id {f = λ _. requested ∷ []} _ _
                          (Emits-pure env start.room_id tt refl)
                          λ _.
                            Emits-pure env start.room_id
                              (record { task_id = task_id; events = requested ∷ [] }) refl

  module _ (unicode : Unicode) (around : Surroundings) where
    pub send_chat-Emits :
        (request : ChatSend)
        → Emits env request.room_id [] whole (send_chat env unicode around actor request)
    unfolding send_chat send_chat_among
    send_chat-Emits request = Emits-at env request.room_id _ λ w.
        Emits-bind env request.room_id _ _ (Emits-lift env request.room_id _) λ audience_ids.
          Emits-bind env request.room_id _ _
            (append_as_actor-Emits request.room_id request.request_id _ _ request.occurred_at)
            λ message.
              Emits-bind env request.room_id {f = λ replies. message ∷ replies} _ _
                (Emits-if env request.room_id (invokes_action_items actor request) _ _
                  (run_action_items-Emits request actor.id message)
                  (Emits-pure env request.room_id [] refl))
                λ replies. Emits-pure env request.room_id (message ∷ replies) refl

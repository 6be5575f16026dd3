-- ===== src/Rooms/Process/Growth.antt =====
-- Every branch of `process` appends to the log of the request's room, and returns what it appended.
use mathlib.Core.Path.{ap₂}
use thought_khoral_room_gate.Prelude.{◌≡◌, refl, subst, ◌∙◌, none, some, List, [], ok, some_inj}
use thought_khoral_room_gate.Tx.{Tx}
use thought_khoral_room_gate.Env.{Uuid, Env, EnvLaws}
use thought_khoral_room_gate.Protocol
use thought_khoral_room_gate.Protocol.{
  RpcError, invalid_request, internal_error, ChatSend, DecisionAction, confirm, edit, dismiss,
  DecisionPropose, DecisionTransition, DecisionDelete, AgentTaskStart, ValidatedRequest,
  session_authenticate, join, chat_send, decision_propose, decision_transition, decision_delete,
  agent_task_start,
}
use thought_khoral_room_gate.Auth.{Actor}
use thought_khoral_room_gate.Store.{RoomEvent, World}
use thought_khoral_room_gate.Store.Events.{prior_request}
use thought_khoral_room_gate.Store.Events.Log.{IsWellFormed}
use thought_khoral_room_gate.Store.Events.Growth.{
  Grows, Grows-none, Emits, Emits-pure, Emits-or_else, Emits-bind,
}
use thought_khoral_room_gate.Rooms.Mentions.{Unicode}
use thought_khoral_room_gate.Rooms.Process.Branches.{
  whole, start-eq-new, propose_decision-Emits, transition_decision-Emits,
  delete_decision_in_transaction-Emits, start_new_task-Emits, send_chat-Emits,
}
use thought_khoral_room_gate.Rooms.Process.{Surroundings, start_task, perform}

module _ (env : Env) (laws : EnvLaws env) (actor : Actor) (unicode : Unicode)
    (around : Surroundings) where
  start_task-Grows :
      (request : AgentTaskStart) (w : World) (events : List RoomEvent) (after : World)
      → prior_request w request.room_id request.request_id ≡ none
      → IsWellFormed env w
      → start_task env unicode around actor request w ≡ ok (events, after)
      → Grows env request.room_id w events after
  unfolding start_task
  start_task-Grows request w events after fresh wf h =
      (Emits-bind env request.room_id _ _
          (Emits-or_else env request.room_id _ internal_error
            (start_new_task-Emits env laws actor around.now actor.id actor.display_name request))
          λ result. Emits-pure env request.room_id result.events refl).grows
        w w events after (Grows-none env request.room_id w wf)
        (rw (start-eq-new env around.now actor.id actor.display_name request w fresh) at h)

  module _ (w : World) (events : List RoomEvent) (after : World) (room_id : Uuid)
      (wf : IsWellFormed env w) where
    run :
        {own : Uuid} {m : Tx World RpcError (List RoomEvent)}
        → some own ≡ some room_id
        → Emits env own [] whole m
        → m w ≡ ok (events, after)
        → Grows env room_id w events after
    run {own} same emits h =
        subst (λ r. Grows env r w events after) (some_inj same)
          (emits.grows w w events after (Grows-none env own w wf) h)

    -- What a request does on its branch, when it is new to the room.
    pub perform-Grows :
        (request : ValidatedRequest) (request_id : Uuid)
        → Protocol.room_id request ≡ some room_id
        → Protocol.request_id request ≡ some request_id
        → prior_request w room_id request_id ≡ none
        → perform env unicode around actor request w ≡ ok (events, after)
        → Grows env room_id w events after
    unfolding perform Protocol.room_id Protocol.request_id
    perform-Grows (chat_send r) request_id e e' fresh h =
        run e (send_chat-Emits env laws actor unicode around r) h
    perform-Grows (decision_propose r) request_id e e' fresh h =
        run e (propose_decision-Emits env laws actor r) h
    perform-Grows (decision_transition r) request_id e e' fresh h =
        run e (transition_decision-Emits env laws actor r) h
    perform-Grows (decision_delete r) request_id e e' fresh h =
        run e (delete_decision_in_transaction-Emits env laws actor r) h
    perform-Grows (agent_task_start r) request_id e e' fresh h =
        let room = some_inj e in
        let own = some_inj e' in
        subst (λ i. Grows env i w events after) room
          (start_task-Grows r w events after (ap₂ (prior_request w) room own ∙ fresh) wf h)
    perform-Grows (join r) request_id e e' fresh h = cc
    perform-Grows (session_authenticate r) request_id e e' fresh h = cc

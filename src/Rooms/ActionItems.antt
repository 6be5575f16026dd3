-- ===== src/Rooms/ActionItems.antt =====
-- src/rooms.rs: the in-process Action Items agent, which answers a mention within the transaction
-- of the message.
use thought_khoral_room_gate.Prelude.{
  String, Option, none, some, List, [], ◌∷◌, ◌++◌, map, Result, ok, err,
}
use thought_khoral_room_gate.Tx.{Tx, ◌>>=◌, pure, or_else}
use thought_khoral_room_gate.Json.{Value, null, string, json, json_array}
use thought_khoral_room_gate.Env.{Uuid, Env}
use thought_khoral_room_gate.Protocol.{RpcError, internal_error, ChatSend}
use thought_khoral_room_gate.Protocol.Validity.{uuid_value}
use thought_khoral_room_gate.Text.{Text, text}
use thought_khoral_room_gate.ActionItems.{ActionItem, extract_action_items, ParseError}
use thought_khoral_room_gate.Store.{RoomEvent, World}
use thought_khoral_room_gate.Store.Events.{new_v4, append_event_in_transaction}
use thought_khoral_room_gate.Rooms.{action_items_agent_id}

abbrev optional_text : Option Text → Value
optional_text none = null
optional_text (some t) = string (text t)

abbrev item_value : ActionItem → Value
item_value item = json (
    ("text", string (text item.text))
    ∷ ("owner", optional_text item.owner)
    ∷ ("due", optional_text item.due)
    ∷ [])

module _ (env : Env) where
  -- `action_items_task_payload`, as its fields.
  abbrev task_fields : Uuid → Uuid → Uuid → List (String × Value)
  task_fields task_id source_event_id requester_id =
      ("taskId", uuid_value env task_id)
      ∷ ("kind", string "action-items.v1")
      ∷ ("sourceEventId", uuid_value env source_event_id)
      ∷ ("requesterId", uuid_value env requester_id)
      ∷ ("agentId", uuid_value env action_items_agent_id)
      ∷ []

  -- The last event's type, and the field that it adds to the payload.
  abbrev pub outcome : Result ParseError (List ActionItem) → String × (String × Value)
  outcome (ok items) = (
    "agent.task.succeeded",
    ("result", json (("actionItems", json_array (map item_value items)) ∷ [])),
  )
  outcome (err _) =
      ("agent.task.failed", ("failure", json (("code", string "invalid_task_input") ∷ [])))

  unfoldable pub append_as_agent : ChatSend → String → Value → Tx World RpcError RoomEvent
  append_as_agent request event_type payload =
      or_else
        (append_event_in_transaction env (record {
          room_id = request.room_id;
          request_id = request.request_id;
          event_type = event_type;
          actor_id = action_items_agent_id;
          actor_role = "agent";
          actor_display_name = some "Action Items";
          payload = payload;
          occurred_at = request.occurred_at;
        }))
        internal_error

  unfoldable pub run_action_items : ChatSend → Uuid → RoomEvent → Tx World RpcError (List RoomEvent)
  run_action_items request requester_id message = do
    task_id ← or_else (new_v4 env) internal_error
    let core = task_fields task_id message.event_id requester_id
    let (event_type, extra) = outcome (extract_action_items request.text)
    queued ← append_as_agent request "agent.task.queued" (json core)
    running ← append_as_agent request "agent.task.running" (json core)
    finished ← append_as_agent request event_type (json (core ++ extra ∷ []))
    pure (queued ∷ running ∷ finished ∷ [])

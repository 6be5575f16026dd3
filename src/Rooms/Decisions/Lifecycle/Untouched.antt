-- ===== src/Rooms/Decisions/Lifecycle/Untouched.antt =====
-- src/rooms.rs and src/store.rs: the operations that leave the decisions table alone.
use thought_khoral_room_gate.Prelude.{
  String, false, List, [], ◌∷◌, ◌==◌, arith, Option-cases, inl, inr,
}
use thought_khoral_room_gate.Tx.Frame.{
  Keeps, Keeps-pure, Keeps-bind, Keeps-or_else, Keeps-lift, Keeps-gets, Keeps-if, Keeps-fail,
  Keeps-at,
}
use thought_khoral_room_gate.Json.{Value}
use thought_khoral_room_gate.Env.{Uuid, Env}
use thought_khoral_room_gate.Protocol.{ChatSend, AgentTaskStart, internal_error}
use thought_khoral_room_gate.Auth.{Actor}
use thought_khoral_room_gate.Store.{RoomEvent, TaskRow, invalid_agent_task}
use thought_khoral_room_gate.Store.Events.{record_request, prior_request}
use thought_khoral_room_gate.Store.Tasks.{
  insert_agent_task, next_revision, requested_event, queued_task, start_new_task, repeat_task,
  start_agent_task_in_transaction,
}
use thought_khoral_room_gate.Rooms.Mentions.{Unicode}
use thought_khoral_room_gate.Rooms.ActionItems.{append_as_agent, run_action_items}
use thought_khoral_room_gate.Rooms.Decisions.Lifecycle.{
  table, append-table, new_v4-table, append_as_actor-table,
}
use thought_khoral_room_gate.Rooms.Process.{Surroundings, send_chat_among, send_chat, start_task}

pub record-table :
    (room_id request_id : Uuid) (fp : Value) (events : List RoomEvent)
    → Keeps table (record_request room_id request_id fp events)
unfolding record_request
record-table room_id request_id fp events = record { same = λ s a t h. ground arith }

module _ (env : Env) (unicode : Unicode) (around : Surroundings) (actor : Actor) where
  agent-table :
      (request : ChatSend) (event_type : String) (payload : Value)
      → Keeps table (append_as_agent env request event_type payload)
  unfolding append_as_agent
  agent-table request event_type payload = Keeps-or_else _ internal_error (append-table env _)

  action_items-table :
      (request : ChatSend) (requester_id : Uuid) (message : RoomEvent)
      → Keeps table (run_action_items env request requester_id message)
  unfolding run_action_items
  action_items-table request requester_id message =
      Keeps-bind _ _ (Keeps-or_else _ internal_error (new_v4-table env)) λ task_id.
        Keeps-bind _ _ (agent-table request _ _) λ queued.
          Keeps-bind _ _ (agent-table request _ _)
            λ running. Keeps-bind _ _ (agent-table request _ _) λ finished. Keeps-pure _

  pub send_chat-table :
      (request : ChatSend) → Keeps table (send_chat env unicode around actor request)
  unfolding send_chat send_chat_among
  send_chat-table request = Keeps-at _ λ w. Keeps-bind _ _ (Keeps-lift _) λ audience_ids.
      Keeps-bind _ _ (append_as_actor-table env actor request.room_id request.request_id _ _ _)
        λ message.
          Keeps-bind _ _
            (Keeps-if _ _ _ (action_items-table request actor.id message) (Keeps-pure _))
            λ replies. Keeps-pure _

  insert_task-table : (row : TaskRow) → Keeps table (insert_agent_task row)
  unfolding insert_agent_task
  insert_task-table row = record { same = λ s a t h. ground arith }

  start_new-table :
      (start : AgentTaskStart)
      → Keeps table (start_new_task env around.now actor.id actor.display_name start false)
  unfolding start_new_task
  start_new-table start = Keeps-bind _ _ (new_v4-table env) λ task_id.
      Keeps-bind _ _ (Keeps-gets (next_revision start.room_id)) λ revision.
        Keeps-bind _ _
          (append-table env
            (requested_event env task_id actor.id actor.display_name start revision))
          λ requested.
            Keeps-bind _ _
              (Keeps-if (requested.sequence == revision) _ _ (Keeps-pure tt)
                (Keeps-fail invalid_agent_task))
              λ _.
                Keeps-bind _ _
                  (insert_task-table (queued_task env around.now task_id actor.id start revision))
                  λ _.
                    Keeps-bind _ _ (Keeps-pure tt)
                      λ _. Keeps-pure (record { task_id = task_id; events = requested ∷ [] })

  repeat-table :
      (start : AgentTaskStart) (fp : Value) (events : List RoomEvent)
      → Keeps table (repeat_task env start fp events)
  unfolding repeat_task
  repeat-table start fp events = record { same = λ s a t h. ground arith }

  pub start-table :
      (start : AgentTaskStart) → Keeps table (start_task env unicode around actor start)
  unfolding start_task start_agent_task_in_transaction
  start-table start =
      Keeps-bind _ _
        (Keeps-or_else _ internal_error (record {
          same = λ s a t k. elim (Option-cases (prior_request s start.room_id start.request_id)) [
            | inl fresh ↦ (start_new-table start).same s a t (ground (arith, k, fresh))
            | inr ((fp, events), prior) ↦
                (repeat-table start fp events).same s a t (ground (arith, k, prior))
          ];
        }))
        λ result. Keeps-pure _

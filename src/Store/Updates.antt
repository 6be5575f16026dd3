-- ===== src/Store/Updates.antt =====
-- src/store.rs: what an agent reports of the task whose lease it holds.
pub mod Reported
pub mod Retry
pub mod Final
use thought_khoral_room_gate.Prelude.{
  ℕ, ◌/◌, String, Bool, true, false, ◌&&◌, none, some, List, [], ◌∷◌, ◌++◌, Result, ok, err, any,
  find, update_where, ◌==◌, str_eq, if◌then◌else◌,
}
use thought_khoral_room_gate.Tx.{Tx, ◌>>=◌, pure, fail, lift}
use thought_khoral_room_gate.Json.{Value, value_eq}
use thought_khoral_room_gate.Env.{Uuid, Instant, Env}
use thought_khoral_room_gate.Store.{
  NewEvent, RoomEvent, TaskRow, UpdateRow, World, StoreError, invalid_agent_task,
  conflicting_duplicate, database,
}
use thought_khoral_room_gate.Store.Events.{new_v4, append_event_in_transaction, events_by_id}
use thought_khoral_room_gate.Store.Leases.{
  AgentTaskState, as_str, queued, running, awaiting_external_input, succeeded, failed,
  AgentTaskRecord, AgentTaskLease, agent_task_from_row, is_task, holds, with_tasks,
}
use thought_khoral_room_gate.Store.Reports.{
  Parsers, normalized_agent_task_update_payload, validate_agent_handoff,
}

pub record AgentTaskUpdate : Type 0 where
  pub update_id : Uuid
  pub event_type : String
  pub payload : Value
  pub occurred_at : Instant

pub record AgentTaskUpdateResult : Type 0 where
  pub task_id : Uuid
  pub events : List RoomEvent
  pub duplicate : Bool

unfoldable pub state_for_update : String → Result StoreError AgentTaskState
state_for_update event_type =
    if str_eq event_type "agent.task.progressed"
    then ok running
    else if str_eq event_type "agent.task.awaiting_external_input"
    then ok awaiting_external_input
    else if str_eq event_type "agent.task.succeeded"
    then ok succeeded
    else if str_eq event_type "agent.task.failed"
    then ok failed
    else err invalid_agent_task

unfoldable pub is_matching_agent_task_update : List RoomEvent → AgentTaskUpdate → Value → Bool
is_matching_agent_task_update (event ∷ []) update normalized_payload =
    str_eq event.event_type update.event_type
    && (value_eq event.payload normalized_payload
        && (event.occurred_at / 1000) == (update.occurred_at / 1000))
is_matching_agent_task_update _ update normalized_payload = false

abbrev pub is_update : Uuid → Uuid → UpdateRow → Bool
is_update task_id update_id row = (row.task_id == task_id) && (row.update_id == update_id)

unfoldable pub insert_update : UpdateRow → Tx World StoreError (Unit {0})
insert_update row w =
    if any (is_update row.task_id row.update_id) w.agent_task_updates
    then err database
    else ok (
      tt,
      record w { db = record w.db { agent_task_updates = w.agent_task_updates ++ row ∷ [] } },
    )

abbrev pub set_state : String → Instant → TaskRow → TaskRow
set_state state updated_at row = record row { state = state; updated_at = updated_at }

unfoldable pub update_state : Uuid → String → Instant → Tx World StoreError (Unit {0})
update_state task_id state updated_at w =
    ok
      (tt, with_tasks w (update_where (is_task task_id) (set_state state updated_at) w.agent_tasks))

abbrev pub is_open_state : AgentTaskState → Bool
is_open_state queued = true
is_open_state running = true
is_open_state awaiting_external_input = true
is_open_state succeeded = false
is_open_state failed = false

abbrev pub update_event : AgentTaskRecord → AgentTaskUpdate → Value → Uuid → NewEvent
update_event task update payload request_id = record {
  room_id = task.room_id;
  request_id = request_id;
  event_type = update.event_type;
  actor_id = task.agent_id;
  actor_role = "agent";
  actor_display_name = none;
  payload = payload;
  occurred_at = update.occurred_at;
}

module _ (env : Env) (parsers : Parsers) where
  -- The part below the check for an earlier report of the update.
  unfoldable pub record_new_update :
      AgentTaskRecord
      → AgentTaskLease
      → Instant
      → AgentTaskUpdate
      → Value
      → Tx World StoreError AgentTaskUpdateResult
  unfolding validate_agent_handoff
  record_new_update task lease clock update payload = do
    _ ← (if is_open_state task.state then pure tt else fail invalid_agent_task)
    _ ← lift (
        if str_eq update.event_type "agent.task.awaiting_external_input"
        then validate_agent_handoff env parsers task lease clock payload
        else ok tt)
    state ← lift (state_for_update update.event_type)
    request_id ← new_v4 env
    event ← append_event_in_transaction env (update_event task update payload request_id)
    _ ← insert_update (record {
      task_id = task.task_id;
      update_id = update.update_id;
      event_ids = event.event_id ∷ [];
    })
    _ ← update_state task.task_id (as_str state) (env.stored_instant update.occurred_at)
    pure (record { task_id = task.task_id; events = event ∷ []; duplicate = false })

  -- The update was reported before: nothing changes.
  unfoldable pub repeat_update :
      AgentTaskRecord
      → AgentTaskUpdate
      → Value
      → List RoomEvent
      → Tx World StoreError AgentTaskUpdateResult
  repeat_update task update payload events =
      if is_matching_agent_task_update events update payload
      then pure (record { task_id = task.task_id; events = events; duplicate = true })
      else fail conflicting_duplicate

  unfoldable pub record_update_of :
      AgentTaskRecord
      → AgentTaskLease
      → Instant
      → AgentTaskUpdate
      → Value
      → Tx World StoreError AgentTaskUpdateResult
  unfolding events_by_id
  record_update_of task lease clock update payload w =
      elim (find (is_update task.task_id update.update_id) w.agent_task_updates) [
        | none ↦ record_new_update task lease clock update payload w
        | some row ↦ repeat_update task update payload (events_by_id w.room_events row.event_ids) w
      ]

  -- `now` is PostgreSQL's NOW(), and `clock` the gateway's `Utc::now()`.
  unfoldable pub record_agent_task_update_with_outcome :
      AgentTaskLease
      → Instant
      → Instant
      → AgentTaskUpdate
      → Tx World StoreError AgentTaskUpdateResult
  unfolding agent_task_from_row normalized_agent_task_update_payload
  record_agent_task_update_with_outcome lease now clock update w =
      elim (find (holds env lease now) w.agent_tasks) [
        | none ↦ err invalid_agent_task
        | some row ↦ elim (agent_task_from_row row) [
          | err e ↦ err e
          | ok task ↦ elim (normalized_agent_task_update_payload env parsers task update.payload) [
            | err e ↦ err e
            | ok payload ↦ record_update_of task lease clock update payload w
          ]
        ]
      ]

-- ===== src/Store/Tasks.antt =====
-- src/store.rs: the tasks of external agents, from their start over leases to their last update.
use thought_khoral_room_gate.Prelude.{
  ℕ, ◌+◌, String, Bool, ◌&&◌, ◌||◌, none, some, List, [], ◌∷◌, ◌++◌, Result, ok, err, any, find,
  ◌==◌, if◌then◌else◌,
}
use thought_khoral_room_gate.Tx.{Tx, ◌>>=◌, pure, fail, gets}
use thought_khoral_room_gate.Json.{Value, value_eq, string, json, json_number}
use thought_khoral_room_gate.Env.{Uuid, Instant, Env}
use thought_khoral_room_gate.Protocol.{AgentTaskStart}
use thought_khoral_room_gate.Protocol.Validity.{uuid_value}
use thought_khoral_room_gate.Protocol.Fingerprint.{skill_text, agent_task_fingerprint}
use thought_khoral_room_gate.Store.{
  NewEvent, RoomEvent, TaskRow, World, StoreError, invalid_agent_task, conflicting_duplicate,
  database,
}
use thought_khoral_room_gate.Store.Events.{
  room_log, max_sequence, new_v4, append_event_in_transaction, prior_request, record_request,
}

pub record AgentTaskStartResult : Type 0 where
  pub task_id : Uuid
  pub events : List RoomEvent

-- The PRIMARY KEY (task_id) and UNIQUE (room_id, request_id) of agent_tasks.
abbrev pub same_task : TaskRow → TaskRow → Bool
same_task new old =
    (old.task_id == new.task_id)
    || ((old.room_id == new.room_id) && (old.request_id == new.request_id))

unfoldable pub insert_agent_task : TaskRow → Tx World StoreError (Unit {0})
insert_agent_task row w =
    if any (same_task row) w.agent_tasks
    then err database
    else ok (tt, record w { db = record w.db { agent_tasks = w.agent_tasks ++ row ∷ [] } })

-- `SELECT COALESCE(MAX(sequence), 0) + 1`.
abbrev pub next_revision : Uuid → World → ℕ
next_revision room_id w = max_sequence (room_log room_id w.room_events) + 1

module _ (env : Env) where
  unfoldable pub requested_task_payload : Uuid → Uuid → AgentTaskStart → ℕ → Value
  requested_task_payload task_id requester_id start context_revision = json (
      ("taskId", uuid_value env task_id)
      ∷ ("agentId", uuid_value env start.agent_id)
      ∷ ("requesterId", uuid_value env requester_id)
      ∷ ("skillId", string (skill_text start.skill_id))
      ∷ ("contextRevision", json_number context_revision)
      ∷ [])

  abbrev pub requested_event : Uuid → Uuid → String → AgentTaskStart → ℕ → NewEvent
  requested_event task_id requester_id requester_display_name start context_revision = record {
    room_id = start.room_id;
    request_id = start.request_id;
    event_type = "agent.task.requested";
    actor_id = requester_id;
    actor_role = "human";
    actor_display_name = some requester_display_name;
    payload = requested_task_payload task_id requester_id start context_revision;
    occurred_at = start.occurred_at;
  }

  abbrev pub queued_task : Instant → Uuid → Uuid → AgentTaskStart → ℕ → TaskRow
  queued_task now task_id requester_id start context_revision = record {
    task_id = task_id;
    room_id = start.room_id;
    request_id = start.request_id;
    requester_id = requester_id;
    agent_id = start.agent_id;
    skill_id = skill_text start.skill_id;
    input = start.input;
    context_revision = context_revision;
    state = "queued";
    lease_owner = none;
    lease_expires_at = none;
    created_at = now;
    updated_at = now;
  }

  -- The part below the lookup of a prior request. `now` is PostgreSQL's NOW().
  unfoldable pub start_new_task :
      Instant → Uuid → String → AgentTaskStart → Bool → Tx World StoreError AgentTaskStartResult
  start_new_task now requester_id requester_display_name start record_idempotency = do
    task_id ← new_v4 env
    context_revision ← gets (next_revision start.room_id)
    requested ←
        append_event_in_transaction env
          (requested_event task_id requester_id requester_display_name start context_revision)
    _ ← (if requested.sequence == context_revision then pure tt else fail invalid_agent_task)
    _ ← insert_agent_task (queued_task now task_id requester_id start context_revision)
    _ ←
        (if record_idempotency
          then record_request start.room_id start.request_id (agent_task_fingerprint env start)
              (requested ∷ [])
          else pure tt)
    pure (record { task_id = task_id; events = requested ∷ [] })

  abbrev task_of_request : Uuid → Uuid → World → Result StoreError Uuid
  task_of_request room_id request_id w =
      elim (find (λ row. (row.room_id == room_id) && (row.request_id == request_id))
        w.agent_tasks) [ none ↦ err database | some row ↦ ok row.task_id ]

  unfoldable pub repeat_task :
      AgentTaskStart → Value → List RoomEvent → Tx World StoreError AgentTaskStartResult
  repeat_task start prior_fingerprint events w =
      if value_eq prior_fingerprint (agent_task_fingerprint env start)
      then (elim (task_of_request start.room_id start.request_id w) [
        | ok task_id ↦ ok (record { task_id = task_id; events = events }, w)
        | err e ↦ err e
      ])
      else err conflicting_duplicate

  unfoldable pub start_agent_task_in_transaction :
      Instant → Uuid → String → AgentTaskStart → Bool → Tx World StoreError AgentTaskStartResult
  unfolding start_new_task repeat_task
  start_agent_task_in_transaction now requester_id requester_display_name start record_idempotency
        w =
      elim (prior_request w start.room_id start.request_id) [
        | none ↦ start_new_task now requester_id requester_display_name start record_idempotency w
        | some (prior_fingerprint, events) ↦ repeat_task start prior_fingerprint events w
      ]

-- ===== src/Store/Leases.antt =====
-- src/store.rs: the states of a task, and the leases under which external agents work on it.
pub mod Exclusive
pub mod Oldest
pub mod Context
use thought_khoral_room_gate.Prelude.{
  ℕ, ◌+◌, String, Bool, true, false, ◌&&◌, ◌||◌, Option, none, some, List, [], ◌∷◌, Result, ok, err,
  ◌>>=◌, find, keep, update_where, leb, ltb, ◌==◌, str_eq, if◌then◌else◌,
}
use thought_khoral_room_gate.Tx.{Tx}
use thought_khoral_room_gate.Env.{Uuid, Instant, Env}
use thought_khoral_room_gate.Protocol.{AgentSkillId, summarize_context, extract_action_items}
use thought_khoral_room_gate.Store.{
  RoomEvent, TaskRow, World, StoreError, invalid_agent_task, database,
}
use thought_khoral_room_gate.Store.Events.{in_room, order_by_sequence}

pub data AgentTaskState : Type 0 where
  queued running awaiting_external_input succeeded failed : AgentTaskState

unfoldable pub as_str : AgentTaskState → String
as_str queued = "queued"
as_str running = "running"
as_str awaiting_external_input = "awaiting_external_input"
as_str succeeded = "succeeded"
as_str failed = "failed"

unfoldable pub parse : String → Result StoreError AgentTaskState
parse value =
    if str_eq value "queued"
    then ok queued
    else if str_eq value "running"
    then ok running
    else if str_eq value "awaiting_external_input"
    then ok awaiting_external_input
    else if str_eq value "succeeded"
    then ok succeeded
    else if str_eq value "failed"
    then ok failed
    else err invalid_agent_task

pub record AgentTaskRecord : Type 0 where
  pub task_id : Uuid
  pub room_id : Uuid
  pub request_id : Uuid
  pub requester_id : Uuid
  pub agent_id : Uuid
  pub skill_id : AgentSkillId
  pub input : String
  pub context_revision : ℕ
  pub state : AgentTaskState
  pub lease_owner : Option Uuid
  pub lease_expires_at : Option Instant
  pub created_at : Instant
  pub updated_at : Instant

pub record AgentTaskLease : Type 0 where
  pub task_id : Uuid
  pub owner_id : Uuid
  pub expires_at : Instant

pub record AgentTaskContext : Type 0 where
  pub task : AgentTaskRecord
  pub events : List RoomEvent

abbrev skill_of : String → Result StoreError AgentSkillId
skill_of value =
    if str_eq value "summarize-context"
    then ok summarize_context
    else if str_eq value "extract-action-items"
    then ok extract_action_items
    else err invalid_agent_task

unfoldable pub agent_task_from_row : TaskRow → Result StoreError AgentTaskRecord
unfolding parse
agent_task_from_row row = do
  skill_id ← skill_of row.skill_id
  state ← parse row.state
  ok (record {
    task_id = row.task_id;
    room_id = row.room_id;
    request_id = row.request_id;
    requester_id = row.requester_id;
    agent_id = row.agent_id;
    skill_id = skill_id;
    input = row.input;
    context_revision = row.context_revision;
    state = state;
    lease_owner = row.lease_owner;
    lease_expires_at = row.lease_expires_at;
    created_at = row.created_at;
    updated_at = row.updated_at;
  })

-- Five minutes.
abbrev pub agent_task_lease_duration : ℕ
agent_task_lease_duration = 300000000000

-- `state IN ('queued', 'running', 'awaiting_external_input')`.
abbrev pub is_open : String → Bool
is_open state =
    str_eq state "queued" || (str_eq state "running" || str_eq state "awaiting_external_input")

-- `lease_expires_at IS NULL OR lease_expires_at <= $1`.
abbrev pub is_free : Instant → Option Instant → Bool
is_free now none = true
is_free now (some expires_at) = leb expires_at now

abbrev pub is_claimable : Instant → TaskRow → Bool
is_claimable now row = is_open row.state && is_free now row.lease_expires_at

abbrev pub is_task : Uuid → TaskRow → Bool
is_task task_id row = row.task_id == task_id

abbrev pub with_tasks : World → List TaskRow → World
with_tasks w rows = record w { db = record w.db { agent_tasks = rows } }

abbrev pub leased : Uuid → Instant → Instant → String → TaskRow → TaskRow
leased owner_id expires_at now state row = record row {
  lease_owner = some owner_id;
  lease_expires_at = some expires_at;
  state = state;
  updated_at = now;
}

-- `(created_at, task_id)` of the one row is not after that of the other.
abbrev pub is_older : TaskRow → TaskRow → Bool
is_older a b =
    ltb a.created_at b.created_at || ((a.created_at == b.created_at) && leb a.task_id b.task_id)

-- `ORDER BY created_at ASC, task_id ASC LIMIT 1`.
unfoldable pub oldest : List TaskRow → Option TaskRow
oldest [] = none
oldest (row ∷ rows) = elim (oldest rows) [
  | none ↦ some row
  | some other ↦ if is_older row other then some row else some other
]

-- `CASE WHEN state = 'queued' THEN 'running' ELSE state END`.
abbrev pub claimed_state : String → String
claimed_state state = if str_eq state "queued" then "running" else state

-- The row that `claim_agent_task` updates, and what it makes of it.
abbrev pub is_claimable_task : Uuid → Instant → TaskRow → Bool
is_claimable_task task_id at row = is_task task_id row && is_claimable at row

abbrev pub claimed : Uuid → Instant → Instant → TaskRow → TaskRow
claimed owner_id expires_at now row = leased owner_id expires_at now (claimed_state row.state) row

-- The query `claimable`.
abbrev pub claimable_of : Uuid → Instant → List TaskRow → List TaskRow
claimable_of agent_id at = keep (λ row. (row.agent_id == agent_id) && is_claimable at row)

-- `lease_expires_at = $3 AND lease_expires_at > NOW()`.
abbrev pub runs_until : Instant → Instant → Option Instant → Bool
runs_until end now none = false
runs_until end now (some expires_at) = (expires_at == end) && ltb now expires_at

module _ (env : Env) where
  -- The end of a lease that is taken now, as the database keeps it.
  abbrev pub lease_end : Instant → Instant
  lease_end now = env.stored_instant (now + agent_task_lease_duration)

  unfoldable pub claim_agent_task :
      Uuid → Uuid → Instant → Tx World StoreError (Option AgentTaskLease)
  claim_agent_task task_id owner_id now w =
      let at = env.stored_instant now in
      elim (find (is_claimable_task task_id at) w.agent_tasks) [
        | none ↦ ok (none, w)
        | some row ↦ ok (
          some (record { task_id = row.task_id; owner_id = owner_id; expires_at = lease_end now }),
          with_tasks w (
              update_where (is_claimable_task task_id at) (claimed owner_id (lease_end now) at)
                w.agent_tasks),
        )
      ]

  unfoldable pub claim_oldest_queued_agent_task :
      Uuid → Uuid → Instant → Tx World StoreError (Option AgentTaskLease)
  unfolding oldest
  claim_oldest_queued_agent_task agent_id owner_id now w =
      let at = env.stored_instant now in
      elim (oldest (claimable_of agent_id at w.agent_tasks)) [
        | none ↦ ok (none, w)
        | some row ↦ ok (
          some (record { task_id = row.task_id; owner_id = owner_id; expires_at = lease_end now }),
          with_tasks w (
              update_where (is_task row.task_id) (leased owner_id (lease_end now) at "running")
                w.agent_tasks),
        )
      ]

  -- `lease_owner = $2 AND lease_expires_at = $3 AND lease_expires_at > NOW()`. A lease that was
  -- returned by a claim is bound as it was stored.
  abbrev pub holds : AgentTaskLease → Instant → TaskRow → Bool
  holds lease now row =
      is_task lease.task_id row
      && (elim row.lease_owner [ none ↦ false | some owner ↦ owner == lease.owner_id ]
          && runs_until (env.stored_instant lease.expires_at) now row.lease_expires_at)

  unfoldable pub context_for_lease :
      AgentTaskLease → Instant → World → Result StoreError (Option AgentTaskContext)
  unfolding agent_task_from_row order_by_sequence
  context_for_lease lease now w = elim (find (holds lease now) w.agent_tasks) [
    | none ↦ ok none
    | some row ↦ do
      task ← agent_task_from_row row
      ok (
          some (record {
            task = task;
            events = order_by_sequence (
                keep
                  (λ event. in_room task.room_id event && leb event.sequence task.context_revision)
                  w.room_events);
          }))
  ]

-- ===== src/Store.antt =====
-- src/store.rs and migrations/: the rows of the database, and the state of one PostgreSQL database
-- as the gateway sees it inside a transaction.
pub mod Events
pub mod Tasks
pub mod Leases
pub mod Reports
pub mod Updates
use thought_khoral_room_gate.Prelude.{ℕ, String, Option, List, [], ◌∷◌, ◌++◌, ◌+◌}
use thought_khoral_room_gate.Json.{Value}
use thought_khoral_room_gate.Env.{Uuid, Instant}

pub record NewEvent : Type 0 where
  pub room_id : Uuid
  pub request_id : Uuid
  pub event_type : String
  pub actor_id : Uuid
  pub actor_role : String
  pub actor_display_name : Option String
  pub payload : Value
  pub occurred_at : Instant

pub record RoomEvent : Type 0 where
  pub event_id : Uuid
  pub room_id : Uuid
  pub sequence : ℕ
  pub request_id : Uuid
  pub event_type : String
  pub actor_id : Uuid
  pub actor_role : String
  pub actor_display_name : Option String
  pub payload : Value
  pub occurred_at : Instant

-- A row of room_requests.
pub record RequestRow : Type 0 where
  pub room_id : Uuid
  pub request_id : Uuid
  pub request_fingerprint : Value
  pub event_ids : List Uuid

-- A row of decisions.
pub record DecisionRow : Type 0 where
  pub decision_id : Uuid
  pub room_id : Uuid
  pub status : String
  pub title : String
  pub summary : String
  pub derived_from_decision_id : Option Uuid
  pub source_event_ids : List Uuid
  pub created_at : Instant
  pub updated_at : Instant

-- A row of agent_tasks, with skill and state as TEXT.
pub record TaskRow : Type 0 where
  pub task_id : Uuid
  pub room_id : Uuid
  pub request_id : Uuid
  pub requester_id : Uuid
  pub agent_id : Uuid
  pub skill_id : String
  pub input : String
  pub context_revision : ℕ
  pub state : String
  pub lease_owner : Option Uuid
  pub lease_expires_at : Option Instant
  pub created_at : Instant
  pub updated_at : Instant

-- A row of agent_task_updates.
pub record UpdateRow : Type 0 where
  pub task_id : Uuid
  pub update_id : Uuid
  pub event_ids : List Uuid

-- The tables, each in the order of insertion.
pub record Db : Type 0 where
  pub room_events : List RoomEvent
  pub room_requests : List RequestRow
  pub decisions : List DecisionRow
  pub agent_tasks : List TaskRow
  pub agent_task_updates : List UpdateRow

-- `drawn` counts the identifiers that `Uuid::new_v4` has given out.
pub record World : Type 0 where
  pub db : Db
  pub open db use *
  pub drawn : ℕ

pub data StoreError : Type 0 where
  invalid_event invalid_agent_task conflicting_duplicate database : StoreError

abbrev pub empty_db : Db
empty_db = record {
  room_events = [];
  room_requests = [];
  decisions = [];
  agent_tasks = [];
  agent_task_updates = [];
}

-- The ends of BIGINT.
abbrev pub max_bigint : ℕ
max_bigint = 9223372036854775807

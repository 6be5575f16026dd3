-- ===== src/Conversation.antt =====
-- src/conversation_store.rs and migrations/0006, 0007: the tables of the agent conversations beside
-- those of the rooms, and what the conversations call outside the repository.
pub mod Protocol
pub mod Policy
pub mod Authority
pub mod Tasks
pub mod Claims
pub mod Citations
pub mod Updates
pub mod Reports
pub mod Canonical
pub mod Context
pub mod Catalog
pub mod Mentions
pub mod Reserve
pub mod Turn
pub mod Reservation
pub mod Invariant
pub mod Runs
pub mod Rounds
pub mod Logged
pub mod Repeats
pub mod Refusals
pub mod Answered
pub mod Retry
pub mod Views
pub mod Service
pub mod Requests
use thought_khoral_room_gate.Prelude.{
  ℕ, String, Bool, Option, none, some, List, [], ok, err, ◌*◌, if◌then◌else◌, ltb,
}
use thought_khoral_room_gate.Tx.{Tx}
use thought_khoral_room_gate.Json.{Value, null, string, json_number, get}
use thought_khoral_room_gate.Env.{Uuid, Instant, Env}
use thought_khoral_room_gate.Store.{World, StoreError}
use thought_khoral_room_gate.Conversation.Protocol.{ConversationError, runtime_unavailable}

-- The columns `state`, by the texts that their CHECKs allow.
pub data ConversationState : Type 0 where
  reserved running ready unusable superseded : ConversationState

pub data TaskState : Type 0 where
  reserved running completed failed : TaskState

-- A row of agent_conversations.
pub record ConversationRow : Type 0 where
  pub conversation_id : Uuid
  pub room_id : Uuid
  pub agent_id : Uuid
  pub generation : ℕ
  pub state : ConversationState
  pub consumed_revision : ℕ
  pub policy_revision : String
  pub guidance_revision : String
  pub selected_settings : Value
  pub active_task_id : Option Uuid
  pub created_at : Instant
  pub updated_at : Instant

-- A row of conversation_tasks. The three lease columns are null together or not at all.
pub record TaskRow : Type 0 where
  pub task_id : Uuid
  pub room_id : Uuid
  pub request_id : Uuid
  pub requester_id : Uuid
  pub agent_id : Uuid
  pub conversation_id : Uuid
  pub generation : ℕ
  pub trigger_event_id : Uuid
  pub context_revision : ℕ
  pub state : TaskState
  pub frozen_input : Value
  pub selected_settings : Value
  pub source_manifest : Value
  pub policy_revision : String
  pub authorization_expires_at : Instant
  pub issued_at : Instant
  pub expires_at : Instant
  pub lease_owner : Option String
  pub lease_expires_at : Option Instant
  pub lease_token : Option Uuid
  pub receipt_acknowledgement : Option Value
  pub reply_event_id : Option Uuid
  pub created_at : Instant
  pub updated_at : Instant
  pub accepted_turn : Value
  pub result : Option Value
  pub failure : Option Value
  pub effective_settings : Option Value
  pub usage : Option Value
  pub last_update_ordinal : ℕ
  pub last_progress_at : Option Instant

-- A row of conversation_updates.
pub record UpdateRow : Type 0 where
  pub task_id : Uuid
  pub conversation_id : Uuid
  pub room_id : Uuid
  pub agent_id : Uuid
  pub generation : ℕ
  pub update_id : Uuid
  pub ordinal : ℕ
  pub kind : String
  pub occurred_at : Instant
  pub content : Value

-- A row of conversation_disclosures.
pub record DisclosureRow : Type 0 where
  pub conversation_id : Uuid
  pub room_id : Uuid
  pub agent_id : Uuid
  pub generation : ℕ
  pub source_id : Uuid
  pub source_kind : String
  pub first_task_id : Uuid
  pub policy_revision : String
  pub disclosed_revision : ℕ

-- A row of conversation_update_requests.
pub record UpdateRequestRow : Type 0 where
  pub task_id : Uuid
  pub conversation_id : Uuid
  pub room_id : Uuid
  pub agent_id : Uuid
  pub generation : ℕ
  pub update_id : Uuid
  pub ordinal : ℕ
  pub request : Value
  pub response : Value
  pub received_at : Instant

pub record ConversationWorld : Type 0 where
  pub rooms : World
  pub agent_conversations : List ConversationRow
  pub conversation_tasks : List TaskRow
  pub conversation_updates : List UpdateRow
  pub conversation_disclosures : List DisclosureRow
  pub conversation_update_requests : List UpdateRequestRow

-- The crates: `jsonschema` on the pinned profile schemas, by name; `sha2`; `serde_json::to_vec`, as
-- text; `chrono`.
pub record Crates : Type 0 where
  pub env : Env
  pub is_valid : String → Value → Bool
  pub sha256_hex : String → String
  pub to_json : Value → String
  pub parse_from_rfc3339 : String → Option Instant
  pub from_timestamp : ℕ → Option Instant

-- `Duration::seconds`, in nanoseconds.
abbrev pub seconds : ℕ → ℕ
seconds n = n * 1000000000

-- `DateTime::min`.
abbrev pub min : Instant → Instant → Instant
min a b = if ltb b a then b else a

-- `json!` of an identifier.
abbrev pub json_uuid : Env → Uuid → Value
json_uuid env id = string (env.uuid_to_string id)

-- A function of the store on the same transaction: its errors become `RuntimeUnavailable`.
abbrev pub in_rooms :
    {A : Type 0} → Tx World StoreError A → Tx ConversationWorld ConversationError A
in_rooms m w = elim (m w.rooms) [
  | ok (a, rooms) ↦ ok (a, record w { rooms = rooms })
  | err e ↦ err runtime_unavailable
]

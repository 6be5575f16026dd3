-- ===== src/Protocol.antt =====
-- src/protocol.rs: the errors of the room protocol and the typed requests.
pub mod Validity
pub mod Fingerprint
use thought_khoral_room_gate.Prelude.{ℕ, String, Option, none, some, List}
use thought_khoral_room_gate.Env.{Uuid, Instant}

-- `RpcError`, by the constructors of its constants; a constant's code and message are left out.
pub data RpcError : Type 0 where
  invalid_request unknown_method unsupported_contract_version unauthenticated forbidden : RpcError
  not_found invalid_transition conflicting_duplicate unknown_mention_target : RpcError
  internal_error : RpcError

pub data ChatMentionAlias : Type 0 where
  all_humans all_agents : ChatMentionAlias

pub data ChatMention : Type 0 where
  participant : Uuid → String → ChatMention
  alias : ChatMentionAlias → ChatMention

pub data ChatDelivery : Type 0 where
  room mentioned : ChatDelivery

pub data DecisionAction : Type 0 where
  confirm edit dismiss : DecisionAction

pub data AgentSkillId : Type 0 where
  summarize_context extract_action_items : AgentSkillId

pub record SessionAuthenticate : Type 0 where
  pub id : String
  pub access_token : String

pub record Join : Type 0 where
  pub id : String
  pub contract_version : String
  pub request_id : Uuid
  pub room_id : Uuid
  pub occurred_at : Instant
  pub after_sequence : Option ℕ

pub record ChatSend : Type 0 where
  pub id : String
  pub contract_version : String
  pub request_id : Uuid
  pub room_id : Uuid
  pub occurred_at : Instant
  pub text : String
  pub mentions : List ChatMention
  pub delivery : ChatDelivery

pub record DecisionPropose : Type 0 where
  pub id : String
  pub contract_version : String
  pub request_id : Uuid
  pub room_id : Uuid
  pub occurred_at : Instant
  pub title : String
  pub summary : String
  pub source_event_ids : List Uuid

pub record DecisionTransition : Type 0 where
  pub id : String
  pub contract_version : String
  pub request_id : Uuid
  pub room_id : Uuid
  pub occurred_at : Instant
  pub decision_id : Uuid
  pub action : DecisionAction
  pub edited_title : Option String
  pub edited_summary : Option String

pub record DecisionDelete : Type 0 where
  pub id : String
  pub contract_version : String
  pub request_id : Uuid
  pub room_id : Uuid
  pub occurred_at : Instant
  pub decision_id : Uuid

pub record AgentTaskStart : Type 0 where
  pub id : String
  pub contract_version : String
  pub request_id : Uuid
  pub room_id : Uuid
  pub occurred_at : Instant
  pub agent_id : Uuid
  pub skill_id : AgentSkillId
  pub input : String

pub data ValidatedRequest : Type 0 where
  session_authenticate : SessionAuthenticate → ValidatedRequest
  join : Join → ValidatedRequest
  chat_send : ChatSend → ValidatedRequest
  decision_propose : DecisionPropose → ValidatedRequest
  decision_transition : DecisionTransition → ValidatedRequest
  decision_delete : DecisionDelete → ValidatedRequest
  agent_task_start : AgentTaskStart → ValidatedRequest

unfoldable pub room_id : ValidatedRequest → Option Uuid
room_id (session_authenticate _) = none
room_id (join r) = some r.room_id
room_id (chat_send r) = some r.room_id
room_id (decision_propose r) = some r.room_id
room_id (decision_transition r) = some r.room_id
room_id (decision_delete r) = some r.room_id
room_id (agent_task_start r) = some r.room_id

unfoldable pub request_id : ValidatedRequest → Option Uuid
request_id (session_authenticate _) = none
request_id (join r) = some r.request_id
request_id (chat_send r) = some r.request_id
request_id (decision_propose r) = some r.request_id
request_id (decision_transition r) = some r.request_id
request_id (decision_delete r) = some r.request_id
request_id (agent_task_start r) = some r.request_id

-- ===== src/Conversation/Authority.antt =====
-- src/conversation_store.rs: who may work on a turn (`task_authority`), and the row that is tested.
use thought_khoral_room_gate.Prelude.{
  Bool, true, false, ◌&&◌, not, Option, none, some, Result, ◌>>=◌, err, ensure, ltb, ◌==◌, str_eq,
  is_some, if◌then◌else◌,
}
use thought_khoral_room_gate.Json.{string, value_eq, at}
use thought_khoral_room_gate.Env.{Uuid, Instant}
use thought_khoral_room_gate.Conversation.{ConversationState, TaskState, ConversationRow, TaskRow}
use thought_khoral_room_gate.Conversation.Protocol.{
  ConversationError, codex_agent_id, forbidden, conversation_stale, runtime_unavailable,
  authentication_required, timeout, conversation_interrupted,
}
use thought_khoral_room_gate.Conversation.Policy.{ConversationPolicy, offers}

-- `state IN ('reserved', 'running')`, of a task and of a conversation.
abbrev pub is_open : TaskState → Bool
is_open TaskState.reserved = true
is_open TaskState.running = true
is_open TaskState.completed = false
is_open TaskState.failed = false

abbrev pub is_reserved : TaskState → Bool
is_reserved TaskState.reserved = true
is_reserved TaskState.running = false
is_reserved TaskState.completed = false
is_reserved TaskState.failed = false

abbrev pub is_busy : ConversationState → Bool
is_busy ConversationState.reserved = true
is_busy ConversationState.running = true
is_busy ConversationState.ready = false
is_busy ConversationState.unusable = false
is_busy ConversationState.superseded = false

abbrev pub id_is : Option Uuid → Uuid → Bool
id_is none id = false
id_is (some a) id = a == id

-- `SELECT t.*, c.state AS conversation_state, c.active_task_id FROM conversation_tasks t JOIN …`.
pub record JoinedRow : Type 0 where
  pub task : TaskRow
  pub conversation_state : ConversationState
  pub active_task_id : Option Uuid

abbrev pub is_task : Uuid → TaskRow → Bool
is_task task row = row.task_id == task

-- `WHERE task_id = … AND agent_id = …`.
abbrev pub is_codex_task : Uuid → TaskRow → Bool
is_codex_task task row = is_task task row && row.agent_id == codex_agent_id

abbrev pub is_conversation : Uuid → ConversationRow → Bool
is_conversation id row = row.conversation_id == id

-- The condition of the join.
abbrev pub belongs : TaskRow → ConversationRow → Bool
belongs task row =
    is_conversation task.conversation_id row
    && (row.room_id == task.room_id
        && (row.agent_id == task.agent_id && row.generation == task.generation))

abbrev pub joined : TaskRow → ConversationRow → JoinedRow
joined task row = record {
  task = task;
  conversation_state = row.state;
  active_task_id = row.active_task_id;
}

unfoldable pub require_enabled : ConversationPolicy → Uuid → Result ConversationError (Unit {0})
require_enabled policy agent =
    if agent == codex_agent_id then ensure policy.enabled runtime_unavailable else err forbidden

-- The revisions and the model that the turn was reserved with are still those of the policy.
abbrev pub policy_holds : ConversationPolicy → TaskRow → Bool
policy_holds policy task =
    str_eq task.policy_revision policy.policy_revision
    && (value_eq (at task.frozen_input "guidanceRevision") (string policy.guidance_revision)
        && offers policy.models (at task.frozen_input "model")
            (at task.frozen_input "reasoningEffort"))

abbrev pub expires_after : Instant → Option Instant → Bool
expires_after now none = false
expires_after now (some expiry) = ltb now expiry

-- `lease: Option<Uuid>` and `claim: bool`: the two ways in which `task_authority` is called.
pub data Purpose : Type 0 where
  to_claim : Purpose
  under : Uuid → Purpose

abbrev pub purpose_allows : Instant → TaskRow → Purpose → Result ConversationError (Unit {0})
purpose_allows now task to_claim =
    ensure (is_reserved task.state && not (is_some task.lease_token)) conversation_interrupted
purpose_allows now task (under lease) =
    if id_is task.lease_token lease
    then ensure (expires_after now task.lease_expires_at) conversation_interrupted
    else err forbidden

unfoldable pub task_authority :
    ConversationPolicy → Instant → JoinedRow → Purpose → Result ConversationError (Unit {0})
unfolding require_enabled offers
task_authority policy now row purpose = do
  let task = row.task
  _ ← require_enabled policy task.agent_id
  _ ← ensure (policy_holds policy task) forbidden
  _ ← ensure (ltb now task.authorization_expires_at) authentication_required
  _ ← ensure (ltb now task.expires_at) timeout
  _ ←
      ensure
        (is_open task.state
          && (id_is row.active_task_id task.task_id && is_busy row.conversation_state))
        conversation_stale
  purpose_allows now task purpose

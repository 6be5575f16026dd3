-- ===== src/Conversation/Views.antt =====
-- src/conversation_store.rs: what browsers and workers read of the conversations.
use thought_khoral_room_gate.Prelude.{
  String, Bool, true, false, ◌&&◌, not, Option, none, some, List, [], ◌∷◌, Result, ok, ◌>>=◌, ok_or,
  map, find, keep, take, leb, ◌==◌, if◌then◌else◌,
}
use thought_khoral_room_gate.Json.{Value, null, string, json, json_array, json_number, json_option}
use thought_khoral_room_gate.Env.{Uuid}
use thought_khoral_room_gate.Conversation.{
  ConversationState, TaskState, ConversationRow, TaskRow, UpdateRow, ConversationWorld, Crates,
  json_uuid,
}
use thought_khoral_room_gate.Conversation.Protocol.{
  ConversationError, codex_agent_id, profile_version, validate_profile_value, session_unavailable,
}
use thought_khoral_room_gate.Conversation.Policy.{ConversationPolicy}
use thought_khoral_room_gate.Conversation.Authority.{is_codex_task, require_enabled}
use thought_khoral_room_gate.Conversation.Claims.{is_older}

abbrev conversation_state : ConversationState → String
conversation_state ConversationState.reserved = "reserved"
conversation_state ConversationState.running = "running"
conversation_state ConversationState.ready = "ready"
conversation_state ConversationState.unusable = "unusable"
conversation_state ConversationState.superseded = "superseded"

abbrev task_state : TaskState → String
task_state TaskState.reserved = "reserved"
task_state TaskState.running = "running"
task_state TaskState.completed = "completed"
task_state TaskState.failed = "failed"

abbrev is_superseded : ConversationState → Bool
is_superseded ConversationState.superseded = true
is_superseded _ = false

-- `room_id=$1 AND agent_id=$2 AND state<>'superseded'`.
abbrev is_shown : Uuid → Uuid → ConversationRow → Bool
is_shown room agent row =
    row.room_id == room && (row.agent_id == agent && not (is_superseded row.state))

-- `ORDER BY created_at DESC, task_id DESC LIMIT 1`.
unfoldable pub newest : List TaskRow → Option TaskRow
newest [] = none
newest (task ∷ tasks) = elim (newest tasks) [
  | none ↦ some task
  | some other ↦ if is_older task other then some other else some task
]

-- `ORDER BY ordinal`.
unfoldable pub insert_ordered : UpdateRow → List UpdateRow → List UpdateRow
insert_ordered row [] = row ∷ []
insert_ordered row (other ∷ rows) =
    let rest = insert_ordered row rows in
    if leb row.ordinal other.ordinal then row ∷ (other ∷ rows) else other ∷ rest

unfoldable pub by_ordinal : List UpdateRow → List UpdateRow
unfolding insert_ordered
by_ordinal [] = []
by_ordinal (row ∷ rows) = insert_ordered row (by_ordinal rows)

abbrev pub is_update_of : Uuid → UpdateRow → Bool
is_update_of task row = row.task_id == task

unfoldable pub shown_updates : Uuid → ConversationWorld → List UpdateRow
unfolding by_ordinal
shown_updates task w = take 256 (by_ordinal (keep (is_update_of task) w.conversation_updates))

abbrev whole : Value → Value
whole v = v

-- `t.effective_settings`, of the latest turn if there is one.
abbrev of_latest : (TaskRow → Option Value) → Option TaskRow → Value
of_latest column none = null
of_latest column (some task) = json_option whole (column task)

module _ (crates : Crates) (policy : ConversationPolicy) where
  abbrev uuid : Uuid → Value
  uuid id = json_uuid crates.env id

  abbrev conversation_entry : ConversationWorld → ConversationRow → Value
  conversation_entry w row =
      let latest =
        newest (keep (λ t. t.conversation_id == row.conversation_id) w.conversation_tasks) in
      json (
        ("id", uuid row.conversation_id)
        ∷ (("generation", json_number row.generation)
            ∷ (("state", string (conversation_state row.state))
                ∷ (("activeTaskId", json_option uuid row.active_task_id)
                    ∷ (("consumedRevision", json_number row.consumed_revision)
                        ∷ (("policyRevision", string row.policy_revision)
                            ∷ (("guidanceRevision", string row.guidance_revision)
                                ∷ (("selectedSettings", row.selected_settings)
                                    ∷ ((
                                      "effectiveSettings",
                                      of_latest (λ t. t.effective_settings) latest,
                                    )
                                        ∷ (("usage", of_latest (λ t. t.usage) latest) ∷ []))))))))))

  unfoldable pub conversation_view :
      Uuid → Uuid → ConversationWorld → Result ConversationError Value
  unfolding require_enabled newest validate_profile_value
  conversation_view room agent w = do
    _ ← require_enabled policy agent
    let row = find (is_shown room agent) w.agent_conversations
    let view = json (
        ("profileVersion", string profile_version)
        ∷ (("roomId", uuid room)
            ∷ (("agentId", uuid agent)
                ∷ (("conversation", json_option (conversation_entry w) row) ∷ []))))
    _ ← validate_profile_value crates.is_valid "view" view
    ok view

  abbrev update_entry : UpdateRow → Value
  update_entry row = json (
      ("updateId", uuid row.update_id)
      ∷ (("ordinal", json_number row.ordinal)
          ∷ (("kind", string row.kind)
              ∷ (("occurredAt", string (crates.env.instant_to_string row.occurred_at))
                  ∷ (("data", row.content) ∷ [])))))

  abbrev task_entry : Uuid → Uuid → TaskRow → List UpdateRow → Value
  task_entry room task row updates = json (
      ("profileVersion", string profile_version)
      ∷ (("roomId", uuid room)
          ∷ (("taskId", uuid task)
              ∷ (("conversationId", uuid row.conversation_id)
                  ∷ (("generation", json_number row.generation)
                      ∷ (("requesterId", uuid row.requester_id)
                          ∷ (("state", string (task_state row.state))
                              ∷ (("selectedSettings", row.selected_settings)
                                  ∷ (("effectiveSettings", json_option whole row.effective_settings)
                                      ∷ (("usage", json_option whole row.usage)
                                          ∷ (("updates", json_array (map update_entry updates))
                                              ∷ (("result", json_option whole row.result)
                                                  ∷ ((
                                                    "replyEventId",
                                                    json_option uuid row.reply_event_id,
                                                  )
                                                      ∷ (("failure", json_option whole row.failure)
                                                          ∷ []))))))))))))))

  unfoldable pub task_view : Uuid → Uuid → ConversationWorld → Result ConversationError Value
  unfolding require_enabled shown_updates validate_profile_value
  task_view room task w = do
    _ ← require_enabled policy codex_agent_id
    row ←
        ok_or (find (λ t. is_codex_task task t && t.room_id == room) w.conversation_tasks)
          session_unavailable
    let view = task_entry room task row (shown_updates task w)
    _ ← validate_profile_value crates.is_valid "task" view
    ok view

  unfoldable pub receipt : Uuid → ConversationWorld → Result ConversationError Value
  unfolding require_enabled
  receipt task w = do
    _ ← require_enabled policy codex_agent_id
    row ← ok_or (find (is_codex_task task) w.conversation_tasks) session_unavailable
    ok (
        json (
          ("profileVersion", string profile_version)
          ∷ (("taskId", uuid task)
              ∷ (("conversationId", uuid row.conversation_id)
                  ∷ (("generation", json_number row.generation)
                      ∷ (("state", string (task_state row.state))
                          ∷ (("acknowledgement", json_option whole row.receipt_acknowledgement)
                              ∷ (("result", json_option whole row.result) ∷ []))))))))

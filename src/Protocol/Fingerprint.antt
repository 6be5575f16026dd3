-- ===== src/Protocol/Fingerprint.antt =====
-- src/protocol.rs: the JSON of typed values, and the fingerprint by which a retry is recognised.
use thought_khoral_room_gate.Prelude.{ℕ, String, Option, none, some, List, [], ◌∷◌, map}
use thought_khoral_room_gate.Json.{Value, null, string, json, json_array, json_number}
use thought_khoral_room_gate.Env.{Uuid, Env}
use thought_khoral_room_gate.Protocol.{
  ChatMentionAlias, all_humans, all_agents, ChatMention, participant, alias, ChatDelivery, room,
  mentioned, DecisionAction, confirm, edit, dismiss, AgentSkillId, summarize_context,
  extract_action_items, AgentTaskStart, ValidatedRequest, session_authenticate, join, chat_send,
  decision_propose, decision_transition, decision_delete, agent_task_start,
}
use thought_khoral_room_gate.Protocol.Validity.{uuid_value, instant_value}

abbrev pub alias_text : ChatMentionAlias → String
alias_text all_humans = "allhumans"
alias_text all_agents = "allagents"

abbrev pub delivery_text : ChatDelivery → String
delivery_text room = "room"
delivery_text mentioned = "mentioned"

abbrev pub action_text : DecisionAction → String
action_text confirm = "confirm"
action_text edit = "edit"
action_text dismiss = "dismiss"

-- `AgentSkillId::as_str`, and how `serde` writes it.
abbrev pub skill_text : AgentSkillId → String
skill_text summarize_context = "summarize-context"
skill_text extract_action_items = "extract-action-items"

abbrev pub optional_string : Option String → Value
optional_string none = null
optional_string (some s) = string s

abbrev pub optional_number : Option ℕ → Value
optional_number none = null
optional_number (some n) = json_number n

module _ (env : Env) where
  -- `Serialize` of `ChatMention`.
  abbrev pub mention_value : ChatMention → Value
  mention_value (participant id token) =
      json
        (("type", string "participant") ∷ ("id", uuid_value env id) ∷ ("token", string token) ∷ [])
  mention_value (alias a) = json (("type", string "alias") ∷ ("alias", string (alias_text a)) ∷ [])

  abbrev pub ids_value : List Uuid → Value
  ids_value ids = json_array (map (uuid_value env) ids)

  -- The fields that every fingerprint has.
  abbrev fingerprint_head : String → String → Uuid → Uuid → ℕ → List (String × Value) → Value
  fingerprint_head method contract_version request_id room_id occurred_at rest = json (
      ("method", string method)
      ∷ ("contractVersion", string contract_version)
      ∷ ("requestId", uuid_value env request_id)
      ∷ ("roomId", uuid_value env room_id)
      ∷ ("occurredAt", instant_value env occurred_at)
      ∷ rest)

  -- The same JSON in src/protocol.rs and, as `agent_task_fingerprint`, in src/store.rs.
  unfoldable pub agent_task_fingerprint : AgentTaskStart → Value
  agent_task_fingerprint r =
      fingerprint_head "agent.task.start" r.contract_version r.request_id r.room_id r.occurred_at (
        ("agentId", uuid_value env r.agent_id)
        ∷ ("skillId", string (skill_text r.skill_id))
        ∷ ("input", string r.input)
        ∷ [])

  -- Session authentication has no fingerprint; the code never asks for it (`unreachable!`).
  unfoldable pub fingerprint : ValidatedRequest → Value
  unfolding agent_task_fingerprint
  fingerprint (session_authenticate _) = null
  fingerprint (chat_send r) =
      fingerprint_head "chat.send" r.contract_version r.request_id r.room_id r.occurred_at (
        ("text", string r.text)
        ∷ ("mentions", json_array (map mention_value r.mentions))
        ∷ ("delivery", string (delivery_text r.delivery))
        ∷ [])
  fingerprint (decision_propose r) =
      fingerprint_head "decision.propose" r.contract_version r.request_id r.room_id r.occurred_at (
        ("title", string r.title)
        ∷ ("summary", string r.summary)
        ∷ ("sourceEventIds", ids_value r.source_event_ids)
        ∷ [])
  fingerprint (decision_transition r) =
      fingerprint_head "decision.transition" r.contract_version r.request_id r.room_id r.occurred_at
        (("decisionId", uuid_value env r.decision_id)
          ∷ ("action", string (action_text r.action))
          ∷ ("editedTitle", optional_string r.edited_title)
          ∷ ("editedSummary", optional_string r.edited_summary)
          ∷ [])
  fingerprint (decision_delete r) =
      fingerprint_head "decision.delete" r.contract_version r.request_id r.room_id r.occurred_at
        (("decisionId", uuid_value env r.decision_id) ∷ [])
  fingerprint (agent_task_start r) = agent_task_fingerprint r
  fingerprint (join r) =
      fingerprint_head "room.join" r.contract_version r.request_id r.room_id r.occurred_at
        (("afterSequence", optional_number r.after_sequence) ∷ [])

-- ===== src/Conversation/Updates.antt =====
-- src/conversation_store.rs: `record_update`, with which the worker reports on a turn and completes it.
use thought_khoral_room_gate.Prelude.{
  ℕ, ◌+◌, String, Bool, false, ◌&&◌, ◌||◌, not, Option, none, some, List, [], ◌∷◌, ◌++◌, Result, ok,
  err, ensure, ok_or, any, keep, leb, ltb, ◌==◌, str_eq, if◌then◌else◌,
}
use thought_khoral_room_gate.Tx.{Tx, ◌>>=◌, pure, lift}
use thought_khoral_room_gate.Text.{octet_length}
use thought_khoral_room_gate.Json.{
  Value, null, string, json, json_number, json_array, as_str, as_array, value_eq, at,
}
use thought_khoral_room_gate.Env.{Uuid, Instant}
use thought_khoral_room_gate.Store.{NewEvent, RoomEvent}
use thought_khoral_room_gate.Store.Events.{append_event_in_transaction}
use thought_khoral_room_gate.Conversation.{
  ConversationState, TaskState, ConversationRow, TaskRow, UpdateRow, UpdateRequestRow,
  DisclosureRow, ConversationWorld, Crates, in_rooms, seconds, json_uuid,
}
use thought_khoral_room_gate.Conversation.Protocol.{
  ConversationError, codex_agent_id, profile_version, validate_profile_value, invalid_task_input,
  context_mismatch, context_too_large, runtime_unavailable,
}
use thought_khoral_room_gate.Conversation.Policy.{ConversationPolicy}
use thought_khoral_room_gate.Conversation.Authority.{JoinedRow, is_task, is_conversation}
use thought_khoral_room_gate.Conversation.Tasks.{update_tasks, update_conversations}
use thought_khoral_room_gate.Conversation.Citations.{validate_citations, uuid_field}

-- The instants that one call reads, in their order: CURRENT_TIMESTAMP, and `Utc::now()` at the check
-- of the authority, when the update is applied, and at the check before the commit.
pub record Clocks : Type 0 where
  pub current_timestamp : Instant
  pub checked_at : Instant
  pub now : Instant
  pub committed_at : Instant

pub record ConversationUpdateOutcome : Type 0 where
  pub response : Value
  pub event : Option RoomEvent

abbrev is_null : Value → Bool
is_null v = value_eq v null

unfoldable pub optional_json : Value → Option Value
optional_json v = if is_null v then none else some v

abbrev unclear_settings : Option Value → Bool
unclear_settings none = false
unclear_settings (some settings) =
    value_eq (at settings "confirmation") (string "confirmed")
    && (is_null (at settings "model") || is_null (at settings "reasoningEffort"))

abbrev unclear_usage : Option Value → Bool
unclear_usage none = false
unclear_usage (some usage) =
    is_null (at usage "modelContextWindow")
    && not (value_eq (at usage "freshness") (string "unavailable"))

unfoldable pub validate_metadata : Option Value → Option Value → Result ConversationError (Unit {0})
validate_metadata settings usage =
    ensure (not (unclear_settings settings || unclear_usage usage)) invalid_task_input

abbrev pub is_terminal : String → Bool
is_terminal kind = str_eq kind "completed" || str_eq kind "failed"

-- The `match kind` of the metadata.
unfoldable pub metadata_of : String → Value → Result ConversationError (Unit {0})
unfolding validate_metadata optional_json
metadata_of kind content =
    if str_eq kind "settings"
    then validate_metadata (some content) none
    else if str_eq kind "usage"
    then validate_metadata none (some content)
    else if str_eq kind "completed"
    then (validate_metadata (optional_json (at content "effectiveSettings"))
        (optional_json (at content "usage")))
    else ok tt

-- PRIMARY KEY (task_id, update_id) of conversation_update_requests, and UNIQUE (task_id, ordinal).
abbrev pub is_request : Uuid → Uuid → UpdateRequestRow → Bool
is_request task update_id row = row.task_id == task && row.update_id == update_id

abbrev pub same_request : UpdateRequestRow → UpdateRequestRow → Bool
same_request new old =
    old.task_id == new.task_id && (old.update_id == new.update_id || old.ordinal == new.ordinal)

unfoldable pub insert_request : UpdateRequestRow → Tx ConversationWorld ConversationError (Unit {0})
insert_request row w =
    if any (same_request row) w.conversation_update_requests
    then err runtime_unavailable
    else ok
        (tt, record w { conversation_update_requests = w.conversation_update_requests ++ row ∷ [] })

-- `ON CONFLICT (conversation_id, source_id) DO NOTHING`.
abbrev same_disclosure : DisclosureRow → DisclosureRow → Bool
same_disclosure new old =
    old.conversation_id == new.conversation_id && old.source_id == new.source_id

unfoldable pub insert_disclosure : DisclosureRow → Tx ConversationWorld ConversationError (Unit {0})
insert_disclosure row w =
    if any (same_disclosure row) w.conversation_disclosures
    then ok (tt, w)
    else ok (tt, record w { conversation_disclosures = w.conversation_disclosures ++ row ∷ [] })

-- `data->>'phase'`, where it is a text.
abbrev pub phase_is_accepted : Value → Bool
phase_is_accepted content = value_eq (at content "phase") (string "accepted")

-- `kind='progress' AND data->>'phase'='accepted'`.
abbrev pub is_acceptance : Uuid → UpdateRow → Bool
is_acceptance task row =
    row.task_id == task && (str_eq row.kind "progress" && phase_is_accepted row.content)

-- The rows that an update of the kind replaces: the last settings, the last usage, and progress other
-- than the acceptance. A phase that is NULL differs from nothing.
abbrev pub replaced_by : String → Uuid → UpdateRow → Bool
replaced_by kind task row =
    row.task_id == task
    && (str_eq row.kind kind
        && ((str_eq kind "settings" || str_eq kind "usage")
            || (str_eq kind "progress"
                && (not (is_null (at row.content "phase"))
                    && not (phase_is_accepted row.content)))))

unfoldable pub delete_updates :
    (UpdateRow → Bool) → Tx ConversationWorld ConversationError (Unit {0})
delete_updates p w =
    ok (tt, record w { conversation_updates = keep (λ row. not (p row)) w.conversation_updates })

-- `now - time < 1 second`.
abbrev pub recent : Instant → Option Instant → Bool
recent now none = false
recent now (some time) = ltb now (time + seconds 1)

abbrev pub progress_at : Instant → TaskRow → TaskRow
progress_at now task = record task { last_progress_at = some now }

module _ (crates : Crates) (policy : ConversationPolicy) where
  abbrev pub profile : String → Value → Tx ConversationWorld ConversationError (Unit {0})
  profile name value = lift (validate_profile_value crates.is_valid name value)

  abbrev pub digest_of : TaskRow → Value
  digest_of task = at (at task.frozen_input "context") "digest"

  -- What a result must repeat of its turn.
  abbrev pub result_matches : TaskRow → Value → Bool
  result_matches task content =
      value_eq (at content "conversationId") (json_uuid crates.env task.conversation_id)
      && (value_eq (at content "generation") (json_number task.generation)
          && (value_eq (at content "consumedRevision") (json_number task.context_revision)
              && value_eq (at content "contextDigest") (digest_of task)))

  abbrev pub reply_event : TaskRow → Uuid → Value → Instant → NewEvent
  reply_event task room content now = record {
    room_id = room;
    request_id = task.request_id;
    event_type = "message.created";
    actor_id = codex_agent_id;
    actor_role = "agent";
    actor_display_name = some "Codex Agent";
    payload = json (
        ("text", at content "assistantText")
        ∷ (("delivery", string "room")
            ∷ (("mentions", json_array []) ∷ (("audienceIds", json_array []) ∷ []))));
    occurred_at = now;
  }

  abbrev pub acknowledgement_of : TaskRow → Value → String → RoomEvent → Value
  acknowledgement_of task content text reply = json (
      ("profileVersion", string profile_version)
      ∷ (("taskId", json_uuid crates.env task.task_id)
          ∷ (("conversationId", json_uuid crates.env task.conversation_id)
              ∷ (("generation", json_number task.generation)
                  ∷ (("replyEventId", json_uuid crates.env reply.event_id)
                      ∷ (("replySequence", json_number reply.sequence)
                          ∷ (("textDigest", string (crates.sha256_hex text))
                              ∷ (("consumedRevision", json_number task.context_revision)
                                  ∷ (("contextDigest", digest_of task) ∷ [])))))))))

  abbrev pub completed_task : Value → RoomEvent → Value → Instant → TaskRow → TaskRow
  completed_task content reply acknowledgement now task = record task {
    state = TaskState.completed;
    result = some content;
    reply_event_id = some reply.event_id;
    receipt_acknowledgement = some acknowledgement;
    effective_settings = optional_json (at content "effectiveSettings");
    usage = optional_json (at content "usage");
    updated_at = now;
  }

  abbrev pub consumed : ℕ → Instant → ConversationRow → ConversationRow
  consumed revision now row = record row {
    state = ConversationState.ready;
    active_task_id = none;
    consumed_revision = revision;
    updated_at = now;
  }

  abbrev disclosure : TaskRow → Uuid → Uuid → String → DisclosureRow
  disclosure task room source kind = record {
    conversation_id = task.conversation_id;
    room_id = room;
    agent_id = codex_agent_id;
    generation = task.generation;
    source_id = source;
    source_kind = kind;
    first_task_id = task.task_id;
    policy_revision = policy.policy_revision;
    disclosed_revision = task.context_revision;
  }

  -- One round of the loop over the sources; the column `source_kind` takes two texts.
  unfoldable pub disclose_source :
      TaskRow → Uuid → Value → Tx ConversationWorld ConversationError (Unit {0})
  unfolding insert_disclosure uuid_field
  disclose_source task room source = do
    id ← lift (uuid_field crates.env source "sourceId")
    kind ← lift (ok_or (as_str (at source "sourceKind")) runtime_unavailable)
    _ ← lift (ensure (str_eq kind "event" || str_eq kind "decision") runtime_unavailable)
    insert_disclosure (disclosure task room id kind)

  unfoldable pub disclose :
      TaskRow → Uuid → List Value → Tx ConversationWorld ConversationError (Unit {0})
  unfolding disclose_source
  disclose task room [] = pure tt
  disclose task room (source ∷ sources) = do
    _ ← disclose_source task room source
    disclose task room sources

  -- The reply goes to the room, and its acknowledgement to the worker.
  unfoldable pub publish_reply :
      TaskRow → Uuid → Instant → Value → Tx ConversationWorld ConversationError (RoomEvent × Value)
  unfolding validate_profile_value validate_citations append_event_in_transaction
  publish_reply task room now content = do
    _ ← profile "result" content
    _ ← lift (ensure (result_matches task content) context_mismatch)
    text ← lift (ok_or (as_str (at content "assistantText")) invalid_task_input)
    _ ← lift (ensure (leb (octet_length text) 65536) context_too_large)
    _ ← validate_citations crates.env policy task content
    reply ← in_rooms (append_event_in_transaction crates.env (reply_event task room content now))
    _ ← profile "ack" (acknowledgement_of task content text reply)
    pure (reply, acknowledgement_of task content text reply)

  unfoldable pub store_completion :
      TaskRow
      → Instant
      → Value
      → RoomEvent
      → Value
      → Tx ConversationWorld ConversationError (Unit {0})
  unfolding update_tasks update_conversations
  store_completion task now content reply acknowledgement = do
    _ ← update_tasks (is_task task.task_id) (completed_task content reply acknowledgement now)
    update_conversations (is_conversation task.conversation_id) (consumed task.context_revision now)

  unfoldable pub disclose_sources :
      TaskRow
      → Uuid
      → RoomEvent
      → Value
      → Tx ConversationWorld ConversationError ConversationUpdateOutcome
  unfolding disclose
  disclose_sources task room reply acknowledgement = do
    sources ← lift (ok_or (as_array task.source_manifest) context_mismatch)
    _ ← disclose task room sources
    pure (record { response = acknowledgement; event = some reply })

  -- The branch of a "completed" update.
  unfoldable pub complete :
      JoinedRow
      → Uuid
      → Instant
      → Value
      → Tx ConversationWorld ConversationError ConversationUpdateOutcome
  unfolding publish_reply store_completion disclose_sources
  complete row room now content = do
    published ← publish_reply row.task room now content
    _ ← store_completion row.task (crates.env.stored_instant now) content published.0 published.1
    disclose_sources row.task room published.0 published.1

-- ===== src/Conversation/Context.antt =====
-- src/conversation_context.rs: what the agent is shown of a room. Only public messages and decisions of
-- public sources are frozen into the input of a turn.
pub mod Public
use Prim.Native.Char.{Char}
use thought_khoral_room_gate.Prelude.{
  ℕ, ◌+◌, ◌*◌, String, Bool, true, false, ◌&&◌, ◌||◌, not, Option, none, some, List, [], ◌∷◌, ◌++◌,
  Result, ok, err, ◌>>=◌, ensure, ok_or, map_err, any, all, find, keep, map, length, leb, ltb, ◌==◌,
  str_eq, is_some, unwrap_or, if◌then◌else◌,
}
use thought_khoral_room_gate.Text.{octet_length}
use thought_khoral_room_gate.Json.{
  Number, Value, null, string, number, bool, array, object, Items, nil, cons, Fields, end, field,
  json, json_number, json_array, insert, as_str, as_array, value_eq, get, at,
}
use thought_khoral_room_gate.Env.{Uuid, Instant}
use thought_khoral_room_gate.Store.{RoomEvent, DecisionRow}
use thought_khoral_room_gate.Store.Events.{in_room, order_by_sequence}
use thought_khoral_room_gate.Conversation.{TaskState, TaskRow, ConversationWorld, Crates, json_uuid}
use thought_khoral_room_gate.Conversation.Protocol.{
  ConversationError, codex_agent_id, max_safe_integer, validate_profile_value, safe_number,
  context_mismatch, context_too_large, runtime_unavailable,
}
use thought_khoral_room_gate.Conversation.Policy.{ConversationPolicy}
use thought_khoral_room_gate.Conversation.Citations.{is_public, public_source}
use thought_khoral_room_gate.Conversation.Canonical.{canonical}

-- `payload->>'text'`, that is a text in every stored message.
abbrev pub text_of : RoomEvent → Option String
text_of event = as_str (at event.payload "text")

abbrev pub is_message : RoomEvent → Bool
is_message event = str_eq event.event_type "message.created"

-- `room_id=$1 AND sequence>$2 AND sequence<=$3 AND event_type='message.created' AND …`.
abbrev pub is_disclosable : Uuid → ℕ → ℕ → RoomEvent → Bool
is_disclosable room base revision event =
    (in_room room event
      && (ltb base event.sequence && (leb event.sequence revision && is_message event)))
    && is_public event

abbrev is_completed : TaskState → Bool
is_completed TaskState.completed = true
is_completed _ = false

-- The condition of the LEFT JOIN.
abbrev replied_by : Uuid → ℕ → RoomEvent → TaskRow → Bool
replied_by conversation generation event task =
    (elim task.reply_event_id [ none ↦ false | some id ↦ id == event.event_id ])
    && (task.room_id == event.room_id
        && (task.conversation_id == conversation
            && (task.generation == generation && is_completed task.state)))

pub record Row : Type 0 where
  pub event : RoomEvent
  pub source : Option TaskRow

abbrev rows_of : RoomEvent → List TaskRow → List Row
rows_of event [] = (record { event = event; source = none }) ∷ []
rows_of event (task ∷ tasks) = map (λ t. record { event = event; source = some t }) (task ∷ tasks)

pub joined_rows : Uuid → ℕ → List TaskRow → List RoomEvent → List Row
joined_rows conversation generation tasks [] = []
joined_rows conversation generation tasks (event ∷ events) =
    rows_of event (keep (replied_by conversation generation event) tasks)
    ++ joined_rows conversation generation tasks events

abbrev acknowledgement : Row → Option Value
acknowledgement row = elim row.source [ none ↦ none | some task ↦ task.receipt_acknowledgement ]

-- A reply of the agent itself, in a continued conversation, with its acknowledgement.
abbrev pub own_reply : ℕ → Row → Bool
own_reply base row =
    ltb 0 base
    && (row.event.actor_id == codex_agent_id
        && (str_eq row.event.actor_role "agent" && is_some (acknowledgement row)))

abbrev text_octets : Option String → ℕ
text_octets none = 0
text_octets (some text) = octet_length text

abbrev row_bytes : ℕ → Row → ℕ
row_bytes base row = if own_reply base row then 0 else (elim (text_of row.event) [
  | none ↦ 0
  | some text ↦ octet_length text + text_octets row.event.actor_display_name
])

pub total_bytes : ℕ → List Row → ℕ
total_bytes base [] = 0
total_bytes base (row ∷ rows) = row_bytes base row + total_bytes base rows

abbrev oversized_reply : ℕ → Row → Bool
oversized_reply base row = own_reply base row && ltb 65536 (text_octets (text_of row.event))

pub record Frozen : Type 0 where
  pub entries : List Value
  pub bindings : List Value

-- `ORDER BY d.decision_id`.
insert_decision : DecisionRow → List DecisionRow → List DecisionRow
insert_decision d [] = d ∷ []
insert_decision d (first ∷ rest) =
    let later = insert_decision d rest in
    if leb d.decision_id first.decision_id then d ∷ (first ∷ rest) else first ∷ later

pub order_decisions : List DecisionRow → List DecisionRow
unfolding insert_decision
order_decisions [] = []
order_decisions (d ∷ ds) = insert_decision d (order_decisions ds)

-- The query DECISIONS.
pub disclosable_decisions : List RoomEvent → Uuid → ℕ → List DecisionRow → List DecisionRow
disclosable_decisions events room revision = keep (λ d.
    d.room_id == room
    && (str_eq d.status "active"
        && all (public_source (keep (λ e. leb e.sequence revision) events) d.room_id)
            d.source_event_ids))

pub decision_bytes : List DecisionRow → ℕ
decision_bytes [] = 0
decision_bytes (d ∷ ds) =
    (octet_length d.title + octet_length d.summary + length d.source_event_ids * 39 + 80)
    + decision_bytes ds

module _ (crates : Crates) where
  abbrev uuid : Uuid → Value
  uuid id = json_uuid crates.env id

  -- What an acknowledgement must say of its reply.
  abbrev binds : Uuid → ℕ → ℕ → RoomEvent → TaskRow → String → String → Value → Bool
  binds conversation generation base event task text_digest digest ack =
      value_eq (at ack "taskId") (uuid task.task_id)
      && (value_eq (at ack "conversationId") (uuid conversation)
          && (value_eq (at ack "generation") (json_number generation)
              && (value_eq (at ack "replyEventId") (uuid event.event_id)
                  && (value_eq (at ack "replySequence") (json_number event.sequence)
                      && (value_eq (at ack "textDigest") (string text_digest)
                          && (value_eq (at ack "consumedRevision")
                                (json_number task.context_revision)
                              && (leb task.context_revision base
                                  && value_eq (at ack "contextDigest") (string digest))))))))

  abbrev binding_of : ℕ → RoomEvent → TaskRow → String → Value
  binding_of generation event task text_digest = json (
      ("eventId", uuid event.event_id)
      ∷ (("sequence", json_number event.sequence)
          ∷ (("sourceTaskId", uuid task.task_id)
              ∷ (("generation", json_number generation)
                  ∷ (("textDigest", string text_digest) ∷ [])))))

  bind_reply : Uuid → ℕ → ℕ → RoomEvent → TaskRow → String → Value → Result ConversationError Value
  unfolding validate_profile_value
  bind_reply conversation generation base event task text ack = do
    _ ← map_err (λ _. context_mismatch) (validate_profile_value crates.is_valid "ack" ack)
    digest ← ok_or (as_str (at (at task.frozen_input "context") "digest")) runtime_unavailable
    _ ←
        ensure (binds conversation generation base event task (crates.sha256_hex text) digest ack)
          context_mismatch
    ok (binding_of generation event task (crates.sha256_hex text))

  abbrev named_entry : Option String → List (String × Value) → List (String × Value)
  named_entry none fields = fields
  named_entry (some name) fields = ("displayName", string name) ∷ fields

  abbrev pub entry_of : RoomEvent → String → Value
  entry_of event text = json (
      named_entry event.actor_display_name (
        ("eventId", uuid event.event_id)
        ∷ (("sequence", json_number event.sequence)
            ∷ (("authorId", uuid event.actor_id)
                ∷ (("authorRole", string event.actor_role)
                    ∷ (("occurredAt", string (crates.env.instant_to_string event.occurred_at))
                        ∷ (("text", string text) ∷ [])))))))

  abbrev not_empty : String → Bool
  not_empty text = ltb 0 (octet_length text)

  -- One round of the loop over the rows.
  pub freeze_row : Uuid → ℕ → ℕ → Row → Frozen → Result ConversationError Frozen
  unfolding bind_reply
  freeze_row conversation generation base row frozen = do
    text ← ok_or (text_of row.event) context_mismatch
    _ ← ensure (not_empty text) context_mismatch
    let entry = record frozen { entries = frozen.entries ++ entry_of row.event text ∷ [] }
    elim row.source [
      | none ↦ ok entry
      | some task ↦ elim task.receipt_acknowledgement [
        | none ↦ ok entry
        | some ack ↦
            if own_reply base row
            then (do
              binding ← bind_reply conversation generation base row.event task text ack
              ok (record frozen { bindings = frozen.bindings ++ binding ∷ [] }))
            else ok entry
      ]
    ]

  pub freeze_rows : Uuid → ℕ → ℕ → List Row → Frozen → Result ConversationError Frozen
  unfolding freeze_row
  freeze_rows conversation generation base [] frozen = ok frozen
  freeze_rows conversation generation base (row ∷ rows) frozen =
      freeze_row conversation generation base row frozen
      >>= freeze_rows conversation generation base rows

  abbrev active_of : DecisionRow → Value
  active_of d = json (
      ("decisionId", uuid d.decision_id)
      ∷ (("title", string d.title)
          ∷ (("summary", string d.summary)
              ∷ (("sourceEventIds", json_array (map uuid d.source_event_ids)) ∷ []))))

  abbrev context_of : ConversationPolicy → ℕ → ℕ → Frozen → List DecisionRow → Value
  context_of policy base revision frozen decisions = json (
      ("kind", string (if base == 0 then "baseline" else "delta"))
      ∷ (("baseRevision", json_number base)
          ∷ (("revision", json_number revision)
              ∷ (("policyRevision", string policy.policy_revision)
                  ∷ (("entries", json_array frozen.entries)
                      ∷ (("activeDecisions", json_array (map active_of decisions))
                          ∷ (("nativeReplyBindings", json_array frozen.bindings) ∷ [])))))))

  unfoldable pub freeze_context :
      ConversationWorld
      → Uuid
      → Uuid
      → ℕ
      → ℕ
      → ℕ
      → ConversationPolicy
      → Result ConversationError Value
  unfolding joined_rows total_bytes freeze_rows disclosable_decisions decision_bytes order_decisions
      order_by_sequence
  freeze_context w room conversation generation base revision policy = do
    let events = order_by_sequence (keep (is_disclosable room base revision) w.rooms.room_events)
    let rows = joined_rows conversation generation w.conversation_tasks events
    _ ← ensure (not (any (oversized_reply base) rows)) context_mismatch
    _ ←
        ensure
          (leb (length rows) policy.max_records
            && leb (total_bytes base rows) policy.max_context_bytes)
          context_too_large
    frozen ← freeze_rows conversation generation base rows (record { entries = []; bindings = [] })
    let decisions = disclosable_decisions w.rooms.room_events room revision w.rooms.decisions
    _ ← ensure (leb (decision_bytes decisions) policy.max_context_bytes) context_too_large
    ok (context_of policy base revision frozen (order_decisions decisions))

  -- The message that starts the turn: a human's, to the whole room.
  abbrev pub is_trigger : Uuid → Uuid → RoomEvent → Bool
  is_trigger trigger room event =
      (event.event_id == trigger && in_room room event)
      && (is_message event
          && (str_eq event.actor_role "human"
              && (value_eq (at event.payload "delivery") (string "room")
                  && value_eq (at event.payload "audienceIds") (json_array []))))

  abbrev preimage_of : Uuid → Uuid → ℕ → Uuid → ConversationPolicy → Value → Value
  preimage_of room conversation generation trigger policy context = json (
      ("roomId", uuid room)
      ∷ (("agentId", uuid codex_agent_id)
          ∷ (("conversationId", uuid conversation)
              ∷ (("generation", json_number generation)
                  ∷ (("triggerEventId", uuid trigger)
                      ∷ (("guidanceRevision", string policy.guidance_revision)
                          ∷ (("context", context) ∷ [])))))))

  abbrev with_digest : String → Value → Value
  with_digest digest (object fs) = object (insert "digest" (string digest) fs)
  with_digest digest other = other

  unfoldable pub build_context :
      ConversationWorld
      → Uuid
      → Uuid
      → ℕ
      → ℕ
      → Uuid
      → ConversationPolicy
      → Result ConversationError Value
  unfolding freeze_context canonical
  build_context w room conversation generation base trigger policy = do
    event ← ok_or (find (is_trigger trigger room) w.rooms.room_events) context_mismatch
    let revision = event.sequence
    _ ←
        ensure
          (ltb base revision
            && (ltb 0 generation
                && (leb generation max_safe_integer && leb revision max_safe_integer)))
          context_mismatch
    context ← freeze_context w room conversation generation base revision policy
    sorted ← canonical (preimage_of room conversation generation trigger policy context)
    let bytes = crates.to_json sorted
    _ ← ensure (leb (octet_length bytes) policy.max_context_bytes) context_too_large
    ok (with_digest (crates.sha256_hex bytes) context)

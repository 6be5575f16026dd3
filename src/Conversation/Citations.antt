-- ===== src/Conversation/Citations.antt =====
-- src/conversation_store.rs: `validate_citations` and `uuid_field`. A reply may cite what its turn was
-- shown, or what its conversation was shown before under the same policy, while it is public.
use thought_khoral_room_gate.Prelude.{
  String, Bool, true, ◌&&◌, ◌||◌, none, some, List, [], ◌∷◌, ◌++◌, Result, ok, err, ◌>>=◌, ensure,
  ok_or, any, all, find, keep, map, ◌==◌, str_eq, if◌then◌else◌,
}
use thought_khoral_room_gate.Json.{
  Value, null, string, json, json_array, as_str, as_array, value_eq, get, at,
}
use thought_khoral_room_gate.Env.{Uuid, Env}
use thought_khoral_room_gate.Store.{RoomEvent, DecisionRow}
use thought_khoral_room_gate.Tx.{Tx}
use thought_khoral_room_gate.Conversation.{TaskRow, DisclosureRow, ConversationWorld, json_uuid}
use thought_khoral_room_gate.Conversation.Protocol.{
  ConversationError, invalid_task_input, forbidden, context_mismatch,
}
use thought_khoral_room_gate.Conversation.Policy.{ConversationPolicy}

unfoldable pub uuid_field : Env → Value → String → Result ConversationError Uuid
uuid_field env value key = elim (as_str (at value key)) [
  | none ↦ err invalid_task_input
  | some text ↦ ok_or (env.uuid_parse text) invalid_task_input
]

-- `payload->>'delivery' IS NULL OR payload->>'delivery'='room'`.
abbrev delivered_to_room : Value → Bool
delivered_to_room payload =
    value_eq (at payload "delivery") null || value_eq (at payload "delivery") (string "room")

-- `payload->'audienceIds' IS NULL OR payload->'audienceIds'='[]'::jsonb`: a JSON null is not NULL.
abbrev without_audience : Value → Bool
without_audience payload = elim (get payload "audienceIds") [
  | none ↦ true
  | some audience ↦ value_eq audience (json_array [])
]

-- A record that may be shown to the agent.
unfoldable pub is_public : RoomEvent → Bool
is_public event = delivered_to_room event.payload && without_audience event.payload

-- A source event of a decision, in the decision's room, that is public.
abbrev pub public_source : List RoomEvent → Uuid → Uuid → Bool
public_source events room id =
    any (λ e. e.event_id == id && (e.room_id == room && is_public e)) events

abbrev visible_event : List RoomEvent → Uuid → Uuid → Bool
visible_event events room id = public_source events room id

abbrev visible_decision : List RoomEvent → List DecisionRow → Uuid → Uuid → Bool
visible_decision events decisions room id =
    any
      (λ d.
        d.decision_id == id
        && (d.room_id == room && all (public_source events d.room_id) d.source_event_ids))
      decisions

module _ (env : Env) where
  unfoldable pub cited_ids : List Value → Result ConversationError (List Uuid)
  cited_ids [] = ok []
  cited_ids (citation ∷ citations) = do
    text ← ok_or (as_str citation) invalid_task_input
    id ← ok_or (env.uuid_parse text) invalid_task_input
    rest ← cited_ids citations
    ok (id ∷ rest)

  abbrev source_of : DisclosureRow → Value
  source_of row =
      json
        (("sourceId", json_uuid env row.source_id) ∷ (("sourceKind", string row.source_kind) ∷ []))

  -- `conversation_id=$1 AND policy_revision=$2 AND source_id=ANY($3)`.
  abbrev disclosed : ConversationPolicy → TaskRow → List Uuid → DisclosureRow → Bool
  disclosed policy task ids row =
      row.conversation_id == task.conversation_id
      && (str_eq row.policy_revision policy.policy_revision && any (λ id. row.source_id == id) ids)

  -- One round of the loop over the citations.
  unfoldable pub citation_is_visible :
      ConversationWorld → TaskRow → List Value → Value → Result ConversationError (Unit {0})
  unfolding uuid_field is_public
  citation_is_visible w task sources citation = do
    source ← ok_or (find (λ s. value_eq (at s "sourceId") citation) sources) forbidden
    id ← uuid_field env source "sourceId"
    ensure
        (if value_eq (at source "sourceKind") (string "event")
          then visible_event w.rooms.room_events task.room_id id
          else visible_decision w.rooms.room_events w.rooms.decisions task.room_id id)
        forbidden

  unfoldable pub citations_are_visible :
      ConversationWorld → TaskRow → List Value → List Value → Result ConversationError (Unit {0})
  unfolding citation_is_visible
  citations_are_visible w task sources [] = ok tt
  citations_are_visible w task sources (citation ∷ citations) = do
    _ ← citation_is_visible w task sources citation
    citations_are_visible w task sources citations

  unfoldable pub check_citations :
      ConversationPolicy → ConversationWorld → TaskRow → Value → Result ConversationError (Unit {0})
  unfolding cited_ids citations_are_visible
  check_citations policy w task reply = do
    sources ← ok_or (as_array task.source_manifest) context_mismatch
    citations ← ok_or (as_array (at reply "citations")) invalid_task_input
    ids ← cited_ids citations
    let earlier = map source_of (keep (disclosed policy task ids) w.conversation_disclosures)
    citations_are_visible w task (sources ++ earlier) citations

  -- It reads only.
  unfoldable pub validate_citations :
      ConversationPolicy → TaskRow → Value → Tx ConversationWorld ConversationError (Unit {0})
  unfolding check_citations
  validate_citations policy task reply w = elim (check_citations policy w task reply) [
    | ok _ ↦ ok (tt, w)
    | err e ↦ err e
  ]

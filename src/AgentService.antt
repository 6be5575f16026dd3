-- ===== src/AgentService.antt =====
-- src/agent_service.rs: what an agent is shown of a room, and what it may cite.
pub mod Standing
pub mod Citations
use thought_khoral_room_gate.Prelude.{
  ℕ, ◌-◌, String, Bool, true, false, ◌&&◌, ◌||◌, Option, none, some, List, [], ◌∷◌, ◌++◌, map, any,
  all, keep, ltb, leb, ◌==◌, str_eq, unwrap_or, find, if◌then◌else◌,
}
use thought_khoral_room_gate.Json.{Value, get, as_str, as_array, string, json, json_number}
use thought_khoral_room_gate.Env.{Uuid, Instant, Env}
use thought_khoral_room_gate.Protocol.{AgentSkillId}
use thought_khoral_room_gate.Protocol.Validity.{and_then, uuid_value, instant_value}
use thought_khoral_room_gate.Store.{RoomEvent, TaskRow, World}
use thought_khoral_room_gate.Store.Leases.{
  AgentTaskRecord, AgentTaskLease, AgentTaskContext, agent_task_lease_duration,
}
use thought_khoral_room_gate.Rooms.Visibility.{event_visible_to}

pub record NormalizedAgentTaskUpdate : Type 0 where
  pub event_type : String
  pub payload : Value
  pub occurred_at : Instant

pub record ActiveDecision : Type 0 where
  pub decision_id : Uuid
  pub title : String
  pub summary : String
  pub source_event_ids : List Uuid

pub record CanonicalRoomContextPacket : Type 0 where
  pub task_id : Uuid
  pub room_id : Uuid
  pub requester_id : Uuid
  pub agent_id : Uuid
  pub skill_id : AgentSkillId
  pub context_revision : ℕ
  pub issued_at : Instant
  pub expires_at : Instant
  pub input : String
  pub events : List Value
  pub active_decisions : List ActiveDecision

pub record RoomContextPacket : Type 0 where
  pub canonical : CanonicalRoomContextPacket
  pub open canonical use *
  pub canonical_sha256 : String

-- `BTreeMap` by identifier: ascending, each identifier once.
unfoldable pub insert_decision : ActiveDecision → List ActiveDecision → List ActiveDecision
insert_decision new [] = new ∷ []
insert_decision new (d ∷ ds) =
    let later = insert_decision new ds in
    if d.decision_id == new.decision_id
    then new ∷ ds
    else if ltb d.decision_id new.decision_id
    then d ∷ later
    else new ∷ (d ∷ ds)

unfoldable pub remove_decision : Uuid → List ActiveDecision → List ActiveDecision
remove_decision id [] = []
remove_decision id (d ∷ ds) =
    let later = remove_decision id ds in if d.decision_id == id then later else d ∷ later

-- `Iterator::filter_map`.
abbrev pub filter_map : {A B : Type 0} → (A → Option B) → List A → List B
filter_map f [] = []
filter_map f (a ∷ rest) = elim (f a) [ none ↦ filter_map f rest | some b ↦ b ∷ filter_map f rest ]

module _ (env : Env) where
  abbrev pub uuid_of : Value → Option Uuid
  uuid_of value = and_then (as_str value) env.uuid_parse

  abbrev source_ids : Value → List Uuid
  source_ids payload = elim (and_then (get payload "sourceEventIds") as_array) [
    | none ↦ []
    | some ids ↦ filter_map uuid_of ids
  ]

  abbrev is_text : Option String → String → Bool
  is_text none expected = false
  is_text (some found) expected = str_eq found expected

  -- The arm `"decision.confirmed"`: none where the loop goes on without a change.
  abbrev pub confirmed_decision : Uuid → Value → Option ActiveDecision
  confirmed_decision id payload =
      if is_text (and_then (get payload "status") as_str) "active"
      then and_then (and_then (get payload "title") as_str) (λ title.
        and_then (and_then (get payload "summary") as_str) (λ summary. some (record {
          decision_id = id;
          title = title;
          summary = summary;
          source_event_ids = source_ids payload;
        })))
      else none

  abbrev pub removes : String → Bool
  removes event_type =
      str_eq event_type "decision.dismissed"
      || (str_eq event_type "decision.deleted" || str_eq event_type "decision.edited")

  -- One turn of the loop.
  unfoldable pub apply_event : RoomEvent → List ActiveDecision → List ActiveDecision
  unfolding insert_decision remove_decision
  apply_event event decisions = elim (and_then (get event.payload "decisionId") uuid_of) [
    | none ↦ decisions
    | some id ↦
        let inserted : List ActiveDecision = elim (confirmed_decision id event.payload) [
          | none ↦ decisions
          | some d ↦ insert_decision d decisions
        ] in
        if str_eq event.event_type "decision.confirmed"
        then inserted
        else if removes event.event_type
        then remove_decision id decisions
        else decisions
  ]

  abbrev pub apply_events : List RoomEvent → List ActiveDecision → List ActiveDecision
  apply_events [] decisions = decisions
  apply_events (event ∷ events) decisions = apply_events events (apply_event event decisions)

  abbrev pub active_decisions : List RoomEvent → List ActiveDecision
  active_decisions events = apply_events events []

  -- `RoomEvent::to_wire_value`.
  abbrev pub to_wire_value : RoomEvent → Value
  to_wire_value event =
      let actor = ("id", uuid_value env event.actor_id) ∷ ("role", string event.actor_role) ∷ [] in
      let named : List (String × Value) = elim event.actor_display_name [
        | none ↦ actor
        | some name ↦ actor ++ ("displayName", string name) ∷ []
      ] in
      json (
        ("contractVersion", string "n2n.room.v1")
        ∷ ("requestId", uuid_value env event.request_id)
        ∷ ("roomId", uuid_value env event.room_id)
        ∷ ("occurredAt", instant_value env event.occurred_at)
        ∷ ("sequence", json_number event.sequence)
        ∷ ("eventId", uuid_value env event.event_id)
        ∷ ("eventType", string event.event_type)
        ∷ ("actor", json named)
        ∷ ("payload", event.payload)
        ∷ [])

  -- `sha256` is the digest of the serialized packet.
  unfoldable pub context_packet :
      (CanonicalRoomContextPacket → String) → AgentTaskContext → AgentTaskLease → RoomContextPacket
  context_packet sha256 context lease =
      let visible_events =
        keep (λ event. event_visible_to env event context.task.requester_id) context.events in
      let canonical : CanonicalRoomContextPacket = record {
        task_id = context.task.task_id;
        room_id = context.task.room_id;
        requester_id = context.task.requester_id;
        agent_id = context.task.agent_id;
        skill_id = context.task.skill_id;
        context_revision = context.task.context_revision;
        issued_at = lease.expires_at - agent_task_lease_duration;
        expires_at = lease.expires_at;
        input = context.task.input;
        events = map to_wire_value visible_events;
        active_decisions = active_decisions visible_events;
      } in
      record { canonical = canonical; canonical_sha256 = sha256 canonical }

  abbrev pub visible_ids : RoomContextPacket → List Uuid
  visible_ids packet =
      filter_map (λ event. and_then (get event "eventId") uuid_of) packet.events
      ++ map (λ decision. decision.decision_id) packet.active_decisions

  abbrev pub is_visible_citation : RoomContextPacket → Value → Bool
  is_visible_citation packet citation = elim (uuid_of citation) [
    | none ↦ false
    | some id ↦ any (λ visible. visible == id) (visible_ids packet)
  ]

  unfoldable pub terminal_citations_are_visible :
      RoomContextPacket → NormalizedAgentTaskUpdate → Bool
  terminal_citations_are_visible packet update =
      let checked : Bool =
        elim (and_then (get update.payload "result") (λ result. get result "citations")) [
          | none ↦ true
          | some citations ↦ elim (as_array citations) [
            | none ↦ false
            | some listed ↦ all (is_visible_citation packet) listed
          ]
        ] in
      if str_eq update.event_type "agent.task.succeeded" then checked else true

-- ===== src/Facilitator.antt =====
-- src/facilitator.rs: a draft of the memory engine becomes a proposal of the facilitator.
pub mod Acceptance
use thought_khoral_room_gate.Prelude.{
  ℕ, String, Bool, true, false, Option, none, some, List, [], ◌∷◌, Result, ok, err, any, ◌==◌,
  if◌then◌else◌,
}
use thought_khoral_room_gate.Text.{chars, trim, is_empty}
use thought_khoral_room_gate.Env.{Uuid}
use thought_khoral_room_gate.Store.{RoomEvent}

-- Uuid::from_u128(0x6e326e00_0000_0000_0000_000000000001).
abbrev facilitator_actor_id : Uuid
facilitator_actor_id = 0x6e326e00000000000000000000000001

pub record NewDecisionProposal : Type 0 where
  pub title : String
  pub summary : String
  pub source_event_ids : List Uuid
  pub actor_id : Uuid
  pub actor_role : String
  pub actor_display_name : String

pub record MemoryEngineDraftProposal : Type 0 where
  pub room_id : Uuid
  pub title : String
  pub summary : String
  pub source_event_ids : List Uuid

pub data MemoryProposalValidationError : Type 0 where
  empty_room empty_title empty_summary source_event_from_another_room :
      MemoryProposalValidationError
  missing_source_event duplicate_source_event : Uuid → MemoryProposalValidationError

-- The map that the events are collected into: the last event with an identifier stays.
unfoldable pub event_of : Uuid → List RoomEvent → Option RoomEvent
event_of id [] = none
event_of id (event ∷ events) = elim (event_of id events) [
  | some later ↦ some later
  | none ↦ if event.event_id == id then some event else none
]

-- `for event_id in &candidate.source_event_ids`.
unfoldable pub check_sources :
    Uuid → List RoomEvent → List Uuid → List Uuid → Result MemoryProposalValidationError (Unit {0})
unfolding event_of
check_sources room_id events seen [] = ok tt
check_sources room_id events seen (id ∷ ids) =
    let rest = check_sources room_id events (id ∷ seen) ids in
    let found : Result MemoryProposalValidationError (Unit {0}) = elim (event_of id events) [
      | none ↦ err (missing_source_event id)
      | some event ↦ if event.room_id == room_id then rest else err source_event_from_another_room
    ] in
    if any (λ other. other == id) seen then err (duplicate_source_event id) else found

abbrev pub is_blank : String → Bool
is_blank text = is_empty (trim (chars text))

abbrev pub has_none : List Uuid → Bool
has_none [] = true
has_none (_ ∷ _) = false

abbrev pub proposal_of : MemoryEngineDraftProposal → NewDecisionProposal
proposal_of candidate = record {
  title = candidate.title;
  summary = candidate.summary;
  source_event_ids = candidate.source_event_ids;
  actor_id = facilitator_actor_id;
  actor_role = "agent";
  actor_display_name = "ThoughtKhoral Facilitator";
}

unfoldable pub validate_memory_engine_proposal :
    MemoryEngineDraftProposal
    → List RoomEvent
    → Result MemoryProposalValidationError NewDecisionProposal
unfolding check_sources trim
validate_memory_engine_proposal candidate source_events =
    let checked : Result MemoryProposalValidationError NewDecisionProposal =
      elim (check_sources candidate.room_id source_events [] candidate.source_event_ids) [
        | err e ↦ err e
        | ok _ ↦ ok (proposal_of candidate)
      ] in
    if candidate.room_id == 0
    then err empty_room
    else if is_blank candidate.title
    then err empty_title
    else if is_blank candidate.summary
    then err empty_summary
    else if has_none candidate.source_event_ids
    then err (missing_source_event 0)
    else checked

-- ===== src/Facilitator/Acceptance.antt =====
-- src/facilitator.rs: which drafts are accepted.
use thought_khoral_room_gate.Prelude.{
  ◌≡◌, refl, Bool, true, false, not, ◌&&◌, none, some, List, [], ◌∷◌, Result, ok, err, arith, any,
  all, ◌==◌, Option-cases, inl, inr, Result-cases,
}
use thought_khoral_room_gate.Env.{Uuid}
use thought_khoral_room_gate.Store.{RoomEvent}
use thought_khoral_room_gate.Facilitator.{
  MemoryEngineDraftProposal, event_of, check_sources, is_blank, has_none, proposal_of,
  validate_memory_engine_proposal,
}

-- The identifiers are pairwise different.
abbrev pub are_distinct : List Uuid → Bool
are_distinct [] = true
are_distinct (id ∷ ids) = not (any (λ other. other == id) ids) && are_distinct ids

-- The event with the identifier is known, and of the room.
abbrev pub is_source : Uuid → List RoomEvent → Uuid → Bool
is_source room_id events id = elim (event_of id events) [
  | none ↦ false
  | some event ↦ event.room_id == room_id
]

abbrev pub is_acceptable : MemoryEngineDraftProposal → List RoomEvent → Bool
is_acceptable candidate events =
    not (candidate.room_id == 0)
    && (not (is_blank candidate.title)
        && (not (is_blank candidate.summary)
            && (not (has_none candidate.source_event_ids)
                && (are_distinct candidate.source_event_ids
                    && all (is_source candidate.room_id events) candidate.source_event_ids))))

abbrev pub is_ok : {E A : Type 0} → Result E A → Bool
is_ok (ok _) = true
is_ok (err _) = false

-- None of the identifiers was seen.
abbrev are_new : List Uuid → List Uuid → Bool
are_new seen ids = all (λ id. not (any (λ other. other == id) seen)) ids

are_new-cons :
    (id : Uuid) (seen ids : List Uuid)
    → are_new (id ∷ seen) ids ≡ (not (any (λ other. other == id) ids) && are_new seen ids)
are_new-cons id seen [] = refl
are_new-cons id seen (other ∷ ids) = ground (arith, are_new-cons id seen ids)

check_sources-is_ok :
    (room_id : Uuid) (events : List RoomEvent) (seen ids : List Uuid)
    → is_ok (check_sources room_id events seen ids)
      ≡ (are_new seen ids && (are_distinct ids && all (is_source room_id events) ids))
unfolding check_sources
check_sources-is_ok room_id events seen [] = refl
check_sources-is_ok room_id events seen (id ∷ ids) =
    let rest = check_sources-is_ok room_id events (id ∷ seen) ids in
    elim (Option-cases (event_of id events)) [
      | inl e ↦ ground (arith, e)
      | inr (event, e) ↦ ground (arith, e, rest, are_new-cons id seen ids)
    ]

are_new-nil : (ids : List Uuid) → are_new [] ids ≡ true
are_new-nil [] = refl
are_new-nil (id ∷ ids) = ground (arith, are_new-nil ids)

-- A draft is accepted exactly if its room is not nil, its title and its summary are not blank, and it
-- names at least one source event, each once, all of them known and of its room; what is accepted
-- becomes the facilitator's proposal with the same title, summary and sources.
pub validate_memory_engine_proposal_lem :
    (candidate : MemoryEngineDraftProposal) (events : List RoomEvent)
    → (is_ok (validate_memory_engine_proposal candidate events) ≡ is_acceptable candidate events)
      × (is_acceptable candidate events ≡ true
          → validate_memory_engine_proposal candidate events ≡ ok (proposal_of candidate))
unfolding validate_memory_engine_proposal
validate_memory_engine_proposal_lem candidate events =
    let sources = check_sources-is_ok candidate.room_id events [] candidate.source_event_ids in
    let new = are_new-nil candidate.source_event_ids in
    elim (Result-cases (check_sources candidate.room_id events [] candidate.source_event_ids)) [
      | inl (u, e) ↦ (ground (arith, sources, new, e), λ h. ground (arith, sources, new, e, h))
      | inr (bad, e) ↦ (ground (arith, sources, new, e), λ h. ground (arith, sources, new, e, h))
    ]

-- ===== src/Conversation/Requests.antt =====
-- src/conversation_service.rs: a report that a worker sends again.
use thought_khoral_room_gate.Prelude.{
  ℕ, ◌≡◌, refl, Option, none, ◌⊎◌, ok, arith, Result-cases, inl, inr, String, List,
}
use thought_khoral_room_gate.Json.{Value}
use thought_khoral_room_gate.Env.{Uuid}
use thought_khoral_room_gate.Store.{RoomEvent}
use thought_khoral_room_gate.Conversation.{ConversationWorld, Crates}
use thought_khoral_room_gate.Conversation.Protocol.{
  ConversationError, invalid_task_input, forbidden, runtime_unavailable, authentication_required,
  session_unavailable, timeout, conversation_interrupted, conversation_busy, conversation_stale,
  context_mismatch, context_too_large, execution_failed, duplicate_conflict,
}
use thought_khoral_room_gate.Conversation.Policy.{ConversationPolicy}
use thought_khoral_room_gate.Conversation.Updates.{Clocks, ConversationUpdateOutcome}
use thought_khoral_room_gate.Conversation.Reports.{record_update}
use thought_khoral_room_gate.Conversation.Repeats.{report_retry}
use thought_khoral_room_gate.Conversation.Service.{
  Request, status_of, profile_error, success, read_update, update,
}

error_status : (e : ConversationError) → status_of e ≡ 200 → ⊥
error_status invalid_task_input h = absurd (omega arith)
error_status authentication_required h = absurd (omega arith)
error_status forbidden h = absurd (omega arith)
error_status session_unavailable h = absurd (omega arith)
error_status context_too_large h = absurd (omega arith)
error_status runtime_unavailable h = absurd (omega arith)
error_status timeout h = absurd (omega arith)
error_status conversation_interrupted h = absurd (omega arith)
error_status conversation_busy h = absurd (omega arith)
error_status conversation_stale h = absurd (omega arith)
error_status context_mismatch h = absurd (omega arith)
error_status execution_failed h = absurd (omega arith)
error_status duplicate_conflict h = absurd (omega arith)

module _ (crates : Crates) (policy : ConversationPolicy) (parse : List ℕ → Option Value) where
  -- An answer of 200 is that of a report which succeeded.
  update_succeeded :
      (clocks : Clocks) (task : String) (request : Request) (w w' : ConversationWorld)
      (value : Value) (event : Option RoomEvent)
      → update crates policy parse clocks task request w ≡ (w', (success value, event))
      → (id : Uuid) × (token : Uuid) × (report : Value) × (outcome : ConversationUpdateOutcome)
        × (read_update crates policy parse task request ≡ ok (id, token, report))
        × (record_update crates policy id token clocks report w ≡ (w', ok outcome))
        × (outcome.response ≡ value)
  unfolding update
  update_succeeded clocks task request w w' value event h =
      elim (Result-cases (read_update crates policy parse task request)) [
        | inr (e, refused) ↦ absurd (error_status e (ground arith))
        | inl ((id, token, report), read) ↦
            elim (Result-cases (record_update crates policy id token clocks report w).1) [
              | inr (e, failed) ↦ absurd (error_status e (ground arith))
              | inl (outcome, done) ↦ (id, token, report, outcome, read, ground arith, ground arith)
            ]
      ]

-- A worker that sends a report again, after it was answered with 200: nothing changes, no event is
-- published, and the answer is the same or an error.
pub update_again :
    (crates : Crates) (policy policy' : ConversationPolicy) (parse : List ℕ → Option Value)
    (clocks clocks' : Clocks) (task : String) (request : Request) (w w' : ConversationWorld)
    (value : Value) (event : Option RoomEvent)
    → update crates policy parse clocks task request w ≡ (w', (success value, event))
    → (update crates policy' parse clocks' task request w' ≡ (w', (success value, none)))
      ⊎ ((e : ConversationError) × (update crates policy' parse clocks' task request w'
            ≡ (w', (profile_error e, none))))
unfolding update
update_again crates policy policy' parse clocks clocks' task request w w' value event h =
    let (id, token, report, outcome, read, done, answer) =
      update_succeeded crates policy parse clocks task request w w' value event h in
    let read' : read_update crates policy' parse task request ≡ ok (id, token, report) = read in
    elim (report_retry crates policy policy' id token token clocks clocks' report report w w'
      outcome refl done) [
        | inl again ↦ inl (rw (update, read', again, answer) refl)
        | inr (e, refused) ↦ inr (e, rw (update, read', refused) refl)
      ]

-- ===== src/Examples/Retries.antt =====
-- Tests of the claims, reports and reservations that come again or too late.
use thought_khoral_room_gate.Prelude.{
  arith, ℕ, suc, ◌<◌, ◌≡◌, refl, none, [], ◌∷◌, Result, ok, err, ◌⊎◌, count, find,
}
use thought_khoral_room_gate.Text.{octet_length}
use thought_khoral_room_gate.Protocol.Validity.{is_valid_room_event}
use thought_khoral_room_gate.Conversation.Citations.{uuid_field, is_public}
use thought_khoral_room_gate.Json.{Value, value_eq, string, json, json_number}
use thought_khoral_room_gate.Env.{Instant}
use thought_khoral_room_gate.Conversation.{ConversationWorld, seconds}
use thought_khoral_room_gate.Conversation.Protocol.{profile_version, ConversationError, timeout}
use thought_khoral_room_gate.Conversation.Policy.{ConversationPolicy}
use thought_khoral_room_gate.Conversation.Claims.{claim, Times, is_candidate}
use thought_khoral_room_gate.Conversation.Mentions.{authorize_conversation_turn, admit}
use thought_khoral_room_gate.Conversation.Reserve.{Moments, minimum}
use thought_khoral_room_gate.Store.Events.{is_request}
use thought_khoral_room_gate.Conversation.Reservation.{reserve_inner}
use thought_khoral_room_gate.Conversation.Invariant.Closing.{open_turns}
use thought_khoral_room_gate.Conversation.Updates.{Clocks, ConversationUpdateOutcome}
use thought_khoral_room_gate.Conversation.Reports.{record_update}
use thought_khoral_room_gate.Conversation.Refusals.{report as refused_report, refused_calls}
use thought_khoral_room_gate.Conversation.Retry.{answer_in, reserve_retry}
use thought_khoral_room_gate.Conversation.Rounds.{claim_rounds_suffice}
use thought_khoral_room_gate.Examples.Conversations.{
  crates, mode_law, policy, actor, request, moments, before, answer_of, reserving_run,
  reserved_world, claimed, reserve_is_ok, reserved_and_claimed,
}

abbrev later : ℕ → Times
later n = record { current_timestamp = seconds 5; now = seconds 5 }

nothing_to_claim : claim crates policy "worker" later (claimed.0) ≡ (claimed.0, ok none)
unfolding reserve_inner claim value_eq is_valid_room_event is_public octet_length
nothing_to_claim = refl

few_open : open_turns (claimed.0) < 100
unfolding reserve_inner claim value_eq is_valid_room_event is_public octet_length
few_open = omega arith

claim_rounds_suffice_example :
    (i : ℕ) × (i < 100)
    × (count (is_candidate (later i).current_timestamp) (claimed.0).conversation_tasks ≡ 0)
claim_rounds_suffice_example =
    claim_rounds_suffice crates policy "worker" later (claimed.0) (claimed.0) mode_law
      reserved_and_claimed few_open nothing_to_claim

abbrev pub report : Value → Value
report content = json (
    ("taskId", string "II")
    ∷ (("generation", json_number 1)
        ∷ (("contextDigest", string "digest")
            ∷ (("updateId", string "IIIIIIIII")
                ∷ (("ordinal", json_number 1)
                    ∷ (("kind", string "progress") ∷ (("data", content) ∷ [])))))))

abbrev pub clocks : Instant → Clocks
clocks t = record { current_timestamp = t; checked_at = t; now = t; committed_at = t }

abbrev pub reported : ConversationWorld × Result ConversationError ConversationUpdateOutcome
reported =
    record_update crates policy 2 4 (clocks (seconds 5)) (report (string "working")) (claimed.0)

abbrev pub outcome : ConversationUpdateOutcome
outcome = record {
  response = json (
      ("profileVersion", string profile_version)
      ∷ (("taskId", string "II")
          ∷ (("updateId", string "IIIIIIIII") ∷ (("ordinal", json_number 1) ∷ []))));
  event = none;
}

abbrev pub other_policy : ConversationPolicy
other_policy = record policy { turn_deadline_seconds = 60 }

-- The turn ran out of time before its report.
abbrev late : ConversationWorld × Result ConversationError ConversationUpdateOutcome
late =
    record_update crates policy 2 4 (clocks (seconds 200)) (report (string "working")) (claimed.0)

report_is_late :
    record_update crates policy 2 4 (clocks (seconds 200)) (report (string "working")) (claimed.0)
    ≡ (late.0, err timeout)
unfolding reserve_inner claim value_eq is_valid_room_event is_public octet_length record_update
report_is_late = refl

refused_calls_example : (late.0 ≡ claimed.0) ⊎ (suc (open_turns (late.0)) ≡ open_turns (claimed.0))
refused_calls_example = refused_calls mode_law reserved_and_claimed (
    refused_report policy 2 4 (clocks (seconds 200)) (report (string "working")) timeout
      report_is_late)

abbrev other_moments : Moments
other_moments = record { entered_at = seconds 4; now = seconds 5; committed_at = seconds 6 }

abbrev until : Instant
until = seconds 800

is_admitted :
    admit crates other_policy actor request (seconds 800) other_moments.entered_at ≡ ok request
unfolding admit authorize_conversation_turn uuid_field value_eq
is_admitted = refl

is_allowed :
    authorize_conversation_turn crates actor
      (seconds 800)
      other_moments.now
      (minimum crates other_policy)
    ≡ ok until
unfolding authorize_conversation_turn
is_allowed = refl

is_kept :
    find (is_request 3 5) (reported.0).rooms.room_requests
    ≡ find (is_request 3 5) reserved_world.rooms.room_requests
unfolding reserve_inner claim value_eq is_valid_room_event is_public octet_length record_update
is_kept = refl

is_same_answer : answer_in 3 5 actor.id (reported.0) ≡ answer_in 3 5 actor.id reserved_world
unfolding reserve_inner claim value_eq is_valid_room_event is_public octet_length record_update
is_same_answer = refl

reserve_retry_example :
    reserve_inner crates other_policy actor request
      (seconds 800)
      none
      none
      other_moments
      (reported.0)
    ≡ ok (record { accepted = (answer_of reserving_run).accepted; prompt = none }, reported.0)
unfolding uuid_field
reserve_retry_example =
    reserve_retry crates policy other_policy actor request (seconds 900) (seconds 800) none none
      none none moments other_moments before reserved_world (reported.0) (answer_of reserving_run) 3
      5 request until reserve_is_ok refl refl is_kept is_same_answer is_admitted is_allowed

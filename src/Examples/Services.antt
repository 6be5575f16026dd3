-- ===== src/Examples/Services.antt =====
-- Tests of the requests of a worker.
use thought_khoral_room_gate.Prelude.{ℕ, ◌≡◌, refl, Option, none, some, List, [], ◌⊎◌}
use thought_khoral_room_gate.Text.{octet_length, is_whitespace, trim}
use thought_khoral_room_gate.Protocol.Validity.{is_valid_room_event}
use thought_khoral_room_gate.Json.{Value, string, value_eq}
use thought_khoral_room_gate.Conversation.{seconds}
use thought_khoral_room_gate.Conversation.Protocol.{ConversationError}
use thought_khoral_room_gate.Conversation.Citations.{is_public}
use thought_khoral_room_gate.Conversation.Reservation.{reserve_inner}
use thought_khoral_room_gate.Conversation.Claims.{claim}
use thought_khoral_room_gate.Conversation.Service.{Request, success, profile_error, update}
use thought_khoral_room_gate.Conversation.Requests.{update_again}
use thought_khoral_room_gate.Examples.Conversations.{crates, policy, claimed}
use thought_khoral_room_gate.Examples.Retries.{other_policy, report, clocks, reported, outcome}

abbrev parse : List ℕ → Option Value
parse bytes = some (report (string "working"))

abbrev posted : Request
posted = record {
  query = none;
  content_type = some "application/json; charset=utf-8";
  lease_token = some "IIII";
  body = some [];
}

posted_is_ok :
    update crates policy parse (clocks (seconds 5)) "II" posted (claimed.0)
    ≡ (reported.0, (success outcome.response, none))
unfolding reserve_inner claim value_eq is_valid_room_event is_public octet_length update
    is_whitespace trim
posted_is_ok = refl

update_again_example :
    (update crates other_policy parse (clocks (seconds 6)) "II" posted (reported.0)
      ≡ (reported.0, (success outcome.response, none)))
    ⊎ ((e : ConversationError) × (update crates other_policy parse
            (clocks (seconds 6))
            "II"
            posted
            (reported.0)
          ≡ (reported.0, (profile_error e, none))))
update_again_example =
    update_again crates policy other_policy parse (clocks (seconds 5)) (clocks (seconds 6)) "II"
      posted (claimed.0) (reported.0) outcome.response none posted_is_ok

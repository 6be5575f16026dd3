-- ===== src/Conversation/Protocol/Turns.antt =====
-- What the check of a turn request (src/conversation_protocol.rs) lets through.
use thought_khoral_room_gate.Prelude.{
  ◌≡◌, String, Bool, true, ok, arith, Option-cases, inl, inr, Result-cases,
}
use thought_khoral_room_gate.Json.{Value, as_array, at}
use thought_khoral_room_gate.Conversation.Protocol.{
  validate_turn_request, validate_profile_value, see_mentions, nothing_seen,
}

pub validate_turn_request-ok :
    (is_valid : String → Value → Bool) (codex : String) (value request : Value)
    → validate_turn_request is_valid codex value ≡ ok request
    → (value ≡ request) × (is_valid "turn" value ≡ true)
unfolding validate_turn_request validate_profile_value
validate_turn_request-ok is_valid codex value request h =
    elim (Option-cases (as_array (at value "mentions"))) [
      | inl e ↦ absurd (ground arith)
      | inr (mentions, e) ↦
          elim (Result-cases (see_mentions (at value "agentId") mentions nothing_seen)) [
            | inl (seen, f) ↦ (ground arith, ground arith)
            | inr (error, f) ↦ absurd (ground arith)
          ]
    ]

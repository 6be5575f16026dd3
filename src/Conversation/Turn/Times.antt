-- ===== src/Conversation/Turn/Times.antt =====
-- The times of a turn that `reserve_inner` stores (src/conversation_store.rs) meet the CHECKs of
-- conversation_tasks (migrations/0006).
use thought_khoral_room_gate.Prelude.{
  ℕ, ◌+◌, ◌≤◌, ◌<◌, ◌≡◌, true, ok, arith, inl, inr, Option-cases,
}
use thought_khoral_room_gate.Env.{Instant}
use thought_khoral_room_gate.Auth.{Actor, is_human}
use thought_khoral_room_gate.Conversation.{Crates, seconds}
use thought_khoral_room_gate.Conversation.Policy.{ConversationPolicy, with_policy}
use thought_khoral_room_gate.Conversation.Policy.Bounds.{with_policy-IsBounded}
use thought_khoral_room_gate.Conversation.Mentions.{authorize_conversation_turn}
use thought_khoral_room_gate.Conversation.Reserve.{minimum}
use thought_khoral_room_gate.Conversation.Turn.{Turn, deadline}

authorize_conversation_turn-bounds :
    (crates : Crates) (actor : Actor) (requested now : Instant) (remaining : ℕ) (until : Instant)
    → authorize_conversation_turn crates actor requested now remaining ≡ ok until
    → (is_human actor.role ≡ true) × (now + remaining ≤ until) × (until ≤ requested)
unfolding authorize_conversation_turn
authorize_conversation_turn-bounds crates actor requested now remaining until h =
    elim (Option-cases (crates.from_timestamp actor.expires_at)) [
      | inl e ↦ absurd (ground arith)
      | inr (expiry, e) ↦ (ground arith, ground arith, ground arith)
    ]

-- Under a policy that was accepted, for a turn whose authority was granted at its time: only a human has
-- it; the turn ends after it begins and at most 180 seconds later; and its authority, that does not pass
-- what was requested, outlasts its end by the grace for an interruption.
pub turn_deadline-bounds :
    (crates : Crates) (policy p : ConversationPolicy) (actor : Actor) (requested : Instant)
    (turn : Turn)
    → with_policy policy ≡ ok p
    → authorize_conversation_turn crates actor requested turn.now (minimum crates p)
      ≡ ok turn.authorized_until
    → (is_human actor.role ≡ true)
      × (turn.now < deadline crates p turn)
      × (deadline crates p turn ≤ turn.now + seconds 180)
      × (deadline crates p turn + seconds p.interrupt_grace_seconds ≤ turn.authorized_until)
      × (turn.authorized_until ≤ requested)
turn_deadline-bounds crates policy p actor requested turn accepted granted =
    let bounded = (with_policy-IsBounded policy p accepted).0 in
    let bounds =
      authorize_conversation_turn-bounds crates actor requested turn.now (minimum crates p)
        turn.authorized_until granted in
    (
      bounds.0,
      omega (arith, bounded.some_time),
      omega (arith, bounded.most_time),
      omega (arith, bounds.1),
      bounds.2,
    )

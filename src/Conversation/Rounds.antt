-- ===== src/Conversation/Rounds.antt =====
-- src/conversation_store.rs: the bound on the rounds of `claim`.
use thought_khoral_room_gate.Prelude.{
  ℕ, zero, suc, ◌<◌, ◌≡◌, refl, String, Bool, true, false, Option, none, some, subst, Result, ok,
  err, arith, count, if◌then◌else◌,
}
use thought_khoral_room_gate.Json.{Value}
use thought_khoral_room_gate.Store.{World}
use thought_khoral_room_gate.Conversation.{ConversationWorld, Crates}
use thought_khoral_room_gate.Conversation.Protocol.{
  ConversationError, codex_agent_id, invalid_task_input,
}
use thought_khoral_room_gate.Conversation.Policy.{ConversationPolicy}
use thought_khoral_room_gate.Conversation.Authority.{require_enabled}
use thought_khoral_room_gate.Conversation.Claims.{
  Times, Round, nothing, refused, issued, claim_round, claim_rounds, claim, is_candidate,
  valid_owner,
}
use thought_khoral_room_gate.Conversation.Invariant.Frame.{tables}
use thought_khoral_room_gate.Conversation.Invariant.Joined.{Sound}
use thought_khoral_room_gate.Conversation.Invariant.Claiming.{claim_round-Sound}
use thought_khoral_room_gate.Conversation.Invariant.Reservations.{ModeLaw}
use thought_khoral_room_gate.Conversation.Runs.{
  Run, Run-Sound, without_conversations, nothing_stored,
}
use thought_khoral_room_gate.Conversation.Invariant.Closing.{open_turns, claim_round-open}

module _ (crates : Crates) (policy : ConversationPolicy) where
  -- The rounds end before the bound unless that many turns are open.
  claim_rounds-open :
      (n : ℕ) (owner : String) (times : ℕ → Times) (w w' : ConversationWorld)
      → Sound (tables w)
      → open_turns w < n
      → claim_rounds crates policy n owner times w ≡ (w', ok none)
      → (i : ℕ) × (i < n)
        × (count (is_candidate (times i).current_timestamp) w'.conversation_tasks ≡ 0)
  unfolding claim_rounds
  claim_rounds-open zero owner times w w' sound few h = absurd (omega arith)
  claim_rounds-open (suc n) owner times w w' sound few h =
      split (claim_round crates policy owner (times n) w) refl (claim_rounds-open n owner times) h
    where
      split :
          (x : Result ConversationError (Round × ConversationWorld))
          → claim_round crates policy owner (times n) w ≡ x
          → ((v w'' : ConversationWorld)
              → Sound (tables v)
              → open_turns v < n
              → claim_rounds crates policy n owner times v ≡ (w'', ok none)
              → (i : ℕ) × (i < n)
                × (count (is_candidate (times i).current_timestamp) w''.conversation_tasks ≡ 0))
          → (let y : ConversationWorld × Result ConversationError (Option Value) = elim x [
            | err e ↦ (w, err e)
            | ok (nothing, _) ↦ (w, ok none)
            | ok (refused, v) ↦ claim_rounds crates policy n owner times v
            | ok (issued p, v) ↦ (v, ok (some p))
          ] in
              y)
            ≡ (w', ok none)
          → (i : ℕ) × (i < suc n)
            × (count (is_candidate (times i).current_timestamp) w'.conversation_tasks ≡ 0)
      split (err e) k ih l = absurd (ground arith)
      split (ok (nothing, v)) k ih l =
          let same : w ≡ w' = ground arith in
          (
            n,
            omega arith,
            subst
                (λ (u : ConversationWorld).
                  count (is_candidate (times n).current_timestamp) u.conversation_tasks ≡ 0)
                same ((claim_round-open crates policy owner (times n) w v nothing sound k).1 refl),
          )
      split (ok (refused, v)) k ih l =
          let closed =
            (claim_round-open crates policy owner (times n) w v refused sound k).0 refl in
          let (i, below, clear) =
            ih v w' (claim_round-Sound crates policy owner (times n) w refused v sound k)
              (omega arith) l in
          (i, omega arith, clear)
      split (ok (issued p, v)) k ih l = absurd (ground arith)

  -- From a database without conversations, whatever is reserved, claimed, delivered and reported: a claim
  -- that gives no turn, while fewer than 100 turns are open, has come to a round at whose instant no
  -- turn was a candidate, in the state that the claim leaves. The 100 rounds end the search early only
  -- when as many turns are open, since a round that gives none closes one. It is used of the schema
  -- of a turn that it admits no mode but "new" and "continue".
  pub claim_rounds_suffice :
      {rooms : World} (owner : String) (times : ℕ → Times) (w w' : ConversationWorld)
      → ModeLaw crates
      → Run crates (without_conversations rooms) w
      → open_turns w < 100
      → claim crates policy owner times w ≡ (w', ok none)
      → (i : ℕ) × (i < 100)
        × (count (is_candidate (times i).current_timestamp) w'.conversation_tasks ≡ 0)
  unfolding claim
  claim_rounds_suffice owner times w w' law run few h =
      split (require_enabled policy codex_agent_id) (valid_owner crates policy owner) h
    where
      split :
          (x : Result ConversationError (Unit {0})) (b : Bool)
          → (let y : ConversationWorld × Result ConversationError (Option Value) = elim x [
            | err e ↦ (w, err e)
            | ok _ ↦
                if b
                then claim_rounds crates policy 100 owner times w
                else (w, err invalid_task_input)
          ] in
              y)
            ≡ (w', ok none)
          → (i : ℕ) × (i < 100)
            × (count (is_candidate (times i).current_timestamp) w'.conversation_tasks ≡ 0)
      split (err e) b k = absurd (ground arith)
      split (ok u) true k =
          claim_rounds-open 100 owner times w w' (Run-Sound law nothing_stored run) few k
      split (ok u) false k = absurd (ground arith)

-- ===== src/Conversation/Policy/Bounds.antt =====
-- What a policy that `with_policy` accepts guarantees (src/conversation_store.rs), and the times of a turn
-- under it.
use thought_khoral_room_gate.Prelude.{
  ◌≤◌, ◌≡◌, refl, Bool, true, false, none, Result, ok, err, arith, inl, inr, Result-cases,
  if◌then◌else◌,
}
use thought_khoral_room_gate.Json.{Value}
use thought_khoral_room_gate.Conversation.Protocol.{ConversationError, invalid_task_input}
use thought_khoral_room_gate.Conversation.Policy.{
  ConversationPolicy, out_of_bounds, validate, with_policy, resolve_settings,
}

pub record IsBounded (policy : ConversationPolicy) : Type 0 where
  pub some_bytes : 1 ≤ policy.max_context_bytes
  pub most_bytes : policy.max_context_bytes ≤ 1048576
  pub some_records : 1 ≤ policy.max_records
  pub most_records : policy.max_records ≤ 2000
  pub some_time : 1 ≤ policy.turn_deadline_seconds
  pub most_time : policy.turn_deadline_seconds ≤ 180
  pub some_grace : 1 ≤ policy.interrupt_grace_seconds
  pub most_grace : policy.interrupt_grace_seconds ≤ 5

in_bounds : (policy : ConversationPolicy) → out_of_bounds policy ≡ false → IsBounded policy
in_bounds policy h = record {
  some_bytes = ground arith;
  most_bytes = ground arith;
  some_records = ground arith;
  most_records = ground arith;
  some_time = ground arith;
  most_time = ground arith;
  some_grace = ground arith;
  most_grace = ground arith;
}

validate-in_bounds :
    (policy : ConversationPolicy) → validate policy ≡ ok tt → out_of_bounds policy ≡ false
unfolding validate
validate-in_bounds policy h = split (out_of_bounds policy) _ h
  where
    split :
        (b : Bool) (r : Result ConversationError (Unit {0}))
        → (if b then err invalid_task_input else r) ≡ ok tt
        → b ≡ false
    split true r k = cc k
    split false r k = refl

validate-default :
    (policy : ConversationPolicy)
    → validate policy ≡ ok tt
    → policy.enabled ≡ true
    → (v : Value) × (resolve_settings policy none ≡ ok v)
unfolding validate
validate-default policy h on = elim (Result-cases (resolve_settings policy none)) [
  | inl found ↦ found
  | inr (e, missing) ↦ absurd (ground (arith, validate-in_bounds policy h))
]

with_policy-parts :
    (policy p : ConversationPolicy)
    → with_policy policy ≡ ok p
    → (policy ≡ p) × (validate policy ≡ ok tt)
unfolding with_policy
with_policy-parts policy p h = elim (Result-cases (validate policy)) [
  | inl (u, e) ↦ (ground arith, e)
  | inr (e, f) ↦ absurd (ground arith)
]

-- A policy that is accepted is within its bounds, and an enabled one offers its own defaults.
pub with_policy-IsBounded :
    (policy p : ConversationPolicy)
    → with_policy policy ≡ ok p
    → IsBounded p × (p.enabled ≡ true → (v : Value) × (resolve_settings p none ≡ ok v))
with_policy-IsBounded policy p h =
    let (same, valid) = with_policy-parts policy p h in
    let valid_p : validate p ≡ ok tt = rw (← same) valid in
    (in_bounds p (validate-in_bounds p valid_p), validate-default p valid_p)

-- ===== src/Conversation/Invariant/Closing.antt =====
-- How a round of `claim` changes the number of open turns: one that refuses a turn closes it.
use thought_khoral_room_gate.Prelude.{
  ℕ, suc, ◌≤◌, ◌≡◌, refl, String, Bool, true, false, ◌&&◌, none, List, [], ◌∷◌, subst, ok, arith,
  Result-cases, Option-cases, Bool-cases, ==_refl, inl, inr, keep, count, update_where, find-key,
  count_mono, count-update_where, count-update_where_same,
}
use thought_khoral_room_gate.Tx.{Tx, ◌>>=◌, >>=-eq-ok}
use thought_khoral_room_gate.Tx.Frame.{Keeps, keeps_rules}
use thought_khoral_room_gate.Tx.Hoare.{Hoare, Hoare-bind, Hoare-keeps}
use thought_khoral_room_gate.Json.{string}
use thought_khoral_room_gate.Env.{Uuid, Instant, Env}
use thought_khoral_room_gate.Store.{World, StoreError}
use thought_khoral_room_gate.Store.Events.{new_v4}
use thought_khoral_room_gate.Conversation.{TaskRow, UpdateRow, ConversationWorld, Crates, in_rooms}
use thought_khoral_room_gate.Conversation.Protocol.{ConversationError, validate_profile_value}
use thought_khoral_room_gate.Conversation.Policy.{ConversationPolicy}
use thought_khoral_room_gate.Conversation.Authority.{
  JoinedRow, is_open, is_task, task_authority, to_claim,
}
use thought_khoral_room_gate.Conversation.Tasks.{
  task_in_transaction, fail_task, fail_task_state, record_failure, failed_task, update_tasks,
  update_conversations, insert_update, with_ordinal,
}
use thought_khoral_room_gate.Conversation.Claims.{
  Times, Round, nothing, refused, issued, issue, refuse, start_lease, hand_over, leased_packet,
  lease_expiry, try_row, claim_round, oldest, is_candidate, is_older,
}
use thought_khoral_room_gate.Conversation.Invariant.Frame.{tables}
use thought_khoral_room_gate.Conversation.Invariant.Joined.{Reads, Sound}
use thought_khoral_room_gate.Conversation.Invariant.Claiming.{candidate_row}

abbrev pub is_open_turn : TaskRow → Bool
is_open_turn t = is_open t.state

abbrev pub open_turns : ConversationWorld → ℕ
open_turns w = count is_open_turn w.conversation_tasks

oldest-some : (t : TaskRow) (ts : List TaskRow) → oldest (t ∷ ts) ≡ none → ⊥
unfolding oldest
oldest-some t ts h = elim (Option-cases (oldest ts)) [
  | inl e ↦ ground arith
  | inr (other, e) ↦ elim (Bool-cases (is_older t other)) [
    | inl first ↦ ground arith
    | inr later ↦ ground arith
  ]
]

oldest-keep_none :
    (p : TaskRow → Bool) (ts : List TaskRow) → oldest (keep p ts) ≡ none → count p ts ≡ 0
oldest-keep_none p [] h = refl
oldest-keep_none p (t ∷ ts) h = ground (arith, oldest-some t (keep p ts), oldest-keep_none p ts)

Keeps-in_rooms-open : {A : Type 0} (m : Tx World StoreError A) → Keeps open_turns (in_rooms m)
Keeps-in_rooms-open m = record { same = λ s a t h. ground arith }

Keeps-insert_update-open : (row : UpdateRow) → Keeps open_turns (insert_update row)
unfolding insert_update
Keeps-insert_update-open row = record { same = λ s a t h. ground arith }

Keeps-with_ordinal-open :
    (task : Uuid) (n : ℕ) → Keeps open_turns (update_tasks (is_task task) (with_ordinal n))
unfolding update_tasks
Keeps-with_ordinal-open task n = record {
  same = λ s a t h. ground (
    arith,
    count-update_where_same is_open_turn (is_task task) (with_ordinal n) s.conversation_tasks
        (λ x k. refl),
  );
}

Keeps-record_failure-open :
    (env : Env) (now : Instant) (row : JoinedRow) (error : ConversationError)
    → Keeps open_turns (record_failure env now row error)
unfolding record_failure
Keeps-record_failure-open env now row error =
    search (keeps_rules, Keeps-in_rooms-open, Keeps-insert_update-open, Keeps-with_ordinal-open)

abbrev is_issued : Round → Bool
is_issued nothing = false
is_issued refused = false
is_issued (issued v) = true

-- What a round does to the open turns.
abbrev RoundEnds : ℕ → Round → ConversationWorld → Type 0
RoundEnds n r s = (r ≡ refused → suc (open_turns s) ≡ n) × (r ≡ nothing → ⊥)

module _ (row : JoinedRow) (open_task : is_open row.task.state ≡ true) (n : ℕ) where
  abbrev Before : ConversationWorld → Type 0
  Before s = Reads row (tables s) × (open_turns s ≡ n)

  Hoare-fail_task_state-open :
      (now : Instant) (error : ConversationError)
      → Hoare Before (fail_task_state now row error) (λ _ s. suc (open_turns s) ≡ n)
  unfolding fail_task_state update_tasks update_conversations
  Hoare-fail_task_state-open now error = record {
    run = λ s a t before h.
        let p = λ (x : TaskRow). is_task row.task.task_id x && is_open x.state in
        let written : t.conversation_tasks
            ≡ update_where p (failed_task now error) s.conversation_tasks =
          ground arith in
        let one : count p s.conversation_tasks ≤ 1 = ground (
          arith,
          before.0.0.task_key row.task.task_id,
          count_mono p (is_task row.task.task_id) s.conversation_tasks (λ x k. ground arith),
        ) in
        let found =
          find-key (is_task row.task.task_id) p s.conversation_tasks row.task one
            before.0.1.task_found (rw (==_refl row.task.task_id, open_task) refl) in
        let changed =
          count-update_where is_open_turn p (failed_task now error) s.conversation_tasks row.task
            one found in
        ground (arith, before.1, written, changed, open_task);
  }

  pub Hoare-fail_task-open :
      (env : Env) (now : Instant) (error : ConversationError)
      → Hoare Before (fail_task env now row error) (λ _ s. suc (open_turns s) ≡ n)
  unfolding fail_task
  Hoare-fail_task-open env now error =
      Hoare-bind (λ _ s. suc (open_turns s) ≡ n) (fail_task_state now row error)
        (λ _. record_failure env now row error) (Hoare-fail_task_state-open now error)
        (λ _.
          Hoare-keeps open_turns (λ m. suc m ≡ n) _ (Keeps-record_failure-open env now row error))

  module _ (crates : Crates) (policy : ConversationPolicy) where
    Hoare-refuse-open :
        (times : Times) (error : ConversationError)
        → Hoare Before (refuse crates policy times row error) (RoundEnds n)
    unfolding refuse
    Hoare-refuse-open times error =
        Hoare-bind (λ _ s. suc (open_turns s) ≡ n)
          (fail_task crates.env times.current_timestamp row error) _
          (Hoare-fail_task-open crates.env times.current_timestamp error)
          (λ _. record {
            run = λ s a t closed h.
                let same : t ≡ s = cc h in
                let result : a ≡ refused = cc h in
                (
                  (λ _. rw same closed),
                  (λ e. let clash : refused ≡ nothing = cc (e, result) in cc clash),
                );
          })

    hand_over_issues :
        (owner : String) (token : Uuid) (s t : ConversationWorld) (r : Round)
        → hand_over crates policy owner row token s ≡ ok (r, t)
        → is_issued r ≡ true
    unfolding hand_over
    hand_over_issues owner token s t r h =
        elim (Result-cases (
          validate_profile_value crates.is_valid "input" (
            leased_packet crates policy (string owner) (lease_expiry crates policy row.task)
              row.task.frozen_input))) [
                | inl (valid, accepted) ↦ ground arith
                | inr (error, invalid) ↦ ground arith
              ]

    issue_issues :
        (owner : String) (times : Times) (s t : ConversationWorld) (r : Round)
        → issue crates policy owner times row s ≡ ok (r, t)
        → is_issued r ≡ true
    unfolding issue
    issue_issues owner times s t r h =
        let (token, s1, _, second) = >>=-eq-ok (in_rooms (new_v4 crates.env)) _ s h in
        let (_, s2, _, third) =
          >>=-eq-ok (start_lease crates policy owner times row token)
            (λ _. hand_over crates policy owner row token) s1 second in
        hand_over_issues owner token s2 t r third

    Hoare-try_row-open :
        (owner : String) (times : Times)
        → Hoare Before (try_row crates policy owner times row) (RoundEnds n)
    unfolding try_row
    Hoare-try_row-open owner times =
        elim (Result-cases (task_authority policy times.now row to_claim)) [
          | inl (granted, allowed) ↦
              rw (allowed, try_row)
                (record {
                  run = λ s r t before h.
                      let issues = issue_issues owner times s t r h in
                      ((λ e. ground arith), (λ e. ground arith));
                })
          | inr (error, denied) ↦ rw (denied, try_row) (Hoare-refuse-open times error)
        ]

module _ (crates : Crates) (policy : ConversationPolicy) where
  -- A round that finds nothing leaves all as it was, and one that refuses a turn closes it.
  pub claim_round-open :
      (owner : String) (times : Times) (w w' : ConversationWorld) (r : Round)
      → Sound (tables w)
      → claim_round crates policy owner times w ≡ ok (r, w')
      → (r ≡ refused → suc (open_turns w') ≡ open_turns w)
        × (r ≡ nothing → count (is_candidate times.current_timestamp) w.conversation_tasks ≡ 0)
  unfolding claim_round
  claim_round-open owner times w w' r sound h =
      elim (Option-cases
        (oldest (keep (is_candidate times.current_timestamp) w.conversation_tasks))) [
          | inl none_left ↦ (
            (λ e.
                let result : r ≡ nothing = ground arith in
                let clash : refused ≡ nothing = cc (e, result) in cc clash),
            (λ _.
                oldest-keep_none (is_candidate times.current_timestamp) w.conversation_tasks
                  none_left),
          )
          | inr (candidate, found) ↦
              let chain : (task_in_transaction candidate.task_id
                      >>= try_row crates policy owner times)
                    w
                  ≡ ok (r, w') =
                ground arith in
              let (row, v, first, second) =
                >>=-eq-ok (task_in_transaction candidate.task_id)
                  (try_row crates policy owner times) w chain in
              let (same, reads, open_task) =
                candidate_row times.current_timestamp w v candidate row sound found first in
              let ends =
                (Hoare-try_row-open row open_task (open_turns w) crates policy owner times).run w r
                  w' (reads, refl)
                  (subst (λ u. try_row crates policy owner times row u ≡ ok (r, w')) same second) in
              (ends.0, λ e. absurd (ends.1 e))
        ]

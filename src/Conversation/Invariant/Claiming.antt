-- ===== src/Conversation/Invariant/Claiming.antt =====
-- `claim` and `packet` keep the invariant of the conversations.
use thought_khoral_room_gate.Prelude.{
  ℕ, zero, suc, ◌≡◌, refl, subst, String, Bool, true, false, ◌&&◌, Option, none, some, List, [],
  ◌∷◌, Result, ok, err, arith, Result-cases, Option-cases, Bool-cases, inl, inr, keep, find, Has,
  Has-keep, Has-find, if◌then◌else◌, ==_refl,
}
use thought_khoral_room_gate.Tx.{Tx, ◌>>=◌, >>=-eq-ok, pure}
use thought_khoral_room_gate.Tx.Hoare.{
  Hoare, Hoare-bind, Hoare-pure, Hoare-fail, Hoare-if, Stable-Hoare, Stable-bind, Hoare-weaken,
  stable_rules,
}
use thought_khoral_room_gate.Json.{Value}
use thought_khoral_room_gate.Env.{Uuid, Instant}
use thought_khoral_room_gate.Conversation.{TaskRow, ConversationWorld, Crates}
use thought_khoral_room_gate.Conversation.Protocol.{
  ConversationError, codex_agent_id, invalid_task_input,
}
use thought_khoral_room_gate.Conversation.Policy.{ConversationPolicy}
use thought_khoral_room_gate.Conversation.Authority.{
  JoinedRow, is_open, id_is, is_task, task_authority, to_claim, under, require_enabled,
}
use thought_khoral_room_gate.Conversation.Tasks.{task_in_transaction, fail_task}
use thought_khoral_room_gate.Conversation.Claims.{
  Times, settle, Round, nothing, refused, issued, try_row, claim_round, claim_rounds, claim,
  refuse_packet, deliver, room_of_task, packet_in_transaction, packet, oldest, is_candidate,
  is_older, fails_packet, valid_owner,
}
use thought_khoral_room_gate.Conversation.Invariant.Frame.{tables}
use thought_khoral_room_gate.Conversation.Invariant.Joined.{
  Reads, Sound, Hoare-task_in_transaction, task_in_transaction-Reads,
}
use thought_khoral_room_gate.Conversation.Invariant.Working.{
  KeepsSound, Hoare-fail_task, Hoare-refuse, Hoare-issue,
}

pub oldest-Has : (ts : List TaskRow) (t : TaskRow) → oldest ts ≡ some t → Has t ts
unfolding oldest
oldest-Has [] t h = absurd (ground arith)
oldest-Has (x ∷ xs) t h = split (oldest xs) refl (oldest-Has xs) h
  where
    split :
        (o : Option TaskRow)
        → oldest xs ≡ o
        → ((u : TaskRow) → oldest xs ≡ some u → Has u xs)
        → (elim o [ none ↦ some x | some other ↦ if is_older x other then some x else some other ])
          ≡ some t
        → Has t (x ∷ xs)
    split none e ih k = inl (ground arith)
    split (some other) e ih k = elim (Bool-cases (is_older x other)) [
      | inl first ↦ inl (ground arith)
      | inr later ↦ inr (ih t (ground arith))
    ]

-- A candidate is an open turn of the table.
candidate_found :
    (at : Instant) (w : ConversationWorld) (t : TaskRow)
    → Sound (tables w)
    → oldest (keep (is_candidate at) w.conversation_tasks) ≡ some t
    → (is_candidate at t ≡ true) × (find (is_task t.task_id) w.conversation_tasks ≡ some t)
candidate_found at w t sound h =
    let kept =
      Has-keep (is_candidate at) t w.conversation_tasks
        (oldest-Has (keep (is_candidate at) w.conversation_tasks) t h) in
    (
      kept.0,
      Has-find (is_task t.task_id) t w.conversation_tasks (sound.task_key t.task_id) kept.1
          (==_refl t.task_id),
    )

-- The row that is read of a candidate is that of an open turn.
pub candidate_row :
    (at : Instant) (w v : ConversationWorld) (candidate : TaskRow) (row : JoinedRow)
    → Sound (tables w)
    → oldest (keep (is_candidate at) w.conversation_tasks) ≡ some candidate
    → task_in_transaction candidate.task_id w ≡ ok (row, v)
    → (v ≡ w) × Reads row (tables w) × (is_open row.task.state ≡ true)
candidate_row at w v candidate row sound found h =
    let (same, id, reads) = task_in_transaction-Reads candidate.task_id w v row sound h in
    let (is_one, there) = candidate_found at w candidate sound found in
    let this : candidate ≡ row.task =
      let there' : find (is_task row.task.task_id) w.conversation_tasks ≡ some candidate =
        rw id there in
      cc (there', reads.1.task_found) in
    (same, reads, subst (λ (t : TaskRow). is_open t.state ≡ true) this (ground arith))

-- The world that a call leaves.
abbrev pub SoundAfter : {A : Type 0} → ConversationWorld × Result ConversationError A → Type 0
SoundAfter x = Sound (tables x.0)

-- A transaction that keeps the invariant keeps it when it is settled.
pub settle-Sound :
    {A : Type 0} (m : Tx ConversationWorld ConversationError (Result ConversationError A))
    (w : ConversationWorld)
    → KeepsSound m
    → Sound (tables w)
    → SoundAfter (settle m w)
settle-Sound {A} m w keeps sound = split (m w) (λ r v. keeps.keep w r v sound)
  where
    split :
        (x : Result ConversationError (Result ConversationError A × ConversationWorld))
        → ((r : Result ConversationError A) (v : ConversationWorld)
            → x ≡ ok (r, v)
            → Sound (tables v))
        → SoundAfter (
            let y : ConversationWorld × Result ConversationError A = elim x [
              | ok (r, v) ↦ (v, r)
              | err e ↦ (w, err e)
            ] in
            y)
    split (ok (r, v)) h = h r v refl
    split (err e) h = sound

module _ (crates : Crates) (policy : ConversationPolicy) where
  Hoare-try_row :
      (owner : String) (times : Times) (row : JoinedRow)
      → is_open row.task.state ≡ true
      → Hoare
          (λ s. Reads row (tables s))
          (try_row crates policy owner times row)
          (λ _ s. Sound (tables s))
  unfolding try_row
  Hoare-try_row owner times row open_task =
      elim (Result-cases (task_authority policy times.now row to_claim)) [
        | inl (granted, allowed) ↦
            rw (allowed, try_row) (Hoare-issue row open_task crates policy owner times allowed)
        | inr (error, denied) ↦
            rw (denied, try_row) (Hoare-refuse row open_task crates policy times error)
      ]

  pub claim_round-Sound :
      (owner : String) (times : Times) (w : ConversationWorld) (r : Round) (w' : ConversationWorld)
      → Sound (tables w)
      → claim_round crates policy owner times w ≡ ok (r, w')
      → Sound (tables w')
  unfolding claim_round
  claim_round-Sound owner times w r w' sound h =
      elim (Option-cases
        (oldest (keep (is_candidate times.current_timestamp) w.conversation_tasks))) [
          | inl none_left ↦ let same : w' ≡ w = ground arith in rw same sound
          | inr (candidate, found) ↦
              let chain : (task_in_transaction candidate.task_id
                      >>= try_row crates policy owner times)
                    w
                  ≡ ok (r, w') =
                ground arith in
              let (row, v, first, second) =
                >>=-eq-ok (task_in_transaction candidate.task_id)
                  (try_row crates policy owner times) w chain in
              let (same, reads, open_task) =
                candidate_row times.current_timestamp w v candidate row sound found first in
              (Hoare-try_row owner times row open_task).run v r w' (rw same reads) second
        ]

  pub claim_rounds-Sound :
      (n : ℕ) (owner : String) (times : ℕ → Times) (w : ConversationWorld)
      → Sound (tables w)
      → SoundAfter (claim_rounds crates policy n owner times w)
  unfolding claim_rounds
  claim_rounds-Sound zero owner times w sound = sound
  claim_rounds-Sound (suc n) owner times w sound =
      split (claim_round crates policy owner (times n) w)
        (λ r v. claim_round-Sound owner (times n) w r v sound) (claim_rounds-Sound n owner times)
    where
      split :
          (x : Result ConversationError (Round × ConversationWorld))
          → ((r : Round) (v : ConversationWorld) → x ≡ ok (r, v) → Sound (tables v))
          → ((v : ConversationWorld)
              → Sound (tables v)
              → SoundAfter (claim_rounds crates policy n owner times v))
          → SoundAfter {A = Option Value} (elim x [
            | err e ↦ (w, err e)
            | ok (nothing, _) ↦ (w, ok none)
            | ok (refused, v) ↦ claim_rounds crates policy n owner times v
            | ok (issued p, v) ↦ (v, ok (some p))
          ])
      split (err e) h ih = sound
      split (ok (nothing, v)) h ih = sound
      split (ok (refused, v)) h ih = ih v (h refused v refl)
      split (ok (issued p, v)) h ih = h (issued p) v refl

  pub claim-Sound :
      (owner : String) (times : ℕ → Times) (w : ConversationWorld)
      → Sound (tables w)
      → SoundAfter (claim crates policy owner times w)
  unfolding claim
  claim-Sound owner times w sound =
      split (require_enabled policy codex_agent_id) (valid_owner crates policy owner)
        (claim_rounds-Sound 100 owner times w sound)
    where
      split :
          (x : Result ConversationError (Unit {0})) (b : Bool)
          → SoundAfter (claim_rounds crates policy 100 owner times w)
          → SoundAfter {A = Option Value} (elim x [
            | err e ↦ (w, err e)
            | ok _ ↦
                if b
                then claim_rounds crates policy 100 owner times w
                else (w, err invalid_task_input)
          ])
      split (err e) b h = sound
      split (ok u) true h = h
      split (ok u) false h = sound

  Hoare-refuse_packet :
      (times : Times) (lease : Uuid) (row : JoinedRow) (error : ConversationError)
      → Hoare
          (λ s. Reads row (tables s))
          (refuse_packet crates policy times lease row error)
          (λ _ s. Sound (tables s))
  unfolding refuse_packet
  Hoare-refuse_packet times lease row error =
      Hoare-if (id_is row.task.lease_token lease && (fails_packet error && is_open row.task.state))
        _ _
        (λ fails.
          Hoare-bind (λ _ s. Sound (tables s))
            (fail_task crates.env times.current_timestamp row error) (λ _. pure (err error))
            (Hoare-fail_task row (ground arith) crates.env times.current_timestamp error)
            (λ _. Hoare-pure (err error)))
        (λ _. Hoare-fail error)

  Hoare-deliver :
      (times : Times) (lease : Uuid) (row : JoinedRow)
      → Hoare
          (λ s. Reads row (tables s))
          (deliver crates policy times lease row)
          (λ _ s. Sound (tables s))
  unfolding deliver
  Hoare-deliver times lease row =
      elim (Result-cases (task_authority policy times.now row (under lease))) [
        | inl (granted, allowed) ↦
            rw (allowed, deliver)
              (Hoare-weaken _ (Stable-Hoare {P = λ s. Sound (tables s)} _ (search stable_rules))
                (λ s h. h.0) (λ a s h. h))
        | inr (error, denied) ↦ rw (denied, deliver) (Hoare-refuse_packet times lease row error)
      ]

  pub Sound-room_of_task : (task : Uuid) → KeepsSound (room_of_task task)
  unfolding room_of_task
  Sound-room_of_task task = record {
    keep = λ s a t sound h. let same : t ≡ s = ground arith in rw same sound;
  }

  Sound-packet_in_transaction :
      (times : Times) (task lease : Uuid)
      → KeepsSound (packet_in_transaction crates policy times task lease)
  unfolding packet_in_transaction
  Sound-packet_in_transaction times task lease =
      Stable-bind (room_of_task task)
        (λ _. task_in_transaction task >>= deliver crates policy times lease)
        (Sound-room_of_task task)
        (λ _. record {
          keep =
              (Hoare-bind (λ row s. Reads row (tables s)) (task_in_transaction task)
                (deliver crates policy times lease) (Hoare-task_in_transaction task)
                (Hoare-deliver times lease)).run;
        })

  pub packet-Sound :
      (times : Times) (task lease : Uuid) (w : ConversationWorld)
      → Sound (tables w)
      → SoundAfter (packet crates policy times task lease w)
  unfolding packet
  packet-Sound times task lease w sound =
      settle-Sound (packet_in_transaction crates policy times task lease) w
        (Sound-packet_in_transaction times task lease) sound

-- ===== src/Conversation/Repeats.antt =====
-- src/conversation_store.rs: `record_update` with an identifier that was recorded before.
use thought_khoral_room_gate.Prelude.{
  ◌≡◌, subst, none, ◌⊎◌, Result, ok, err, arith, Result-cases, inl, inr, find-some, ◌∙◌, sym,
}
use thought_khoral_room_gate.Tx.{Tx, ◌>>=◌, >>=-eq-ok}
use thought_khoral_room_gate.Tx.Frame.{Keeps, keeps_rules}
use thought_khoral_room_gate.Tx.Hoare.{Hoare}
use thought_khoral_room_gate.Json.{Value}
use thought_khoral_room_gate.Env.{Uuid}
use thought_khoral_room_gate.Conversation.{ConversationWorld, Crates}
use thought_khoral_room_gate.Conversation.Protocol.{ConversationError}
use thought_khoral_room_gate.Conversation.Policy.{ConversationPolicy}
use thought_khoral_room_gate.Conversation.Authority.{JoinedRow, is_codex_task}
use thought_khoral_room_gate.Conversation.Tasks.{task_in_transaction}
use thought_khoral_room_gate.Conversation.Claims.{settle, room_of_task}
use thought_khoral_room_gate.Conversation.Citations.{uuid_field}
use thought_khoral_room_gate.Conversation.Updates.{Clocks, ConversationUpdateOutcome}
use thought_khoral_room_gate.Conversation.Reports.{
  record_identified, check_request, record_for, find_room, record_update_in_transaction,
  record_update,
}
use thought_khoral_room_gate.Conversation.Invariant.Joined.{task_in_transaction_parts}
use thought_khoral_room_gate.Conversation.Logged.{
  Anything, Hoare-after, Hoare-lift_value, record_identified_logs, record_identified_repeats,
}

pub Keeps-room_of_task : (task : Uuid) → Keeps (λ (w : ConversationWorld). w) (room_of_task task)
unfolding room_of_task
Keeps-room_of_task task = record { same = λ s a t h. ground arith }

pub task_in_transaction_same :
    (task : Uuid) (s t : ConversationWorld) (row : JoinedRow)
    → task_in_transaction task s ≡ ok (row, t)
    → (t ≡ s) × (row.task.task_id ≡ task)
task_in_transaction_same task s t row h =
    let (c, same, built, found, _) = task_in_transaction_parts task s t row h in
    (same, ground (arith, find-some (is_codex_task task) s.conversation_tasks row.task found))

module _ (crates : Crates) (policy : ConversationPolicy) where
  Keeps-find_room :
      (task : Uuid) (request : Value)
      → Keeps (λ (w : ConversationWorld). w) (find_room crates policy task request)
  unfolding find_room
  Keeps-find_room task request = search (keeps_rules, Keeps-room_of_task)

  Keeps-check_request :
      (lease : Uuid) (request : Value) (row : JoinedRow)
      → Keeps (λ (w : ConversationWorld). w) (check_request crates policy lease request row)
  unfolding check_request
  Keeps-check_request lease request row = search keeps_rules

  check_request_id :
      (lease : Uuid) (request : Value) (row : JoinedRow)
      → Hoare Anything
          (check_request crates policy lease request row)
          (λ id _. uuid_field crates.env request "updateId" ≡ ok id)
  unfolding check_request
  check_request_id lease request row = search (Hoare-after, Hoare-lift_value)

  -- The steps of a report: those before the identifier is known change nothing.
  pub record_update_parts :
      (task lease : Uuid) (clocks : Clocks) (request : Value) (s t : ConversationWorld)
      (r : Result ConversationError ConversationUpdateOutcome)
      → record_update_in_transaction crates policy task lease clocks request s ≡ ok (r, t)
      → (room : Uuid) × (row : JoinedRow) × (id : Uuid) × (task_in_transaction task s ≡ ok (row, s))
        × (row.task.task_id ≡ task)
        × (uuid_field crates.env request "updateId" ≡ ok id)
        × (record_identified crates policy row lease room clocks request id s ≡ ok (r, t))
  unfolding record_update_in_transaction record_for
  record_update_parts task lease clocks request s t r h =
      let (room, s1, first, after_room) =
        >>=-eq-ok (find_room crates policy task request)
          (λ room. task_in_transaction task >>= record_for crates policy lease room clocks request)
          s h in
      let (row, s2, second, after_row) =
        >>=-eq-ok (task_in_transaction task) (record_for crates policy lease room clocks request) s1
          after_room in
      let (id, s3, third, last) =
        >>=-eq-ok (check_request crates policy lease request row)
          (record_identified crates policy row lease room clocks request) s2 after_row in
      let same1 = (Keeps-find_room task request).same s room s1 first in
      let read_at : (u v : ConversationWorld)
          → u ≡ s
          → v ≡ u
          → task_in_transaction task u ≡ ok (row, v)
          → task_in_transaction task s ≡ ok (row, s) =
        λ u v a b e.
          subst (λ x. task_in_transaction task x ≡ ok (row, x)) a
            (subst (λ y. task_in_transaction task u ≡ ok (row, y)) b e) in
      let (same2, this) = task_in_transaction_same task s1 s2 row second in
      let same3 = (Keeps-check_request lease request row).same s2 id s3 third in
      (
        room,
        row,
        id,
        read_at s1 s2 same1 same2 second,
        this,
        (check_request_id lease request row).run s2 id s3 tt third,
        subst (λ u. record_identified crates policy row lease room clocks request id u ≡ ok (r, t))
            (same3 ∙ same2 ∙ same1) last,
      )

settled_ok :
    {A : Type 0} (m : Tx ConversationWorld ConversationError (Result ConversationError A))
    (w w' : ConversationWorld) (a : A)
    → settle m w ≡ (w', ok a)
    → m w ≡ ok (ok a, w')
settled_ok {A} m w w' a h = split (m w) h
  where
    split :
        (x : Result ConversationError (Result ConversationError A × ConversationWorld))
        → (let y : ConversationWorld × Result ConversationError A = elim x [
          | ok (r, v) ↦ (v, r)
          | err e ↦ (w, err e)
        ] in
            y)
          ≡ (w', ok a)
        → x ≡ ok (ok a, w')
    split (ok (r, v)) k = ground arith
    split (err e) k = absurd (ground arith)

settle_or_roll_back :
    {A : Type 0} (m : Tx ConversationWorld ConversationError (Result ConversationError A))
    (w : ConversationWorld) (r : Result ConversationError A)
    → ((r' : Result ConversationError A) (t : ConversationWorld)
        → m w ≡ ok (r', t)
        → (t ≡ w) × (r' ≡ r))
    → (settle m w ≡ (w, r)) ⊎ ((e : ConversationError) × (settle m w ≡ (w, err e)))
settle_or_roll_back m w r h = elim (Result-cases (m w)) [
  | inl ((r', t), e) ↦ let (same, answer) = h r' t e in inl (ground arith)
  | inr (error, e) ↦ inr (error, ground arith)
]

pub report_retry :
    (crates : Crates) (policy policy' : ConversationPolicy) (task lease lease' : Uuid)
    (clocks clocks' : Clocks) (request request' : Value) (w w' : ConversationWorld)
    (outcome : ConversationUpdateOutcome)
    → uuid_field crates.env request' "updateId" ≡ uuid_field crates.env request "updateId"
    → record_update crates policy task lease clocks request w ≡ (w', ok outcome)
    → (record_update crates policy' task lease' clocks' request' w'
        ≡ (w', ok (record { response = outcome.response; event = none })))
      ⊎ ((e : ConversationError) × (record_update crates policy' task lease' clocks' request' w'
            ≡ (w', err e)))
unfolding record_update
report_retry crates policy policy' task lease lease' clocks clocks' request request' w w' outcome
      same_id h =
    let first = record_update_in_transaction crates policy task lease clocks request in
    let (room, row, id, _, this, named, stored) =
      record_update_parts crates policy task lease clocks request w w' (ok outcome)
        (settled_ok first w w' outcome h) in
    let logged =
      record_identified_logs crates policy row lease room clocks id request w w' outcome stored in
    settle_or_roll_back (record_update_in_transaction crates policy' task lease' clocks' request')
      w' (ok (record { response = outcome.response; event = none }))
      (λ r t k.
        let (room', row', id', _, this', named', again) =
          record_update_parts crates policy' task lease' clocks' request' w' t r k in
        let task_is : row.task.task_id ≡ row'.task.task_id = this ∙ sym this' in
        let id_is : id ≡ id' = cc (named, named', same_id) in
        record_identified_repeats crates policy' row' lease' room' clocks' id' request'
          outcome.response w' t r (rw (← task_is, ← id_is) logged) again)

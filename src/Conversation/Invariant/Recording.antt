-- ===== src/Conversation/Invariant/Recording.antt =====
-- `record_update` keeps the invariant of the conversations, whatever comes of the report.
use thought_khoral_room_gate.Prelude.{err, arith, Result-cases, Option-cases, inl, inr, find}
use thought_khoral_room_gate.Tx.{◌>>=◌, pure}
use thought_khoral_room_gate.Tx.Frame.{Keeps, keeps_rules}
use thought_khoral_room_gate.Tx.Hoare.{
  Hoare, Hoare-bind, Hoare-keeps, Hoare-pure, Hoare-fail, Hoare-if, Stable-bind, stable_rules,
}
use thought_khoral_room_gate.Json.{Value}
use thought_khoral_room_gate.Env.{Uuid}
use thought_khoral_room_gate.Conversation.{UpdateRequestRow, ConversationWorld, Crates}
use thought_khoral_room_gate.Conversation.Protocol.{ConversationError}
use thought_khoral_room_gate.Conversation.Policy.{ConversationPolicy}
use thought_khoral_room_gate.Conversation.Authority.{JoinedRow, is_open, task_authority, under}
use thought_khoral_room_gate.Conversation.Tasks.{task_in_transaction, fail_task}
use thought_khoral_room_gate.Conversation.Updates.{Clocks, is_request}
use thought_khoral_room_gate.Conversation.Reports.{
  record_denied, record_new, repeat, record_identified, check_request, record_for, find_room,
  record_update_in_transaction, record_update,
}
use thought_khoral_room_gate.Conversation.Invariant.Frame.{tables}
use thought_khoral_room_gate.Conversation.Invariant.Joined.{
  Reads, Sound, Hoare-task_in_transaction, task_authority-open,
}
use thought_khoral_room_gate.Conversation.Invariant.Working.{KeepsSound, Hoare-fail_task}
use thought_khoral_room_gate.Conversation.Invariant.Claiming.{
  SoundAfter, settle-Sound, Sound-room_of_task,
}
use thought_khoral_room_gate.Conversation.Invariant.Reporting.{Hoare-record_allowed}

module _ (crates : Crates) (policy : ConversationPolicy) where
  Hoare-record_denied :
      (row : JoinedRow) (clocks : Clocks) (error : ConversationError)
      → Hoare
          (λ s. Reads row (tables s))
          (record_denied crates policy row clocks error)
          (λ _ s. Sound (tables s))
  unfolding record_denied
  Hoare-record_denied row clocks error =
      Hoare-if (is_open row.task.state) _ _
        (λ open_task.
          Hoare-bind (λ _ s. Sound (tables s))
            (fail_task crates.env clocks.current_timestamp row error) (λ _. pure (err error))
            (Hoare-fail_task row open_task crates.env clocks.current_timestamp error)
            (λ _. Hoare-pure (err error)))
        (λ _. Hoare-fail error)

  Hoare-record_new :
      (row : JoinedRow) (lease room : Uuid) (clocks : Clocks) (update_id : Uuid) (request : Value)
      → Hoare
          (λ s. Reads row (tables s))
          (record_new crates policy row lease room clocks update_id request)
          (λ _ s. Sound (tables s))
  unfolding record_new
  Hoare-record_new row lease room clocks update_id request =
      elim (Result-cases (task_authority policy clocks.checked_at row (under lease))) [
        | inl (granted, allowed) ↦
            let facts = task_authority-open policy clocks.checked_at row (under lease) allowed in
            rw (allowed, record_new)
              (Hoare-record_allowed crates policy row facts.0 facts.2 lease room clocks update_id
                request)
        | inr (error, denied) ↦ rw (denied, record_new) (Hoare-record_denied row clocks error)
      ]

  Sound-repeat :
      (row : JoinedRow) (lease : Uuid) (clocks : Clocks) (request : Value)
      (prior : UpdateRequestRow)
      → KeepsSound (repeat crates policy row lease clocks request prior)
  unfolding repeat
  Sound-repeat row lease clocks request prior = search stable_rules

  Hoare-record_identified :
      (row : JoinedRow) (lease room : Uuid) (clocks : Clocks) (request : Value) (update_id : Uuid)
      → Hoare
          (λ s. Reads row (tables s))
          (record_identified crates policy row lease room clocks request update_id)
          (λ _ s. Sound (tables s))
  unfolding record_identified
  Hoare-record_identified row lease room clocks request update_id = record {
    run = λ s r t reads h.
        elim (Option-cases
          (find (is_request row.task.task_id update_id) s.conversation_update_requests)) [
            | inl new ↦
                (Hoare-record_new row lease room clocks update_id request).run s r t reads
                  (ground arith)
            | inr (prior, old) ↦
                (Sound-repeat row lease clocks request prior).keep s r t reads.0 (ground arith)
          ];
  }

  Keeps-check_request :
      (lease : Uuid) (request : Value) (row : JoinedRow)
      → Keeps tables (check_request crates policy lease request row)
  unfolding check_request
  Keeps-check_request lease request row = search keeps_rules depth 12

  Sound-find_room :
      (task : Uuid) (request : Value) → KeepsSound (find_room crates policy task request)
  unfolding find_room
  Sound-find_room task request = search (stable_rules, Sound-room_of_task)

  Hoare-record_for :
      (lease room : Uuid) (clocks : Clocks) (request : Value) (row : JoinedRow)
      → Hoare
          (λ s. Reads row (tables s))
          (record_for crates policy lease room clocks request row)
          (λ _ s. Sound (tables s))
  unfolding record_for
  Hoare-record_for lease room clocks request row =
      Hoare-bind (λ _ s. Reads row (tables s)) (check_request crates policy lease request row)
        (record_identified crates policy row lease room clocks request)
        (Hoare-keeps tables (Reads row) _ (Keeps-check_request lease request row))
        (Hoare-record_identified row lease room clocks request)

  Sound-record_update_in_transaction :
      (task lease : Uuid) (clocks : Clocks) (request : Value)
      → KeepsSound (record_update_in_transaction crates policy task lease clocks request)
  unfolding record_update_in_transaction
  Sound-record_update_in_transaction task lease clocks request =
      Stable-bind (find_room crates policy task request)
        (λ room. task_in_transaction task >>= record_for crates policy lease room clocks request)
        (Sound-find_room task request)
        (λ room. record {
          keep =
              (Hoare-bind (λ row s. Reads row (tables s)) (task_in_transaction task)
                (record_for crates policy lease room clocks request)
                (Hoare-task_in_transaction task) (Hoare-record_for lease room clocks request)).run;
        })

  pub record_update-Sound :
      (task lease : Uuid) (clocks : Clocks) (request : Value) (w : ConversationWorld)
      → Sound (tables w)
      → SoundAfter (record_update crates policy task lease clocks request w)
  unfolding record_update
  record_update-Sound task lease clocks request w sound =
      settle-Sound (record_update_in_transaction crates policy task lease clocks request) w
        (Sound-record_update_in_transaction task lease clocks request) sound

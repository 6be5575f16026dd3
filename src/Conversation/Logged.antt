-- ===== src/Conversation/Logged.antt =====
-- src/conversation_store.rs: a report that succeeds has its response stored, and its repetition finds it.
use thought_khoral_room_gate.Prelude.{
  ◌≡◌, refl, subst, false, none, some, List, [], ◌∷◌, ◌++◌, Result, ok, err, arith, Result-cases,
  Option-cases, Bool-cases, inl, inr, any, find, ==_refl,
}
use thought_khoral_room_gate.Tx.{Tx, ◌>>=◌, >>=-eq-ok, pure, lift}
use thought_khoral_room_gate.Tx.Frame.{Keeps, keeps_rules}
use thought_khoral_room_gate.Tx.Hoare.{Hoare, Hoare-bind, Hoare-fail, Hoare-if}
use thought_khoral_room_gate.Json.{Value}
use thought_khoral_room_gate.Env.{Uuid}
use thought_khoral_room_gate.Conversation.{UpdateRequestRow, ConversationWorld, Crates}
use thought_khoral_room_gate.Conversation.Protocol.{ConversationError}
use thought_khoral_room_gate.Conversation.Policy.{ConversationPolicy}
use thought_khoral_room_gate.Conversation.Authority.{
  JoinedRow, task_authority, under, is_open, is_task,
}
use thought_khoral_room_gate.Conversation.Tasks.{fail_task, update_tasks, with_ordinal}
use thought_khoral_room_gate.Conversation.Updates.{
  Clocks, ConversationUpdateOutcome, is_request, same_request, insert_request,
}
use thought_khoral_room_gate.Conversation.Reports.{
  Report, request_row, keep_snapshot, apply_report, log_report, store_report, read_report,
  record_allowed, record_denied, record_new, repeat, record_identified,
}

-- The response to the report with this identifier is stored.
abbrev pub Logged : Uuid → Uuid → Value → ConversationWorld → Type 0
Logged task update_id response w =
    (prior : UpdateRequestRow) × (find (is_request task update_id) w.conversation_update_requests
      ≡ some prior)
    × (prior.response ≡ response)

abbrev pub Anything : ConversationWorld → Type 0
Anything s = Unit {0}

-- A success of a transaction of several outcomes has its response stored.
abbrev Logs :
    Uuid → Uuid → Result ConversationError ConversationUpdateOutcome → ConversationWorld → Type 0
Logs task update_id r s =
    (o : ConversationUpdateOutcome) → r ≡ ok o → Logged task update_id o.response s

find-append :
    (row : UpdateRequestRow) (rows : List UpdateRequestRow)
    → any (same_request row) rows ≡ false
    → find (is_request row.task_id row.update_id) (rows ++ row ∷ []) ≡ some row
find-append row [] h = ground (arith, ==_refl row.task_id, ==_refl row.update_id)
find-append row (r ∷ rows) h = ground (arith, find-append row rows)

Hoare-insert_request :
    (row : UpdateRequestRow)
    → Hoare Anything (insert_request row) (λ _ s. Logged row.task_id row.update_id row.response s)
unfolding insert_request
Hoare-insert_request row = record {
  run = λ s a t _ h. elim (Bool-cases (any (same_request row) s.conversation_update_requests)) [
    | inl taken ↦ absurd (ground arith)
    | inr free ↦ (row, ground (arith, find-append row s.conversation_update_requests free), refl)
  ];
}

pub Hoare-after :
    {A B : Type 0} {Q : B → ConversationWorld → Type 0}
    (m : Tx ConversationWorld ConversationError A)
    (k : A → Tx ConversationWorld ConversationError B)
    → ((a : A) → Hoare Anything (k a) Q)
    → Hoare Anything (m >>= k) Q
Hoare-after m k h = Hoare-bind (λ _ s. Anything s) m k (record { run = λ s a t p e. tt }) h

pub Hoare-returns :
    {A : Type 0} {Q : A → Type 0} (a : A)
    → Q a
    → Hoare {E = ConversationError} Anything (pure a) (λ r _. Q r)
Hoare-returns {Q} a q = record { run = λ s r t _ h. subst Q (let e : a ≡ r = cc h in e) q }

pub Hoare-lift_value :
    {A : Type 0} (x : Result ConversationError A) → Hoare Anything (lift x) (λ a _. x ≡ ok a)
Hoare-lift_value (ok a) = record { run = λ s b t _ h. cc h }
Hoare-lift_value (err e) = record { run = λ s b t _ h. cc h }

module _ (crates : Crates) (policy : ConversationPolicy) (row : JoinedRow) (lease room : Uuid)
    (clocks : Clocks) where
  abbrev request_of : Report → ConversationUpdateOutcome → UpdateRequestRow
  request_of report outcome =
      request_row row.task room report outcome.response (crates.env.stored_instant clocks.now)

  abbrev confirmed :
      ConversationUpdateOutcome → Tx ConversationWorld ConversationError ConversationUpdateOutcome
  confirmed outcome =
      lift (task_authority policy clocks.committed_at row (under lease)) >>= λ _. pure outcome

  Hoare-confirmed :
      (task update_id : Uuid) (outcome : ConversationUpdateOutcome)
      → Hoare
          (Logged task update_id outcome.response)
          (confirmed outcome)
          (λ o s. Logged task update_id o.response s)
  Hoare-confirmed task update_id outcome = record {
    run = λ s o t logged h.
        let same : t ≡ s = ground arith in
        let result : o ≡ outcome = ground arith in rw (same, result) logged;
  }

  Hoare-log_report :
      (report : Report) (outcome : ConversationUpdateOutcome)
      → Hoare Anything
          (log_report crates policy row lease room clocks report outcome)
          (λ o s. Logged row.task.task_id report.update_id o.response s)
  unfolding log_report
  Hoare-log_report report outcome =
      let insert = insert_request (request_of report outcome) in
      let ordinal = update_tasks (is_task row.task.task_id) (with_ordinal report.ordinal) in
      Hoare-after (keep_snapshot crates policy row.task room clocks.now report)
        (λ _. ordinal >>= λ _. insert >>= λ _. confirmed outcome)
        (λ _.
          Hoare-after ordinal (λ _. insert >>= λ _. confirmed outcome)
            (λ _.
              Hoare-bind (λ _ s. Logged row.task.task_id report.update_id outcome.response s) insert
                (λ _. confirmed outcome) (Hoare-insert_request (request_of report outcome))
                (λ _. Hoare-confirmed row.task.task_id report.update_id outcome)))

  Hoare-store_report :
      (report : Report)
      → Hoare Anything
          (store_report crates policy row lease room clocks report)
          (λ o s. Logged row.task.task_id report.update_id o.response s)
  unfolding store_report
  Hoare-store_report report =
      Hoare-after (apply_report crates policy row room clocks report)
        (log_report crates policy row lease room clocks report) (Hoare-log_report report)

  Hoare-read_report :
      (update_id : Uuid) (request : Value)
      → Hoare Anything
          (read_report crates policy row.task update_id request)
          (λ report _. report.update_id ≡ update_id)
  unfolding read_report
  Hoare-read_report update_id request = search (Hoare-after, Hoare-returns) depth 12

  Hoare-record_allowed :
      (update_id : Uuid) (request : Value)
      → Hoare Anything
          (record_allowed crates policy row lease room clocks update_id request)
          (Logs row.task.task_id update_id)
  unfolding record_allowed
  Hoare-record_allowed update_id request =
      Hoare-bind (λ (report : Report) s. report.update_id ≡ update_id)
        (read_report crates policy row.task update_id request)
        (λ report. store_report crates policy row lease room clocks report >>= λ o. pure (ok o))
        (Hoare-read_report update_id request)
        (λ report. record {
          run = λ s r t same h.
              let (o, u, stored, last) =
                >>=-eq-ok (store_report crates policy row lease room clocks report)
                  (λ o. pure (ok o)) s h in
              let logged = (Hoare-store_report report).run s o u tt stored in
              let now : u ≡ t = cc last in
              let result : r ≡ ok o = cc last in
              λ o' e. let outcome : o' ≡ o = ground arith in rw (outcome, ← same, ← now) logged;
        })

  Hoare-record_denied :
      (error : ConversationError) (update_id : Uuid)
      → Hoare Anything
          (record_denied crates policy row clocks error)
          (Logs row.task.task_id update_id)
  unfolding record_denied
  Hoare-record_denied error update_id =
      Hoare-if (is_open row.task.state) _ _
        (λ _.
          Hoare-after (fail_task crates.env clocks.current_timestamp row error)
            (λ _. pure (err error))
            (λ _. record { run = λ s r t _ h. λ o e. absurd (ground arith) }))
        (λ _. Hoare-fail error)

  Hoare-record_new :
      (update_id : Uuid) (request : Value)
      → Hoare Anything
          (record_new crates policy row lease room clocks update_id request)
          (Logs row.task.task_id update_id)
  unfolding record_new
  Hoare-record_new update_id request =
      elim (Result-cases (task_authority policy clocks.checked_at row (under lease))) [
        | inl (granted, allowed) ↦ rw (allowed, record_new) (Hoare-record_allowed update_id request)
        | inr (error, denied) ↦ rw (denied, record_new) (Hoare-record_denied error update_id)
      ]

  -- A repetition changes nothing, and its response is the one that was stored.
  Keeps-repeat :
      (request : Value) (prior : UpdateRequestRow)
      → Keeps (λ (w : ConversationWorld). w) (repeat crates policy row lease clocks request prior)
  unfolding repeat
  Keeps-repeat request prior = search keeps_rules

  pub Hoare-repeat :
      (request : Value) (prior : UpdateRequestRow)
      → Hoare Anything
          (repeat crates policy row lease clocks request prior)
          (λ r _. r ≡ ok (record { response = prior.response; event = none }))
  unfolding repeat
  Hoare-repeat request prior = search (Hoare-after, Hoare-returns)

  pub record_identified_logs :
      (update_id : Uuid) (request : Value) (s t : ConversationWorld) (o : ConversationUpdateOutcome)
      → record_identified crates policy row lease room clocks request update_id s ≡ ok (ok o, t)
      → Logged row.task.task_id update_id o.response t
  unfolding record_identified
  record_identified_logs update_id request s t o h =
      elim (Option-cases
        (find (is_request row.task.task_id update_id) s.conversation_update_requests)) [
          | inl new ↦ (Hoare-record_new update_id request).run s (ok o) t tt (ground arith) o refl
          | inr (prior, found) ↦
              let again : repeat crates policy row lease clocks request prior s ≡ ok (ok o, t) =
                ground arith in
              let same = (Keeps-repeat request prior).same s (ok o) t again in
              let answer = (Hoare-repeat request prior).run s (ok o) t tt again in
              (prior, rw same found, (let e : prior.response ≡ o.response = ground arith in e))
        ]

  -- After the response was stored, a report with its identifier is a repetition.
  pub record_identified_repeats :
      (update_id : Uuid) (request response : Value) (s t : ConversationWorld)
      (r : Result ConversationError ConversationUpdateOutcome)
      → Logged row.task.task_id update_id response s
      → record_identified crates policy row lease room clocks request update_id s ≡ ok (r, t)
      → (t ≡ s) × (r ≡ ok (record { response = response; event = none }))
  unfolding record_identified
  record_identified_repeats update_id request response s t r (prior, found, stored) h =
      let again : repeat crates policy row lease clocks request prior s ≡ ok (r, t) =
        ground arith in
      (
        (Keeps-repeat request prior).same s r t again,
        rw (← stored) ((Hoare-repeat request prior).run s r t tt again),
      )

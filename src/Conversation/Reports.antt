-- ===== src/Conversation/Reports.antt =====
-- src/conversation_store.rs: the rest of `record_update`: what a report stores, its repetition, and the
-- checks before it.
use thought_khoral_room_gate.Prelude.{
  ℕ, String, Bool, true, false, ◌&&◌, ◌||◌, not, none, some, [], ◌∷◌, Result, ok, err, ensure,
  ok_or, any, find, leb, ltb, ◌==◌, str_eq, if◌then◌else◌,
}
use thought_khoral_room_gate.Tx.{Tx, ◌>>=◌, pure, lift, fail, gets}
use thought_khoral_room_gate.Json.{Value, string, json, json_number, as_str, as_i64, value_eq, at}
use thought_khoral_room_gate.Env.{Uuid, Instant}
use thought_khoral_room_gate.Conversation.{
  ConversationState, TaskRow, UpdateRow, UpdateRequestRow, ConversationWorld, Crates, json_uuid,
}
use thought_khoral_room_gate.Conversation.Protocol.{
  ConversationError, codex_agent_id, max_safe_integer, profile_version, validate_profile_value,
  failure_code, invalid_task_input, forbidden, conversation_stale, context_mismatch,
  authentication_required, conversation_interrupted, duplicate_conflict,
}
use thought_khoral_room_gate.Conversation.Policy.{ConversationPolicy}
use thought_khoral_room_gate.Conversation.Authority.{
  JoinedRow, is_open, id_is, is_task, policy_holds, expires_after, require_enabled, task_authority,
  under,
}
use thought_khoral_room_gate.Conversation.Tasks.{
  task_in_transaction, update_tasks, fail_task_state, fail_task, insert_update, with_ordinal,
}
use thought_khoral_room_gate.Conversation.Claims.{room_of_task, settle}
use thought_khoral_room_gate.Conversation.Citations.{uuid_field}
use thought_khoral_room_gate.Conversation.Updates.{
  Clocks, ConversationUpdateOutcome, is_terminal, metadata_of, is_request, insert_request,
  phase_is_accepted, is_acceptance, replaced_by, delete_updates, recent, progress_at, complete,
  digest_of,
}

-- The parts of a report that was checked: its request, `updateId`, `ordinal`, `kind` and `data`.
pub record Report : Type 0 where
  pub request : Value
  pub update_id : Uuid
  pub ordinal : ℕ
  pub kind : String
  pub content : Value

abbrev is_superseded : ConversationState → Bool
is_superseded ConversationState.superseded = true
is_superseded _ = false

abbrev pub is_metadata : String → Bool
is_metadata kind = str_eq kind "settings" || str_eq kind "usage"

-- The column that the kind names.
abbrev pub with_metadata : String → Value → Instant → TaskRow → TaskRow
with_metadata kind content now task =
    if str_eq kind "settings"
    then record task { effective_settings = some content; updated_at = now }
    else record task { usage = some content; updated_at = now }

abbrev update_row : TaskRow → Uuid → Report → Instant → UpdateRow
update_row task room report now = record {
  task_id = task.task_id;
  conversation_id = task.conversation_id;
  room_id = room;
  agent_id = codex_agent_id;
  generation = task.generation;
  update_id = report.update_id;
  ordinal = report.ordinal;
  kind = report.kind;
  occurred_at = now;
  content = report.content;
}

abbrev pub request_row : TaskRow → Uuid → Report → Value → Instant → UpdateRequestRow
request_row task room report response now = record {
  task_id = task.task_id;
  conversation_id = task.conversation_id;
  room_id = room;
  agent_id = codex_agent_id;
  generation = task.generation;
  update_id = report.update_id;
  ordinal = report.ordinal;
  request = report.request;
  response = response;
  received_at = now;
}

abbrev coalesced : Instant → TaskRow → Report → Bool → Bool
coalesced now task report prior_acceptance =
    str_eq report.kind "progress"
    && (if phase_is_accepted report.content
        then prior_acceptance
        else recent now task.last_progress_at)

module _ (crates : Crates) (policy : ConversationPolicy) where
  -- `kind == "failed"`.
  unfoldable pub fail_as_reported :
      Instant → JoinedRow → Value → Tx ConversationWorld ConversationError (Unit {0})
  unfolding failure_code fail_task_state
  fail_as_reported now row content = do
    code ← lift (ok_or (as_str (at content "code")) invalid_task_input)
    error ← lift (failure_code code)
    fail_task_state now row error

  -- The metadata of the turn, and the response.
  unfoldable pub note_metadata :
      TaskRow → Instant → Report → Tx ConversationWorld ConversationError ConversationUpdateOutcome
  unfolding update_tasks
  note_metadata task now report = do
    _ ←
        (if is_metadata report.kind
          then update_tasks (is_task task.task_id)
              (with_metadata report.kind report.content (crates.env.stored_instant now))
          else pure tt)
    pure (record {
      response = json (
          ("profileVersion", string profile_version)
          ∷ (("taskId", json_uuid crates.env task.task_id)
              ∷ (("updateId", json_uuid crates.env report.update_id)
                  ∷ (("ordinal", json_number report.ordinal) ∷ []))));
      event = none;
    })

  unfoldable pub fail_if_reported :
      Instant → JoinedRow → Report → Tx ConversationWorld ConversationError (Unit {0})
  unfolding fail_as_reported
  fail_if_reported now row report =
      if str_eq report.kind "failed" then fail_as_reported now row report.content else pure tt

  -- The effect of the report on the turn, and the response.
  unfoldable pub apply_report :
      JoinedRow
      → Uuid
      → Clocks
      → Report
      → Tx ConversationWorld ConversationError ConversationUpdateOutcome
  unfolding complete fail_if_reported note_metadata
  apply_report row room clocks report =
      if str_eq report.kind "completed"
      then complete crates policy row room clocks.now report.content
      else (do
        _ ← fail_if_reported clocks.current_timestamp row report
        note_metadata row.task clocks.now report)

  -- The snapshot for browsers: progress within a second is coalesced.
  unfoldable pub keep_snapshot :
      TaskRow → Uuid → Instant → Report → Tx ConversationWorld ConversationError (Unit {0})
  unfolding delete_updates insert_update update_tasks
  keep_snapshot task room now report = do
    prior ← gets (λ w. any (is_acceptance task.task_id) w.conversation_updates)
    if coalesced now task report prior then pure tt else (do
      _ ← delete_updates (replaced_by report.kind task.task_id)
      _ ← insert_update (update_row task room report (crates.env.stored_instant now))
      if str_eq report.kind "progress"
          then update_tasks (is_task task.task_id) (progress_at (crates.env.stored_instant now))
          else pure tt)

  -- The report is kept for its repetition, and the authority is checked again.
  unfoldable pub log_report :
      JoinedRow
      → Uuid
      → Uuid
      → Clocks
      → Report
      → ConversationUpdateOutcome
      → Tx ConversationWorld ConversationError ConversationUpdateOutcome
  unfolding keep_snapshot update_tasks insert_request task_authority
  log_report row lease room clocks report outcome = do
    _ ← keep_snapshot row.task room clocks.now report
    _ ← update_tasks (is_task row.task.task_id) (with_ordinal report.ordinal)
    _ ←
        insert_request
          (request_row row.task room report outcome.response (crates.env.stored_instant clocks.now))
    _ ← lift (task_authority policy clocks.committed_at row (under lease))
    pure outcome

  unfoldable pub store_report :
      JoinedRow
      → Uuid
      → Uuid
      → Clocks
      → Report
      → Tx ConversationWorld ConversationError ConversationUpdateOutcome
  unfolding apply_report log_report
  store_report row lease room clocks report = do
    outcome ← apply_report row room clocks report
    log_report row lease room clocks report outcome

  -- A running turn keeps an ordinal for its end.
  unfoldable pub read_report :
      TaskRow → Uuid → Value → Tx ConversationWorld ConversationError Report
  unfolding metadata_of
  read_report task update_id request = do
    ordinal ← lift (ok_or (as_i64 (at request "ordinal")) invalid_task_input)
    _ ← lift (ensure (ltb task.last_update_ordinal ordinal) duplicate_conflict)
    kind ← lift (ok_or (as_str (at request "kind")) invalid_task_input)
    _ ←
        lift
          (ensure (not (ordinal == max_safe_integer && not (is_terminal kind))) invalid_task_input)
    _ ← lift (metadata_of kind (at request "data"))
    pure (record {
      request = request;
      update_id = update_id;
      ordinal = ordinal;
      kind = kind;
      content = at request "data";
    })

  unfoldable pub record_allowed :
      JoinedRow
      → Uuid
      → Uuid
      → Clocks
      → Uuid
      → Value
      → Tx ConversationWorld ConversationError (Result ConversationError ConversationUpdateOutcome)
  unfolding read_report store_report
  record_allowed row lease room clocks update_id request = do
    report ← read_report row.task update_id request
    outcome ← store_report row lease room clocks report
    pure (ok outcome)

  -- A report without authority fails an open turn.
  unfoldable pub record_denied :
      JoinedRow
      → Clocks
      → ConversationError
      → Tx ConversationWorld ConversationError (Result ConversationError ConversationUpdateOutcome)
  unfolding fail_task
  record_denied row clocks error =
      if is_open row.task.state
      then (do _ ← fail_task crates.env clocks.current_timestamp row error; pure (err error))
      else fail error

  -- An update with a new identifier.
  unfoldable pub record_new :
      JoinedRow
      → Uuid
      → Uuid
      → Clocks
      → Uuid
      → Value
      → Tx ConversationWorld ConversationError (Result ConversationError ConversationUpdateOutcome)
  unfolding task_authority record_allowed record_denied
  record_new row lease room clocks update_id request =
      elim (task_authority policy clocks.checked_at row (under lease)) [
        | err error ↦ record_denied row clocks error
        | ok _ ↦ record_allowed row lease room clocks update_id request
      ]

  -- The replay of a terminal update is bound to its lease.
  unfoldable pub replay_allowed : JoinedRow → Clocks → Result ConversationError (Unit {0})
  replay_allowed row clocks =
      if not (expires_after clocks.checked_at row.task.lease_expires_at)
      then err conversation_interrupted
      else if leb row.task.authorization_expires_at clocks.now
      then err authentication_required
      else if is_superseded row.conversation_state || leb row.task.expires_at clocks.committed_at
      then err conversation_stale
      else ensure (policy_holds policy row.task) forbidden

  -- The update was recorded before.
  unfoldable pub repeat :
      JoinedRow
      → Uuid
      → Clocks
      → Value
      → UpdateRequestRow
      → Tx ConversationWorld ConversationError (Result ConversationError ConversationUpdateOutcome)
  unfolding replay_allowed task_authority
  repeat row lease clocks request prior = do
    _ ← lift (ensure (value_eq prior.request request) duplicate_conflict)
    _ ← lift (
        if is_open row.task.state
        then task_authority policy clocks.checked_at row (under lease)
        else replay_allowed row clocks)
    pure (ok (record { response = prior.response; event = none }))

  unfoldable pub record_identified :
      JoinedRow
      → Uuid
      → Uuid
      → Clocks
      → Value
      → Uuid
      → Tx ConversationWorld ConversationError (Result ConversationError ConversationUpdateOutcome)
  unfolding record_new repeat
  record_identified row lease room clocks request update_id w =
      elim (find (is_request row.task.task_id update_id) w.conversation_update_requests) [
        | some prior ↦ repeat row lease clocks request prior w
        | none ↦ record_new row lease room clocks update_id request w
      ]

  -- The checks of the request against the row, up to its identifier.
  unfoldable pub check_request :
      Uuid → Value → JoinedRow → Tx ConversationWorld ConversationError Uuid
  unfolding require_enabled uuid_field
  check_request lease request row = do
    _ ← lift (require_enabled policy codex_agent_id)
    _ ← lift (
        ensure
          (value_eq (at request "generation") (json_number row.task.generation)
            && value_eq (at request "contextDigest") (digest_of crates policy row.task))
          context_mismatch)
    _ ← lift (ensure (id_is row.task.lease_token lease) forbidden)
    lift (uuid_field crates.env request "updateId")

  unfoldable pub record_for :
      Uuid
      → Uuid
      → Clocks
      → Value
      → JoinedRow
      → Tx ConversationWorld ConversationError (Result ConversationError ConversationUpdateOutcome)
  unfolding check_request record_identified
  record_for lease room clocks request row = do
    update_id ← check_request lease request row
    record_identified row lease room clocks request update_id

  -- The checks before the room is known.
  unfoldable pub find_room : Uuid → Value → Tx ConversationWorld ConversationError Uuid
  unfolding validate_profile_value room_of_task
  find_room task request = do
    _ ← lift (validate_profile_value crates.is_valid "update" request)
    _ ← lift (ensure (value_eq (at request "taskId") (json_uuid crates.env task)) context_mismatch)
    room_of_task task

  unfoldable pub record_update_in_transaction :
      Uuid
      → Uuid
      → Clocks
      → Value
      → Tx ConversationWorld ConversationError (Result ConversationError ConversationUpdateOutcome)
  unfolding find_room task_in_transaction record_for
  record_update_in_transaction task lease clocks request = do
    room ← find_room task request
    row ← task_in_transaction task
    record_for lease room clocks request row

  unfoldable pub record_update :
      Uuid
      → Uuid
      → Clocks
      → Value
      → ConversationWorld
      → ConversationWorld × Result ConversationError ConversationUpdateOutcome
  unfolding record_update_in_transaction
  record_update task lease clocks request =
      settle (record_update_in_transaction task lease clocks request)

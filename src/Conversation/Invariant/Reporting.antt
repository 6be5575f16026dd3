-- ===== src/Conversation/Invariant/Reporting.antt =====
-- `record_update` keeps the invariant of the conversations.
use thought_khoral_room_gate.Prelude.{
  ◌≡◌, refl, String, Bool, true, List, [], ◌∷◌, ok, arith, ok_or, update_where, str_eq,
}
use thought_khoral_room_gate.Tx.{◌>>=◌, pure, lift}
use thought_khoral_room_gate.Tx.Frame.{Keeps, Keeps-lift, keeps_rules}
use thought_khoral_room_gate.Tx.Hoare.{
  Hoare, Hoare-bind, Hoare-keeps, Hoare-pure, Hoare-if, Hoare-weaken, Stable-Hoare, Stable-bind,
  Stable-Keeps, stable_rules,
}
use thought_khoral_room_gate.Json.{Value, as_str, at}
use thought_khoral_room_gate.Env.{Uuid, Instant}
use thought_khoral_room_gate.Store.{RoomEvent}
use thought_khoral_room_gate.Conversation.{
  TaskRow, UpdateRow, UpdateRequestRow, DisclosureRow, Crates,
}
use thought_khoral_room_gate.Conversation.Protocol.{failure_code, invalid_task_input}
use thought_khoral_room_gate.Conversation.Policy.{ConversationPolicy}
use thought_khoral_room_gate.Conversation.Authority.{
  JoinedRow, is_open, is_busy, is_task, is_conversation,
}
use thought_khoral_room_gate.Conversation.Tasks.{
  fail_task_state, update_tasks, update_conversations,
}
use thought_khoral_room_gate.Conversation.Updates.{
  Clocks, ConversationUpdateOutcome, publish_reply, store_completion, disclose_source, disclose,
  disclose_sources, complete, completed_task, consumed, insert_disclosure, insert_request,
  delete_updates, progress_at,
}
use thought_khoral_room_gate.Conversation.Reports.{
  Report, fail_as_reported, fail_if_reported, note_metadata, apply_report, keep_snapshot,
  log_report, store_report, read_report, record_allowed, with_metadata,
}
use thought_khoral_room_gate.Conversation.Invariant.{IsSound}
use thought_khoral_room_gate.Conversation.Invariant.Frame.{
  tables, Keeps-in_rooms, Keeps-insert_request, Keeps-delete_updates, Keeps-validate_citations,
  Hoare-update_tasks, Hoare-update_conversations,
}
use thought_khoral_room_gate.Conversation.Invariant.Joined.{Reads, Sound, together-IsSound}
use thought_khoral_room_gate.Conversation.Invariant.Working.{
  KeepsSound, Sound-insert_update, Sound-neutral, Sound-with_ordinal, Hoare-fail_task_state,
}

Sound-insert_request : (row : UpdateRequestRow) → KeepsSound (insert_request row)
Sound-insert_request row = Stable-Keeps Sound tables (insert_request row) (Keeps-insert_request row)

Sound-delete_updates : (p : UpdateRow → Bool) → KeepsSound (delete_updates p)
Sound-delete_updates p = Stable-Keeps Sound tables (delete_updates p) (Keeps-delete_updates p)

Sound-insert_disclosure : (row : DisclosureRow) → KeepsSound (insert_disclosure row)
unfolding insert_disclosure
Sound-insert_disclosure row =
    Stable-Keeps Sound tables (insert_disclosure row) (record { same = λ s a t h. ground arith })

Sound-progress_at :
    (task : Uuid) (now : Instant) → KeepsSound (update_tasks (is_task task) (progress_at now))
Sound-progress_at task now =
    Sound-neutral (is_task task) (progress_at now) (λ t. (refl, refl, refl))

Sound-with_metadata :
    (task : Uuid) (kind : String) (content : Value) (now : Instant)
    → KeepsSound (update_tasks (is_task task) (with_metadata kind content now))
Sound-with_metadata task kind content now =
    Sound-neutral (is_task task) (with_metadata kind content now)
      (λ t. (ground arith, ground arith, ground arith))

module _ (crates : Crates) (policy : ConversationPolicy) where
  Keeps-publish_reply :
      (task : TaskRow) (room : Uuid) (now : Instant) (content : Value)
      → Keeps tables (publish_reply crates policy task room now content)
  unfolding publish_reply
  Keeps-publish_reply task room now content =
      search (keeps_rules, Keeps-in_rooms, Keeps-validate_citations) depth 12

  Sound-disclose_source :
      (task : TaskRow) (room : Uuid) (source : Value)
      → KeepsSound (disclose_source crates policy task room source)
  unfolding disclose_source
  Sound-disclose_source task room source = search (stable_rules, Sound-insert_disclosure)

  Sound-disclose :
      (task : TaskRow) (room : Uuid) (sources : List Value)
      → KeepsSound (disclose crates policy task room sources)
  unfolding disclose
  Sound-disclose task room [] = search stable_rules
  Sound-disclose task room (source ∷ sources) =
      Stable-bind (disclose_source crates policy task room source)
        (λ _. disclose crates policy task room sources) (Sound-disclose_source task room source)
        (λ _. Sound-disclose task room sources)

  Sound-disclose_sources :
      (task : TaskRow) (room : Uuid) (reply : RoomEvent) (acknowledgement : Value)
      → KeepsSound (disclose_sources crates policy task room reply acknowledgement)
  unfolding disclose_sources
  Sound-disclose_sources task room reply acknowledgement = search (stable_rules, Sound-disclose)

  Sound-note_metadata :
      (task : TaskRow) (now : Instant) (report : Report)
      → KeepsSound (note_metadata crates policy task now report)
  unfolding note_metadata
  Sound-note_metadata task now report = search (stable_rules, Sound-with_metadata)

  Sound-keep_snapshot :
      (task : TaskRow) (room : Uuid) (now : Instant) (report : Report)
      → KeepsSound (keep_snapshot crates policy task room now report)
  unfolding keep_snapshot
  Sound-keep_snapshot task room now report =
      search (stable_rules, Sound-delete_updates, Sound-insert_update, Sound-progress_at) depth 12

  Sound-log_report :
      (row : JoinedRow) (lease room : Uuid) (clocks : Clocks) (report : Report)
      (outcome : ConversationUpdateOutcome)
      → KeepsSound (log_report crates policy row lease room clocks report outcome)
  unfolding log_report
  Sound-log_report row lease room clocks report outcome =
      search (stable_rules, Sound-keep_snapshot, Sound-with_ordinal, Sound-insert_request)

  Keeps-read_report :
      (task : TaskRow) (update_id : Uuid) (request : Value)
      → Keeps tables (read_report crates policy task update_id request)
  unfolding read_report
  Keeps-read_report task update_id request = search keeps_rules depth 12

  module _ (row : JoinedRow) (open_task : is_open row.task.state ≡ true)
      (busy : is_busy row.conversation_state ≡ true) where
    Hoare-store_completion :
        (now : Instant) (content : Value) (reply : RoomEvent) (acknowledgement : Value)
        → Hoare
            (λ s. Reads row (tables s))
            (store_completion crates policy row.task now content reply acknowledgement)
            (λ _ s. Sound (tables s))
    unfolding store_completion
    Hoare-store_completion now content reply acknowledgement =
        let f = completed_task crates policy content reply acknowledgement now in
        let g = consumed crates policy row.task.context_revision now in
        let q = is_conversation row.task.conversation_id in
        Hoare-bind (λ _ s. IsSound (update_where q g s.agent_conversations) s.conversation_tasks)
          (update_tasks (is_task row.task.task_id) f) (λ _. update_conversations q g)
          (Hoare-weaken (update_tasks (is_task row.task.task_id) f)
            (Hoare-update_tasks (λ (cs, ts). IsSound (update_where q g cs) ts)
              (is_task row.task.task_id) f)
            (λ s reads.
              together-IsSound row reads open_task f g (λ t. (refl, refl)) (λ c. (refl, refl, refl))
                busy refl (λ h. cc h))
            (λ a s h. h))
          (λ _. Hoare-update_conversations Sound q g)

    Hoare-complete :
        (room : Uuid) (now : Instant) (content : Value)
        → Hoare
            (λ s. Reads row (tables s))
            (complete crates policy row room now content)
            (λ _ s. Sound (tables s))
    unfolding complete
    Hoare-complete room now content =
        let stored = crates.env.stored_instant now in
        Hoare-bind (λ _ s. Reads row (tables s))
          (publish_reply crates policy row.task room now content)
          (λ published.
            store_completion crates policy row.task stored content published.0 published.1 >>= λ _.
            disclose_sources crates policy row.task room published.0 published.1)
          (Hoare-keeps tables (Reads row) _ (Keeps-publish_reply row.task room now content))
          (λ (reply, acknowledgement).
            Hoare-bind (λ _ s. Sound (tables s))
              (store_completion crates policy row.task stored content reply acknowledgement)
              (λ _. disclose_sources crates policy row.task room reply acknowledgement)
              (Hoare-store_completion stored content reply acknowledgement)
              (λ _. Stable-Hoare _ (Sound-disclose_sources row.task room reply acknowledgement)))

    Hoare-fail_as_reported :
        (now : Instant) (content : Value)
        → Hoare
            (λ s. Reads row (tables s))
            (fail_as_reported crates policy now row content)
            (λ _ s. Sound (tables s))
    unfolding fail_as_reported
    Hoare-fail_as_reported now content =
        let read = ok_or (as_str (at content "code")) invalid_task_input in
        Hoare-bind (λ _ s. Reads row (tables s)) (lift read)
          (λ code. lift (failure_code code) >>= fail_task_state now row)
          (Hoare-keeps tables (Reads row) (lift read) (Keeps-lift read))
          (λ code.
            Hoare-bind (λ _ s. Reads row (tables s)) (lift (failure_code code))
              (fail_task_state now row)
              (Hoare-keeps tables (Reads row) (lift (failure_code code))
                (Keeps-lift (failure_code code)))
              (Hoare-fail_task_state row open_task now))

    Hoare-fail_if_reported :
        (now : Instant) (report : Report)
        → Hoare
            (λ s. Reads row (tables s))
            (fail_if_reported crates policy now row report)
            (λ _ s. Sound (tables s))
    unfolding fail_if_reported
    Hoare-fail_if_reported now report =
        Hoare-if (str_eq report.kind "failed") _ _ (λ _. Hoare-fail_as_reported now report.content)
          (λ _.
            Hoare-weaken (pure tt) (Hoare-pure {P = λ s. Sound (tables s)} tt) (λ s h. h.0)
              (λ a s h. h))

    Hoare-apply_report :
        (room : Uuid) (clocks : Clocks) (report : Report)
        → Hoare
            (λ s. Reads row (tables s))
            (apply_report crates policy row room clocks report)
            (λ _ s. Sound (tables s))
    unfolding apply_report
    Hoare-apply_report room clocks report =
        Hoare-if (str_eq report.kind "completed") _ _
          (λ _. Hoare-complete room clocks.now report.content)
          (λ _.
            Hoare-bind (λ _ s. Sound (tables s))
              (fail_if_reported crates policy clocks.current_timestamp row report)
              (λ _. note_metadata crates policy row.task clocks.now report)
              (Hoare-fail_if_reported clocks.current_timestamp report)
              (λ _. Stable-Hoare _ (Sound-note_metadata row.task clocks.now report)))

    Hoare-store_report :
        (lease room : Uuid) (clocks : Clocks) (report : Report)
        → Hoare
            (λ s. Reads row (tables s))
            (store_report crates policy row lease room clocks report)
            (λ _ s. Sound (tables s))
    unfolding store_report
    Hoare-store_report lease room clocks report =
        Hoare-bind (λ _ s. Sound (tables s)) (apply_report crates policy row room clocks report)
          (log_report crates policy row lease room clocks report)
          (Hoare-apply_report room clocks report)
          (λ outcome. Stable-Hoare _ (Sound-log_report row lease room clocks report outcome))

    pub Hoare-record_allowed :
        (lease room : Uuid) (clocks : Clocks) (update_id : Uuid) (request : Value)
        → Hoare
            (λ s. Reads row (tables s))
            (record_allowed crates policy row lease room clocks update_id request)
            (λ _ s. Sound (tables s))
    unfolding record_allowed
    Hoare-record_allowed lease room clocks update_id request =
        Hoare-bind (λ _ s. Reads row (tables s))
          (read_report crates policy row.task update_id request)
          (λ report. store_report crates policy row lease room clocks report >>= λ outcome.
            pure (ok outcome))
          (Hoare-keeps tables (Reads row) _ (Keeps-read_report row.task update_id request))
          (λ report.
            Hoare-bind (λ _ s. Sound (tables s))
              (store_report crates policy row lease room clocks report)
              (λ outcome. pure (ok outcome)) (Hoare-store_report lease room clocks report)
              (λ outcome. Hoare-pure (ok outcome)))

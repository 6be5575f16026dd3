-- ===== src/Conversation/Tasks.antt =====
-- src/conversation_store.rs: the row of a turn with its conversation, and how a turn fails.
use thought_khoral_room_gate.Prelude.{
  ℕ, ◌+◌, Bool, ◌&&◌, ◌||◌, none, some, List, [], ◌∷◌, ◌++◌, ok, err, ensure, any, find,
  update_where, leb, ◌==◌, if◌then◌else◌,
}
use thought_khoral_room_gate.Tx.{Tx, ◌>>=◌, lift}
use thought_khoral_room_gate.Json.{Value, string, json}
use thought_khoral_room_gate.Env.{Uuid, Instant, Env}
use thought_khoral_room_gate.Store.Events.{new_v4}
use thought_khoral_room_gate.Conversation.{
  ConversationState, TaskState, ConversationRow, TaskRow, UpdateRow, ConversationWorld, in_rooms,
}
use thought_khoral_room_gate.Conversation.Protocol.{
  ConversationError, codex_agent_id, max_safe_integer, code, runtime_unavailable,
  session_unavailable, execution_failed,
}
use thought_khoral_room_gate.Conversation.Authority.{
  JoinedRow, is_open, id_is, is_task, is_codex_task, is_conversation, belongs, joined,
}

unfoldable pub task_in_transaction : Uuid → Tx ConversationWorld ConversationError JoinedRow
task_in_transaction task w = elim (find (is_codex_task task) w.conversation_tasks) [
  | none ↦ err session_unavailable
  | some t ↦ elim (find (belongs t) w.agent_conversations) [
    | none ↦ err session_unavailable
    | some c ↦ ok (joined t c, w)
  ]
]

abbrev pub set_tasks : ConversationWorld → List TaskRow → ConversationWorld
set_tasks w rows = record w { conversation_tasks = rows }

abbrev pub set_conversations : ConversationWorld → List ConversationRow → ConversationWorld
set_conversations w rows = record w { agent_conversations = rows }

-- `UPDATE conversation_tasks SET … WHERE …`, and of agent_conversations.
unfoldable pub update_tasks :
    (TaskRow → Bool) → (TaskRow → TaskRow) → Tx ConversationWorld ConversationError (Unit {0})
update_tasks p f w = ok (tt, set_tasks w (update_where p f w.conversation_tasks))

unfoldable pub update_conversations :
    (ConversationRow → Bool)
    → (ConversationRow → ConversationRow)
    → Tx ConversationWorld ConversationError (Unit {0})
update_conversations p f w = ok (tt, set_conversations w (update_where p f w.agent_conversations))

abbrev pub failure_of : ConversationError → Value
failure_of error = json (("code", string (code error)) ∷ (("message", string (code error)) ∷ []))

abbrev pub failed_task : Instant → ConversationError → TaskRow → TaskRow
failed_task now error task = record task {
  state = TaskState.failed;
  failure = some (failure_of error);
  updated_at = now;
}

abbrev pub released : ConversationState → Instant → ConversationRow → ConversationRow
released state now row = record row { state = state; active_task_id = none; updated_at = now }

-- The conversation whose active task this is.
abbrev pub works_on : TaskRow → ConversationRow → Bool
works_on task row =
    is_conversation task.conversation_id row && id_is row.active_task_id task.task_id

-- `now` is CURRENT_TIMESTAMP.
unfoldable pub fail_task_state :
    Instant → JoinedRow → ConversationError → Tx ConversationWorld ConversationError (Unit {0})
unfolding update_tasks update_conversations
fail_task_state now row error = do
  _ ← update_tasks (λ t. is_task row.task.task_id t && is_open t.state) (failed_task now error)
  update_conversations (works_on row.task) (released ConversationState.unusable now)

-- PRIMARY KEY (task_id, update_id) and UNIQUE (task_id, ordinal).
abbrev pub same_update : UpdateRow → UpdateRow → Bool
same_update new old =
    old.task_id == new.task_id && (old.update_id == new.update_id || old.ordinal == new.ordinal)

unfoldable pub insert_update : UpdateRow → Tx ConversationWorld ConversationError (Unit {0})
insert_update row w =
    if any (same_update row) w.conversation_updates
    then err runtime_unavailable
    else ok (tt, record w { conversation_updates = w.conversation_updates ++ row ∷ [] })

abbrev pub with_ordinal : ℕ → TaskRow → TaskRow
with_ordinal ordinal task = record task { last_update_ordinal = ordinal }

abbrev failed_update : JoinedRow → ConversationError → Instant → Uuid → UpdateRow
failed_update row error now update_id = record {
  task_id = row.task.task_id;
  conversation_id = row.task.conversation_id;
  room_id = row.task.room_id;
  agent_id = codex_agent_id;
  generation = row.task.generation;
  update_id = update_id;
  ordinal = row.task.last_update_ordinal + 1;
  kind = "failed";
  occurred_at = now;
  content = json (("code", string (code error)) ∷ []);
}

-- The rest of `fail_task`: the failure as an update of the task.
unfoldable pub record_failure :
    Env
    → Instant
    → JoinedRow
    → ConversationError
    → Tx ConversationWorld ConversationError (Unit {0})
unfolding insert_update update_tasks
record_failure env now row error = do
  let ordinal = row.task.last_update_ordinal + 1
  _ ← lift (ensure (leb ordinal max_safe_integer) execution_failed)
  update_id ← in_rooms (new_v4 env)
  _ ← insert_update (failed_update row error now update_id)
  update_tasks (is_task row.task.task_id) (with_ordinal ordinal)

unfoldable pub fail_task :
    Env
    → Instant
    → JoinedRow
    → ConversationError
    → Tx ConversationWorld ConversationError (Unit {0})
unfolding fail_task_state record_failure
fail_task env now row error = do _ ← fail_task_state now row error; record_failure env now row error

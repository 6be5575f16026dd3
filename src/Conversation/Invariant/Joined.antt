-- ===== src/Conversation/Invariant/Joined.antt =====
-- The row that a transaction reads of a turn: its task and its conversation are rows of the two tables,
-- and who has the authority works on an open turn.
use thought_khoral_room_gate.Prelude.{
  ◌≤◌, ◌≡◌, refl, Bool, true, false, ◌&&◌, some, List, ok, inl, inr, arith, count, find, find-some,
  update_where-find-none, find-key, update_where, Option-cases, count-update_where_same, count_mono,
}
use thought_khoral_room_gate.Tx.Hoare.{Hoare}
use thought_khoral_room_gate.Env.{Uuid, Instant}
use thought_khoral_room_gate.Conversation.{
  ConversationState, ConversationRow, TaskRow, ConversationWorld,
}
use thought_khoral_room_gate.Conversation.Protocol.{ConversationError, codex_agent_id}
use thought_khoral_room_gate.Conversation.Policy.{ConversationPolicy}
use thought_khoral_room_gate.Conversation.Authority.{
  JoinedRow, is_open, is_busy, id_is, is_task, is_codex_task, is_conversation, belongs, joined,
  Purpose, task_authority,
}
use thought_khoral_room_gate.Conversation.Tasks.{
  task_in_transaction, failed_task, released, works_on,
}
use thought_khoral_room_gate.Conversation.Invariant.{
  open_in, is_unchecked, IsSound, close-IsSound, advance-IsSound, count_unchecked,
}
use thought_khoral_room_gate.Conversation.Invariant.Frame.{Tables, tables}

pub record IsJoined (cs : List ConversationRow) (ts : List TaskRow) (row : JoinedRow) : Type 0 where
  pub conversation : ConversationRow
  pub task_found : find (is_task row.task.task_id) ts ≡ some row.task
  pub conversation_found : find (is_conversation row.task.conversation_id) cs ≡ some conversation
  pub same_room : conversation.room_id ≡ row.task.room_id
  pub codex : conversation.agent_id ≡ codex_agent_id
  pub state_read : row.conversation_state ≡ conversation.state
  pub active_read : row.active_task_id ≡ conversation.active_task_id

-- The invariant, with a row that was read.
abbrev pub Reads : JoinedRow → Tables → Type 0
Reads row (cs, ts) = IsSound cs ts × IsJoined cs ts row

abbrev pub Sound : Tables → Type 0
Sound (cs, ts) = IsSound cs ts

pub task_in_transaction_parts :
    (task : Uuid) (w w' : ConversationWorld) (row : JoinedRow)
    → task_in_transaction task w ≡ ok (row, w')
    → (c : ConversationRow) × (w' ≡ w)
      × (row ≡ joined row.task c)
      × (find (is_codex_task task) w.conversation_tasks ≡ some row.task)
      × (find (belongs row.task) w.agent_conversations ≡ some c)
unfolding task_in_transaction
task_in_transaction_parts task w w' row h =
    elim (Option-cases (find (is_codex_task task) w.conversation_tasks)) [
      | inl e ↦ absurd (ground arith)
      | inr (t, e) ↦ elim (Option-cases (find (belongs t) w.agent_conversations)) [
        | inl f ↦ absurd (ground arith)
        | inr (c, f) ↦ (c, ground arith, ground arith, ground arith, ground arith)
      ]
    ]

read-IsJoined :
    (task : Uuid) (cs : List ConversationRow) (ts : List TaskRow) (t : TaskRow)
    (c : ConversationRow)
    → IsSound cs ts
    → find (is_codex_task task) ts ≡ some t
    → find (belongs t) cs ≡ some c
    → IsJoined cs ts (joined t c)
read-IsJoined task cs ts t c sound found_t found_c =
    let passed_t = find-some (is_codex_task task) ts t found_t in
    let passed_c = find-some (belongs t) cs c found_c in
    record {
      conversation = c;
      task_found =
          find-key (is_codex_task task) (is_task t.task_id) ts t (sound.task_key t.task_id) found_t
            (ground arith);
      conversation_found =
          find-key (belongs t) (is_conversation t.conversation_id) cs c
            (sound.conversation_key t.conversation_id) found_c (ground arith);
      same_room = ground arith;
      codex = ground arith;
      state_read = refl;
      active_read = refl;
    }

pub task_in_transaction-Reads :
    (task : Uuid) (w w' : ConversationWorld) (row : JoinedRow)
    → Sound (tables w)
    → task_in_transaction task w ≡ ok (row, w')
    → (w' ≡ w) × (row.task.task_id ≡ task) × Reads row (tables w)
task_in_transaction-Reads task w w' row sound h =
    let (c, same, built, found_t, found_c) = task_in_transaction_parts task w w' row h in
    let passed = find-some (is_codex_task task) w.conversation_tasks row.task found_t in
    (
      same,
      ground arith,
      (
        sound,
        rw built (
            read-IsJoined task w.agent_conversations w.conversation_tasks row.task c sound found_t
              found_c),
      ),
    )

pub Hoare-task_in_transaction :
    (task : Uuid)
    → Hoare (λ s. Sound (tables s)) (task_in_transaction task) (λ row s. Reads row (tables s))
Hoare-task_in_transaction task = record {
  run = λ s row t sound h.
      let (same, _, reads) = task_in_transaction-Reads task s t row sound h in rw same reads;
}

-- What every purpose is granted under.
pub task_authority-open :
    (policy : ConversationPolicy) (now : Instant) (row : JoinedRow) (purpose : Purpose)
    → task_authority policy now row purpose ≡ ok tt
    → (is_open row.task.state ≡ true)
      × (id_is row.active_task_id row.task.task_id ≡ true)
      × (is_busy row.conversation_state ≡ true)
unfolding task_authority
task_authority-open policy now row purpose h = (ground arith, ground arith, ground arith)

-- The turn and its conversation move on together.
module _ {cs : List ConversationRow} {ts : List TaskRow} (row : JoinedRow)
    (reads : Reads row (cs, ts)) (open_task : is_open row.task.state ≡ true) where
  sound : IsSound cs ts
  sound = reads.0

  pub together-IsSound :
      (f : TaskRow → TaskRow) (g : ConversationRow → ConversationRow)
      → ((t : TaskRow) → ((f t).task_id ≡ t.task_id) × ((f t).room_id ≡ t.room_id))
      → ((c : ConversationRow)
          → ((g c).conversation_id ≡ c.conversation_id)
            × ((g c).room_id ≡ c.room_id)
            × ((g c).agent_id ≡ c.agent_id))
      → is_busy row.conversation_state ≡ true
      → is_unchecked (g reads.1.conversation) ≡ false
      → (is_open (f row.task).state ≡ true → is_busy (g reads.1.conversation).state ≡ true)
      → IsSound
          (update_where (is_conversation row.task.conversation_id) g cs)
          (update_where (is_task row.task.task_id) f ts)
  unfolding sound
  together-IsSound f g keeps_t keeps_c busy checked still =
      let c = reads.1.conversation in
      advance-IsSound sound (is_task row.task.task_id) f row.task (sound.task_key row.task.task_id)
        reads.1.task_found (keeps_t row.task).0 (keeps_t row.task).1 open_task
        (is_conversation row.task.conversation_id) g c
        (sound.conversation_key row.task.conversation_id) reads.1.conversation_found (keeps_c c).0
        (keeps_c c).1 (keeps_c c).2 reads.1.same_room reads.1.codex (subst_busy busy) checked still
    where
      subst_busy : is_busy row.conversation_state ≡ true → is_busy reads.1.conversation.state ≡ true
      subst_busy h = ground (arith, reads.1.state_read)

  -- The turn fails, and with it the conversation that works on it.
  abbrev fails : TaskRow → Bool
  fails t = is_task row.task.task_id t && is_open t.state

  fails_once : count fails ts ≤ 1
  unfolding sound
  fails_once = omega (
    arith,
    sound.task_key row.task.task_id,
    count_mono fails (is_task row.task.task_id) ts (λ t h. ground arith),
  )

  fails_found : find fails ts ≡ some row.task
  fails_found =
      find-key (is_task row.task.task_id) fails ts row.task fails_once reads.1.task_found
        (ground arith)

  works_once : count (works_on row.task) cs ≤ 1
  unfolding sound
  works_once = omega (
    arith,
    sound.conversation_key row.task.conversation_id,
    count_mono (works_on row.task) (is_conversation row.task.conversation_id) cs
        (λ c h. ground arith),
  )

  works_conversation :
      (c : ConversationRow) → find (works_on row.task) cs ≡ some c → reads.1.conversation ≡ c
  unfolding sound
  works_conversation c found =
      let passed = find-some (works_on row.task) cs c found in
      let key =
        find-key (works_on row.task) (is_conversation row.task.conversation_id) cs c
          (sound.conversation_key row.task.conversation_id) found (ground arith) in
      cc (key, reads.1.conversation_found)

  pub fail-IsSound :
      (now : Instant) (error : ConversationError)
      → IsSound
          (update_where (works_on row.task) (released ConversationState.unusable now) cs)
          (update_where fails (failed_task now error) ts)
  unfolding sound
  fail-IsSound now error = elim (Option-cases (find (works_on row.task) cs)) [
    | inl idle ↦
        rw
          (update_where-find-none (works_on row.task) (released ConversationState.unusable now) cs
            idle)
          (close-IsSound sound fails (failed_task now error) row.task fails_once fails_found refl
            refl open_task refl)
    | inr (c, found) ↦
        let passed = find-some (works_on row.task) cs c found in
        let same = works_conversation c found in
        let checked_c = count_unchecked (works_on row.task) cs c sound.checked found in
        advance-IsSound sound fails (failed_task now error) row.task fails_once fails_found refl
          refl open_task (works_on row.task) (released ConversationState.unusable now) c works_once
          found refl refl refl (ground (arith, same, reads.1.same_room))
          (ground (arith, same, reads.1.codex)) (ground arith) refl (λ h. cc h)
  ]

-- A write to tasks that keeps identifiers, rooms and states.
pub neutral-IsSound :
    {cs : List ConversationRow} {ts : List TaskRow} (p : TaskRow → Bool) (f : TaskRow → TaskRow)
    → ((t : TaskRow)
        → ((f t).task_id ≡ t.task_id) × ((f t).room_id ≡ t.room_id) × ((f t).state ≡ t.state))
    → IsSound cs ts
    → IsSound cs (update_where p f ts)
neutral-IsSound {cs} {ts} p f keeps sound = record {
  conversation_key = sound.conversation_key;
  task_key = λ id.
      rw (count-update_where_same (is_task id) p f ts (λ t h. ground (arith, keeps t)))
        (sound.task_key id);
  one_current = sound.one_current;
  open_busy = λ room.
      rw (count-update_where_same (open_in room) p f ts (λ t h. ground (arith, keeps t)))
        (sound.open_busy room);
  checked = sound.checked;
}

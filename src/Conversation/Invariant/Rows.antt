-- ===== src/Conversation/Invariant/Rows.antt =====
-- The rows that a reservation writes, and the invariant of the conversations.
use thought_khoral_room_gate.Prelude.{
  ◌+◌, ◌≤◌, ◌≡◌, refl, Bool, true, false, Option, none, some, List, [], ◌∷◌, ◌++◌, arith, count,
  one_if, find, any, update_where, ◌==◌, is_some, inl, inr, Bool-cases, count-append, count_mono,
  count-update_where, any_false→count, find-some, find-key, count-find-none, count-narrower,
}
use thought_khoral_room_gate.Json.{Value}
use thought_khoral_room_gate.Env.{Uuid, Instant}
use thought_khoral_room_gate.Conversation.{ConversationState, ConversationRow, TaskRow}
use thought_khoral_room_gate.Conversation.Protocol.{codex_agent_id}
use thought_khoral_room_gate.Conversation.Authority.{is_busy, is_task, is_conversation}
use thought_khoral_room_gate.Conversation.Reserve.{
  is_current, same_conversation, same_task, superseded_at, reserved_for,
}
use thought_khoral_room_gate.Conversation.Invariant.{
  open_in, busy_in, is_unchecked, IsSound, busy_in-is_current,
}

-- The room has a conversation at work, and no turn for it yet.
pub record IsTaken (room : Uuid) (cs : List ConversationRow) (ts : List TaskRow) : Type 0 where
  pub sound : IsSound cs ts
  pub no_turn : count (open_in room) ts ≡ 0
  pub at_work : 1 ≤ count (busy_in room) cs

-- Nobody works in a room whose current conversation is not busy.
pub idle_room :
    (room : Uuid) (cs : List ConversationRow) (ts : List TaskRow)
    → IsSound cs ts
    → ((c : ConversationRow) → find (is_current room) cs ≡ some c → is_busy c.state ≡ false)
    → count (open_in room) ts ≡ 0
idle_room room cs ts sound idle = split (find (is_current room) cs) refl
  where
    bound : count (open_in room) ts ≤ count (busy_in room) cs
    bound = sound.open_busy room

    split :
        (o : Option ConversationRow) → find (is_current room) cs ≡ o → count (open_in room) ts ≡ 0
    split none h = omega (
      arith,
      bound,
      count-find-none (is_current room) cs h,
      count_mono (busy_in room) (is_current room) cs (busy_in-is_current room),
    )
    split (some c) h = omega (
      arith,
      bound,
      count-narrower (is_current room) (busy_in room) cs c (busy_in-is_current room)
          (sound.one_current room) h (ground (arith, idle c h)),
    )

module _ (room : Uuid) {cs : List ConversationRow} {ts : List TaskRow} (sound : IsSound cs ts)
    (c : ConversationRow) (current : find (is_current room) cs ≡ some c)
    (idle : is_busy c.state ≡ false) where
  key_found : find (is_conversation c.conversation_id) cs ≡ some c
  key_found =
      find-key (is_current room) (is_conversation c.conversation_id) cs c
        (sound.conversation_key c.conversation_id) current (ground arith)

  counts :
      (p : ConversationRow → Bool) (g : ConversationRow → ConversationRow)
      → count p (update_where (is_conversation c.conversation_id) g cs) + one_if (p c)
        ≡ count p cs + one_if (p (g c))
  unfolding key_found
  counts p g =
      count-update_where p (is_conversation c.conversation_id) g cs c
        (sound.conversation_key c.conversation_id) key_found

  pub supersede-IsSound :
      (now : Instant)
      → IsSound (update_where (is_conversation c.conversation_id) (superseded_at now) cs) ts
  supersede-IsSound now = record {
    conversation_key = λ id.
        ground (arith, sound.conversation_key id, counts (is_conversation id) (superseded_at now));
    task_key = sound.task_key;
    one_current =
        λ r. ground (arith, sound.one_current r, counts (is_current r) (superseded_at now));
    open_busy = λ r. ground (arith, sound.open_busy r, counts (busy_in r) (superseded_at now));
    checked = ground (arith, sound.checked, counts is_unchecked (superseded_at now));
  }

  pub reserve-IsTaken :
      (task : Uuid) (settings : Value) (now : Instant)
      → IsTaken room
          (update_where (is_conversation c.conversation_id) (reserved_for task settings now) cs)
          ts
  reserve-IsTaken task settings now =
      let g = reserved_for task settings now in
      let is_c = find-some (is_current room) cs c current in
      record {
        sound = record {
          conversation_key =
              λ id. ground (arith, sound.conversation_key id, counts (is_conversation id) g);
          task_key = sound.task_key;
          one_current = λ r. ground (arith, is_c, sound.one_current r, counts (is_current r) g);
          open_busy = λ r. ground (arith, sound.open_busy r, counts (busy_in r) g);
          checked = ground (arith, sound.checked, counts is_unchecked g);
        };
        no_turn =
            idle_room room cs ts sound
              (λ d h. let same : c ≡ d = cc (current, h) in ground (arith, same));
        at_work = ground (arith, is_c, counts (busy_in room) g);
      }

-- A new row of agent_conversations.
module _ {cs : List ConversationRow} {ts : List TaskRow} (sound : IsSound cs ts)
    (row : ConversationRow) (codex : row.agent_id ≡ codex_agent_id)
    (reserved : row.state ≡ ConversationState.reserved) (active : is_some row.active_task_id ≡ true)
    (fresh : any (same_conversation row) cs ≡ false) where
  grown : (p : ConversationRow → Bool) → count p (cs ++ row ∷ []) ≡ count p cs + one_if (p row)
  grown p = omega (arith, count-append p cs (row ∷ []))

  none_like :
      (p : ConversationRow → Bool)
      → ((x : ConversationRow) → p x ≡ true → same_conversation row x ≡ true)
      → count p cs ≡ 0
  none_like p like = omega (
    arith,
    any_false→count (same_conversation row) cs fresh,
    count_mono p (same_conversation row) cs like,
  )

  fits :
      (p : ConversationRow → Bool)
      → count p cs ≤ 1
      → (p row ≡ true → (x : ConversationRow) → p x ≡ true → same_conversation row x ≡ true)
      → count p (cs ++ row ∷ []) ≤ 1
  fits p one like = elim (Bool-cases (p row)) [
    | inl passes ↦ ground (arith, grown p, none_like p (like passes))
    | inr fails ↦ ground (arith, grown p)
  ]

  pub insert_conversation-IsSound : IsSound (cs ++ row ∷ []) ts
  insert_conversation-IsSound = record {
    conversation_key =
        λ id. fits (is_conversation id) (sound.conversation_key id) (λ h x k. ground arith);
    task_key = sound.task_key;
    one_current = λ r. fits (is_current r) (sound.one_current r) (λ h x k. ground arith);
    open_busy = λ r. omega (arith, sound.open_busy r, grown (busy_in r));
    checked = ground (arith, sound.checked, grown is_unchecked);
  }

  pub insert_conversation-busy : 1 ≤ count (busy_in row.room_id) (cs ++ row ∷ [])
  insert_conversation-busy = ground (arith, grown (busy_in row.room_id))

-- A new row of conversation_tasks.
pub insert_task-IsSound :
    {cs : List ConversationRow} {ts : List TaskRow} (row : TaskRow)
    → IsTaken row.room_id cs ts
    → any (same_task row) ts ≡ false
    → IsSound cs (ts ++ row ∷ [])
insert_task-IsSound {cs} {ts} row taken fresh =
    let sound = taken.sound in
    record {
      conversation_key = sound.conversation_key;
      task_key = λ id. elim (Bool-cases (is_task id row)) [
        | inl same ↦ ground (
          arith,
          count-append (is_task id) ts (row ∷ []),
          any_false→count (same_task row) ts fresh,
          count_mono (is_task id) (same_task row) ts (λ x h. ground arith),
        )
        | inr other ↦ ground (arith, sound.task_key id, count-append (is_task id) ts (row ∷ []))
      ];
      one_current = sound.one_current;
      open_busy = λ r. elim (Bool-cases (row.room_id == r)) [
        | inl same ↦
            let here : row.room_id ≡ r = ground arith in
            let empty : count (open_in r) ts ≡ 0 = rw (← here) taken.no_turn in
            let work : 1 ≤ count (busy_in r) cs = rw (← here) taken.at_work in
            ground (arith, empty, work, count-append (open_in r) ts (row ∷ []))
        | inr other ↦ ground (arith, sound.open_busy r, count-append (open_in r) ts (row ∷ []))
      ];
      checked = sound.checked;
    }

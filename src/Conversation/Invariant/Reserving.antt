-- ===== src/Conversation/Invariant/Reserving.antt =====
-- `reserve` keeps the invariant of the conversations.
use thought_khoral_room_gate.Prelude.{
  ℕ, ◌≡◌, refl, ◌∙◌, ok_or, Bool, true, false, Option, none, some, [], ◌∷◌, ◌++◌, arith, Bool-cases,
  inl, inr, find, any, count, str_eq,
}
use thought_khoral_room_gate.Tx.{◌>>=◌, pure, lift}
use thought_khoral_room_gate.Tx.Frame.{Keeps, Keeps-lift, keeps_rules}
use thought_khoral_room_gate.Tx.Hoare.{
  Hoare, Hoare-bind, Hoare-keeps, Hoare-pure, Hoare-if, Hoare-weaken,
}
use thought_khoral_room_gate.Json.{Value, as_i64, at}
use thought_khoral_room_gate.Env.{Uuid, Instant}
use thought_khoral_room_gate.Auth.{Actor}
use thought_khoral_room_gate.Store.{RoomEvent}
use thought_khoral_room_gate.Conversation.{
  ConversationState, ConversationRow, TaskRow, ConversationWorld, Crates,
}
use thought_khoral_room_gate.Conversation.Protocol.{codex_agent_id, runtime_unavailable}
use thought_khoral_room_gate.Conversation.Policy.{ConversationPolicy}
use thought_khoral_room_gate.Conversation.Authority.{is_busy, is_conversation}
use thought_khoral_room_gate.Conversation.Tasks.{update_conversations}
use thought_khoral_room_gate.Conversation.Citations.{uuid_field}
use thought_khoral_room_gate.Conversation.Canonical.{source_manifest}
use thought_khoral_room_gate.Conversation.Reserve.{
  ConversationReservation, Place, is_current, insert_conversation, insert_task, same_conversation,
  same_task, superseded_at, reserved_for,
}
use thought_khoral_room_gate.Conversation.Turn.{
  Turn, new_conversation, new_task, supersede, occupy, write_message, write_task, store_turn,
  accepted_turn, frozen_input,
}
use thought_khoral_room_gate.Conversation.Reservation.{busy}
use thought_khoral_room_gate.Conversation.Invariant.{IsSound, open_in}
use thought_khoral_room_gate.Conversation.Invariant.Frame.{
  Tables, tables, Keeps-in_rooms, Hoare-update_conversations,
}
use thought_khoral_room_gate.Conversation.Invariant.Joined.{Sound}
use thought_khoral_room_gate.Conversation.Invariant.Rows.{
  IsTaken, idle_room, supersede-IsSound, reserve-IsTaken, insert_conversation-IsSound,
  insert_conversation-busy, insert_task-IsSound,
}

-- The invariant, with the current conversation of a room.
abbrev pub Finds : Uuid → Option ConversationRow → Tables → Type 0
Finds room current (cs, ts) = IsSound cs ts × (find (is_current room) cs ≡ current)

-- A turn that continues is placed in the current conversation.
abbrev pub Placed : Bool → Option ConversationRow → Place → Type 0
Placed true current place =
    (c : ConversationRow) × (current ≡ some c) × (place.conversation_id ≡ c.conversation_id)
Placed false current place = Unit {0}

abbrev IdleOf : Option ConversationRow → ConversationRow → Type 0
IdleOf current c = current ≡ some c → is_busy c.state ≡ false

busy-false :
    (current : Option ConversationRow) (c : ConversationRow)
    → busy current ≡ false
    → current ≡ some c
    → is_busy c.state ≡ false
busy-false none c h e = absurd (ground arith)
busy-false (some d) c h e = ground arith

-- No turn is open in the room, and one is reserved for it.
abbrev Free : Uuid → Tables → Type 0
Free room (cs, ts) = IsSound cs ts × (count (open_in room) ts ≡ 0)

abbrev Taken : Uuid → Tables → Type 0
Taken room (cs, ts) = IsTaken room cs ts

Hoare-insert_task :
    (row : TaskRow)
    → Hoare (λ s. Taken row.room_id (tables s)) (insert_task row) (λ _ s. Sound (tables s))
unfolding insert_task
Hoare-insert_task row = record {
  run = λ s a t taken h. elim (Bool-cases (any (same_task row) s.conversation_tasks)) [
    | inl taken_key ↦ absurd (ground arith)
    | inr fresh ↦
        let cs : t.agent_conversations ≡ s.agent_conversations = ground arith in
        let ts : t.conversation_tasks ≡ s.conversation_tasks ++ row ∷ [] = ground arith in
        rw (cs, ts) (insert_task-IsSound row taken fresh)
  ];
}

Hoare-insert_conversation :
    (row : ConversationRow)
    → row.agent_id ≡ codex_agent_id
    → row.state ≡ ConversationState.reserved
    → (task : Uuid) → row.active_task_id ≡ some task
    → Hoare
        (λ s. Free row.room_id (tables s))
        (insert_conversation row)
        (λ _ s. Taken row.room_id (tables s))
unfolding insert_conversation
Hoare-insert_conversation row codex reserved task active = record {
  run = λ s a t free h. elim (Bool-cases (any (same_conversation row) s.agent_conversations)) [
    | inl taken_key ↦ absurd (ground arith)
    | inr fresh ↦
        let cs : t.agent_conversations ≡ s.agent_conversations ++ row ∷ [] = ground arith in
        let ts : t.conversation_tasks ≡ s.conversation_tasks = ground arith in
        rw (cs, ts)
          (record {
            sound = insert_conversation-IsSound free.0 row codex reserved (ground arith) fresh;
            no_turn = free.1;
            at_work = insert_conversation-busy free.0 row codex reserved (ground arith) fresh;
          })
  ];
}

module _ (crates : Crates) (policy : ConversationPolicy) where
  Hoare-supersede :
      (room : Uuid) (current : Option ConversationRow) (now : Instant)
      → busy current ≡ false
      → Hoare
          (λ s. Finds room current (tables s))
          (supersede crates policy current now)
          (λ _ s. Free room (tables s))
  unfolding supersede
  Hoare-supersede room none now idle =
      Hoare-weaken (pure tt) (Hoare-pure {P = λ s. Free room (tables s)} tt)
        (λ s h. (
          h.0,
          idle_room room s.agent_conversations s.conversation_tasks h.0
              (λ c e. absurd (cc (e, h.1))),
        ))
        (λ a s h. h)
  Hoare-supersede room (some c) now idle =
      let q = is_conversation c.conversation_id in
      let g = superseded_at now in
      Hoare-weaken (update_conversations q g) (Hoare-update_conversations (Free room) q g)
        (λ s h. (
          supersede-IsSound room h.0 c h.1 idle now,
          idle_room room s.agent_conversations s.conversation_tasks h.0
              (λ d e. let same : c ≡ d = cc (e, h.1) in ground (arith, same)),
        ))
        (λ a s h. h)

  -- A new conversation, or the current one, is taken for the turn.
  Hoare-occupy :
      (current : Option ConversationRow) (turn : Turn)
      → busy current ≡ false
      → (str_eq turn.mode "new" ≡ false → Placed true current turn.place)
      → Hoare
          (λ s. Finds turn.room current (tables s))
          (occupy crates policy current turn)
          (λ _ s. Taken turn.room (tables s))
  unfolding occupy
  Hoare-occupy current turn idle placed =
      Hoare-if (str_eq turn.mode "new") _ _
        (λ _.
          let row = new_conversation crates policy turn in
          Hoare-bind (λ _ s. Free turn.room (tables s))
            (supersede crates policy current (crates.env.stored_instant turn.now))
            (λ _. insert_conversation row)
            (Hoare-supersede turn.room current (crates.env.stored_instant turn.now) idle)
            (λ _. Hoare-insert_conversation row refl refl turn.task_id refl))
        (λ continues.
          let (c, is_c, here) = placed continues in
          let q = is_conversation turn.place.conversation_id in
          let g = reserved_for turn.task_id turn.settings (crates.env.stored_instant turn.now) in
          Hoare-weaken (update_conversations q g) (Hoare-update_conversations (Taken turn.room) q g)
            (λ s h.
              let found : find (is_current turn.room) s.agent_conversations ≡ some c = h.1 ∙ is_c in
              rw here (
                reserve-IsTaken turn.room h.0 c found (busy-false current c idle is_c) turn.task_id
                  turn.settings (crates.env.stored_instant turn.now)))
            (λ a s h. h))

  Hoare-write_task :
      (actor : Actor) (turn : Turn) (prompt : RoomEvent) (context : Value)
      → Hoare
          (λ s. Taken turn.room (tables s))
          (write_task crates policy actor turn prompt context)
          (λ _ s. Sound (tables s))
  unfolding write_task
  Hoare-write_task actor turn prompt context =
      let accepted = accepted_turn crates policy turn prompt in
      let trigger_of = uuid_field crates.env accepted "triggerEventId" in
      let revision_of = ok_or (as_i64 (at accepted "contextRevision")) runtime_unavailable in
      let row = λ (trigger : Uuid) (revision : ℕ).
        new_task crates policy actor turn (frozen_input crates policy actor turn prompt context)
          (source_manifest context) accepted trigger revision in
      Hoare-bind (λ _ s. Taken turn.room (tables s)) (lift trigger_of)
        (λ trigger. lift revision_of >>= λ revision. insert_task (row trigger revision))
        (Hoare-keeps tables (Taken turn.room) (lift trigger_of) (Keeps-lift trigger_of))
        (λ trigger.
          Hoare-bind (λ _ s. Taken turn.room (tables s)) (lift revision_of)
            (λ revision. insert_task (row trigger revision))
            (Hoare-keeps tables (Taken turn.room) (lift revision_of) (Keeps-lift revision_of))
            (λ revision. Hoare-insert_task (row trigger revision)))

  Keeps-write_message :
      (actor : Actor) (request : Value) (turn : Turn)
      → Keeps tables (write_message crates policy actor request turn)
  unfolding write_message
  Keeps-write_message actor request turn = search (keeps_rules, Keeps-in_rooms) depth 14

  pub Hoare-store_turn :
      (actor : Actor) (request : Value) (current : Option ConversationRow) (turn : Turn)
      → busy current ≡ false
      → (str_eq turn.mode "new" ≡ false → Placed true current turn.place)
      → Hoare
          (λ s. Finds turn.room current (tables s))
          (store_turn crates policy actor request current turn)
          (λ _ s. Sound (tables s))
  unfolding store_turn
  Hoare-store_turn actor request current turn idle placed =
      let Known = λ (s : ConversationWorld). Finds turn.room current (tables s) in
      let answer : RoomEvent × Value → ConversationReservation = λ written. (record {
        accepted = accepted_turn crates policy turn written.0;
        prompt = some written.0;
      }) in
      Hoare-bind (λ _. Known) (write_message crates policy actor request turn)
        (λ written. occupy crates policy current turn >>= λ _.
          write_task crates policy actor turn written.0 written.1 >>= λ _. pure (answer written))
        (Hoare-keeps tables (Finds turn.room current) _ (Keeps-write_message actor request turn))
        (λ (prompt, context).
          Hoare-bind (λ _ s. Taken turn.room (tables s)) (occupy crates policy current turn)
            (λ _. write_task crates policy actor turn prompt context >>= λ _.
              pure (answer (prompt, context)))
            (Hoare-occupy current turn idle placed)
            (λ _.
              Hoare-bind (λ _ s. Sound (tables s))
                (write_task crates policy actor turn prompt context)
                (λ _. pure (answer (prompt, context))) (Hoare-write_task actor turn prompt context)
                (λ _. Hoare-pure (answer (prompt, context)))))

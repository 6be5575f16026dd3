-- ===== src/Conversation/Answered.antt =====
-- src/conversation_store.rs: a turn that is requested again is answered as before.
use thought_khoral_room_gate.Prelude.{
  ◌≡◌, refl, subst, sym, Bool, true, false, Option, none, some, List, [], ◌∷◌, ◌++◌, arith,
  Bool-cases, inl, inr, find, any, map, ==_refl,
}
use thought_khoral_room_gate.Tx.{Tx, ◌>>=◌, pure}
use thought_khoral_room_gate.Tx.Frame.{Keeps, keeps_rules}
use thought_khoral_room_gate.Tx.Hoare.{Hoare, Hoare-bind, Hoare-keeps}
use thought_khoral_room_gate.Json.{Value, value_eq}
use thought_khoral_room_gate.Json.Laws.{value_eq_refl}
use thought_khoral_room_gate.Env.{Uuid, Instant}
use thought_khoral_room_gate.Auth.{Actor}
use thought_khoral_room_gate.Store.{World, RoomEvent, RequestRow}
use thought_khoral_room_gate.Store.Events.{is_request, record_request}
use thought_khoral_room_gate.Conversation.{
  ConversationRow, TaskRow, ConversationWorld, Crates, in_rooms,
}
use thought_khoral_room_gate.Conversation.Protocol.{ConversationError}
use thought_khoral_room_gate.Conversation.Policy.{ConversationPolicy}
use thought_khoral_room_gate.Conversation.Tasks.{update_conversations}
use thought_khoral_room_gate.Conversation.Catalog.{CatalogQuery}
use thought_khoral_room_gate.Conversation.Reserve.{
  ConversationReservation, fingerprint, same_task, insert_conversation, insert_task,
  is_accepted_turn,
}
use thought_khoral_room_gate.Conversation.Turn.{
  Turn, supersede, occupy, write_message, write_task, accepted_turn, store_turn,
}
use thought_khoral_room_gate.Conversation.Reservation.{
  Gateway, reserve_new, reserve_found, reserve_current,
}
use thought_khoral_room_gate.Conversation.Logged.{Anything, Hoare-after}

-- The request is recorded in its room, with what identifies it.
abbrev pub Recorded : Uuid → Uuid → Value → World → Type 0
Recorded room request_id print rooms =
    (row : RequestRow) × (find (is_request room request_id) rooms.room_requests ≡ some row)
    × (value_eq row.request_fingerprint print ≡ true)

-- The turn of the request is stored with its answer.
abbrev pub Accepted : Uuid → Uuid → Uuid → Value → List TaskRow → Type 0
Accepted room request_id requester accepted tasks =
    (task : TaskRow) × (find (is_accepted_turn room request_id requester) tasks ≡ some task)
    × (task.accepted_turn ≡ accepted)

abbrev pub Answered : Uuid → Uuid → Uuid → Value → Value → ConversationWorld → Type 0
Answered room request_id requester print accepted w =
    Recorded room request_id print w.rooms
    × Accepted room request_id requester accepted w.conversation_tasks

find-request :
    (row : RequestRow) (rows : List RequestRow)
    → any (is_request row.room_id row.request_id) rows ≡ false
    → find (is_request row.room_id row.request_id) (rows ++ row ∷ []) ≡ some row
find-request row [] h = ground (arith, ==_refl row.room_id, ==_refl row.request_id)
find-request row (r ∷ rows) h = ground (arith, find-request row rows)

find-task :
    (row : TaskRow) (rows : List TaskRow)
    → any (same_task row) rows ≡ false
    → find (is_accepted_turn row.room_id row.request_id row.requester_id) (rows ++ row ∷ [])
      ≡ some row
find-task row [] h =
    ground (arith, ==_refl row.room_id, ==_refl row.request_id, ==_refl row.requester_id)
find-task row (r ∷ rows) h = ground (arith, find-task row rows)

Hoare-record_request :
    (room request_id : Uuid) (print : Value) (events : List RoomEvent)
    → Hoare Anything
        (in_rooms (record_request room request_id print events))
        (λ _ s. Recorded room request_id print s.rooms)
unfolding record_request
Hoare-record_request room request_id print events = record {
  run = λ s a t _ h. elim (Bool-cases (any (is_request room request_id) s.rooms.room_requests)) [
    | inl taken ↦ absurd (ground arith)
    | inr free ↦
        let row : RequestRow = record {
          room_id = room;
          request_id = request_id;
          request_fingerprint = print;
          event_ids = map (λ event. event.event_id) events;
        } in
        (row, ground (arith, find-request row s.rooms.room_requests free), value_eq_refl print)
  ];
}

Hoare-insert_task :
    (row : TaskRow)
    → Hoare Anything (insert_task row) (λ _ s.
      Accepted row.room_id row.request_id row.requester_id row.accepted_turn s.conversation_tasks)
unfolding insert_task
Hoare-insert_task row = record {
  run = λ s a t _ h. elim (Bool-cases (any (same_task row) s.conversation_tasks)) [
    | inl taken ↦ absurd (ground arith)
    | inr free ↦ (row, ground (arith, find-task row s.conversation_tasks free), refl)
  ];
}

Keeps-insert_task : (row : TaskRow) → Keeps (λ (w : ConversationWorld). w.rooms) (insert_task row)
unfolding insert_task
Keeps-insert_task row = record { same = λ s a t h. ground arith }

Keeps-insert_conversation :
    (row : ConversationRow) → Keeps (λ (w : ConversationWorld). w.rooms) (insert_conversation row)
unfolding insert_conversation
Keeps-insert_conversation row = record { same = λ s a t h. ground arith }

Keeps-update_conversations :
    (p : ConversationRow → Bool) (f : ConversationRow → ConversationRow)
    → Keeps (λ (w : ConversationWorld). w.rooms) (update_conversations p f)
unfolding update_conversations
Keeps-update_conversations p f = record { same = λ s a t h. ground arith }

Keeps-supersede :
    (crates : Crates) (policy : ConversationPolicy) (current : Option ConversationRow)
    (now : Instant)
    → Keeps (λ (w : ConversationWorld). w.rooms) (supersede crates policy current now)
unfolding supersede
Keeps-supersede crates policy none now = search keeps_rules
Keeps-supersede crates policy (some row) now = search (keeps_rules, Keeps-update_conversations)

Hoare-then_pure :
    {A B : Type 0} {Q : ConversationWorld → Type 0} (m : Tx ConversationWorld ConversationError A)
    (b : B)
    → Hoare Anything m (λ _. Q)
    → Hoare Anything (m >>= λ _. pure b) (λ _. Q)
Hoare-then_pure {Q} m b h =
    Hoare-bind (λ _. Q) m (λ _. pure b) h
      (λ _. record { run = λ s a t q e. let same : s ≡ t = cc e in subst Q same q })

module _ (crates : Crates) (policy : ConversationPolicy) (actor : Actor) where
  Hoare-write_message :
      (request : Value) (turn : Turn)
      → Hoare Anything (write_message crates policy actor request turn) (λ _ s.
        Recorded turn.room turn.request_id (fingerprint crates policy actor request) s.rooms)
  unfolding write_message
  Hoare-write_message request turn =
      search (Hoare-then_pure, Hoare-record_request, Hoare-after) depth 16

  Hoare-write_task :
      (turn : Turn) (prompt : RoomEvent) (context : Value)
      → Hoare Anything (write_task crates policy actor turn prompt context) (λ _ s.
        Accepted turn.room turn.request_id actor.id
          (accepted_turn crates policy turn prompt)
          s.conversation_tasks)
  unfolding write_task
  Hoare-write_task turn prompt context = search (Hoare-insert_task, Hoare-after) depth 8

  Keeps-write_task :
      (turn : Turn) (prompt : RoomEvent) (context : Value)
      → Keeps
          (λ (w : ConversationWorld). w.rooms)
          (write_task crates policy actor turn prompt context)
  unfolding write_task
  Keeps-write_task turn prompt context = search (keeps_rules, Keeps-insert_task) depth 8

  Keeps-occupy :
      (current : Option ConversationRow) (turn : Turn)
      → Keeps (λ (w : ConversationWorld). w.rooms) (occupy crates policy current turn)
  unfolding occupy
  Keeps-occupy current turn =
      search (keeps_rules, Keeps-supersede, Keeps-insert_conversation, Keeps-update_conversations)

  Hoare-write_task-Answered :
      (request : Value) (turn : Turn) (prompt : RoomEvent) (context : Value)
      → Hoare
          (λ s.
            Recorded turn.room turn.request_id (fingerprint crates policy actor request) s.rooms)
          (write_task crates policy actor turn prompt context)
          (λ _ s.
            Answered turn.room turn.request_id actor.id
              (fingerprint crates policy actor request)
              (accepted_turn crates policy turn prompt)
              s)
  Hoare-write_task-Answered request turn prompt context = record {
    run = λ s a t recorded h. (
      subst (Recorded turn.room turn.request_id (fingerprint crates policy actor request))
          (sym ((Keeps-write_task turn prompt context).same s a t h)) recorded,
      (Hoare-write_task turn prompt context).run s a t tt h,
    );
  }

  Hoare-answer :
      (room request_id : Uuid) (request : Value) (outcome : ConversationReservation)
      → Hoare {E = ConversationError}
          (Answered room request_id actor.id
            (fingerprint crates policy actor request)
            outcome.accepted)
          (pure outcome)
          (λ o s.
            Answered room request_id actor.id
              (fingerprint crates policy actor request)
              o.accepted
              s)
  Hoare-answer room request_id request outcome = record {
    run = λ s o t answered h.
        let same : t ≡ s = cc h in let result : o ≡ outcome = cc h in rw (same, result) answered;
  }

  abbrev reservation : Turn → RoomEvent → ConversationReservation
  reservation turn prompt = record {
    accepted = accepted_turn crates policy turn prompt;
    prompt = some prompt;
  }

  Hoare-store_turn :
      (request : Value) (current : Option ConversationRow) (turn : Turn)
      → Hoare Anything (store_turn crates policy actor request current turn) (λ o s.
        Answered turn.room turn.request_id actor.id
          (fingerprint crates policy actor request)
          o.accepted
          s)
  unfolding store_turn
  Hoare-store_turn request current turn =
      let task =
        λ (written : RoomEvent × Value). write_task crates policy actor turn written.0 written.1 in
      Hoare-bind
        (λ _ s.
          Recorded turn.room turn.request_id (fingerprint crates policy actor request) s.rooms)
        (write_message crates policy actor request turn)
        (λ written. occupy crates policy current turn >>= λ _.
          task written >>= λ _. pure (reservation turn written.0))
        (Hoare-write_message request turn)
        (λ written.
          Hoare-bind
            (λ _ s.
              Recorded turn.room turn.request_id (fingerprint crates policy actor request) s.rooms)
            (occupy crates policy current turn)
            (λ _. task written >>= λ _. pure (reservation turn written.0))
            (Hoare-keeps (λ w. w.rooms)
              (Recorded turn.room turn.request_id (fingerprint crates policy actor request))
              (occupy crates policy current turn) (Keeps-occupy current turn))
            (λ _.
              Hoare-bind
                (λ _.
                  Answered turn.room turn.request_id actor.id
                    (fingerprint crates policy actor request) (reservation turn written.0).accepted)
                (task written) (λ _. pure (reservation turn written.0))
                (Hoare-write_task-Answered request turn written.0 written.1)
                (λ _. Hoare-answer turn.room turn.request_id request (reservation turn written.0))))

  Hoare-reserve_new :
      (room request_id : Uuid) (request : Value) (catalog : Option CatalogQuery)
      (until now : Instant) (current : Option ConversationRow)
      → Hoare Anything
          (reserve_new crates policy actor room request_id request catalog until now current)
          (λ o s.
            Answered room request_id actor.id
              (fingerprint crates policy actor request)
              o.accepted
              s)
  unfolding reserve_new
  Hoare-reserve_new room request_id request catalog until now current =
      search (Hoare-store_turn, Hoare-after) depth 12

  pub Hoare-reserve_current :
      (room request_id : Uuid) (request : Value) (catalog : Option CatalogQuery)
      (gateway : Option Gateway) (until now : Instant)
      → Hoare Anything
          (reserve_current crates policy actor room request_id request catalog gateway until now)
          (λ o s.
            Answered room request_id actor.id
              (fingerprint crates policy actor request)
              o.accepted
              s)
  unfolding reserve_current reserve_found
  Hoare-reserve_current room request_id request catalog gateway until now =
      search (Hoare-reserve_new, Hoare-after) depth 12

-- ===== src/Store/Events.antt =====
-- src/store.rs: the append-only log of room events, and the idempotency records of requests.
pub mod Log
pub mod Replay
pub mod Growth
pub mod Lookup
pub mod Later
pub mod Retry
use thought_khoral_room_gate.Prelude.{
  ℕ, suc, ◌+◌, Bool, true, false, ◌&&◌, ◌||◌, Option, none, some, List, [], ◌∷◌, ◌++◌, ok, err,
  length, keep, find, any, map, ltb, leb, ◌==◌, if◌then◌else◌,
}
use thought_khoral_room_gate.Tx.{Tx, ◌>>=◌, ◌>>◌, fail, gets}
use thought_khoral_room_gate.Json.{Value}
use thought_khoral_room_gate.Env.{Uuid, Env}
use thought_khoral_room_gate.Protocol.Validity.{is_valid_room_event}
use thought_khoral_room_gate.Store.{
  NewEvent, RoomEvent, RequestRow, World, StoreError, invalid_event, database, max_bigint,
}

-- `WHERE room_id = …`
abbrev pub in_room : Uuid → RoomEvent → Bool
in_room room_id event = event.room_id == room_id

abbrev pub room_log : Uuid → List RoomEvent → List RoomEvent
room_log room_id = keep (in_room room_id)

-- `COALESCE(MAX(sequence), 0)` over some rows.
unfoldable pub max_sequence : List RoomEvent → ℕ
max_sequence [] = 0
max_sequence (event ∷ events) =
    let rest = max_sequence events in if ltb rest event.sequence then event.sequence else rest

-- `ORDER BY sequence ASC`, as an insertion sort.
unfoldable pub insert_by_sequence : RoomEvent → List RoomEvent → List RoomEvent
insert_by_sequence event [] = event ∷ []
insert_by_sequence event (first ∷ rest) =
    let later = insert_by_sequence event rest in
    if leb event.sequence first.sequence then event ∷ (first ∷ rest) else first ∷ later

unfoldable pub order_by_sequence : List RoomEvent → List RoomEvent
order_by_sequence [] = []
order_by_sequence (event ∷ events) = insert_by_sequence event (order_by_sequence events)

-- The PRIMARY KEY (event_id) and UNIQUE (room_id, sequence) of room_events.
abbrev pub same_key : RoomEvent → RoomEvent → Bool
same_key new old =
    (old.event_id == new.event_id)
    || ((old.room_id == new.room_id) && (old.sequence == new.sequence))

unfoldable pub insert_room_event : RoomEvent → Tx World StoreError RoomEvent
insert_room_event event w =
    if any (same_key event) w.room_events || ltb max_bigint event.sequence
    then err database
    else ok (event, record w { db = record w.db { room_events = w.room_events ++ event ∷ [] } })

module _ (env : Env) where
  unfoldable pub new_v4 : Tx World StoreError Uuid
  new_v4 w = ok (env.new_v4 w.drawn, record w { drawn = suc w.drawn })

  -- The columns of room_events take what is bound to them.
  abbrev pub is_storable : NewEvent → Bool
  is_storable event =
      (env.is_text_column event.event_type && env.is_text_column event.actor_role)
      && ((elim event.actor_display_name [ none ↦ true | some name ↦ env.is_text_column name ])
          && (env.is_jsonb event.payload && env.is_timestamptz event.occurred_at))

  -- The row that the INSERT … SELECT … RETURNING writes and reads back.
  abbrev pub stored_event : Uuid → ℕ → NewEvent → RoomEvent
  stored_event event_id sequence event = record {
    event_id = event_id;
    room_id = event.room_id;
    sequence = sequence;
    request_id = event.request_id;
    event_type = event.event_type;
    actor_id = event.actor_id;
    actor_role = event.actor_role;
    actor_display_name = event.actor_display_name;
    payload = env.jsonb event.payload;
    occurred_at = env.stored_instant event.occurred_at;
  }

  unfoldable pub append_event_in_transaction : NewEvent → Tx World StoreError RoomEvent
  unfolding new_v4 insert_room_event max_sequence
  append_event_in_transaction event = do
    event_id ← new_v4
    events ← gets (λ w. w.room_events)
    let sequence = max_sequence (room_log event.room_id events) + 1
    let insert = insert_room_event (stored_event event_id sequence event)
    let stored = if is_storable event then insert else fail database
    if is_valid_room_event env event_id event then stored else fail invalid_event

unfoldable pub events_after : List RoomEvent → Uuid → ℕ → List RoomEvent
unfolding order_by_sequence insert_by_sequence
events_after events room_id after_sequence =
    order_by_sequence
      (keep (λ event. in_room room_id event && ltb after_sequence event.sequence) events)

-- `WHERE event_id = ANY(…) ORDER BY sequence ASC`.
unfoldable pub events_by_id : List RoomEvent → List Uuid → List RoomEvent
unfolding order_by_sequence insert_by_sequence
events_by_id events event_ids =
    order_by_sequence (keep (λ event. any (λ id. event.event_id == id) event_ids) events)

-- The PRIMARY KEY (room_id, request_id) of room_requests.
abbrev pub is_request : Uuid → Uuid → RequestRow → Bool
is_request room_id request_id row = (row.room_id == room_id) && (row.request_id == request_id)

unfoldable pub prior_request : World → Uuid → Uuid → Option (Value × List RoomEvent)
unfolding events_by_id
prior_request w room_id request_id = elim (find (is_request room_id request_id) w.room_requests) [
  | none ↦ none
  | some row ↦ some (row.request_fingerprint, events_by_id w.room_events row.event_ids)
]

unfoldable pub record_request : Uuid → Uuid → Value → List RoomEvent → Tx World StoreError Unit
record_request room_id request_id fingerprint events w =
    if any (is_request room_id request_id) w.room_requests
    then err database
    else ok (
      tt,
      record w {
        db = record w.db {
          room_requests =
              w.room_requests
              ++ (record {
                room_id = room_id;
                request_id = request_id;
                request_fingerprint = fingerprint;
                event_ids = map (λ event. event.event_id) events;
              }
                  ∷ []);
        };
      },
    )

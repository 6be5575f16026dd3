-- ===== src/Ws.antt =====
-- src/ws.rs: one authenticated socket, from its join of a room over the broadcasts to the replays.
pub mod Delivery
pub mod Messages
use thought_khoral_room_gate.Prelude.{
  ℕ, ◌+◌, Bool, true, false, not, Option, none, some, List, [], ◌∷◌, ◌++◌, Result, ok, err, keep,
  leb, ltb, ◌==◌, unwrap_or, if◌then◌else◌,
}
use thought_khoral_room_gate.Env.{Uuid, Env}
use thought_khoral_room_gate.Protocol
use thought_khoral_room_gate.Protocol.{
  RpcError, forbidden, Join, ValidatedRequest, session_authenticate, join,
}
use thought_khoral_room_gate.Auth.{Actor}
use thought_khoral_room_gate.Store.{RoomEvent, World}
use thought_khoral_room_gate.Store.Events.{events_after}
use thought_khoral_room_gate.Rooms.Mentions.{Unicode}
use thought_khoral_room_gate.Rooms.Visibility.{event_visible_to}
use thought_khoral_room_gate.Rooms.Process.{Surroundings, ProcessedRequest, process}

-- The variables of `websocket_session`, and the room events that it has sent since the join: `sent` by
-- the join, the broadcasts and the replays, and `repeated` in answer to requests that were made before.
-- The receiver is there exactly when a room is joined.
pub record Session : Type 0 where
  pub joined_room : Option Uuid
  pub last_sequence : ℕ
  pub sent : List RoomEvent
  pub repeated : List RoomEvent

-- A duplicate's events go straight to the socket, whatever the session has passed.
abbrev pub send_repeat : ProcessedRequest → Session → Session
send_repeat processed session = record session {
  repeated = if processed.duplicate then session.repeated ++ processed.events else session.repeated;
}

-- `events.last().map_or(n, |event| event.sequence)`.
abbrev pub last_or : ℕ → List RoomEvent → ℕ
last_or n [] = n
last_or n (event ∷ events) = last_or event.sequence events

abbrev pub is_elsewhere : Option Uuid → Uuid → Bool
is_elsewhere none room_id = false
is_elsewhere (some joined) room_id = not (joined == room_id)

module _ (env : Env) (actor_id : Uuid) where
  abbrev pub is_visible : RoomEvent → Bool
  is_visible event = event_visible_to env event actor_id

  abbrev pub send_if_visible : RoomEvent → Session → Session
  send_if_visible event session = record session {
    last_sequence = event.sequence;
    sent = if is_visible event then session.sent ++ event ∷ [] else session.sent;
  }

  -- The loop of `replay_in_order`; an error ends the session.
  unfoldable pub send_in_order : List RoomEvent → Session → Result Session Session
  send_in_order [] session = ok session
  send_in_order (event ∷ events) session =
      let skipped = send_in_order events session in
      let sent = send_in_order events (send_if_visible event session) in
      if leb event.sequence session.last_sequence
      then skipped
      else if event.sequence == session.last_sequence + 1
      then sent
      else err session

  unfoldable pub replay_in_order : World → Uuid → Session → Result Session Session
  unfolding send_in_order
  replay_in_order w room_id session =
      send_in_order (events_after w.room_events room_id session.last_sequence) session

  -- `room_receiver.recv()` gave an event.
  unfoldable pub receive_event : World → RoomEvent → Session → Result Session Session
  unfolding replay_in_order
  receive_event w event session =
      let caught_up : Result Session Session = elim session.joined_room [
        | none ↦ err session
        | some room_id ↦ replay_in_order w room_id session
      ] in
      if event.sequence == session.last_sequence + 1
      then ok (send_if_visible event session)
      else if ltb (session.last_sequence + 1) event.sequence
      then caught_up
      else ok session

  -- It gave `RecvError::Lagged`.
  unfoldable pub receive_lagged : World → Session → Result Session Session
  unfolding replay_in_order
  receive_lagged w session = elim session.joined_room [
    | none ↦ ok session
    | some room_id ↦ replay_in_order w room_id session
  ]

  -- The branch `ValidatedRequest::Join` of `handle_message`.
  unfoldable pub join_room : World → Join → Session → Result RpcError Session
  join_room w request session =
      let after_sequence = unwrap_or request.after_sequence 0 in
      let events = events_after w.room_events request.room_id after_sequence in
      if is_elsewhere session.joined_room request.room_id
      then err forbidden
      else ok (record {
        joined_room = some request.room_id;
        last_sequence = last_or after_sequence events;
        sent = keep is_visible events;
        repeated = [];
      })

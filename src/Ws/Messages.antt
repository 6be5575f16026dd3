-- ===== src/Ws/Messages.antt =====
-- src/ws.rs: `handle_message` and `cleanup_presence`, what one message of a socket does.
pub mod Balance
use thought_khoral_room_gate.Prelude.{
  ℕ, Bool, true, false, not, ◌&&◌, Option, none, some, List, [], ◌∷◌, ◌++◌, Result, ok, err, leb,
  ◌==◌, if◌then◌else◌,
}
use thought_khoral_room_gate.Env.{Uuid, Instant, Env}
use thought_khoral_room_gate.Protocol
use thought_khoral_room_gate.Protocol.{
  RpcError, forbidden, unauthenticated, internal_error, Join, ValidatedRequest,
  session_authenticate, join, chat_send, decision_propose, decision_transition, decision_delete,
  agent_task_start,
}
use thought_khoral_room_gate.Auth.{Actor}
use thought_khoral_room_gate.Store.{RoomEvent, World}
use thought_khoral_room_gate.Rooms.{RoomParticipant}
use thought_khoral_room_gate.Rooms.Mentions.{Unicode}
use thought_khoral_room_gate.Rooms.Participants.{
  Presence, register_participant, unregister_participant, participant_snapshot,
}
use thought_khoral_room_gate.Rooms.Process.{Surroundings, ProcessedRequest, process}
use thought_khoral_room_gate.Ws.{Session, send_repeat, join_room}

-- What the sockets of the gateway share.
pub record Gateway : Type 0 where
  pub world : World
  pub presence : Presence

-- A message of the socket, a text as `validate_request` reads it.
pub data Message : Type 0 where
  text : Result RpcError ValidatedRequest → Message
  close other : Message

pub data Reply : Type 0 where
  no_reply : Reply
  error_reply : RpcError → Reply
  join_reply : List RoomEvent → List RoomParticipant → Reply
  event_replies : List RoomEvent → Reply

-- `is_open` is the result of `handle_message`, on a socket that takes what is sent. `published` goes to
-- the broadcast channel of the room.
pub record Outcome : Type 0 where
  pub gateway : Gateway
  pub session : Session
  pub reply : Reply
  pub published : List RoomEvent
  pub is_open : Bool

abbrev pub answers : Reply → Gateway → Session → Outcome
answers reply gateway session = record {
  gateway = gateway;
  session = session;
  reply = reply;
  published = [];
  is_open = true;
}

abbrev pub is_joined : Option Uuid → Bool
is_joined none = false
is_joined (some _) = true

abbrev pub is_in : Option Uuid → Option Uuid → Bool
is_in (some joined) (some room_id) = joined == room_id
is_in _ _ = false

-- `register_participant`, if the join is new.
abbrev pub registered : Actor → Join → Gateway → Session → Presence
registered actor request gateway session =
    if is_joined session.joined_room
    then gateway.presence
    else register_participant request.room_id actor gateway.presence

unfoldable pub cleanup_presence : Actor → Gateway → Session → Presence
cleanup_presence actor gateway session = elim session.joined_room [
  | none ↦ gateway.presence
  | some room_id ↦ unregister_participant room_id actor.id gateway.presence
]

-- The fields of `Surroundings` that no request changes.
module _ (env : Env) (unicode : Unicode) (conversations_enabled : Bool) (now : Instant)
    (actor : Actor) where
  unfoldable pub handle_join : Join → Gateway → Session → Outcome
  handle_join request gateway session =
      elim (join_room env actor.id gateway.world request session) [
        | err e ↦ answers (error_reply e) gateway session
        | ok joined ↦
            let presence = registered actor request gateway session in
            let participants =
              participant_snapshot env conversations_enabled gateway.world.room_events
                request.room_id presence in
            answers (join_reply joined.sent participants)
              (record { world = gateway.world; presence = presence }) joined
      ]

  -- The last part of `handle_message`, for a request in the joined room.
  unfoldable pub handle_room_request : ValidatedRequest → Gateway → Session → Outcome
  handle_room_request request gateway session =
      let around : Surroundings = record {
        presence = gateway.presence;
        conversations_enabled = conversations_enabled;
        now = now;
      } in
      elim (process env unicode around actor request gateway.world) [
        | err e ↦ answers (error_reply e) gateway session
        | ok (processed, world) ↦ record {
          gateway = record { world = world; presence = gateway.presence };
          session = send_repeat processed session;
          reply = if processed.duplicate then event_replies processed.events else no_reply;
          published = if processed.duplicate then [] else processed.events;
          is_open = true;
        }
      ]

  unfoldable pub handle_request : ValidatedRequest → Gateway → Session → Outcome
  unfolding Protocol.room_id
  handle_request (session_authenticate _) gateway session =
      answers (error_reply forbidden) gateway session
  handle_request (join request) gateway session = handle_join request gateway session
  handle_request request gateway session =
      let handled = handle_room_request request gateway session in
      if is_in session.joined_room (Protocol.room_id request)
      then handled
      else answers (error_reply forbidden) gateway session

  -- `seconds` is `Utc::now().timestamp()`.
  unfoldable pub handle_message : ℕ → Message → Gateway → Session → Outcome
  handle_message seconds close gateway session = record {
    gateway = gateway;
    session = session;
    reply = no_reply;
    published = [];
    is_open = false;
  }
  handle_message seconds other gateway session = answers no_reply gateway session
  handle_message seconds (text parsed) gateway session =
      let read : Outcome = elim parsed [
        | err e ↦ answers (error_reply e) gateway session
        | ok request ↦ handle_request request gateway session
      ] in
      if leb actor.expires_at seconds
      then record {
        gateway = gateway;
        session = session;
        reply = error_reply unauthenticated;
        published = [];
        is_open = false;
      }
      else read

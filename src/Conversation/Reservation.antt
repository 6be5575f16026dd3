-- ===== src/Conversation/Reservation.antt =====
-- src/conversation_store.rs: `reserve_inner`: the checks of a reservation, around the rows of its turn.
use thought_khoral_room_gate.Prelude.{
  String, Bool, false, not, Option, none, some, List, Result, ok, err, ensure, find, str_eq,
  is_some, unwrap_or, if◌then◌else◌,
}
use thought_khoral_room_gate.Tx.{Tx, ◌>>=◌, pure, lift, gets}
use thought_khoral_room_gate.Json.{Value, as_str, get, at}
use thought_khoral_room_gate.Env.{Uuid, Instant}
use thought_khoral_room_gate.Auth.{Actor}
use thought_khoral_room_gate.Store.{RoomEvent}
use thought_khoral_room_gate.Store.Events.{new_v4, prior_request}
use thought_khoral_room_gate.Rooms.Mentions.{Unicode}
use thought_khoral_room_gate.Rooms.Participants.{Presence, room_presence}
use thought_khoral_room_gate.Conversation.{ConversationRow, ConversationWorld, Crates, in_rooms}
use thought_khoral_room_gate.Conversation.Protocol.{ConversationError, conversation_busy}
use thought_khoral_room_gate.Conversation.Policy.{ConversationPolicy, resolve_settings}
use thought_khoral_room_gate.Conversation.Authority.{is_busy}
use thought_khoral_room_gate.Conversation.Citations.{uuid_field}
use thought_khoral_room_gate.Conversation.Catalog.{CatalogQuery, selection_in_time}
use thought_khoral_room_gate.Conversation.Mentions.{
  authorize_conversation_turn, admit, validate_conversation_mentions,
}
use thought_khoral_room_gate.Conversation.Reserve.{
  ConversationReservation, Moments, is_current, Place, minimum, repeat_turn, continue_place,
  new_place, shared_settings, first_of,
}
use thought_khoral_room_gate.Conversation.Turn.{store_turn}

-- What a mediated reservation reads of `GatewayState`.
pub record Gateway : Type 0 where
  pub unicode : Unicode
  pub presence : Presence

abbrev pub mode_of : Value → Option ConversationRow → String
mode_of request current =
    unwrap_or (as_str (at (at request "conversation") "mode"))
      (if is_some current then "continue" else "new")

abbrev pub busy : Option ConversationRow → Bool
busy none = false
busy (some row) = is_busy row.state

module _ (crates : Crates) (policy : ConversationPolicy) where
  unfoldable pub choose_place :
      Bool → Uuid → Value → Option ConversationRow → Tx ConversationWorld ConversationError Place
  unfolding continue_place new_place
  choose_place continues room request current =
      if continues
      then continue_place crates policy request current
      else new_place crates policy room

  -- The settings of the turn, that the policy and the catalog offer.
  unfoldable pub choose_settings :
      Bool
      → Value
      → Option CatalogQuery
      → Option ConversationRow
      → Tx ConversationWorld ConversationError Value
  unfolding resolve_settings selection_in_time
  choose_settings continues request catalog current = do
    settings ← lift (
        resolve_settings policy (
          first_of crates policy (get request "settings")
            (shared_settings crates policy continues current)))
    _ ← lift (elim catalog [
      | none ↦ ok tt
      | some query ↦ selection_in_time crates policy query settings
    ])
    pure settings

  -- A request with a new identifier, under the lock of the room.
  unfoldable pub reserve_new :
      Actor
      → Uuid
      → Uuid
      → Value
      → Option CatalogQuery
      → Instant
      → Instant
      → Option ConversationRow
      → Tx ConversationWorld ConversationError ConversationReservation
  unfolding choose_place choose_settings store_turn
  reserve_new actor room request_id request catalog authorized_until now current = do
    _ ← lift (ensure (not (busy current)) conversation_busy)
    let mode = mode_of request current
    place ← choose_place (str_eq mode "continue") room request current
    settings ← choose_settings (str_eq mode "continue") request catalog current
    task_id ← in_rooms (new_v4 crates.env)
    store_turn crates policy actor request current (record {
      room = room;
      request_id = request_id;
      mode = mode;
      place = place;
      task_id = task_id;
      settings = settings;
      authorized_until = authorized_until;
      now = now;
    })

  -- The current conversation is read, and the turn reserved.
  unfoldable pub reserve_found :
      Actor
      → Uuid
      → Uuid
      → Value
      → Option CatalogQuery
      → Instant
      → Instant
      → Tx ConversationWorld ConversationError ConversationReservation
  unfolding reserve_new
  reserve_found actor room request_id request catalog authorized_until now = do
    current ← gets (λ w. find (is_current room) w.agent_conversations)
    reserve_new actor room request_id request catalog authorized_until now current

  unfoldable pub mentions_allowed :
      Option Gateway → List RoomEvent → Uuid → Value → Result ConversationError (Unit {0})
  unfolding validate_conversation_mentions
  mentions_allowed none events room request = ok tt
  mentions_allowed (some state) events room request =
      validate_conversation_mentions crates.env state.unicode (room_presence state.presence room)
        events room (at request "mentions")

  unfoldable pub reserve_current :
      Actor
      → Uuid
      → Uuid
      → Value
      → Option CatalogQuery
      → Option Gateway
      → Instant
      → Instant
      → Tx ConversationWorld ConversationError ConversationReservation
  unfolding reserve_found mentions_allowed
  reserve_current actor room request_id request catalog gateway authorized_until now = do
    events ← gets (λ w. w.rooms.room_events)
    _ ← lift (mentions_allowed gateway events room request)
    reserve_found actor room request_id request catalog authorized_until now

  unfoldable pub reserve_or_repeat :
      Actor
      → Uuid
      → Uuid
      → Value
      → Option CatalogQuery
      → Option Gateway
      → Instant
      → Instant
      → Tx ConversationWorld ConversationError ConversationReservation
  unfolding prior_request repeat_turn reserve_current
  reserve_or_repeat actor room request_id request catalog gateway authorized_until now w =
      elim (prior_request w.rooms room request_id) [
        | some (prior, _) ↦ repeat_turn crates policy actor room request_id request prior w
        | none ↦
            reserve_current actor room request_id request catalog gateway authorized_until now w
      ]

  -- The authority that is left before the commit; a repeated request is answered before this check.
  unfoldable pub still_authorized :
      Actor → Instant → Instant → Option RoomEvent → Result ConversationError (Unit {0})
  unfolding authorize_conversation_turn
  still_authorized actor authorized_until now prompt = elim prompt [
    | none ↦ ok tt
    | some _ ↦
        elim (authorize_conversation_turn crates actor authorized_until now
          (minimum crates policy)) [ ok _ ↦ ok tt | err e ↦ err e ]
  ]

  unfoldable pub reserve_in_transaction :
      Actor
      → Value
      → Instant
      → Option CatalogQuery
      → Option Gateway
      → Moments
      → Tx ConversationWorld ConversationError ConversationReservation
  unfolding uuid_field authorize_conversation_turn reserve_or_repeat still_authorized
  reserve_in_transaction actor request requested catalog gateway moments = do
    room ← lift (uuid_field crates.env request "roomId")
    request_id ← lift (uuid_field crates.env request "requestId")
    authorized_until ←
        lift
          (authorize_conversation_turn crates actor requested moments.now (minimum crates policy))
    outcome ←
        reserve_or_repeat actor room request_id request catalog gateway authorized_until moments.now
    _ ← lift (still_authorized actor authorized_until moments.committed_at outcome.prompt)
    pure outcome

  -- `reserve` passes neither catalog nor gateway, `reserve_mediated` both.
  unfoldable pub reserve_inner :
      Actor
      → Value
      → Instant
      → Option CatalogQuery
      → Option Gateway
      → Moments
      → Tx ConversationWorld ConversationError ConversationReservation
  unfolding admit reserve_in_transaction
  reserve_inner actor value requested catalog gateway moments = do
    request ← lift (admit crates policy actor value requested moments.entered_at)
    reserve_in_transaction actor request requested catalog gateway moments

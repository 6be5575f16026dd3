-- ===== src/Rooms/Visibility.antt =====
-- src/rooms.rs: which events a participant may see, on the socket, in a replay and in a context
-- packet.
pub mod Chat
use thought_khoral_room_gate.Prelude.{
  ℕ, String, Bool, true, false, Option, none, some, List, any, ◌==◌, str_eq, if◌then◌else◌,
}
use thought_khoral_room_gate.Json.{Value, get, as_str, as_array}
use thought_khoral_room_gate.Env.{Uuid, Env}
use thought_khoral_room_gate.Protocol.Validity.{and_then}
use thought_khoral_room_gate.Store.{RoomEvent}

module _ (env : Env) where
  abbrev pub names_actor : Uuid → Value → Bool
  names_actor actor audience_id = elim (and_then (as_str audience_id) env.uuid_parse) [
    | none ↦ false
    | some id ↦ id == actor
  ]

  abbrev pub payload_visible_to : Value → Uuid → Bool
  payload_visible_to payload actor = elim (and_then (get payload "delivery") as_str) [
    | none ↦ true
    | some delivery ↦
        let listed : Bool = elim (and_then (get payload "audienceIds") as_array) [
          | none ↦ false
          | some audience_ids ↦ any (names_actor actor) audience_ids
        ] in
        if str_eq delivery "mentioned" then listed else true
  ]

  unfoldable pub event_visible_to : RoomEvent → Uuid → Bool
  event_visible_to event actor = payload_visible_to event.payload actor

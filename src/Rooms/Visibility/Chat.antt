-- ===== src/Rooms/Visibility/Chat.antt =====
-- A chat message is visible to exactly those it was sent to: the audience that is written to the
-- payload is the audience that is read from it.
use thought_khoral_room_gate.Prelude.{
  ◌≡◌, refl, ◌∙◌, true, ◌||◌, List, [], ◌∷◌, map, ok, arith, any, ◌==◌,
}
use thought_khoral_room_gate.Json.{items_of, list_of}
use thought_khoral_room_gate.Env.{Uuid, Env, EnvLaws}
use thought_khoral_room_gate.Protocol.{ChatDelivery, room, mentioned, ChatSend}
use thought_khoral_room_gate.Protocol.Validity.{uuid_value}
use thought_khoral_room_gate.Auth.{Actor}
use thought_khoral_room_gate.Rooms.{RoomParticipant}
use thought_khoral_room_gate.Rooms.Mentions.{Unicode}
use thought_khoral_room_gate.Rooms.Audience.{
  is_room, normalized_chat_payload, resolve_chat_audience,
}
use thought_khoral_room_gate.Rooms.Audience.Members.{has, addresses, resolve_chat_audience-members}
use thought_khoral_room_gate.Rooms.Visibility.{names_actor, payload_visible_to}

module _ (env : Env) (laws : EnvLaws env) where
  names-has :
      (actor : Uuid) (ids : List Uuid)
      → any (names_actor env actor) (list_of (items_of (map (uuid_value env) ids))) ≡ has actor ids
  names-has actor [] = refl
  names-has actor (id ∷ ids) = ground (arith, laws.uuid_parse-to_string id, names-has actor ids)

  visible_by_delivery :
      (request : ChatSend) (ids : List Uuid) (viewer : Uuid) (delivery : ChatDelivery)
      → request.delivery ≡ delivery
      → payload_visible_to env (normalized_chat_payload env request ids) viewer
        ≡ (elim delivery [ room ↦ true | mentioned ↦ has viewer ids ])
  visible_by_delivery request ids viewer room e = rw e
  visible_by_delivery request ids viewer mentioned e = rw e (names-has viewer ids)

  -- A message that the room accepts is visible to a viewer exactly if it was sent to the room, or
  -- the viewer sent it or is addressed by one of its mentions.
  pub chat_visibility :
      (unicode : Unicode) (actor : Actor) (participants : List RoomParticipant) (request : ChatSend)
      (ids : List Uuid) (viewer : Uuid)
      → resolve_chat_audience env unicode actor participants request ≡ ok ids
      → payload_visible_to env (normalized_chat_payload env request ids) viewer ≡ (
          is_room request.delivery
          || ((actor.id == viewer) || any (addresses participants viewer) request.mentions))
  chat_visibility unicode actor participants request ids viewer h = split request.delivery refl
    where
      split :
          (delivery : ChatDelivery)
          → request.delivery ≡ delivery
          → payload_visible_to env (normalized_chat_payload env request ids) viewer ≡ (
              is_room request.delivery
              || ((actor.id == viewer) || any (addresses participants viewer) request.mentions))
      split room e = visible_by_delivery request ids viewer room e ∙ (rw e)
      split mentioned e =
          visible_by_delivery request ids viewer mentioned e
          ∙ (resolve_chat_audience-members env unicode actor participants request ids e h).1 viewer
          ∙ (rw e)

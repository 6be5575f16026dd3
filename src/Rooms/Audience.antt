-- ===== src/Rooms/Audience.antt =====
-- src/rooms.rs: who a chat message is for, and the payload that stores it.
pub mod Members
use thought_khoral_room_gate.Prelude.{
  ℕ, String, Bool, true, false, ◌&&◌, ◌||◌, Option, none, some, List, [], ◌∷◌, ◌++◌, map, Result,
  ok, err, ◌>>=◌, any, keep, leb, ◌==◌, str_eq, if◌then◌else◌,
}
use thought_khoral_room_gate.Json.{Value, string, json, json_array}
use thought_khoral_room_gate.Env.{Uuid, Env}
use thought_khoral_room_gate.Protocol.{
  RpcError, ChatMention, participant, alias, ChatMentionAlias, all_humans, all_agents, ChatDelivery,
  room, mentioned, ChatSend,
}
use thought_khoral_room_gate.Protocol.Fingerprint.{delivery_text, mention_value, ids_value}
use thought_khoral_room_gate.Auth.{Actor, human, is_human}
use thought_khoral_room_gate.Rooms.{RoomParticipant, action_items_agent_id}
use thought_khoral_room_gate.Rooms.Mentions.{Unicode}
use thought_khoral_room_gate.Rooms.Mentions.Validate.{validate_mentions}

-- `HashSet::insert` into the audience, kept sorted: the set is only read by `sort_unstable`.
unfoldable pub insert_id : Uuid → List Uuid → List Uuid
insert_id id [] = id ∷ []
insert_id id (first ∷ rest) =
    let later = insert_id id rest in
    if id == first
    then first ∷ rest
    else if leb id first
    then id ∷ (first ∷ rest)
    else first ∷ later

unfoldable pub extend_ids : List Uuid → List Uuid → List Uuid
extend_ids [] ids = ids
extend_ids (id ∷ more) ids = extend_ids more (insert_id id ids)

abbrev pub ids_of : List RoomParticipant → List Uuid
ids_of = map (λ p. p.id)

abbrev pub is_human_participant : RoomParticipant → Bool
is_human_participant p = str_eq p.role "human"

abbrev pub is_agent_or_human : RoomParticipant → Bool
is_agent_or_human p = str_eq p.role "agent" || str_eq p.role "human"

-- What one mention adds.
abbrev pub mention_ids : List RoomParticipant → ChatMention → List Uuid
mention_ids participants (participant id _) = id ∷ []
mention_ids participants (alias all_humans) = ids_of (keep is_human_participant participants)
mention_ids participants (alias all_agents) = ids_of (keep is_agent_or_human participants)

unfoldable pub collect_audience : List RoomParticipant → List ChatMention → List Uuid → List Uuid
unfolding extend_ids insert_id
collect_audience participants [] ids = ids
collect_audience participants (mention ∷ rest) ids =
    collect_audience participants rest (extend_ids (mention_ids participants mention) ids)

abbrev pub is_room : ChatDelivery → Bool
is_room room = true
is_room mentioned = false

unfoldable pub resolve_chat_audience :
    Env → Unicode → Actor → List RoomParticipant → ChatSend → Result RpcError (List Uuid)
resolve_chat_audience env unicode actor participants request = do
  _ ← validate_mentions env unicode participants request.mentions
  if is_room request.delivery
      then ok []
      else ok (collect_audience participants request.mentions (actor.id ∷ []))

module _ (env : Env) where
  abbrev pub normalized_chat_payload : ChatSend → List Uuid → Value
  normalized_chat_payload request audience_ids = json (
      ("text", string request.text)
      ∷ ("mentions", json_array (map (mention_value env) request.mentions))
      ∷ ("delivery", string (delivery_text request.delivery))
      ∷ ("audienceIds", ids_value env audience_ids)
      ∷ [])

mentions_participant : Uuid → List ChatMention → Bool
mentions_participant id [] = false
mentions_participant id (participant other _ ∷ rest) = (other == id) || mentions_participant id rest
mentions_participant id (alias _ ∷ rest) = mentions_participant id rest

unfoldable pub invokes_action_items : Actor → ChatSend → Bool
unfolding mentions_participant
invokes_action_items actor request =
    is_human actor.role
    && (is_room request.delivery && mentions_participant action_items_agent_id request.mentions)

-- ===== src/Conversation/Mentions.antt =====
-- src/rooms.rs: `authorize_conversation_turn` and `validate_conversation_mentions`.
use mathlib.Core.List.{foldl}
use thought_khoral_room_gate.Prelude.{
  ℕ, ◌+◌, String, Bool, true, false, ◌&&◌, not, Option, none, some, List, [], ◌∷◌, Result, ok,
  ◌>>=◌, ensure, ok_or, map_err, any, all, map, length, leb, ltb, ◌==◌, str_eq, unwrap_or,
  if◌then◌else◌,
}
use thought_khoral_room_gate.Text.{octet_length}
use thought_khoral_room_gate.Json.{
  Value, Fields, end, field, object, string, as_str, as_array, value_eq, at,
}
use thought_khoral_room_gate.Env.{Uuid, Instant, Env}
use thought_khoral_room_gate.Auth.{Actor, is_human}
use thought_khoral_room_gate.Protocol.{
  ChatMention, participant, alias, ChatMentionAlias, all_humans, all_agents,
}
use thought_khoral_room_gate.Store.{RoomEvent}
use thought_khoral_room_gate.Store.Events.{events_after}
use thought_khoral_room_gate.Rooms.{RoomParticipant, action_items_agent_id}
use thought_khoral_room_gate.Rooms.Mentions.{Unicode}
use thought_khoral_room_gate.Rooms.Mentions.Validate.{validate_mentions}
use thought_khoral_room_gate.Rooms.Participants.{RoomPresence, put, default_name}
use thought_khoral_room_gate.Conversation.{Crates, min, seconds}
use thought_khoral_room_gate.Conversation.Protocol.{
  ConversationError, codex_agent_id, invalid_task_input, forbidden, authentication_required,
  context_too_large, runtime_unavailable, validate_turn_request,
}
use thought_khoral_room_gate.Conversation.Policy.{ConversationPolicy}

unfoldable pub authorize_conversation_turn :
    Crates → Actor → Instant → Instant → ℕ → Result ConversationError Instant
authorize_conversation_turn crates actor requested_expiry now minimum_remaining = do
  _ ← ensure (is_human actor.role) forbidden
  token_expiry ← ok_or (crates.from_timestamp actor.expires_at) authentication_required
  let expiry = min requested_expiry token_expiry
  _ ← ensure (leb (now + minimum_remaining) expiry) authentication_required
  ok expiry

-- The first checks of `reserve_inner`, before a transaction begins.
unfoldable pub admit :
    Crates → ConversationPolicy → Actor → Value → Instant → Instant → Result ConversationError Value
unfolding authorize_conversation_turn validate_turn_request
admit crates policy actor value requested now = do
  _ ←
      authorize_conversation_turn crates actor requested now
        (seconds (policy.turn_deadline_seconds + policy.interrupt_grace_seconds))
  _ ← ensure policy.enabled runtime_unavailable
  validate_turn_request crates.is_valid (crates.env.uuid_to_string codex_agent_id) value

-- `deny_unknown_fields`.
abbrev only_keys : List String → Fields → Bool
only_keys keys end = true
only_keys keys (field k v fs) = any (str_eq k) keys && only_keys keys fs

abbrev keys_are : List String → Value → Bool
keys_are keys (object fs) = only_keys keys fs
keys_are keys _ = false

alias_from : String → Option ChatMentionAlias
alias_from text =
    if str_eq text "allhumans"
    then some all_humans
    else if str_eq text "allagents"
    then some all_agents
    else none

-- `ChatMention` as serde reads it.
mention_from : Env → Value → Result ConversationError ChatMention
unfolding alias_from
mention_from env value =
    if value_eq (at value "type") (string "participant")
    then (do
      _ ← ensure (keys_are ("type" ∷ ("id" ∷ ("token" ∷ []))) value) invalid_task_input
      text ← ok_or (as_str (at value "id")) invalid_task_input
      id ← ok_or (env.uuid_parse text) invalid_task_input
      token ← ok_or (as_str (at value "token")) invalid_task_input
      ok (participant id token))
    else (do
      _ ← ensure (value_eq (at value "type") (string "alias")) invalid_task_input
      _ ← ensure (keys_are ("type" ∷ ("alias" ∷ [])) value) invalid_task_input
      text ← ok_or (as_str (at value "alias")) invalid_task_input
      a ← ok_or (alias_from text) invalid_task_input
      ok (alias a))

mentions_from : Env → List Value → Result ConversationError (List ChatMention)
unfolding mention_from
mentions_from env [] = ok []
mentions_from env (value ∷ values) = do
  mention ← mention_from env value
  rest ← mentions_from env values
  ok (mention ∷ rest)

-- A mention of a participant other than the agent needs the roster.
abbrev needs_roster : ChatMention → Bool
needs_roster (participant id token) = not (id == codex_agent_id)
needs_roster (alias a) = false

-- `DISTINCT ON (actor_id) … ORDER BY actor_id, sequence DESC`: the last event of each author.
last_of_author : List (Uuid × RoomEvent) → RoomEvent → List (Uuid × RoomEvent)
last_of_author authors event = put event.actor_id event authors

abbrev authors_of : List RoomEvent → Uuid → List (Uuid × RoomEvent)
authors_of events room = foldl last_of_author [] (events_after events room 0)

abbrev name_fits : Option String → Bool
name_fits none = true
name_fits (some name) = leb (octet_length name) 8000

abbrev author_participant : Env → RoomEvent → RoomParticipant
author_participant env event = record {
  id = event.actor_id;
  role = event.actor_role;
  display_name =
      unwrap_or event.actor_display_name (default_name env event.actor_role event.actor_id);
  online = false;
}

add_authors : Env → List (Uuid × RoomEvent) → List (Uuid × RoomParticipant)
add_authors env [] = []
add_authors env ((id, event) ∷ rest) =
    (event.actor_id, author_participant env event) ∷ add_authors env rest

-- The loop over the presence of the room, with its early return.
add_connected :
    RoomPresence
    → List (Uuid × RoomParticipant)
    → Result ConversationError (List (Uuid × RoomParticipant))
add_connected [] participants = ok participants
add_connected ((id, entry) ∷ rest) participants = do
  _ ← ensure (leb (octet_length entry.display_name) 8000) context_too_large
  add_connected rest (
      put id
        (record {
          id = id;
          role = entry.role;
          display_name = entry.display_name;
          online = ltb 0 entry.connections;
        })
        participants)

abbrev agent_participant : Uuid → String → RoomParticipant
agent_participant id name = record { id = id; role = "agent"; display_name = name; online = true }

abbrev with_agents : List (Uuid × RoomParticipant) → List (Uuid × RoomParticipant)
with_agents participants = put codex_agent_id (agent_participant codex_agent_id "Codex Agent") (
    put action_items_agent_id (agent_participant action_items_agent_id "Action Items") participants)

-- The roster, within its bounds.
bounded_roster :
    Env
    → List RoomEvent
    → Uuid
    → RoomPresence
    → Result ConversationError (List (Uuid × RoomParticipant))
unfolding add_authors add_connected last_of_author events_after default_name
bounded_roster env events room presence = do
  let authors = authors_of events room
  _ ← ensure (leb (length authors) 2000) context_too_large
  _ ← ensure (all (λ (_, e). name_fits e.actor_display_name) authors) context_too_large
  _ ← ensure (leb (length presence) 2000) context_too_large
  participants ← add_connected presence (add_authors env authors)
  _ ← ensure (leb (length participants) 2000) context_too_large
  ok (with_agents participants)

-- The presence is that of the room.
unfoldable pub validate_conversation_mentions :
    Env
    → Unicode
    → RoomPresence
    → List RoomEvent
    → Uuid
    → Value
    → Result ConversationError (Unit {0})
unfolding mentions_from bounded_roster validate_mentions
validate_conversation_mentions env unicode presence events room value = do
  values ← ok_or (as_array value) invalid_task_input
  mentions ← mentions_from env values
  if any needs_roster mentions
      then (do
        roster ← bounded_roster env events room presence
        map_err (λ _. invalid_task_input)
            (validate_mentions env unicode (map (λ (_, p). p) roster) mentions))
      else ok tt

-- ===== src/Rooms/Participants.antt =====
-- src/rooms.rs: the presence of connections, and the roster of a room.
pub mod Connections
use Prim.Native.Nat.{Ordering}
use Prim.Native.String.{compare, ◌++◌ as append_text}
use Prim.Native.Nat.{compare as compare_ids}
use mathlib.Core.List.{foldl}
use thought_khoral_room_gate.Prelude.{
  ℕ, zero, suc, ◌+◌, ◌-◌, String, Bool, true, false, Option, none, some, List, [], ◌∷◌, map, ltb,
  ◌==◌, str_eq, unwrap_or, if◌then◌else◌,
}
use thought_khoral_room_gate.Env.{Uuid, Env}
use thought_khoral_room_gate.Auth.{Actor, as_str}
use thought_khoral_room_gate.Store.{RoomEvent}
use thought_khoral_room_gate.Store.Events.{events_after}
use thought_khoral_room_gate.Rooms.{RoomParticipant, action_items_agent_id, codex_agent_id}

pub record ParticipantPresence : Type 0 where
  pub role : String
  pub display_name : String
  pub connections : ℕ

-- `HashMap` with keys `Uuid`: one entry for a key.
module _ {ℓ} {V : Type ℓ} where
  abbrev pub entry : Uuid → List (Uuid × V) → Option V
  entry key [] = none
  entry key ((k, v) ∷ rest) = let later = entry key rest in if k == key then some v else later

  abbrev pub put : Uuid → V → List (Uuid × V) → List (Uuid × V)
  put key v [] = (key, v) ∷ []
  put key v ((k, w) ∷ rest) =
      let later = put key v rest in if k == key then (key, v) ∷ rest else (k, w) ∷ later

abbrev pub RoomPresence : Type 0
RoomPresence = List (Uuid × ParticipantPresence)

abbrev pub Presence : Type 0
Presence = List (Uuid × RoomPresence)

abbrev pub room_presence : Presence → Uuid → RoomPresence
room_presence presence room_id = unwrap_or (entry room_id presence) []

abbrev pub connections_of : Option ParticipantPresence → ℕ
connections_of none = 0
connections_of (some p) = p.connections

unfoldable pub register_participant : Uuid → Actor → Presence → Presence
register_participant room_id actor presence =
    let in_room = room_presence presence room_id in
    put room_id
      (put actor.id
        (record {
          role = as_str actor.role;
          display_name = actor.display_name;
          connections = connections_of (entry actor.id in_room) + 1;
        })
        in_room)
      presence

abbrev disconnected : ParticipantPresence → ParticipantPresence
disconnected p = record p { connections = if ltb 1 p.connections then p.connections - 1 else 0 }

unfoldable pub unregister_participant : Uuid → Uuid → Presence → Presence
unregister_participant room_id actor_id presence = elim (entry room_id presence) [
  | none ↦ presence
  | some in_room ↦ elim (entry actor_id in_room) [
    | none ↦ presence
    | some p ↦ put room_id (put actor_id (disconnected p) in_room) presence
  ]
]

-- The first eight bytes of an identifier's text, which is ASCII.
take_chars : ℕ → String → String
take_chars zero s = String.[]
take_chars (suc n) String.[] = String.[]
take_chars (suc n) (String.◌∷◌ c s) = String.◌∷◌ c (take_chars n s)

-- `format!("{} {}", …, &actor_id.to_string()[..8])`.
unfoldable pub default_name : Env → String → Uuid → String
unfolding take_chars
default_name env role id =
    let short = take_chars 8 (env.uuid_to_string id) in
    if str_eq role "human" then append_text "Human " short else append_text "Agent " short

abbrev agent_participant : Uuid → String → RoomParticipant
agent_participant id display_name = record {
  id = id;
  role = "agent";
  display_name = display_name;
  online = true;
}

add_author : Env → List (Uuid × RoomParticipant) → RoomEvent → List (Uuid × RoomParticipant)
unfolding default_name
add_author env roster event =
    put event.actor_id
      (record {
        id = event.actor_id;
        role = event.actor_role;
        display_name =
            unwrap_or event.actor_display_name (default_name env event.actor_role event.actor_id);
        online = false;
      })
      roster

add_present :
    List (Uuid × RoomParticipant) → Uuid × ParticipantPresence → List (Uuid × RoomParticipant)
add_present roster (id, p) =
    put id
      (record {
        id = id;
        role = p.role;
        display_name = p.display_name;
        online = ltb 0 p.connections;
      })
      roster

-- `left.role.cmp(&right.role).then_with(…)`.
participant_before : RoomParticipant → RoomParticipant → Bool
participant_before a b = elim (compare a.role b.role) [
  | Ordering.lt ↦ true
  | Ordering.gt ↦ false
  | Ordering.eq ↦ elim (compare a.display_name b.display_name) [
    | Ordering.lt ↦ true
    | Ordering.gt ↦ false
    | Ordering.eq ↦ elim (compare_ids a.id b.id) [ Ordering.gt ↦ false | _ ↦ true ]
  ]
]

insert_participant : RoomParticipant → List RoomParticipant → List RoomParticipant
insert_participant p [] = p ∷ []
insert_participant p (first ∷ rest) =
    let later = insert_participant p rest in
    if participant_before p first then p ∷ (first ∷ rest) else first ∷ later

unfoldable pub sort_participants : List RoomParticipant → List RoomParticipant
unfolding insert_participant participant_before
sort_participants [] = []
sort_participants (p ∷ ps) = insert_participant p (sort_participants ps)

-- The map that the snapshot collects: agents and authors, then presence, then the Codex agent.
unfoldable pub roster :
    Env → Bool → List RoomEvent → Uuid → Presence → List (Uuid × RoomParticipant)
unfolding add_author add_present
roster env conversations_enabled events room_id presence =
    let start =
      (action_items_agent_id, agent_participant action_items_agent_id "Action Items") ∷ [] in
    let authors = foldl (add_author env) start (events_after events room_id 0) in
    let present = foldl add_present authors (room_presence presence room_id) in
    if conversations_enabled
    then put codex_agent_id (agent_participant codex_agent_id "Codex Agent") present
    else present

unfoldable pub participant_snapshot :
    Env → Bool → List RoomEvent → Uuid → Presence → List RoomParticipant
unfolding roster sort_participants
participant_snapshot env conversations_enabled events room_id presence =
    sort_participants (map (λ (_, p). p) (roster env conversations_enabled events room_id presence))

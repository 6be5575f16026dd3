-- ===== src/Rooms/Participants/Connections.antt =====
-- src/rooms.rs: the presence map counts the connections of each participant of each room.
use thought_khoral_room_gate.Prelude.{
  ℕ, ◌+◌, ◌-◌, ◌≡◌, refl, ◌∙◌, ap, ◌&&◌, some, List, [], ◌∷◌, arith, ltb, ◌==◌, ==→eq, Option-cases,
  inl, inr, if◌then◌else◌,
}
use thought_khoral_room_gate.Env.{Uuid}
use thought_khoral_room_gate.Auth.{Actor, as_str}
use thought_khoral_room_gate.Rooms.Participants.{
  ParticipantPresence, RoomPresence, Presence, entry, put, room_presence, connections_of,
  register_participant, unregister_participant,
}

entry-put :
    {V : Type 0} (key other : Uuid) (v : V) (rows : List (Uuid × V))
    → entry key (put other v rows) ≡ (if other == key then some v else entry key rows)
entry-put key other v [] = refl
entry-put key other v ((k, w) ∷ rest) =
    ground (arith, entry-put key other v rest, ==→eq k other, ==→eq k key, ==→eq other key)

-- The connections that the map has for a participant of a room.
abbrev pub connections : Uuid → Uuid → Presence → ℕ
connections room_id id presence = connections_of (entry id (room_presence presence room_id))

room-put :
    (room_id other : Uuid) (room : RoomPresence) (presence : Presence)
    → room_presence (put other room presence) room_id
      ≡ (if other == room_id then room else room_presence presence room_id)
room-put room_id other room presence = ground (arith, entry-put room_id other room presence)

pub register-connections :
    (room_id other_room id : Uuid) (actor : Actor) (presence : Presence)
    → connections room_id id (register_participant other_room actor presence) ≡ (
        if (other_room == room_id) && (actor.id == id)
        then connections room_id id presence + 1
        else connections room_id id presence)
unfolding register_participant
register-connections room_id other_room id actor presence =
    let p : ParticipantPresence = record {
      role = as_str actor.role;
      display_name = actor.display_name;
      connections = connections other_room actor.id presence + 1;
    } in
    ground (
      arith,
      room-put room_id other_room (put actor.id p (room_presence presence other_room)) presence,
      entry-put id actor.id p (room_presence presence other_room),
      ==→eq other_room room_id,
      ==→eq actor.id id,
    )

pub unregister-connections :
    (room_id other_room id actor_id : Uuid) (presence : Presence)
    → connections room_id id (unregister_participant other_room actor_id presence) ≡ (
        if (other_room == room_id) && (actor_id == id)
        then connections room_id id presence - 1
        else connections room_id id presence)
unfolding unregister_participant
unregister-connections room_id other_room id actor_id presence =
    elim (Option-cases (entry other_room presence)) [
      | inl e ↦ ground (arith, e, ==→eq other_room room_id)
      | inr (in_room, e) ↦ elim (Option-cases (entry actor_id in_room)) [
        | inl e' ↦ ground (arith, e, e', ==→eq other_room room_id, ==→eq actor_id id)
        | inr (p, e') ↦
            let q : ParticipantPresence = record p {
              connections = if ltb 1 p.connections then p.connections - 1 else 0;
            } in
            ground (
              arith,
              e,
              e',
              room-put room_id other_room (put actor_id q in_room) presence,
              entry-put id actor_id q in_room,
              ==→eq other_room room_id,
              ==→eq actor_id id,
            )
      ]
    ]

-- A socket joins a room as an actor, or leaves it.
pub data Change : Type 0 where
  joins : Uuid → Actor → Change
  leaves : Uuid → Uuid → Change

abbrev pub apply_changes : List Change → Presence → Presence
apply_changes [] presence = presence
apply_changes (joins room_id actor ∷ rest) presence =
    apply_changes rest (register_participant room_id actor presence)
apply_changes (leaves room_id actor_id ∷ rest) presence =
    apply_changes rest (unregister_participant room_id actor_id presence)

-- The sockets of one participant in one room, counted from the changes alone.
abbrev pub count_sockets : Uuid → Uuid → List Change → ℕ → ℕ
count_sockets room_id id [] n = n
count_sockets room_id id (joins other_room actor ∷ rest) n =
    count_sockets room_id id rest (if (other_room == room_id) && (actor.id == id) then n + 1 else n)
count_sockets room_id id (leaves other_room actor_id ∷ rest) n =
    count_sockets room_id id rest (if (other_room == room_id) && (actor_id == id) then n - 1 else n)

-- After any joins and leaves the presence map holds, for every room and participant, the number of
-- sockets that the participant has in that room, whatever happened in other rooms or with other
-- participants; no count falls below zero.
pub connections-count_sockets :
    (changes : List Change) (presence : Presence) (room_id id : Uuid)
    → connections room_id id (apply_changes changes presence)
      ≡ count_sockets room_id id changes (connections room_id id presence)
connections-count_sockets [] presence room_id id = refl
connections-count_sockets (joins other_room actor ∷ rest) presence room_id id =
    connections-count_sockets rest (register_participant other_room actor presence) room_id id
    ∙ ap (count_sockets room_id id rest) (register-connections room_id other_room id actor presence)
connections-count_sockets (leaves other_room actor_id ∷ rest) presence room_id id =
    connections-count_sockets rest (unregister_participant other_room actor_id presence) room_id id
    ∙ ap (count_sockets room_id id rest)
        (unregister-connections room_id other_room id actor_id presence)

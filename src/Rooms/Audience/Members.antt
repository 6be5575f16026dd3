-- ===== src/Rooms/Audience/Members.antt =====
-- The members of a resolved audience, and the order of the list.
use thought_khoral_room_gate.Prelude.{
  ◌<◌, ◌≡◌, refl, sym, subst, ◌∙◌, ap, Bool, false, ◌||◌, List, [], ◌∷◌, ok, arith, any, keep, ◌==◌,
  if◌then◌else◌,
}
use thought_khoral_room_gate.Env.{Uuid, Env}
use thought_khoral_room_gate.Protocol.{
  ChatMention, participant, alias, all_humans, all_agents, mentioned, ChatSend,
}
use thought_khoral_room_gate.Auth.{Actor}
use thought_khoral_room_gate.Rooms.{RoomParticipant}
use thought_khoral_room_gate.Rooms.Mentions.{Unicode}
use thought_khoral_room_gate.Rooms.Audience.{
  insert_id, extend_ids, ids_of, is_human_participant, is_agent_or_human, mention_ids,
  collect_audience, resolve_chat_audience,
}

abbrev pub has : Uuid → List Uuid → Bool
has id = any (λ other. other == id)

abbrev pub has_participant : (RoomParticipant → Bool) → List RoomParticipant → Uuid → Bool
has_participant p participants id = any (λ q. if p q then q.id == id else false) participants

-- Whether one mention is for a participant: by identifier, or by the role that it names.
abbrev pub addresses : List RoomParticipant → Uuid → ChatMention → Bool
addresses participants id (participant other _) = other == id
addresses participants id (alias all_humans) = has_participant is_human_participant participants id
addresses participants id (alias all_agents) = has_participant is_agent_or_human participants id

abbrev pub IsAscending : List Uuid → Type 0
IsAscending [] = Unit {0}
IsAscending (x ∷ []) = Unit {0}
IsAscending (x ∷ (y ∷ ys)) = (x < y) × IsAscending (y ∷ ys)

has-insert_id :
    (id new : Uuid) (ids : List Uuid) → has id (insert_id new ids) ≡ ((new == id) || has id ids)
unfolding insert_id
has-insert_id id new [] = refl
has-insert_id id new (x ∷ xs) = ground (arith, has-insert_id id new xs)

insert_id-IsAscending :
    (new : Uuid) (ids : List Uuid) → IsAscending ids → IsAscending (insert_id new ids)
unfolding insert_id
insert_id-IsAscending new [] h = tt
insert_id-IsAscending new (x ∷ []) h = ground arith
insert_id-IsAscending new (x ∷ (y ∷ ys)) h = ground (arith, insert_id-IsAscending new (y ∷ ys) h.1)

has-extend_ids :
    (id : Uuid) (more ids : List Uuid) → has id (extend_ids more ids) ≡ (has id more || has id ids)
unfolding extend_ids
has-extend_ids id [] ids = refl
has-extend_ids id (x ∷ xs) ids =
    ground (arith, has-extend_ids id xs (insert_id x ids), has-insert_id id x ids)

extend_ids-IsAscending :
    (more ids : List Uuid) → IsAscending ids → IsAscending (extend_ids more ids)
unfolding extend_ids
extend_ids-IsAscending [] ids h = h
extend_ids-IsAscending (x ∷ xs) ids h =
    extend_ids-IsAscending xs (insert_id x ids) (insert_id-IsAscending x ids h)

has-ids_of :
    (p : RoomParticipant → Bool) (participants : List RoomParticipant) (id : Uuid)
    → has id (ids_of (keep p participants)) ≡ has_participant p participants id
has-ids_of p [] id = refl
has-ids_of p (q ∷ qs) id = ground (arith, has-ids_of p qs id)

has-mention_ids :
    (participants : List RoomParticipant) (id : Uuid) (mention : ChatMention)
    → has id (mention_ids participants mention) ≡ addresses participants id mention
has-mention_ids participants id (participant other token) = ground arith
has-mention_ids participants id (alias all_humans) = has-ids_of is_human_participant participants id
has-mention_ids participants id (alias all_agents) = has-ids_of is_agent_or_human participants id

has-collect_audience :
    (participants : List RoomParticipant) (id : Uuid) (mentions : List ChatMention)
    (ids : List Uuid)
    → has id (collect_audience participants mentions ids)
      ≡ (has id ids || any (addresses participants id) mentions)
unfolding collect_audience
has-collect_audience participants id [] ids = ground arith
has-collect_audience participants id (m ∷ ms) ids = ground (
  arith,
  has-collect_audience participants id ms (extend_ids (mention_ids participants m) ids),
  has-extend_ids id (mention_ids participants m) ids,
  has-mention_ids participants id m,
)

collect_audience-IsAscending :
    (participants : List RoomParticipant) (mentions : List ChatMention) (ids : List Uuid)
    → IsAscending ids
    → IsAscending (collect_audience participants mentions ids)
unfolding collect_audience
collect_audience-IsAscending participants [] ids h = h
collect_audience-IsAscending participants (m ∷ ms) ids h =
    collect_audience-IsAscending participants ms (extend_ids (mention_ids participants m) ids)
      (extend_ids-IsAscending (mention_ids participants m) ids h)

module _ (env : Env) (unicode : Unicode) (actor : Actor) (participants : List RoomParticipant) where
  resolved :
      (request : ChatSend) (ids : List Uuid)
      → request.delivery ≡ mentioned
      → resolve_chat_audience env unicode actor participants request ≡ ok ids
      → ids ≡ collect_audience participants request.mentions (actor.id ∷ [])
  unfolding resolve_chat_audience
  resolved request ids e h = ground arith

  -- The audience of a message to those mentioned is a strictly ascending list, and its members are
  -- exactly the sender and the participants that some mention addresses.
  pub resolve_chat_audience-members :
      (request : ChatSend) (ids : List Uuid)
      → request.delivery ≡ mentioned
      → resolve_chat_audience env unicode actor participants request ≡ ok ids
      → IsAscending ids
        × ((id : Uuid)
            → has id ids ≡ ((actor.id == id) || any (addresses participants id) request.mentions))
  resolve_chat_audience-members request ids e h =
      let same = resolved request ids e h in
      (
        subst IsAscending (sym same)
            (collect_audience-IsAscending participants request.mentions (actor.id ∷ []) tt),
        λ id.
            ap (has id) same
            ∙ has-collect_audience participants id request.mentions (actor.id ∷ [])
            ∙ (ground arith),
      )

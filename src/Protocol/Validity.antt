-- ===== src/Protocol/Validity.antt =====
-- src/protocol.rs: the check that every event passes before it is stored.
use thought_khoral_room_gate.Prelude.{
  String, Bool, true, false, not, ◌&&◌, Option, none, some, List, [], ◌∷◌, str_eq, any,
  if◌then◌else◌,
}
use thought_khoral_room_gate.Json.{Value, string, get, as_str, as_array, json, json_number}
use thought_khoral_room_gate.Env.{Uuid, Instant, Env}
use thought_khoral_room_gate.Store.{NewEvent}

-- `Option::and_then`.
abbrev pub and_then {ℓ κ} : {A : Type ℓ} {B : Type κ} → Option A → (A → Option B) → Option B
and_then none f = none
and_then (some a) f = f a

abbrev contains : List String → String → Bool
contains seen s = any (str_eq s) seen

-- The closure of `Iterator::all`, with the two hash sets as the identifiers and aliases seen.
pub mentions_are_unique : List Value → List String → List String → Bool
mentions_are_unique [] participant_ids aliases = true
mentions_are_unique (mention ∷ rest) participant_ids aliases =
    elim (and_then (get mention "type") as_str) [
      | none ↦ false
      | some kind ↦
          let unseen_id : Bool = elim (and_then (get mention "id") as_str) [
            | none ↦ false
            | some id ↦
                not (contains participant_ids id)
                && mentions_are_unique rest (id ∷ participant_ids) aliases
          ] in
          let unseen_alias : Bool = elim (and_then (get mention "alias") as_str) [
            | none ↦ false
            | some alias ↦
                not (contains aliases alias)
                && mentions_are_unique rest participant_ids (alias ∷ aliases)
          ] in
          if str_eq kind "participant"
          then unseen_id
          else if str_eq kind "alias"
          then unseen_alias
          else false
    ]

pub message_mentions_are_unique : Value → Bool
unfolding mentions_are_unique
message_mentions_are_unique event = elim (and_then (get event "eventType") as_str) [
  | none ↦ true
  | some kind ↦
      let listed =
        and_then (and_then (get event "payload") (λ payload. get payload "mentions")) as_array in
      if str_eq kind "message.created"
      then (elim listed [ none ↦ true | some mentions ↦ mentions_are_unique mentions [] [] ])
      else true
]

module _ (env : Env) where
  abbrev pub uuid_value : Uuid → Value
  uuid_value u = string (env.uuid_to_string u)

  abbrev pub instant_value : Instant → Value
  instant_value t = string (env.instant_to_string t)

  -- The event as the schema sees it, always with sequence 1.
  abbrev candidate_event : Uuid → NewEvent → Value
  candidate_event event_id event = json (
      ("contractVersion", string "n2n.room.v1")
      ∷ ("requestId", uuid_value event.request_id)
      ∷ ("roomId", uuid_value event.room_id)
      ∷ ("occurredAt", instant_value event.occurred_at)
      ∷ ("sequence", json_number 1)
      ∷ ("eventId", uuid_value event_id)
      ∷ ("eventType", string event.event_type)
      ∷ ("actor", json (("id", uuid_value event.actor_id) ∷ ("role", string event.actor_role) ∷ []))
      ∷ ("payload", event.payload)
      ∷ [])

  unfoldable pub is_valid_room_event : Uuid → NewEvent → Bool
  unfolding message_mentions_are_unique
  is_valid_room_event event_id event =
      let candidate = candidate_event event_id event in
      env.room_event_schema candidate && message_mentions_are_unique candidate

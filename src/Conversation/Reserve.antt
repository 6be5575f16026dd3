-- ===== src/Conversation/Reserve.antt =====
-- src/conversation_store.rs: `reserve_inner`, with which a human starts a turn: the message and the
-- frozen input of the task are stored in one transaction.
use thought_khoral_room_gate.Prelude.{
  ℕ, ◌+◌, String, Bool, true, false, ◌&&◌, ◌||◌, not, Option, none, some, List, [], ◌∷◌, ◌++◌, ok,
  err, ensure, any, find, keep, ltb, ◌==◌, str_eq, is_some, if◌then◌else◌,
}
use thought_khoral_room_gate.Tx.{Tx, ◌>>=◌, pure, lift, gets}
use thought_khoral_room_gate.Json.{
  Value, string, json, json_number, json_array, as_str, value_eq, at,
}
use thought_khoral_room_gate.Env.{Uuid, Instant}
use thought_khoral_room_gate.Auth.{Actor}
use thought_khoral_room_gate.Store.{NewEvent, RoomEvent}
use thought_khoral_room_gate.Store.Events.{new_v4}
use thought_khoral_room_gate.Conversation.{
  ConversationState, ConversationRow, TaskRow, ConversationWorld, Crates, in_rooms, seconds,
  json_uuid,
}
use thought_khoral_room_gate.Conversation.Protocol.{
  ConversationError, codex_agent_id, max_safe_integer, conversation_stale, context_mismatch,
  runtime_unavailable, duplicate_conflict,
}
use thought_khoral_room_gate.Conversation.Policy.{ConversationPolicy}

pub record ConversationReservation : Type 0 where
  pub accepted : Value
  pub prompt : Option RoomEvent

-- `Utc::now()` at the entry, under the room lock, and before the commit.
pub record Moments : Type 0 where
  pub entered_at : Instant
  pub now : Instant
  pub committed_at : Instant

abbrev pub is_superseded : ConversationState → Bool
is_superseded ConversationState.superseded = true
is_superseded ConversationState.reserved = false
is_superseded ConversationState.running = false
is_superseded ConversationState.ready = false
is_superseded ConversationState.unusable = false

abbrev pub is_ready : ConversationState → Bool
is_ready ConversationState.ready = true
is_ready ConversationState.reserved = false
is_ready ConversationState.running = false
is_ready ConversationState.unusable = false
is_ready ConversationState.superseded = false

-- `room_id=$1 AND agent_id=$2 AND state <> 'superseded'`.
abbrev pub is_current : Uuid → ConversationRow → Bool
is_current room row =
    row.room_id == room && (row.agent_id == codex_agent_id && not (is_superseded row.state))

-- `COALESCE(MAX(generation), 0)`.
max_generation : List ConversationRow → ℕ
max_generation [] = 0
max_generation (row ∷ rows) =
    let rest = max_generation rows in if ltb rest row.generation then row.generation else rest

-- The PRIMARY KEY, UNIQUE (room_id, agent_id, generation), and the unique index on the current
-- conversation of a room and an agent.
abbrev pub same_conversation : ConversationRow → ConversationRow → Bool
same_conversation new old =
    old.conversation_id == new.conversation_id
    || ((old.room_id == new.room_id && old.agent_id == new.agent_id)
        && (old.generation == new.generation
            || (not (is_superseded old.state) && not (is_superseded new.state))))

unfoldable pub insert_conversation :
    ConversationRow → Tx ConversationWorld ConversationError (Unit {0})
insert_conversation row w =
    if any (same_conversation row) w.agent_conversations
    then err runtime_unavailable
    else ok (tt, record w { agent_conversations = w.agent_conversations ++ row ∷ [] })

-- The PRIMARY KEY, and UNIQUE (room_id, request_id).
abbrev pub same_task : TaskRow → TaskRow → Bool
same_task new old =
    old.task_id == new.task_id || (old.room_id == new.room_id && old.request_id == new.request_id)

unfoldable pub insert_task : TaskRow → Tx ConversationWorld ConversationError (Unit {0})
insert_task row w =
    if any (same_task row) w.conversation_tasks
    then err runtime_unavailable
    else ok (tt, record w { conversation_tasks = w.conversation_tasks ++ row ∷ [] })

abbrev pub superseded_at : Instant → ConversationRow → ConversationRow
superseded_at now row = record row {
  state = ConversationState.superseded;
  active_task_id = none;
  updated_at = now;
}

abbrev pub reserved_for : Uuid → Value → Instant → ConversationRow → ConversationRow
reserved_for task settings now row = record row {
  state = ConversationState.reserved;
  active_task_id = some task;
  selected_settings = settings;
  updated_at = now;
}

-- The conversation of the turn, its generation, and the revision that it has consumed.
pub record Place : Type 0 where
  pub conversation_id : Uuid
  pub generation : ℕ
  pub base : ℕ

abbrev pub is_accepted_turn : Uuid → Uuid → Uuid → TaskRow → Bool
is_accepted_turn room request requester task =
    task.room_id == room && (task.request_id == request && task.requester_id == requester)

module _ (crates : Crates) (policy : ConversationPolicy) where
  abbrev pub minimum : ℕ
  minimum = seconds (policy.turn_deadline_seconds + policy.interrupt_grace_seconds)

  abbrev pub fingerprint : Actor → Value → Value
  fingerprint actor request = json (
      ("method", string "agent-conversation.turn")
      ∷ (("requesterId", json_uuid crates.env actor.id) ∷ (("intent", request) ∷ [])))

  -- A request that was made before.
  unfoldable pub repeat_turn :
      Actor
      → Uuid
      → Uuid
      → Value
      → Value
      → Tx ConversationWorld ConversationError ConversationReservation
  repeat_turn actor room request_id request prior w =
      if value_eq prior (fingerprint actor request)
      then (elim (find (is_accepted_turn room request_id actor.id) w.conversation_tasks) [
        | none ↦ err duplicate_conflict
        | some task ↦ ok (record { accepted = task.accepted_turn; prompt = none }, w)
      ])
      else err duplicate_conflict

  abbrev pub explicit_mode : Value → Option String
  explicit_mode request = as_str (at (at request "conversation") "mode")

  -- What a continuation demands of the conversation.
  abbrev pub may_continue : Value → ConversationRow → Bool
  may_continue request row =
      is_ready row.state
      && (str_eq row.policy_revision policy.policy_revision
          && (str_eq row.guidance_revision policy.guidance_revision
              && (not (is_some (explicit_mode request))
                  || (value_eq (at (at request "conversation") "id")
                        (json_uuid crates.env row.conversation_id)
                      && value_eq (at (at request "conversation") "generation")
                          (json_number row.generation)))))

  unfoldable pub continue_place :
      Value → Option ConversationRow → Tx ConversationWorld ConversationError Place
  continue_place request none w = err conversation_stale
  continue_place request (some row) w =
      if may_continue request row
      then (if row.consumed_revision == 0
          then err context_mismatch
          else ok (
            record {
              conversation_id = row.conversation_id;
              generation = row.generation;
              base = row.consumed_revision;
            },
            w,
          ))
      else err conversation_stale

  unfoldable pub new_place : Uuid → Tx ConversationWorld ConversationError Place
  unfolding max_generation
  new_place room = do
    previous ← gets (λ w.
        max_generation
          (keep (λ c. c.room_id == room && c.agent_id == codex_agent_id) w.agent_conversations))
    _ ← lift (ensure (ltb previous max_safe_integer) conversation_stale)
    id ← in_rooms (new_v4 crates.env)
    pure (record { conversation_id = id; generation = previous + 1; base = 0 })

  -- The settings of the last turn are the defaults of a continuation.
  abbrev pub shared_settings : Bool → Option ConversationRow → Option Value
  shared_settings continues current = elim current [
    | none ↦ none
    | some row ↦
        if continues
        then some (
            json (
              ("model", at row.selected_settings "model")
              ∷ (("reasoningEffort", at row.selected_settings "reasoningEffort")
                  ∷ (("catalogRevision", string policy.catalog_revision) ∷ []))))
        else none
  ]

  abbrev pub first_of : Option Value → Option Value → Option Value
  first_of none other = other
  first_of (some v) other = some v

  abbrev pub prompt_event : Actor → Uuid → Uuid → Value → Instant → NewEvent
  prompt_event actor room request_id request occurred_at = record {
    room_id = room;
    request_id = request_id;
    event_type = "message.created";
    actor_id = actor.id;
    actor_role = "human";
    actor_display_name = some actor.display_name;
    payload = json (
        ("text", at request "text")
        ∷ (("mentions", at request "mentions")
            ∷ (("delivery", string "room") ∷ (("audienceIds", json_array []) ∷ []))));
    occurred_at = occurred_at;
  }

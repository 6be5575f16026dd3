-- ===== src/Conversation/Turn.antt =====
-- src/conversation_store.rs: the transaction of `reserve_inner`.
pub mod Times
use thought_khoral_room_gate.Prelude.{
  ℕ, ◌+◌, String, Bool, true, false, ◌&&◌, ◌||◌, not, Option, none, some, List, [], ◌∷◌, Result, ok,
  err, ensure, ok_or, any, find, leb, ltb, ◌==◌, str_eq, is_some, unwrap_or, if◌then◌else◌,
}
use thought_khoral_room_gate.Tx.{Tx, ◌>>=◌, pure, lift, fail, gets}
use thought_khoral_room_gate.Json.{
  Value, null, string, json, json_number, as_str, as_i64, value_eq, get, at,
}
use thought_khoral_room_gate.Env.{Uuid, Instant}
use thought_khoral_room_gate.Auth.{Actor}
use thought_khoral_room_gate.Store.{RoomEvent}
use thought_khoral_room_gate.Store.Events.{
  new_v4, append_event_in_transaction, prior_request, record_request,
}
use thought_khoral_room_gate.Rooms.Mentions.{Unicode}
use thought_khoral_room_gate.Rooms.Participants.{Presence, room_presence}
use thought_khoral_room_gate.Conversation.{
  ConversationState, TaskState, ConversationRow, TaskRow, ConversationWorld, Crates, in_rooms,
  seconds, json_uuid,
}
use thought_khoral_room_gate.Conversation.Protocol.{
  ConversationError, codex_agent_id, max_safe_integer, profile_version, validate_profile_value,
  validate_turn_request, invalid_task_input, conversation_busy, conversation_stale,
  context_mismatch, runtime_unavailable,
}
use thought_khoral_room_gate.Conversation.Policy.{ConversationPolicy, resolve_settings}
use thought_khoral_room_gate.Conversation.Authority.{is_busy, is_conversation}
use thought_khoral_room_gate.Conversation.Tasks.{update_conversations}
use thought_khoral_room_gate.Conversation.Citations.{uuid_field}
use thought_khoral_room_gate.Conversation.Canonical.{source_manifest}
use thought_khoral_room_gate.Conversation.Context.{build_context}
use thought_khoral_room_gate.Conversation.Catalog.{CatalogQuery, selection_in_time}
use thought_khoral_room_gate.Conversation.Mentions.{
  authorize_conversation_turn, admit, validate_conversation_mentions,
}
use thought_khoral_room_gate.Conversation.Reserve.{
  ConversationReservation, Moments, is_current, insert_conversation, insert_task, superseded_at,
  reserved_for, Place, minimum, fingerprint, repeat_turn, explicit_mode, continue_place, new_place,
  shared_settings, first_of, prompt_event,
}

-- The parts of a turn that the rows are made of.
pub record Turn : Type 0 where
  pub room : Uuid
  pub request_id : Uuid
  pub mode : String
  pub place : Place
  pub task_id : Uuid
  pub settings : Value
  pub authorized_until : Instant
  pub now : Instant

module _ (crates : Crates) (policy : ConversationPolicy) where
  abbrev profile : String → Value → Tx ConversationWorld ConversationError (Unit {0})
  profile name value = lift (validate_profile_value crates.is_valid name value)

  abbrev uuid : Uuid → Value
  uuid id = json_uuid crates.env id

  abbrev instant : Instant → Value
  instant t = string (crates.env.instant_to_string t)

  abbrev pub deadline : Turn → Instant
  deadline turn = turn.now + seconds policy.turn_deadline_seconds

  abbrev pub frozen_input : Actor → Turn → RoomEvent → Value → Value
  frozen_input actor turn prompt context = json (
      ("profileVersion", string profile_version)
      ∷ (("taskId", uuid turn.task_id)
          ∷ (("roomId", uuid turn.room)
              ∷ (("requesterId", uuid actor.id)
                  ∷ (("agentId", uuid codex_agent_id)
                      ∷ (("skillId", string "chat")
                          ∷ ((
                            "conversation",
                            json (
                                ("id", uuid turn.place.conversation_id)
                                ∷ (("generation", json_number turn.place.generation)
                                    ∷ (("mode", string turn.mode) ∷ []))),
                          )
                              ∷ (("triggerEventId", uuid prompt.event_id)
                                  ∷ (("context", context)
                                      ∷ (("guidanceRevision", string policy.guidance_revision)
                                          ∷ (("issuedAt", instant turn.now)
                                              ∷ (("expiresAt", instant (deadline turn))
                                                  ∷ ((
                                                    "authorizationExpiresAt",
                                                    instant turn.authorized_until,
                                                  )
                                                      ∷ (("model", at turn.settings "model")
                                                          ∷ ((
                                                            "reasoningEffort",
                                                            at turn.settings "reasoningEffort",
                                                          )
                                                            ∷ ((
                                                            "catalogRevision",
                                                            at turn.settings "catalogRevision",
                                                            )
                                                            ∷ []))))))))))))))))

  abbrev pub accepted_turn : Turn → RoomEvent → Value
  accepted_turn turn prompt = json (
      ("profileVersion", string profile_version)
      ∷ (("roomId", uuid turn.room)
          ∷ (("taskId", uuid turn.task_id)
              ∷ (("conversationId", uuid turn.place.conversation_id)
                  ∷ (("generation", json_number turn.place.generation)
                      ∷ (("triggerEventId", uuid prompt.event_id)
                          ∷ (("contextRevision", json_number prompt.sequence)
                              ∷ (("selectedSettings", turn.settings) ∷ []))))))))

  abbrev pub new_conversation : Turn → ConversationRow
  new_conversation turn = record {
    conversation_id = turn.place.conversation_id;
    room_id = turn.room;
    agent_id = codex_agent_id;
    generation = turn.place.generation;
    state = ConversationState.reserved;
    consumed_revision = 0;
    policy_revision = policy.policy_revision;
    guidance_revision = policy.guidance_revision;
    selected_settings = turn.settings;
    active_task_id = some turn.task_id;
    created_at = crates.env.stored_instant turn.now;
    updated_at = crates.env.stored_instant turn.now;
  }

  abbrev pub new_task : Actor → Turn → Value → Value → Value → Uuid → ℕ → TaskRow
  new_task actor turn frozen sources accepted trigger revision = record {
    task_id = turn.task_id;
    room_id = turn.room;
    request_id = turn.request_id;
    requester_id = actor.id;
    agent_id = codex_agent_id;
    conversation_id = turn.place.conversation_id;
    generation = turn.place.generation;
    trigger_event_id = trigger;
    context_revision = revision;
    state = TaskState.reserved;
    frozen_input = frozen;
    selected_settings = turn.settings;
    source_manifest = sources;
    policy_revision = policy.policy_revision;
    authorization_expires_at = crates.env.stored_instant turn.authorized_until;
    issued_at = crates.env.stored_instant turn.now;
    expires_at = crates.env.stored_instant (deadline turn);
    lease_owner = none;
    lease_expires_at = none;
    lease_token = none;
    receipt_acknowledgement = none;
    reply_event_id = none;
    created_at = crates.env.stored_instant turn.now;
    updated_at = crates.env.stored_instant turn.now;
    accepted_turn = accepted;
    result = none;
    failure = none;
    effective_settings = none;
    usage = none;
    last_update_ordinal = 0;
    last_progress_at = none;
  }

  -- `if mode == "new" { … } else { … }`: the conversation's row.
  unfoldable pub supersede :
      Option ConversationRow → Instant → Tx ConversationWorld ConversationError (Unit {0})
  unfolding update_conversations
  supersede none now = pure tt
  supersede (some row) now =
      update_conversations (is_conversation row.conversation_id) (superseded_at now)

  unfoldable pub occupy :
      Option ConversationRow → Turn → Tx ConversationWorld ConversationError (Unit {0})
  unfolding supersede insert_conversation update_conversations
  occupy current turn =
      if str_eq turn.mode "new"
      then (do
        _ ← supersede current (crates.env.stored_instant turn.now)
        insert_conversation (new_conversation turn))
      else update_conversations (is_conversation turn.place.conversation_id)
          (reserved_for turn.task_id turn.settings (crates.env.stored_instant turn.now))

  -- The message of the turn, and the context that it closes.
  unfoldable pub write_message :
      Actor → Value → Turn → Tx ConversationWorld ConversationError (RoomEvent × Value)
  unfolding build_context append_event_in_transaction record_request validate_profile_value
  write_message actor request turn = do
    text ← lift (ok_or (as_str (at request "occurredAt")) invalid_task_input)
    occurred_at ← lift (ok_or (crates.parse_from_rfc3339 text) invalid_task_input)
    prompt ← in_rooms (
        append_event_in_transaction crates.env
          (prompt_event crates policy actor turn.room turn.request_id request occurred_at))
    _ ← lift (ensure (leb prompt.sequence max_safe_integer) context_mismatch)
    built ← gets (λ w.
        build_context crates w turn.room turn.place.conversation_id turn.place.generation
          turn.place.base prompt.event_id policy)
    context ← lift built
    _ ← profile "reserved-input" (frozen_input actor turn prompt context)
    _ ← profile "task" (accepted_turn turn prompt)
    _ ← in_rooms (
        record_request turn.room turn.request_id (fingerprint crates policy actor request)
          (prompt ∷ []))
    pure (prompt, context)

  unfoldable pub write_task :
      Actor → Turn → RoomEvent → Value → Tx ConversationWorld ConversationError (Unit {0})
  unfolding insert_task source_manifest uuid_field
  write_task actor turn prompt context = do
    let accepted = accepted_turn turn prompt
    trigger ← lift (uuid_field crates.env accepted "triggerEventId")
    revision ← lift (ok_or (as_i64 (at accepted "contextRevision")) runtime_unavailable)
    insert_task (
        new_task actor turn (frozen_input actor turn prompt context) (source_manifest context)
          accepted trigger revision)

  -- The rows of the turn, from its message to the task.
  unfoldable pub store_turn :
      Actor
      → Value
      → Option ConversationRow
      → Turn
      → Tx ConversationWorld ConversationError ConversationReservation
  unfolding write_message occupy write_task
  store_turn actor request current turn = do
    written ← write_message actor request turn
    _ ← occupy current turn
    _ ← write_task actor turn written.0 written.1
    pure (record { accepted = accepted_turn turn written.0; prompt = some written.0 })

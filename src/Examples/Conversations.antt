-- ===== src/Examples/Conversations.antt =====
-- Tests of the conversations: one room, one human, and a profile that accepts every value but a turn of an
-- unknown mode.
use thought_khoral_room_gate.Prelude.{
  ℕ, zero, suc, ◌+◌, ◌≤◌, ◌<◌, ◌≡◌, refl, String, Bool, true, false, ◌||◌, Option, none, some, [],
  ◌∷◌, ◌++◌, Result, ok, err, ◌⊎◌, inl, inr, count, str_eq, str_eq_iff, ◌==◌, if◌then◌else◌,
}
use thought_khoral_room_gate.Text.{octet_length}
use thought_khoral_room_gate.Protocol.Validity.{is_valid_room_event}
use thought_khoral_room_gate.Conversation.Citations.{is_public}
use thought_khoral_room_gate.Json.{Value, value_eq, string, json, json_array, as_str, at}
use thought_khoral_room_gate.Env.{Uuid, Env}
use thought_khoral_room_gate.Store.{RoomEvent}
use thought_khoral_room_gate.Auth.{Actor, human, is_human}
use thought_khoral_room_gate.Rooms.Process.History.{empty_world}
use thought_khoral_room_gate.Conversation.{ConversationWorld, Crates, seconds}
use thought_khoral_room_gate.Conversation.Protocol.{
  ConversationError, codex_agent_id, timeout, failure_code, code,
}
use thought_khoral_room_gate.Conversation.Protocol.Codes.{failure_code_lem}
use thought_khoral_room_gate.Conversation.Policy.{ConversationPolicy, with_policy}
use thought_khoral_room_gate.Conversation.Claims.{claim}
use thought_khoral_room_gate.Conversation.Mentions.{authorize_conversation_turn}
use thought_khoral_room_gate.Conversation.Reserve.{
  ConversationReservation, Moments, is_current, minimum,
}
use thought_khoral_room_gate.Conversation.Turn.{Turn, deadline}
use thought_khoral_room_gate.Conversation.Reservation.{reserve_inner}
use thought_khoral_room_gate.Conversation.Turn.Times.{turn_deadline-bounds}
use thought_khoral_room_gate.Conversation.Context.{build_context}
use thought_khoral_room_gate.Conversation.Context.Public.{
  with_events, IsPrivate, hidden_from, build_context_is_public,
}
use thought_khoral_room_gate.Rooms.Visibility.{event_visible_to}
use thought_khoral_room_gate.Conversation.Invariant.{open_in, busy_in, is_unchecked}
use thought_khoral_room_gate.Conversation.Invariant.Reservations.{ModeLaw}
use thought_khoral_room_gate.Conversation.Runs.{
  reserving, claiming, Run, start, next, without_conversations, turns_are_exclusive,
}

abbrev strokes : ℕ → String
strokes zero = String.[]
strokes (suc n) = String.◌∷◌ "I" (strokes n)

abbrev strokes_of : String → ℕ
strokes_of String.[] = zero
strokes_of (String.◌∷◌ c s) = suc (strokes_of s)

abbrev uuid_text : Uuid → String
uuid_text id = elim (id == codex_agent_id) [ true ↦ "codex" | false ↦ strokes id ]

abbrev env : Env
env = record {
  new_v4 = λ i. suc i;
  uuid_to_string = uuid_text;
  uuid_parse = λ s. if str_eq s "codex" then some codex_agent_id else some (strokes_of s);
  instant_to_string = λ t. "t";
  stored_instant = λ t. t;
  is_timestamptz = λ t. true;
  is_text_column = λ s. true;
  is_jsonb = λ v. true;
  jsonb = λ v. v;
  room_event_schema = λ v. true;
}

abbrev known_text : Option String → Bool
known_text none = true
known_text (some text) = str_eq text "new" || str_eq text "continue"

abbrev valid : String → Value → Bool
valid name v =
    if str_eq name "turn" then known_text (as_str (at (at v "conversation") "mode")) else true

abbrev pub crates : Crates
crates = record {
  env = env;
  is_valid = valid;
  sha256_hex = λ s. "digest";
  to_json = λ v. "{}";
  parse_from_rfc3339 = λ s. some (strokes_of s);
  from_timestamp = λ n. some (seconds n);
}

known_text-cases :
    (o : Option String) (text : String)
    → known_text o ≡ true
    → o ≡ some text
    → (text ≡ "new") ⊎ (text ≡ "continue")
known_text-cases none text h e = absurd (cc e)
known_text-cases (some other) text h e =
    let same : other ≡ text = cc e in split (str_eq other "new") refl h same
  where
    split :
        (b : Bool)
        → str_eq other "new" ≡ b
        → (b || str_eq other "continue") ≡ true
        → other ≡ text
        → (text ≡ "new") ⊎ (text ≡ "continue")
    split true k l same = inl (rw (← same) ((str_eq_iff other "new").0 k))
    split false k l same = inr (rw (← same) ((str_eq_iff other "continue").0 l))

pub mode_law : ModeLaw crates
mode_law = record {
  turn_modes = λ v h text e. known_text-cases (as_str (at (at v "conversation") "mode")) text h e;
}

abbrev pub policy : ConversationPolicy
policy = record {
  enabled = true;
  policy_revision = "p";
  guidance_revision = "g";
  catalog_revision = "c";
  model = "m";
  reasoning_effort = "e";
  models = (record { id = "m"; reasoning_efforts = "e" ∷ [] }) ∷ [];
  max_context_bytes = 1000;
  max_records = 10;
  turn_deadline_seconds = 180;
  interrupt_grace_seconds = 5;
}

abbrev pub actor : Actor
actor = record { id = 7; role = human; display_name = "Ada"; expires_at = 1000 }

abbrev pub request : Value
request = json (
    ("agentId", string "codex")
    ∷ (("roomId", string "III")
        ∷ (("requestId", string "IIIII")
            ∷ (("occurredAt", string "I")
                ∷ (("text", string "hello")
                    ∷ ((
                      "mentions",
                      json_array (
                          json (
                            ("type", string "participant")
                            ∷ (("id", string "codex") ∷ (("token", string "codex-agent") ∷ [])))
                          ∷ []),
                    )
                        ∷ []))))))

abbrev pub moments : Moments
moments = record { entered_at = seconds 1; now = seconds 2; committed_at = seconds 3 }

abbrev pub before : ConversationWorld
before = without_conversations empty_world

abbrev world_after :
    Result ConversationError (ConversationReservation × ConversationWorld) → ConversationWorld
world_after (ok (_, w)) = w
world_after (err _) = before

abbrev pub answer_of :
    Result ConversationError (ConversationReservation × ConversationWorld) → ConversationReservation
answer_of (ok (a, _)) = a
answer_of (err _) = record { accepted = string "refused"; prompt = none }

abbrev pub reserving_run : Result ConversationError (ConversationReservation × ConversationWorld)
reserving_run = reserve_inner crates policy actor request (seconds 900) none none moments before

abbrev pub reserved_world : ConversationWorld
reserved_world = world_after reserving_run

abbrev pub claimed : ConversationWorld × Result ConversationError (Option Value)
claimed =
    claim crates policy "worker" (λ n. record { current_timestamp = seconds 4; now = seconds 4 })
      reserved_world

pub reserve_is_ok : reserving_run ≡ ok (answer_of reserving_run, reserved_world)
unfolding reserve_inner value_eq is_valid_room_event is_public octet_length
reserve_is_ok = refl

one_turn_open : count (open_in 3) (claimed.0).conversation_tasks ≡ 1
unfolding reserve_inner claim value_eq is_valid_room_event is_public octet_length
one_turn_open = refl

pub reserved_and_claimed : Run crates before (claimed.0)
reserved_and_claimed =
    next
      (next start (
        reserving policy actor request (seconds 900) none none moments (answer_of reserving_run)
          reserved_world reserve_is_ok))
      (claiming policy "worker" (λ n. record { current_timestamp = seconds 4; now = seconds 4 }))

turns_are_exclusive_example :
    (count (open_in 3) (claimed.0).conversation_tasks ≤ 1)
    × (count (is_current 3) (claimed.0).agent_conversations ≤ 1)
    × (count (open_in 3) (claimed.0).conversation_tasks
        ≤ count (busy_in 3) (claimed.0).agent_conversations)
    × (count is_unchecked (claimed.0).agent_conversations ≡ 0)
turns_are_exclusive_example = turns_are_exclusive mode_law reserved_and_claimed 3

failure_code_example :
    (failure_code (code timeout) ≡ ok timeout)
    × ((f : ConversationError) → failure_code "timeout" ≡ ok f → code f ≡ "timeout")
failure_code_example = failure_code_lem timeout "timeout"

abbrev pub turn : Turn
turn = record {
  room = 3;
  request_id = 5;
  mode = "new";
  place = record { conversation_id = 1; generation = 1; base = 0 };
  task_id = 2;
  settings = string "settings";
  authorized_until = seconds 900;
  now = seconds 2;
}

policy_accepted : with_policy policy ≡ ok policy
unfolding with_policy value_eq
policy_accepted = refl

turn_granted :
    authorize_conversation_turn crates actor (seconds 900) turn.now (minimum crates policy)
    ≡ ok turn.authorized_until
unfolding authorize_conversation_turn
turn_granted = refl

turn_deadline-bounds_example :
    (is_human actor.role ≡ true)
    × (turn.now < deadline crates policy turn)
    × (deadline crates policy turn ≤ turn.now + seconds 180)
    × (deadline crates policy turn + seconds 5 ≤ turn.authorized_until)
    × (turn.authorized_until ≤ seconds 900)
turn_deadline-bounds_example =
    turn_deadline-bounds crates policy policy actor (seconds 900) turn policy_accepted turn_granted

abbrev whisper : RoomEvent
whisper = record {
  event_id = 77;
  sequence = 9;
  room_id = 3;
  request_id = 78;
  event_type = "message.created";
  actor_id = 7;
  actor_role = "human";
  actor_display_name = none;
  payload = json (
      ("text", string "not for all")
      ∷ ("delivery", string "mentioned")
      ∷ ("audienceIds", json_array [])
      ∷ []);
  occurred_at = 1;
}

abbrev world_with_whisper : ConversationWorld
world_with_whisper = with_events reserved_world (reserved_world.rooms.room_events ++ whisper ∷ [])

is_private : IsPrivate crates.env whisper
unfolding event_visible_to
is_private = hidden_from 7 refl

build_context_is_public_example :
    build_context crates world_with_whisper 3 1 1 0 3 policy
    ≡ build_context crates
        (with_events world_with_whisper (reserved_world.rooms.room_events ++ []))
        3
        1
        1
        0
        3
        policy
build_context_is_public_example =
    build_context_is_public crates world_with_whisper reserved_world.rooms.room_events [] whisper 3
      1 1 0 3 policy refl is_private

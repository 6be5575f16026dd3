-- ===== src/Conversation/Protocol.antt =====
-- src/conversation_protocol.rs: the errors of the conversation profile, its identities, and the
-- checks of the values that cross its border.
pub mod Codes
pub mod Turns
use thought_khoral_room_gate.Prelude.{
  ℕ, String, Bool, true, false, ◌&&◌, ◌||◌, not, Option, none, some, List, [], ◌∷◌, Result, ok, err,
  ◌>>=◌, ok_or, ensure, any, leb, str_eq, if◌then◌else◌,
}
use thought_khoral_room_gate.Json.{
  Number, pos_int, neg_int, float, Value, null, bool, number, string, array, object, Items, nil,
  cons, Fields, end, field, at, as_str, as_array, value_eq,
}
use thought_khoral_room_gate.Env.{Uuid}

abbrev pub profile_version : String
profile_version = "thought-khoral.agent-conversation.v1"

abbrev pub codex_agent_id : Uuid
codex_agent_id = 0x74686f756768746b686f72616c000004

abbrev pub max_safe_integer : ℕ
max_safe_integer = 9007199254740991

pub data ConversationError : Type 0 where
  invalid_task_input forbidden conversation_busy conversation_stale context_mismatch :
      ConversationError
  context_too_large runtime_unavailable authentication_required session_unavailable :
      ConversationError
  timeout conversation_interrupted execution_failed duplicate_conflict : ConversationError

-- `ConversationError::code`.
unfoldable pub code : ConversationError → String
code invalid_task_input = "invalid_task_input"
code forbidden = "forbidden"
code conversation_busy = "conversation_busy"
code conversation_stale = "conversation_stale"
code context_mismatch = "context_mismatch"
code context_too_large = "context_too_large"
code runtime_unavailable = "runtime_unavailable"
code authentication_required = "authentication_required"
code session_unavailable = "session_unavailable"
code timeout = "timeout"
code conversation_interrupted = "conversation_interrupted"
code execution_failed = "execution_failed"
code duplicate_conflict = "duplicate_conflict"

abbrev all_errors : List ConversationError
all_errors =
    invalid_task_input
    ∷ (forbidden
        ∷ (conversation_busy
            ∷ (conversation_stale
                ∷ (context_mismatch
                    ∷ (context_too_large
                        ∷ (runtime_unavailable
                            ∷ (authentication_required
                                ∷ (session_unavailable
                                    ∷ (timeout
                                        ∷ (conversation_interrupted
                                            ∷ (execution_failed
                                                ∷ (duplicate_conflict ∷ []))))))))))))

-- The first error of a list with the code.
unfoldable pub with_code : String → List ConversationError → Option ConversationError
unfolding code
with_code text [] = none
with_code text (e ∷ es) =
    let rest = with_code text es in if str_eq (code e) text then some e else rest

-- src/conversation_store.rs: `failure_code`.
unfoldable pub failure_code : String → Result ConversationError ConversationError
unfolding with_code
failure_code text = ok_or (with_code text all_errors) invalid_task_input

unfoldable pub safe_number : Number → Bool
safe_number (pos_int n) = leb n max_safe_integer
safe_number (neg_int n) = false
safe_number (float s) = false

unfoldable mutual
  unfolding safe_number

  pub safe_numbers : Value → Bool
  safe_numbers (number n) = safe_number n
  safe_numbers (array vs) = safe_items vs
  safe_numbers (object fs) = safe_fields fs
  safe_numbers (string s) = true
  safe_numbers (bool b) = true
  safe_numbers null = true

  pub safe_items : Items → Bool
  safe_items nil = true
  safe_items (cons v vs) = safe_numbers v && safe_items vs

  pub safe_fields : Fields → Bool
  safe_fields end = true
  safe_fields (field k v fs) = safe_numbers v && safe_fields fs

-- `HashSet<Option<&str>>::insert` fails on a member.
abbrev option_eq : Option String → Option String → Bool
option_eq none none = true
option_eq (some s) (some t) = str_eq s t
option_eq _ _ = false

-- What the loop has seen: the participants, the aliases, and whether one is the agent itself.
pub record Seen : Type 0 where
  pub participants : List String
  pub aliases : List (Option String)
  pub direct_codex : Bool

abbrev see_id : Value → Value → String → Seen → Result ConversationError Seen
see_id agent mention id seen =
    if any (str_eq id) seen.participants
    then err invalid_task_input
    else if value_eq (at mention "id") agent
    then (if value_eq (at mention "token") (string "codex-agent")
        then ok (record seen { participants = id ∷ seen.participants; direct_codex = true })
        else err invalid_task_input)
    else ok (record seen { participants = id ∷ seen.participants })

-- One round of the loop of `validate_turn_request`.
pub see_mention : Value → Value → Seen → Result ConversationError Seen
see_mention agent mention seen =
    if value_eq (at mention "type") (string "participant")
    then (ok_or (as_str (at mention "id")) invalid_task_input >>= λ id.
        see_id agent mention id seen)
    else if any (option_eq (as_str (at mention "alias"))) seen.aliases
    then err invalid_task_input
    else ok (record seen { aliases = as_str (at mention "alias") ∷ seen.aliases })

pub see_mentions : Value → List Value → Seen → Result ConversationError Seen
see_mentions agent [] seen = ok seen
see_mentions agent (mention ∷ mentions) seen =
    see_mention agent mention seen >>= see_mentions agent mentions

abbrev pub nothing_seen : Seen
nothing_seen = record { participants = []; aliases = []; direct_codex = false }

-- The schemas by name, and `CODEX_AGENT_ID.to_string()`.
module _ (is_valid : String → Value → Bool) where
  unfoldable pub validate_profile_value : String → Value → Result ConversationError (Unit {0})
  unfolding safe_numbers
  validate_profile_value name value =
      ensure (safe_numbers value && is_valid name value) invalid_task_input

  unfoldable pub validate_turn_request : String → Value → Result ConversationError Value
  unfolding validate_profile_value see_mentions see_mention
  validate_turn_request codex request = do
    _ ← validate_profile_value "turn" request
    _ ← ensure (value_eq (at request "agentId") (string codex)) invalid_task_input
    mentions ← ok_or (as_array (at request "mentions")) invalid_task_input
    seen ← see_mentions (at request "agentId") mentions nothing_seen
    if seen.direct_codex then ok request else err invalid_task_input

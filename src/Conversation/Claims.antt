-- ===== src/Conversation/Claims.antt =====
-- src/conversation_store.rs: `claim`, with which a worker takes the next turn, and `packet`, which
-- delivers the input of the turn again.
use thought_khoral_room_gate.Prelude.{
  ℕ, zero, suc, ◌+◌, String, Bool, true, false, ◌&&◌, ◌||◌, not, Option, none, some, List, [], ◌∷◌,
  Result, ok, err, find, keep, leb, ltb, ◌==◌, length, if◌then◌else◌,
}
use thought_khoral_room_gate.Tx.{Tx, ◌>>=◌, pure, lift, fail}
use thought_khoral_room_gate.Text.{chars}
use thought_khoral_room_gate.Json.{Value, string, json, object, insert, end, json_option}
use thought_khoral_room_gate.Env.{Uuid, Instant}
use thought_khoral_room_gate.Store.Events.{new_v4}
use thought_khoral_room_gate.Conversation.{
  ConversationState, TaskState, ConversationRow, TaskRow, ConversationWorld, Crates, in_rooms, min,
  seconds, json_uuid,
}
use thought_khoral_room_gate.Conversation.Protocol.{
  ConversationError, codex_agent_id, validate_profile_value, invalid_task_input, forbidden,
  runtime_unavailable, authentication_required, session_unavailable, timeout,
  conversation_interrupted, conversation_busy, conversation_stale, context_mismatch,
  context_too_large, execution_failed, duplicate_conflict,
}
use thought_khoral_room_gate.Conversation.Policy.{ConversationPolicy}
use thought_khoral_room_gate.Conversation.Authority.{
  JoinedRow, is_open, is_reserved, id_is, is_task, is_codex_task, is_conversation, require_enabled,
  task_authority, to_claim, under,
}
use thought_khoral_room_gate.Conversation.Tasks.{
  task_in_transaction, update_tasks, update_conversations, fail_task,
}

-- What a transaction of several outcomes leaves: an inner error was returned after a commit, an
-- outer one rolls back.
abbrev pub settle :
    {A : Type 0}
    → Tx ConversationWorld ConversationError (Result ConversationError A)
    → ConversationWorld
    → ConversationWorld × Result ConversationError A
settle m w = elim (m w) [ ok (r, w') ↦ (w', r) | err e ↦ (w, err e) ]

-- The instants that a transaction reads: CURRENT_TIMESTAMP, and `Utc::now()`.
pub record Times : Type 0 where
  pub current_timestamp : Instant
  pub now : Instant

abbrev pub ended_by : Instant → Option Instant → Bool
ended_by at none = false
ended_by at (some expiry) = leb expiry at

-- The WHERE of the query for a candidate.
abbrev pub is_running : TaskState → Bool
is_running TaskState.running = true
is_running TaskState.reserved = false
is_running TaskState.completed = false
is_running TaskState.failed = false

abbrev pub is_candidate : Instant → TaskRow → Bool
is_candidate at task =
    task.agent_id == codex_agent_id
    && (is_reserved task.state
        || (is_running task.state
            && (ended_by at task.lease_expires_at
                || (leb task.expires_at at || leb task.authorization_expires_at at))))

abbrev pub is_older : TaskRow → TaskRow → Bool
is_older a b =
    ltb a.created_at b.created_at || (a.created_at == b.created_at && leb a.task_id b.task_id)

-- `ORDER BY created_at, task_id LIMIT 1`.
unfoldable pub oldest : List TaskRow → Option TaskRow
oldest [] = none
oldest (task ∷ tasks) = elim (oldest tasks) [
  | none ↦ some task
  | some other ↦ if is_older task other then some task else some other
]

-- `packet[key] = value` on an object; the CHECK of the column admits nothing else.
abbrev pub set_entry : String → Value → Value → Value
set_entry k v (object fs) = object (insert k v fs)
set_entry k v other = object (insert k v end)

pub data Round : Type 0 where
  nothing refused : Round
  issued : Value → Round

abbrev pub leased_task : String → Uuid → Instant → Instant → TaskRow → TaskRow
leased_task owner token expiry now task = record task {
  state = TaskState.running;
  lease_owner = some owner;
  lease_token = some token;
  lease_expires_at = some expiry;
  updated_at = now;
}

abbrev pub running_conversation : Instant → ConversationRow → ConversationRow
running_conversation now row = record row { state = ConversationState.running; updated_at = now }

-- Errors after which `packet` fails the task.
abbrev pub fails_packet : ConversationError → Bool
fails_packet timeout = true
fails_packet authentication_required = true
fails_packet conversation_interrupted = true
fails_packet forbidden = true
fails_packet runtime_unavailable = true
fails_packet invalid_task_input = false
fails_packet conversation_busy = false
fails_packet conversation_stale = false
fails_packet context_mismatch = false
fails_packet context_too_large = false
fails_packet session_unavailable = false
fails_packet execution_failed = false
fails_packet duplicate_conflict = false

-- The room of a turn of the agent.
unfoldable pub room_of_task : Uuid → Tx ConversationWorld ConversationError Uuid
room_of_task task w = elim (find (is_codex_task task) w.conversation_tasks) [
  | none ↦ err session_unavailable
  | some row ↦ ok (row.room_id, w)
]

module _ (crates : Crates) (policy : ConversationPolicy) where
  -- The end of the lease: the grace after the deadline, but not past the authorization.
  abbrev pub lease_expiry : TaskRow → Instant
  lease_expiry task =
      min (task.expires_at + seconds policy.interrupt_grace_seconds) task.authorization_expires_at

  abbrev pub leased_packet : Value → Instant → Value → Value
  leased_packet owner expiry frozen =
      set_entry "leaseExpiresAt" (string (crates.env.instant_to_string expiry))
        (set_entry "leaseOwner" owner frozen)

  -- The two rows of the turn while it is leased.
  unfoldable pub start_lease :
      String → Times → JoinedRow → Uuid → Tx ConversationWorld ConversationError (Unit {0})
  unfolding update_tasks update_conversations
  start_lease owner times row token = do
    _ ←
        update_tasks (is_task row.task.task_id)
          (leased_task owner token (lease_expiry row.task) times.current_timestamp)
    update_conversations (is_conversation row.task.conversation_id)
        (running_conversation times.current_timestamp)

  unfoldable pub hand_over :
      String → JoinedRow → Uuid → Tx ConversationWorld ConversationError Round
  unfolding validate_profile_value
  hand_over owner row token = do
    let packet = leased_packet (string owner) (lease_expiry row.task) row.task.frozen_input
    _ ← lift (validate_profile_value crates.is_valid "input" packet)
    pure (issued (json (("packet", packet) ∷ (("leaseToken", json_uuid crates.env token) ∷ []))))

  -- The rest of a round, when the worker may have the turn.
  unfoldable pub issue : String → Times → JoinedRow → Tx ConversationWorld ConversationError Round
  unfolding start_lease hand_over
  issue owner times row = do
    token ← in_rooms (new_v4 crates.env)
    _ ← start_lease owner times row token
    hand_over owner row token

  unfoldable pub refuse :
      Times → JoinedRow → ConversationError → Tx ConversationWorld ConversationError Round
  unfolding fail_task
  refuse times row error = do
    _ ← fail_task crates.env times.current_timestamp row error
    pure refused

  unfoldable pub try_row : String → Times → JoinedRow → Tx ConversationWorld ConversationError Round
  unfolding issue refuse task_authority
  try_row owner times row = elim (task_authority policy times.now row to_claim) [
    | ok _ ↦ issue owner times row
    | err error ↦ refuse times row error
  ]

  -- One round of the loop: one transaction.
  unfoldable pub claim_round : String → Times → Tx ConversationWorld ConversationError Round
  unfolding oldest try_row task_in_transaction
  claim_round owner times w =
      elim (oldest (keep (is_candidate times.current_timestamp) w.conversation_tasks)) [
        | none ↦ ok (nothing, w)
        | some candidate ↦ (task_in_transaction candidate.task_id >>= try_row owner times) w
      ]

  -- The rounds that are left, each with its instants.
  unfoldable pub claim_rounds :
      ℕ
      → String
      → (ℕ → Times)
      → ConversationWorld
      → ConversationWorld × Result ConversationError (Option Value)
  unfolding claim_round
  claim_rounds zero owner times w = (w, ok none)
  claim_rounds (suc n) owner times w = elim (claim_round owner (times n) w) [
    | err e ↦ (w, err e)
    | ok (nothing, _) ↦ (w, ok none)
    | ok (refused, w') ↦ claim_rounds n owner times w'
    | ok (issued v, w') ↦ (w', ok (some v))
  ]

  abbrev pub valid_owner : String → Bool
  valid_owner owner = not (length (chars owner) == 0) && leb (length (chars owner)) 128

  unfoldable pub claim :
      String
      → (ℕ → Times)
      → ConversationWorld
      → ConversationWorld × Result ConversationError (Option Value)
  unfolding claim_rounds require_enabled
  claim owner times w = elim (require_enabled policy codex_agent_id) [
    | err e ↦ (w, err e)
    | ok _ ↦
        if valid_owner owner then claim_rounds 100 owner times w else (w, err invalid_task_input)
  ]

  -- The packet is refused, and its turn may fail with it.
  unfoldable pub refuse_packet :
      Times
      → Uuid
      → JoinedRow
      → ConversationError
      → Tx ConversationWorld ConversationError (Result ConversationError Value)
  unfolding fail_task
  refuse_packet times lease row error =
      if id_is row.task.lease_token lease && (fails_packet error && is_open row.task.state)
      then (do _ ← fail_task crates.env times.current_timestamp row error; pure (err error))
      else fail error

  unfoldable pub deliver :
      Times
      → Uuid
      → JoinedRow
      → Tx ConversationWorld ConversationError (Result ConversationError Value)
  unfolding refuse_packet task_authority validate_profile_value
  deliver times lease row = elim (task_authority policy times.now row (under lease)) [
    | err error ↦ refuse_packet times lease row error
    | ok _ ↦ do
      let packet =
          set_entry "leaseExpiresAt"
            (json_option (λ t. string (crates.env.instant_to_string t)) row.task.lease_expires_at)
            (set_entry "leaseOwner" (json_option (λ o. string o) row.task.lease_owner)
              row.task.frozen_input)
      _ ← lift (validate_profile_value crates.is_valid "input" packet)
      pure (ok packet)
  ]

  unfoldable pub packet_in_transaction :
      Times → Uuid → Uuid → Tx ConversationWorld ConversationError (Result ConversationError Value)
  unfolding room_of_task task_in_transaction deliver
  packet_in_transaction times task lease = do
    _ ← room_of_task task
    row ← task_in_transaction task
    deliver times lease row

  unfoldable pub packet :
      Times → Uuid → Uuid → ConversationWorld → ConversationWorld × Result ConversationError Value
  unfolding packet_in_transaction
  packet times task lease = settle (packet_in_transaction times task lease)

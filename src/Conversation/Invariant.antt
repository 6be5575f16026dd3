-- ===== src/Conversation/Invariant.antt =====
-- What every state of the conversations keeps (src/conversation_store.rs, migrations/): the keys of two
-- tables, one current conversation and at most one open turn in a room, and the CHECK that ties a
-- conversation's state to its active task.
pub mod Frame
pub mod Joined
pub mod Working
pub mod Claiming
pub mod Closing
pub mod Reporting
pub mod Recording
pub mod Rows
pub mod Reserving
pub mod Reservations
use thought_khoral_room_gate.Prelude.{
  ℕ, ◌+◌, ◌≤◌, ◌≡◌, refl, ap, Bool, true, false, ◌&&◌, ◌||◌, not, Option, none, some, List, [], ◌∷◌,
  ◌++◌, arith, count, one_if, find, any, update_where, ◌==◌, is_some, if◌then◌else◌, count-append,
  count_mono, count-update_where, count-update_where_same, any_false→count,
}
use thought_khoral_room_gate.Env.{Uuid}
use thought_khoral_room_gate.Conversation.{
  ConversationState, TaskState, ConversationRow, TaskRow, ConversationWorld,
}
use thought_khoral_room_gate.Conversation.Protocol.{codex_agent_id}
use thought_khoral_room_gate.Conversation.Authority.{is_open, is_busy, is_task, is_conversation}
use thought_khoral_room_gate.Conversation.Reserve.{is_current, is_superseded}

-- An open turn of a room, and a conversation of the agent that works in it.
abbrev pub open_in : Uuid → TaskRow → Bool
open_in room t = t.room_id == room && is_open t.state

abbrev pub busy_in : Uuid → ConversationRow → Bool
busy_in room c = c.room_id == room && (c.agent_id == codex_agent_id && is_busy c.state)

-- CHECK ((state IN ('reserved', 'running')) = (active_task_id IS NOT NULL)) fails.
abbrev pub is_unchecked : ConversationRow → Bool
is_unchecked c =
    if is_busy c.state then not (is_some c.active_task_id) else is_some c.active_task_id

pub record IsSound (cs : List ConversationRow) (ts : List TaskRow) : Type 0 where
  pub conversation_key : (id : Uuid) → count (is_conversation id) cs ≤ 1
  pub task_key : (id : Uuid) → count (is_task id) ts ≤ 1
  pub one_current : (room : Uuid) → count (is_current room) cs ≤ 1
  pub open_busy : (room : Uuid) → count (open_in room) ts ≤ count (busy_in room) cs
  pub checked : count is_unchecked cs ≡ 0

pub busy_in-is_current :
    (room : Uuid) (c : ConversationRow) → busy_in room c ≡ true → is_current room c ≡ true
busy_in-is_current room c h = ground arith

pub count_unchecked :
    (p : ConversationRow → Bool) (cs : List ConversationRow) (c : ConversationRow)
    → count is_unchecked cs ≡ 0
    → find p cs ≡ some c
    → is_unchecked c ≡ false
count_unchecked p [] c h f = ground arith
count_unchecked p (x ∷ xs) c h f = ground (arith, count_unchecked p xs c)

-- A change of one row of each table, that leaves the turn and its conversation open together, or closes
-- the turn.
module _ {cs : List ConversationRow} {ts : List TaskRow} (sound : IsSound cs ts)
    (kp : TaskRow → Bool) (f : TaskRow → TaskRow) (t : TaskRow) (one_t : count kp ts ≤ 1)
    (found_t : find kp ts ≡ some t) (id_t : (f t).task_id ≡ t.task_id)
    (room_t : (f t).room_id ≡ t.room_id) (open_t : is_open t.state ≡ true) where
  -- The turn ends, and the conversations stay.
  pub close-IsSound : is_open (f t).state ≡ false → IsSound cs (update_where kp f ts)
  close-IsSound closed = record {
    conversation_key = sound.conversation_key;
    task_key = λ id.
        ground (arith, sound.task_key id, count-update_where (is_task id) kp f ts t one_t found_t);
    one_current = sound.one_current;
    open_busy = λ room.
        ground
          (arith, sound.open_busy room, count-update_where (open_in room) kp f ts t one_t found_t);
    checked = sound.checked;
  }

  module _ (kq : ConversationRow → Bool) (g : ConversationRow → ConversationRow)
      (c : ConversationRow) (one_c : count kq cs ≤ 1) (found_c : find kq cs ≡ some c)
      (id_c : (g c).conversation_id ≡ c.conversation_id) (room_c : (g c).room_id ≡ c.room_id)
      (agent_c : (g c).agent_id ≡ c.agent_id) (same_room : c.room_id ≡ t.room_id)
      (codex : c.agent_id ≡ codex_agent_id) (busy_c : is_busy c.state ≡ true)
      (checked_c : is_unchecked (g c) ≡ false) where
    advance_open_busy :
        (room : Uuid)
        → (is_open (f t).state ≡ true → is_busy (g c).state ≡ true)
        → count (open_in room) (update_where kp f ts) ≤ count (busy_in room) (update_where kq g cs)
    advance_open_busy room still = ground (
      arith,
      still,
      sound.open_busy room,
      count-update_where (open_in room) kp f ts t one_t found_t,
      count-update_where (busy_in room) kq g cs c one_c found_c,
    )

    pub advance-IsSound :
        (is_open (f t).state ≡ true → is_busy (g c).state ≡ true)
        → IsSound (update_where kq g cs) (update_where kp f ts)
    advance-IsSound still = record {
      conversation_key = λ id. ground (
        arith,
        sound.conversation_key id,
        count-update_where (is_conversation id) kq g cs c one_c found_c,
      );
      task_key = λ id.
          ground
            (arith, sound.task_key id, count-update_where (is_task id) kp f ts t one_t found_t);
      one_current = λ room. ground (
        arith,
        sound.one_current room,
        count-update_where (is_current room) kq g cs c one_c found_c,
      );
      open_busy = λ room. advance_open_busy room still;
      checked =
          ground (arith, sound.checked, count-update_where is_unchecked kq g cs c one_c found_c);
    }

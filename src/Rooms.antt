-- ===== src/Rooms.antt =====
-- src/rooms.rs: what the parts of the room service share.
pub mod Mentions
pub mod Audience
pub mod Visibility
pub mod Participants
pub mod Decisions
pub mod ActionItems
pub mod Process
use thought_khoral_room_gate.Prelude.{ℕ, String, Bool}
use thought_khoral_room_gate.Env.{Uuid}

pub record RoomParticipant : Type 0 where
  pub id : Uuid
  pub role : String
  pub display_name : String
  pub online : Bool

-- src/facilitator.rs, src/action_items.rs and src/conversation_protocol.rs fix these identities.
abbrev pub action_items_agent_id : Uuid
action_items_agent_id = 0x74686f756768746b686f72616c000002

abbrev pub codex_agent_id : Uuid
codex_agent_id = 0x74686f756768746b686f72616c000004

-- ===== src/Auth.antt =====
-- src/auth.rs: who a request comes from.
use thought_khoral_room_gate.Prelude.{ℕ, String, Bool, true, false}
use thought_khoral_room_gate.Env.{Uuid}

pub data ActorRole : Type 0 where
  human agent : ActorRole

-- `ActorRole::as_str`.
unfoldable pub as_str : ActorRole → String
as_str human = "human"
as_str agent = "agent"

abbrev pub is_human : ActorRole → Bool
is_human human = true
is_human agent = false

-- `expires_at` in seconds since 1970.
pub record Actor : Type 0 where
  pub id : Uuid
  pub role : ActorRole
  pub display_name : String
  pub expires_at : ℕ

-- ===== src/Env.antt =====
-- What the gateway calls and does not implement: the `uuid` and `chrono` crates, and the pinned
-- JSON schemas under contracts/, as the `jsonschema` crate checks them.
use thought_khoral_room_gate.Prelude.{ℕ, ◌≡◌, Bool, Option, some, String}
use thought_khoral_room_gate.Json.{Value}

-- The 128 bits as a number; `Uuid::from_u128`, `Ord` and `==` are those of the numbers.
abbrev pub Uuid : Type 0
Uuid = ℕ

-- Nanoseconds since the earliest instant that `DateTime<Utc>` can hold.
abbrev pub Instant : Type 0
Instant = ℕ

pub record Env : Type 0 where
  -- The result of the nth call of `Uuid::new_v4` in a transaction that commits.
  pub new_v4 : ℕ → Uuid
  pub uuid_to_string : Uuid → String
  pub uuid_parse : String → Option Uuid
  -- `DateTime<Utc>` as `serde` writes it.
  pub instant_to_string : Instant → String
  -- The instant that PostgreSQL keeps of one that is bound to a TIMESTAMPTZ column.
  pub stored_instant : Instant → Instant
  -- Whether PostgreSQL takes an instant as TIMESTAMPTZ, and a string as TEXT, which holds no U+0000.
  pub is_timestamptz : Instant → Bool
  pub is_text_column : String → Bool
  -- Whether PostgreSQL takes a value as JSONB, which holds no U+0000, and the value that it gives back:
  -- a number may come back in another form.
  pub is_jsonb : Value → Bool
  pub jsonb : Value → Value
  -- `ROOM_EVENT_VALIDATOR.is_valid`.
  pub room_event_schema : Value → Bool

pub record EnvLaws (env : Env) : Type 0 where
  -- Two calls of `Uuid::new_v4` never give the same identifier.
  pub new_v4_injective : (i j : ℕ) → env.new_v4 i ≡ env.new_v4 j → i ≡ j
  pub uuid_parse-to_string : (u : Uuid) → env.uuid_parse (env.uuid_to_string u) ≡ some u

-- ===== src/Examples/Setting.antt =====
-- A small world for the tests: identifiers are written in unary, and every schema accepts.
use thought_khoral_room_gate.Prelude.{
  ℕ, zero, suc, ◌≡◌, refl, ap, String, true, some, [], ◌∷◌, Result, ok, err,
}
use thought_khoral_room_gate.Env.{Env, EnvLaws}
use thought_khoral_room_gate.Auth.{Actor, human}
use thought_khoral_room_gate.Store.{World}
use thought_khoral_room_gate.Rooms.Mentions.{Unicode}
use thought_khoral_room_gate.Rooms.Process.{ProcessedRequest, Surroundings}
use thought_khoral_room_gate.Rooms.Process.History.{empty_world}

abbrev strokes : ℕ → String
strokes zero = String.[]
strokes (suc n) = String.◌∷◌ "I" (strokes n)

abbrev count : String → ℕ
count String.[] = zero
count (String.◌∷◌ c s) = suc (count s)

count-strokes : (n : ℕ) → count (strokes n) ≡ n
count-strokes zero = refl
count-strokes (suc n) = ap suc (count-strokes n)

abbrev pub env : Env
env = record {
  new_v4 = λ i. i;
  uuid_to_string = strokes;
  uuid_parse = λ s. some (count s);
  instant_to_string = strokes;
  stored_instant = λ t. t;
  is_timestamptz = λ t. true;
  is_text_column = λ s. true;
  is_jsonb = λ v. true;
  jsonb = λ v. v;
  room_event_schema = λ v. true;
}

pub env_laws : EnvLaws env
env_laws = record {
  new_v4_injective = λ i j h. h;
  uuid_parse-to_string = λ u. ap some (count-strokes u);
}

abbrev pub unicode : Unicode
unicode = record { nfkd = λ s. s; to_lowercase = λ c. c ∷ [] }

abbrev pub around : Surroundings
around = record { presence = []; conversations_enabled = true; now = 100 }

abbrev pub maya : Actor
maya = record { id = 7; role = human; display_name = "Maya"; expires_at = 1000 }

abbrev pub no_answer : ProcessedRequest
no_answer = record { events = []; duplicate = true }

-- The parts of a result.
abbrev pub state_of : {E A : Type 0} → Result E (A × World) → World
state_of (ok (a, w)) = w
state_of (err _) = empty_world

abbrev pub answer_of : {E A : Type 0} → A → Result E (A × World) → A
answer_of default (ok (a, w)) = a
answer_of default (err _) = default

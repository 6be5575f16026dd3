-- ===== src/Store/Reports.antt =====
-- src/store.rs: the payload of an agent's report, and the handoff that it may ask for.
use thought_khoral_room_gate.Prelude.{
  ℕ, String, Bool, true, false, not, ◌&&◌, Option, none, some, List, [], ◌∷◌, Result, ok, err,
  ◌>>=◌, ok_or, leb, ltb, ◌==◌, str_eq, if◌then◌else◌,
}
use thought_khoral_room_gate.Text.{chars, trim, text_eq, is_empty}
use thought_khoral_room_gate.Json.{
  Value, Fields, null, string, object, insert, lookup, value_eq, get, as_str, json_number,
}
use thought_khoral_room_gate.Env.{Uuid, Instant, Env}
use thought_khoral_room_gate.Protocol.Validity.{uuid_value, and_then}
use thought_khoral_room_gate.Protocol.Fingerprint.{skill_text}
use thought_khoral_room_gate.Store.{StoreError, invalid_agent_task}
use thought_khoral_room_gate.Store.Leases.{AgentTaskRecord, AgentTaskLease}

-- `url::Url`, as its accessors describe it.
pub record Url : Type 0 where
  pub scheme : String
  pub username : String
  pub password : Option String
  pub fragment : Option String
  pub host_str : Option String
  pub port_or_known_default : Option ℕ

-- `Url::parse` and `DateTime::parse_from_rfc3339`.
pub record Parsers : Type 0 where
  pub parse_url : String → Option Url
  pub parse_from_rfc3339 : String → Option Instant

-- `payload["key"]`.
abbrev at_key : Value → String → Value
at_key value key = elim (get value key) [ none ↦ null | some found ↦ found ]

abbrev is_some_of : Option String → String → Bool
is_some_of none s = false
is_some_of (some t) s = str_eq t s

abbrev same_text : Option String → Option String → Bool
same_text none none = true
same_text (some s) (some t) = str_eq s t
same_text _ _ = false

abbrev is_none : Option String → Bool
is_none none = true
is_none (some _) = false

abbrev is_port : Option ℕ → ℕ → Bool
is_port none port = false
is_port (some n) port = n == port

-- Uuid::from_u128(0x74686f756768746b_686f72616c000003).
abbrev reference_agent_id : Uuid
reference_agent_id = 0x74686f756768746b686f72616c000003

abbrev differs : Option Value → Value → Bool
differs none value = false
differs (some provided) value = not (value_eq provided value)

-- `for (key, value) in core`.
unfoldable pub insert_core : List (String × Value) → Fields → Result StoreError Fields
insert_core [] fields = ok fields
insert_core ((key, value) ∷ rest) fields =
    let inserted = insert_core rest (insert key value fields) in
    if differs (lookup key fields) value then err invalid_agent_task else inserted

module _ (env : Env) (parsers : Parsers) where
  -- In the order of the keys, in which `serde_json`'s map gives them.
  abbrev core_of : AgentTaskRecord → List (String × Value)
  core_of task =
      ("agentId", uuid_value env task.agent_id)
      ∷ ("contextRevision", json_number task.context_revision)
      ∷ ("requesterId", uuid_value env task.requester_id)
      ∷ ("skillId", string (skill_text task.skill_id))
      ∷ ("taskId", uuid_value env task.task_id)
      ∷ []

  unfoldable pub normalized_agent_task_update_payload :
      AgentTaskRecord → Value → Result StoreError Value
  unfolding insert_core
  normalized_agent_task_update_payload task (object fields) = do
    normalized ← insert_core (core_of task) fields
    ok (object normalized)
  normalized_agent_task_update_payload task _ = err invalid_agent_task

  abbrev pub is_allowed_url : Value → Url → Bool
  is_allowed_url host url =
      str_eq url.scheme "https"
      && (str_eq url.username ""
          && (is_none url.password
              && (is_none url.fragment
                  && (is_some_of url.host_str "reference-agent.thought-khoral.local"
                      && (same_text (as_str host) url.host_str
                          && is_port url.port_or_known_default 443)))))

  abbrev is_trimmed : String → Bool
  is_trimmed instruction =
      let trimmed = trim (chars instruction) in
      not (is_empty trimmed) && text_eq (chars instruction) trimmed

  -- `now` is the gateway's clock.
  unfoldable pub validate_agent_handoff :
      AgentTaskRecord → AgentTaskLease → Instant → Value → Result StoreError (Unit {0})
  unfolding trim text_eq
  validate_agent_handoff task lease now payload = do
    let handoff = at_key payload "handoff"
    instruction ← ok_or (as_str (at_key handoff "instruction")) invalid_agent_task
    url ← ok_or (and_then (as_str (at_key handoff "url")) parsers.parse_url) invalid_agent_task
    expiry ←
        ok_or (and_then (as_str (at_key handoff "expiresAt")) parsers.parse_from_rfc3339)
          invalid_agent_task
    let allowed =
        (task.agent_id == reference_agent_id)
        && (is_trimmed instruction
            && (is_allowed_url (at_key handoff "host") url
                && (ltb now expiry && leb expiry lease.expires_at)))
    if allowed then ok tt else err invalid_agent_task

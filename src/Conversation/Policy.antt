-- ===== src/Conversation/Policy.antt =====
-- src/conversation_store.rs: `ConversationPolicy`.
pub mod Bounds
use thought_khoral_room_gate.Prelude.{
  ℕ, String, Bool, true, false, ◌&&◌, ◌||◌, not, Option, none, some, List, [], ◌∷◌, Result, ok, err,
  ◌>>=◌, length, any, all, leb, ltb, ◌==◌, str_eq, if◌then◌else◌, unwrap_or,
}
use thought_khoral_room_gate.Text.{chars}
use thought_khoral_room_gate.Json.{Value, null, string, json, at, value_eq}
use thought_khoral_room_gate.Conversation.Protocol.{ConversationError, invalid_task_input}

pub record ConversationModel : Type 0 where
  pub id : String
  pub reasoning_efforts : List String

-- The seconds are not negative: `validate` refuses negative ones.
pub record ConversationPolicy : Type 0 where
  pub enabled : Bool
  pub policy_revision : String
  pub guidance_revision : String
  pub catalog_revision : String
  pub model : String
  pub reasoning_effort : String
  pub models : List ConversationModel
  pub max_context_bytes : ℕ
  pub max_records : ℕ
  pub turn_deadline_seconds : ℕ
  pub interrupt_grace_seconds : ℕ

abbrev pub default_policy : ConversationPolicy
default_policy = record {
  enabled = false;
  policy_revision = "";
  guidance_revision = "";
  catalog_revision = "";
  model = "";
  reasoning_effort = "";
  models = [];
  max_context_bytes = 1048576;
  max_records = 2000;
  turn_deadline_seconds = 180;
  interrupt_grace_seconds = 5;
}

-- The pair is one of the models with one of its efforts.
unfoldable pub offers : List ConversationModel → Value → Value → Bool
offers models model effort =
    any
      (λ m.
        value_eq model (string m.id) && any (λ e. value_eq effort (string e)) m.reasoning_efforts)
      models

abbrev pub default_settings : ConversationPolicy → Value
default_settings policy = json (
    ("model", string policy.model)
    ∷ (("reasoningEffort", string policy.reasoning_effort)
        ∷ (("catalogRevision", string policy.catalog_revision) ∷ [])))

unfoldable pub resolve_settings : ConversationPolicy → Option Value → Result ConversationError Value
unfolding offers
resolve_settings policy settings =
    let selected = unwrap_or settings (default_settings policy) in
    if not (value_eq (at selected "catalogRevision") (string policy.catalog_revision))
      || not (offers policy.models (at selected "model") (at selected "reasoningEffort"))
    then err invalid_task_input
    else ok selected

pub valid_id : String → Bool
valid_id id = not (length (chars id) == 0) && leb (length (chars id)) 128

-- `all(|id| valid_id(id) && efforts.insert(id))`.
pub valid_efforts : List String → List String → Bool
valid_efforts seen [] = true
valid_efforts seen (id ∷ ids) =
    (valid_id id && not (any (str_eq id) seen)) && valid_efforts (id ∷ seen) ids

pub valid_model : ConversationModel → Bool
valid_model model =
    not (length model.reasoning_efforts == 0)
    && (leb (length model.reasoning_efforts) 100 && valid_efforts [] model.reasoning_efforts)

-- The loop over the models, with the identifiers so far.
pub valid_models : List String → List ConversationModel → Bool
valid_models ids [] = true
valid_models ids (model ∷ models) =
    (valid_id model.id && (not (any (str_eq model.id) ids) && valid_model model))
    && valid_models (model.id ∷ ids) models

abbrev pub out_of_bounds : ConversationPolicy → Bool
out_of_bounds policy =
    policy.max_context_bytes == 0
    || (ltb 1048576 policy.max_context_bytes
        || (policy.max_records == 0
            || (ltb 2000 policy.max_records
                || (not (leb 1 policy.turn_deadline_seconds && leb policy.turn_deadline_seconds 180)
                    || not (
                        leb 1 policy.interrupt_grace_seconds
                        && leb policy.interrupt_grace_seconds 5)))))

abbrev pub named : ConversationPolicy → List String
named policy =
    policy.policy_revision
    ∷ (policy.guidance_revision
        ∷ (policy.catalog_revision ∷ (policy.model ∷ (policy.reasoning_effort ∷ []))))

unfoldable pub validate : ConversationPolicy → Result ConversationError (Unit {0})
unfolding resolve_settings valid_models valid_model valid_efforts valid_id
validate policy =
    if out_of_bounds policy
    then err invalid_task_input
    else if not policy.enabled
    then ok tt
    else if not (all valid_id (named policy))
        || (length policy.models == 0 || ltb 100 (length policy.models))
    then err invalid_task_input
    else if valid_models [] policy.models
    then (resolve_settings policy none >>= λ _. ok tt)
    else err invalid_task_input

-- `ConversationStore::with_policy`: the policy that the store keeps.
unfoldable pub with_policy : ConversationPolicy → Result ConversationError ConversationPolicy
unfolding validate
with_policy policy = validate policy >>= λ _. ok policy

-- ===== src/Rooms/Decisions.antt =====
-- src/rooms.rs: how decisions are proposed, confirmed, edited, dismissed and deleted.
pub mod Table
pub mod Lifecycle
use thought_khoral_room_gate.Prelude.{
  ℕ, ◌+◌, String, Bool, true, false, not, ◌&&◌, Option, none, some, List, [], ◌∷◌, ◌++◌, Result, ok,
  err, ok_or, any, keep, find, update_where, ◌==◌, str_eq, if◌then◌else◌,
}
use thought_khoral_room_gate.Tx.{Tx, ◌>>=◌, ◌>>◌, pure, fail, gets, lift, or_else}
use thought_khoral_room_gate.Json.{Value, string, json}
use thought_khoral_room_gate.Env.{Uuid, Instant, Env}
use thought_khoral_room_gate.Protocol.{
  RpcError, invalid_request, not_found, invalid_transition, internal_error, DecisionAction, confirm,
  edit, dismiss, DecisionPropose, DecisionTransition, DecisionDelete,
}
use thought_khoral_room_gate.Protocol.Validity.{uuid_value}
use thought_khoral_room_gate.Protocol.Fingerprint.{ids_value}
use thought_khoral_room_gate.Auth.{Actor, as_str}
use thought_khoral_room_gate.Store.{NewEvent, RoomEvent, DecisionRow, World, StoreError, database}
use thought_khoral_room_gate.Store.Events.{new_v4, append_event_in_transaction}

abbrev pub is_decision : Uuid → DecisionRow → Bool
is_decision decision_id row = row.decision_id == decision_id

abbrev pub is_decision_of : Uuid → Uuid → DecisionRow → Bool
is_decision_of decision_id room_id row =
    (row.decision_id == decision_id) && (row.room_id == room_id)

abbrev pub with_decisions : World → List DecisionRow → World
with_decisions w rows = record w { db = record w.db { decisions = rows } }

-- `SELECT … FOR UPDATE`, with `ok_or_else(RpcError::not_found)`.
unfoldable pub fetch_decision : Uuid → Uuid → Tx World RpcError DecisionRow
fetch_decision decision_id room_id w =
    elim (find (is_decision_of decision_id room_id) w.decisions) [
      | none ↦ err not_found
      | some row ↦ ok (row, w)
    ]

-- INSERT INTO decisions, whose PRIMARY KEY is decision_id.
unfoldable pub insert_decision : DecisionRow → Tx World StoreError (Unit {0})
insert_decision row w =
    if any (is_decision row.decision_id) w.decisions
    then err database
    else ok (tt, with_decisions w (w.decisions ++ row ∷ []))

abbrev pub set_status : String → Instant → DecisionRow → DecisionRow
set_status status updated_at row = record row { status = status; updated_at = updated_at }

unfoldable pub update_status : Uuid → String → Instant → Tx World RpcError (Unit {0})
update_status decision_id status updated_at w = ok (
  tt,
  with_decisions w
      (update_where (is_decision decision_id) (set_status status updated_at) w.decisions),
)

unfoldable pub delete_decision : Uuid → Uuid → Tx World RpcError (Unit {0})
delete_decision decision_id room_id w =
    ok (
      tt,
      with_decisions w (keep (λ row. not (is_decision_of decision_id room_id row)) w.decisions),
    )

module _ (env : Env) (actor : Actor) where
  -- An event of the acting participant, with errors as the room protocol reports them.
  unfoldable pub append_as_actor :
      Uuid → Uuid → String → Value → Instant → Tx World RpcError RoomEvent
  append_as_actor room_id request_id event_type payload occurred_at =
      or_else
        (append_event_in_transaction env (record {
          room_id = room_id;
          request_id = request_id;
          event_type = event_type;
          actor_id = actor.id;
          actor_role = as_str actor.role;
          actor_display_name = some actor.display_name;
          payload = payload;
          occurred_at = occurred_at;
        }))
        internal_error

  abbrev pub decision_payload : Uuid → String → String → String → List Uuid → Value
  decision_payload decision_id status title summary source_event_ids = json (
      ("decisionId", uuid_value env decision_id)
      ∷ ("status", string status)
      ∷ ("title", string title)
      ∷ ("summary", string summary)
      ∷ ("sourceEventIds", ids_value env source_event_ids)
      ∷ [])

  -- The branch `ValidatedRequest::DecisionPropose` of `process`.
  unfoldable pub propose_decision : DecisionPropose → Tx World RpcError (List RoomEvent)
  propose_decision request = do
    decision_id ← or_else (new_v4 env) internal_error
    _ ←
        or_else
          (insert_decision (record {
            decision_id = decision_id;
            room_id = request.room_id;
            status = "draft";
            title = request.title;
            summary = request.summary;
            derived_from_decision_id = none;
            source_event_ids = request.source_event_ids;
            created_at = env.stored_instant request.occurred_at;
            updated_at = env.stored_instant request.occurred_at;
          }))
          internal_error
    event ←
        append_as_actor request.room_id request.request_id "decision.proposed"
          (decision_payload decision_id "draft" request.title request.summary
            request.source_event_ids)
          request.occurred_at
    pure (event ∷ [])

  -- The branch `Confirm | Dismiss`.
  unfoldable pub settle_decision :
      DecisionTransition → DecisionRow → String → String → Tx World RpcError (List RoomEvent)
  settle_decision request row status event_type = do
    _ ← update_status request.decision_id status (env.stored_instant request.occurred_at)
    event ←
        append_as_actor request.room_id request.request_id event_type
          (decision_payload request.decision_id status row.title row.summary row.source_event_ids)
          request.occurred_at
    pure (event ∷ [])

  -- The branch `Edit`.
  unfoldable pub edit_decision :
      DecisionTransition → DecisionRow → String → String → Tx World RpcError (List RoomEvent)
  edit_decision request row edited_title edited_summary = do
    replacement_id ← or_else (new_v4 env) internal_error
    _ ← update_status request.decision_id "superseded" (env.stored_instant request.occurred_at)
    _ ←
        or_else
          (insert_decision (record {
            decision_id = replacement_id;
            room_id = request.room_id;
            status = "active";
            title = edited_title;
            summary = edited_summary;
            derived_from_decision_id = some request.decision_id;
            source_event_ids = row.source_event_ids;
            created_at = env.stored_instant request.occurred_at;
            updated_at = env.stored_instant request.occurred_at;
          }))
          internal_error
    edited ←
        append_as_actor request.room_id request.request_id "decision.edited"
          (json (
            ("decisionId", uuid_value env request.decision_id)
            ∷ ("status", string "superseded")
            ∷ ("replacementDecisionId", uuid_value env replacement_id)
            ∷ []))
          request.occurred_at
    activated ←
        append_as_actor request.room_id request.request_id "decision.confirmed"
          (json (
            ("decisionId", uuid_value env replacement_id)
            ∷ ("status", string "active")
            ∷ ("title", string edited_title)
            ∷ ("summary", string edited_summary)
            ∷ ("sourceEventIds", ids_value env row.source_event_ids)
            ∷ ("derivedFromDecisionId", uuid_value env request.decision_id)
            ∷ []))
          request.occurred_at
    pure (edited ∷ activated ∷ [])

  -- `match request.action`.
  unfoldable pub apply_action :
      DecisionAction → DecisionTransition → DecisionRow → Tx World RpcError (List RoomEvent)
  apply_action confirm request row = settle_decision request row "active" "decision.confirmed"
  apply_action dismiss request row = settle_decision request row "dismissed" "decision.dismissed"
  apply_action edit request row = do
    edited_title ← lift (ok_or request.edited_title invalid_request)
    edited_summary ← lift (ok_or request.edited_summary invalid_request)
    edit_decision request row edited_title edited_summary

  unfoldable pub transition_decision_in_transaction :
      DecisionTransition → Tx World RpcError (List RoomEvent)
  unfolding fetch_decision
  transition_decision_in_transaction request = do
    row ← fetch_decision request.decision_id request.room_id
    _ ← (if str_eq row.status "draft" then pure tt else fail invalid_transition)
    apply_action request.action request row

  unfoldable pub delete_decision_in_transaction :
      DecisionDelete → Tx World RpcError (List RoomEvent)
  unfolding fetch_decision delete_decision
  delete_decision_in_transaction request = do
    row ← fetch_decision request.decision_id request.room_id
    event ←
        append_as_actor request.room_id request.request_id "decision.deleted"
          (json (
            ("decisionId", uuid_value env request.decision_id)
            ∷ ("priorStatus", string row.status)
            ∷ ("title", string row.title)
            ∷ ("summary", string row.summary)
            ∷ ("sourceEventIds", ids_value env row.source_event_ids)
            ∷ []))
          request.occurred_at
    _ ← delete_decision request.decision_id request.room_id
    pure (event ∷ [])

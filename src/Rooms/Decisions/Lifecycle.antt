-- ===== src/Rooms/Decisions/Lifecycle.antt =====
-- What each decision request does to the status of every decision.
pub mod Untouched
pub mod Moves
pub mod Steps
use thought_khoral_room_gate.Prelude.{
  ℕ, String, ◌≡◌, refl, sym, ◌∙◌, ap, subst, Bool, true, false, Option, none, some, List, [], ◌∷◌,
  ◌++◌, Result, ok, err, ok_or, arith, any, find, update_where, ◌==◌, str_eq, str_eq_iff,
  if◌then◌else◌,
}
use thought_khoral_room_gate.Tx.{Tx, ◌>>=◌, >>=-eq-ok, pure, fail, lift, or_else}
use thought_khoral_room_gate.Tx.Frame.{
  Keeps, Keeps-pure, Keeps-bind, Keeps-or_else, Changes, Changes-first, Changes-later, Changes-both,
  Keeps-lift, Changes-or_else,
}
use thought_khoral_room_gate.Json.{Value, string, json}
use thought_khoral_room_gate.Protocol.Validity.{uuid_value}
use thought_khoral_room_gate.Protocol.Fingerprint.{ids_value}
use thought_khoral_room_gate.Env.{Uuid, Instant, Env}
use thought_khoral_room_gate.Protocol.{
  RpcError, invalid_request, invalid_transition, internal_error, DecisionAction, confirm, edit,
  dismiss, DecisionPropose, DecisionTransition, DecisionDelete,
}
use thought_khoral_room_gate.Auth.{Actor}
use thought_khoral_room_gate.Store.{NewEvent, RoomEvent, DecisionRow, World, StoreError}
use thought_khoral_room_gate.Store.Events.{new_v4, append_event_in_transaction}
use thought_khoral_room_gate.Rooms.Decisions.{
  is_decision, is_decision_of, set_status, fetch_decision, insert_decision, update_status,
  delete_decision, append_as_actor, propose_decision, settle_decision, edit_decision, apply_action,
  transition_decision_in_transaction, delete_decision_in_transaction,
}
use thought_khoral_room_gate.Rooms.Decisions.Table.{IsKeyed, kept_rows}

abbrev pub table : World → List DecisionRow
table w = w.decisions

-- One new row, under a new identifier.
abbrev pub Adds : String → List DecisionRow → List DecisionRow → Type 0
Adds status before after =
    (row : DecisionRow) × (row.status ≡ status)
    × (any (is_decision row.decision_id) before ≡ false)
    × (after ≡ before ++ row ∷ [])

abbrev pub Sets : Uuid → String → List DecisionRow → List DecisionRow → Type 0
Sets id status before after =
    (at : Instant) × (after ≡ update_where (is_decision id) (set_status status at) before)

module _ (env : Env) where
  pub append-table : (event : NewEvent) → Keeps table (append_event_in_transaction env event)
  unfolding append_event_in_transaction
  append-table event = record { same = λ s a t h. ground arith }

  pub new_v4-table : Keeps table (new_v4 env)
  unfolding new_v4
  new_v4-table = record { same = λ s a t h. ground arith }

insert-Adds : (row : DecisionRow) → Changes table (Adds row.status) (insert_decision row)
unfolding insert_decision
insert-Adds row = record { change = λ s a t h. (row, refl, ground arith, ground arith) }

update-Sets :
    (id : Uuid) (status : String) (at : Instant)
    → Changes table (Sets id status) (update_status id status at)
unfolding update_status
update-Sets id status at = record { change = λ s a t h. (at, ground arith) }

abbrev pub Replaces : Uuid → List DecisionRow → List DecisionRow → Type 0
Replaces id before after =
    (middle : List DecisionRow) × Sets id "superseded" before middle × Adds "active" middle after

abbrev pub Effect : Uuid → DecisionAction → List DecisionRow → List DecisionRow → Type 0
Effect id confirm = Sets id "active"
Effect id dismiss = Sets id "dismissed"
Effect id edit = Replaces id

abbrev pub Transitions : DecisionTransition → List DecisionRow → List DecisionRow → Type 0
Transitions request before after =
    (row : DecisionRow) × (find (is_decision_of request.decision_id request.room_id) before
      ≡ some row)
    × (row.status ≡ "draft")
    × Effect request.decision_id request.action before after

abbrev pub Deletes : DecisionDelete → List DecisionRow → List DecisionRow → Type 0
Deletes request before after =
    (row : DecisionRow) × (find (is_decision_of request.decision_id request.room_id) before
      ≡ some row)
    × (after ≡ kept_rows request.decision_id request.room_id before)

fetched_row :
    (id room_id : Uuid) (s t : World) (row : DecisionRow)
    → fetch_decision id room_id s ≡ ok (row, t)
    → (find (is_decision_of id room_id) s.decisions ≡ some row) × (t ≡ s)
unfolding fetch_decision
fetched_row id room_id s t row h = (ground arith, ground arith)

passed :
    (b : Bool) (s t : World) (u : Unit {0})
    → (if b then pure {E = RpcError} tt else fail invalid_transition) s ≡ ok (u, t)
    → (b ≡ true) × (t ≡ s)
passed true s t u h = (refl, cc h)
passed false s t u h = cc h

deleted_rows :
    (id room_id : Uuid) (s t : World) (u : Unit {0})
    → delete_decision id room_id s ≡ ok (u, t)
    → table t ≡ kept_rows id room_id (table s)
unfolding delete_decision
deleted_rows id room_id s t u h = ground arith

module _ (env : Env) (actor : Actor) where
  pub append_as_actor-table :
      (room_id request_id : Uuid) (event_type : String) (payload : Value) (occurred_at : Instant)
      → Keeps table (append_as_actor env actor room_id request_id event_type payload occurred_at)
  unfolding append_as_actor
  append_as_actor-table room_id request_id event_type payload occurred_at =
      Keeps-or_else _ internal_error (append-table env _)

  pub propose-Adds :
      (request : DecisionPropose)
      → Changes table (Adds "draft") (propose_decision env actor request)
  unfolding propose_decision
  propose-Adds request =
      Changes-later _ _ (Keeps-or_else _ internal_error (new_v4-table env)) λ decision_id.
        Changes-first _ _ (Changes-or_else _ internal_error (insert-Adds _)) λ _.
          Keeps-bind _ _ (append_as_actor-table request.room_id request.request_id _ _ _)
            λ event. Keeps-pure _

  pub settle-Sets :
      (request : DecisionTransition) (row : DecisionRow) (status event_type : String)
      → Changes table
          (Sets request.decision_id status)
          (settle_decision env actor request row status event_type)
  unfolding settle_decision
  settle-Sets request row status event_type =
      Changes-first _ _ (update-Sets request.decision_id status _) λ _.
        Keeps-bind _ _ (append_as_actor-table request.room_id request.request_id _ _ _)
          λ event. Keeps-pure _

  edit-Replaces :
      (request : DecisionTransition) (row : DecisionRow) (title summary : String)
      → Changes table
          (Replaces request.decision_id)
          (edit_decision env actor request row title summary)
  unfolding edit_decision
  edit-Replaces request row title summary =
      Changes-later _ _ (Keeps-or_else _ internal_error (new_v4-table env)) λ replacement_id.
        Changes-both _ _ (update-Sets request.decision_id "superseded" _) λ _.
          Changes-first _ _ (Changes-or_else _ internal_error (insert-Adds _)) λ _.
            Keeps-bind _ _ (append_as_actor-table request.room_id request.request_id _ _ _)
              λ edited.
                Keeps-bind _ _ (append_as_actor-table request.room_id request.request_id _ _ _)
                  λ activated. Keeps-pure _

  apply-Effect :
      (action : DecisionAction) (request : DecisionTransition) (row : DecisionRow)
      → Changes table
          (Effect request.decision_id action)
          (apply_action env actor action request row)
  unfolding apply_action
  apply-Effect confirm request row = settle-Sets request row "active" "decision.confirmed"
  apply-Effect dismiss request row = settle-Sets request row "dismissed" "decision.dismissed"
  apply-Effect edit request row =
      Changes-later _ _ (Keeps-lift (ok_or request.edited_title invalid_request)) λ title.
        Changes-later _ _ (Keeps-lift (ok_or request.edited_summary invalid_request))
          λ summary. edit-Replaces request row title summary

  -- A transition that succeeds found a draft of the room and had the effect of its action.
  pub transition_decision_lem :
      (request : DecisionTransition)
      → Changes table (Transitions request) (transition_decision_in_transaction env actor request)
  unfolding transition_decision_in_transaction
  transition_decision_lem request = record {
    change = λ s events u h.
        let (row, t, fetched, rest) =
          >>=-eq-ok (fetch_decision request.decision_id request.room_id)
            (λ row.
              (if str_eq row.status "draft" then pure tt else fail invalid_transition) >>= λ _.
              apply_action env actor request.action request row)
            s h in
        let (u', t', guarded, applied) =
          >>=-eq-ok (if str_eq row.status "draft" then pure tt else fail invalid_transition)
            (λ _. apply_action env actor request.action request row) t rest in
        let (found, same) = fetched_row request.decision_id request.room_id s t row fetched in
        let (is_draft, same') = passed (str_eq row.status "draft") t t' u' guarded in
        (
          row,
          found,
          (str_eq_iff row.status "draft").0 is_draft,
          subst (λ v. Effect request.decision_id request.action (table v) (table u)) (same' ∙ same)
              ((apply-Effect request.action request row).change t' events u applied),
        );
  }

  -- A delete that succeeds found a decision of the room, in whatever status, and removed it.
  pub delete_decision_lem :
      (request : DecisionDelete)
      → Changes table (Deletes request) (delete_decision_in_transaction env actor request)
  unfolding delete_decision_in_transaction
  delete_decision_lem request = record {
    change = λ s events u h.
        let (row, t, fetched, rest) =
          >>=-eq-ok (fetch_decision request.decision_id request.room_id)
            (λ row. announced row >>= λ event. removed event) s h in
        let (event, t', appended, rest') = >>=-eq-ok (announced row) removed t rest in
        let (u', t'', deleted, last) =
          >>=-eq-ok (delete_decision request.decision_id request.room_id) (λ _. pure (event ∷ []))
            t' rest' in
        let (found, same) = fetched_row request.decision_id request.room_id s t row fetched in
        let kept =
          (append_as_actor-table request.room_id request.request_id _ _ _).same t event t'
            appended in
        (
          row,
          found,
          cc (deleted_rows request.decision_id request.room_id t' t'' u' deleted, last, kept, same),
        );
  }
    where
      announced : DecisionRow → Tx World RpcError RoomEvent
      announced row =
          append_as_actor env actor request.room_id request.request_id "decision.deleted"
            (json (
              ("decisionId", uuid_value env request.decision_id)
              ∷ ("priorStatus", string row.status)
              ∷ ("title", string row.title)
              ∷ ("summary", string row.summary)
              ∷ ("sourceEventIds", ids_value env row.source_event_ids)
              ∷ []))
            request.occurred_at

      removed : RoomEvent → Tx World RpcError (List RoomEvent)
      removed event = delete_decision request.decision_id request.room_id >>= λ _. pure (event ∷ [])

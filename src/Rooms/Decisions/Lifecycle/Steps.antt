-- ===== src/Rooms/Decisions/Lifecycle/Steps.antt =====
-- src/rooms.rs: how one request of `process` moves the status of each decision.
use thought_khoral_room_gate.Prelude.{
  String, ◌≡◌, refl, sym, ◌∙◌, subst, true, false, Option, none, some, List, some_inj, ◌≢◌, ok,
  arith, Option-cases, ◌⊎◌, inl, inr,
}
use thought_khoral_room_gate.Tx.{◌>>=◌, >>=-eq-ok, pure, or_else}
use thought_khoral_room_gate.Tx.Frame.{Keeps-pure, Keeps-bind, Keeps-or_else}
use thought_khoral_room_gate.Env.{Uuid, Env}
use thought_khoral_room_gate.Protocol.{
  internal_error, ValidatedRequest, session_authenticate, join, chat_send, decision_propose,
  decision_transition, decision_delete, agent_task_start, DecisionDelete,
}
use thought_khoral_room_gate.Protocol.Fingerprint.{fingerprint}
use thought_khoral_room_gate.Auth.{Actor, is_human}
use thought_khoral_room_gate.Store.{World, RoomEvent}
use thought_khoral_room_gate.Store.Events.{record_request, prior_request}
use thought_khoral_room_gate.Rooms.Mentions.{Unicode}
use thought_khoral_room_gate.Rooms.Decisions.Table.{status_of, IsKeyed}
use thought_khoral_room_gate.Rooms.Decisions.Lifecycle.{
  table, propose-Adds, transition_decision_lem, delete_decision_lem,
}
use thought_khoral_room_gate.Rooms.Decisions.Lifecycle.Untouched.{
  record-table, send_chat-table, start-table,
}
use thought_khoral_room_gate.Rooms.Process.{
  ProcessedRequest, Surroundings, perform, process_new, process_in_room, process,
}
use thought_khoral_room_gate.Rooms.Process.Retry.{
  process-admitted, process-admits, admits, in_room-new, in_room-repeat,
}
use thought_khoral_room_gate.Rooms.Process.History.{admits-HasIds}
use thought_khoral_room_gate.Rooms.Decisions.Lifecycle.Moves.{
  Moves, stays, proposed, confirmed, dismissed, superseded, replaced, deleted, MovesAll, Effects,
  Done, MovesAll-same, added-Moves, transition-Moves, delete-Moves,
}

module _ (env : Env) (unicode : Unicode) (around : Surroundings) (actor : Actor) where
  perform-Moves :
      (request : ValidatedRequest)
      → ((before : World) (events : List RoomEvent) (after : World)
          → IsKeyed (table before)
          → perform env unicode around actor request before ≡ ok (events, after)
          → MovesAll request (table before) (table after)
            × Effects request (table before) (table after))
  unfolding perform
  perform-Moves (session_authenticate _) before events after k h = cc
  perform-Moves (join _) before events after k h = cc
  perform-Moves (chat_send r) before events after k h =
      let same = (send_chat-table env unicode around actor r).same before events after h in
      (MovesAll-same _ _ _ k same, same)
  perform-Moves (agent_task_start r) before events after k h =
      let same = (start-table env unicode around actor r).same before events after h in
      (MovesAll-same _ _ _ k same, same)
  perform-Moves (decision_propose r) before events after k h =
      let adds = (propose-Adds env actor r).change before events after h in
      (added-Moves _ "draft" _ _ (λ id. proposed r refl) k adds, adds)
  perform-Moves (decision_transition r) before events after k h =
      let transits = (transition_decision_lem env actor r).change before events after h in
      (transition-Moves r _ _ k transits, transits)
  perform-Moves (decision_delete r) before events after k h =
      let deletes = (delete_decision_lem env actor r).change before events after h in
      (delete-Moves r _ _ k deletes, deletes)

  process_new-Moves :
      (room_id request_id : Uuid) (request : ValidatedRequest) (before : World)
      (p : ProcessedRequest) (after : World)
      → IsKeyed (table before)
      → process_new env unicode around actor room_id request_id request before ≡ ok (p, after)
      → (p.duplicate ≡ false)
        × MovesAll request (table before) (table after)
        × Effects request (table before) (table after)
  unfolding process_new
  process_new-Moves room_id request_id request before p after k h =
      let (events, middle, first, rest) =
        >>=-eq-ok (perform env unicode around actor request)
          (λ events.
            or_else (record_request room_id request_id (fingerprint env request) events)
              internal_error
            >>= λ _. pure (record { events = events; duplicate = false }))
          before h in
      let kept =
        (Keeps-bind _ _
            (Keeps-or_else _ internal_error
              (record-table room_id request_id (fingerprint env request) events))
            λ _. Keeps-pure _).same
          middle p after rest in
      let (moves, effects) = perform-Moves request before events middle k first in
      (
        ground (arith, rest),
        subst (MovesAll request (table before)) (sym kept) moves,
        subst (Effects request (table before)) (sym kept) effects,
      )

  in_room-Moves :
      (room_id request_id : Uuid) (request : ValidatedRequest) (before : World)
      (p : ProcessedRequest) (after : World)
      → IsKeyed (table before)
      → process_in_room env unicode around actor room_id request_id request before ≡ ok (p, after)
      → Done request p.duplicate (table before) (table after)
  in_room-Moves room_id request_id request before p after k h =
      elim (Option-cases (prior_request before room_id request_id)) [
        | inl fresh ↦
            let (is_first, moves, effects) =
              process_new-Moves room_id request_id request before p after k (
                sym (in_room-new env unicode around actor room_id request_id request before fresh)
                ∙ h) in
            (moves, inl (is_first, effects))
        | inr ((fp, events), prior) ↦
            let same =
              sym (
                in_room-repeat env unicode around actor room_id request_id request before fp events
                  prior)
              ∙ h in
            let kept : table after ≡ table before = ground (arith, same) in
            (MovesAll-same request _ _ k kept, inr (ground (arith, same), kept))
      ]

-- A request that succeeds keeps the primary key of the decisions table, and every decision either
-- keeps its status or moves as the request says. A request that repeats an earlier one leaves the table
-- as it was. A new proposal adds one draft. A new transition finds a draft of the room that it names:
-- a confirm sets it to active, a dismiss to dismissed, and an edit to superseded and adds one active
-- decision. A new delete finds a decision of the room and removes its row. Any other request leaves
-- the table as it was.
pub process-Moves :
    (env : Env) (unicode : Unicode) (around : Surroundings) (actor : Actor)
    (request : ValidatedRequest) (before after : World) (p : ProcessedRequest)
    → IsKeyed (table before)
    → process env unicode around actor request before ≡ ok (p, after)
    → Done request p.duplicate (table before) (table after)
process-Moves env unicode around actor request before after p k h =
    let a = process-admits env unicode around actor request before (p, after) h in
    let (room_id, request_id, room, own) = admits-HasIds actor request a in
    in_room-Moves env unicode around actor room_id request_id request before p after k (
      sym (process-admitted env unicode around actor request room_id request_id before a room own)
      ∙ h)

-- A decision that has left "draft" keeps its status through every request but a human's delete of it.
pub settled_stays :
    (env : Env) (unicode : Unicode) (around : Surroundings) (actor : Actor)
    (request : ValidatedRequest) (before after : World) (p : ProcessedRequest) (id : Uuid)
    (status : String)
    → IsKeyed (table before)
    → process env unicode around actor request before ≡ ok (p, after)
    → status_of id (table before) ≡ some status
    → status ≢ "draft"
    → (status_of id (table after) ≡ some status)
      ⊎ ((status_of id (table after) ≡ none)
          × (is_human actor.role ≡ true)
          × ((r : DecisionDelete) × (request ≡ decision_delete r) × (r.decision_id ≡ id)))
settled_stays env unicode around actor request before after p id status k h here settled =
    kept ((process-Moves env unicode around actor request before after p k h).0.1 id) refl refl
  where
    human : (r : DecisionDelete) → request ≡ decision_delete r → is_human actor.role ≡ true
    human r e =
        subst (λ q. admits actor q ≡ true) e
          (process-admits env unicode around actor request before (p, after) h)

    kept :
        {a b : Option String}
        → Moves request id a b
        → status_of id (table before) ≡ a
        → status_of id (table after) ≡ b
        → (status_of id (table after) ≡ some status)
          ⊎ ((status_of id (table after) ≡ none)
              × (is_human actor.role ≡ true)
              × ((r : DecisionDelete) × (request ≡ decision_delete r) × (r.decision_id ≡ id)))
    kept (stays _) e f = inl (f ∙ sym e ∙ here)
    kept (deleted r _ is own) e f = inr (f, human r is, (r, is, own))
    kept (proposed r is) e f = cc (e, here)
    kept (replaced r is _) e f = cc (e, here)
    kept (confirmed r is _ _) e f = absurd (settled (some_inj (sym here ∙ e)))
    kept (dismissed r is _ _) e f = absurd (settled (some_inj (sym here ∙ e)))
    kept (superseded r is _ _) e f = absurd (settled (some_inj (sym here ∙ e)))

-- ===== src/AgentService/Standing.antt =====
-- src/agent_service.rs: which decisions are active after some events.
use thought_khoral_room_gate.Prelude.{
  ◌≡◌, refl, ◌∙◌, Option, none, some, List, [], ◌∷◌, arith, find, ◌==◌, ==→eq, str_eq, Option-cases,
  inl, inr, unwrap_or, if◌then◌else◌,
}
use thought_khoral_room_gate.Json.{Value, get, as_str}
use thought_khoral_room_gate.Env.{Uuid, Env}
use thought_khoral_room_gate.Protocol.Validity.{and_then}
use thought_khoral_room_gate.Store.{RoomEvent}
use thought_khoral_room_gate.AgentService.{
  ActiveDecision, insert_decision, remove_decision, uuid_of, confirmed_decision, removes,
  apply_event, apply_events, active_decisions,
}

abbrev pub decision_of : Uuid → List ActiveDecision → Option ActiveDecision
decision_of id = find (λ d. d.decision_id == id)

decision_of-insert :
    (id : Uuid) (new : ActiveDecision) (ds : List ActiveDecision)
    → decision_of id (insert_decision new ds)
      ≡ (if new.decision_id == id then some new else decision_of id ds)
unfolding insert_decision
decision_of-insert id new [] = refl
decision_of-insert id new (d ∷ ds) =
    ground (arith, decision_of-insert id new ds, ==→eq d.decision_id new.decision_id)

decision_of-remove :
    (id other : Uuid) (ds : List ActiveDecision)
    → decision_of id (remove_decision other ds) ≡ (if other == id then none else decision_of id ds)
unfolding remove_decision
decision_of-remove id other [] = ground arith
decision_of-remove id other (d ∷ ds) =
    ground (arith, decision_of-remove id other ds, ==→eq d.decision_id other)

module _ (env : Env) where
  confirmed-id :
      (id : Uuid) (payload : Value) (d : ActiveDecision)
      → confirmed_decision env id payload ≡ some d
      → d.decision_id ≡ id
  confirmed-id id payload d h = elim (Option-cases (and_then (get payload "title") as_str)) [
    | inl e ↦ ground (arith, h, e)
    | inr (title, e) ↦ elim (Option-cases (and_then (get payload "summary") as_str)) [
      | inl e' ↦ ground (arith, h, e, e')
      | inr (summary, e') ↦ ground (arith, h, e, e')
    ]
  ]

  -- What one event says of a decision, if anything: that it stands, as which, or that it does not.
  abbrev pub says : Uuid → RoomEvent → Option (Option ActiveDecision)
  says id event = elim (and_then (get event.payload "decisionId") (uuid_of env)) [
    | none ↦ none
    | some other ↦
        let confirmed : Option (Option ActiveDecision) =
          elim (confirmed_decision env other event.payload) [
            | none ↦ none
            | some d ↦ some (some d)
          ] in
        if other == id
        then (if str_eq event.event_type "decision.confirmed"
            then confirmed
            else if removes env event.event_type
            then some none
            else none)
        else none
  ]

  -- The last event that says something of it.
  abbrev pub last_word : Uuid → List RoomEvent → Option (Option ActiveDecision)
  last_word id [] = none
  last_word id (event ∷ events) = elim (last_word id events) [
    | some word ↦ some word
    | none ↦ says id event
  ]

  apply_event-says :
      (id : Uuid) (event : RoomEvent) (ds : List ActiveDecision)
      → decision_of id (apply_event env event ds) ≡ unwrap_or (says id event) (decision_of id ds)
  unfolding apply_event
  apply_event-says id event ds =
      elim (Option-cases (and_then (get event.payload "decisionId") (uuid_of env))) [
        | inl e ↦ ground (arith, e)
        | inr (other, e) ↦ elim (Option-cases (confirmed_decision env other event.payload)) [
          | inl e' ↦ ground (arith, e, e', decision_of-remove id other ds)
          | inr (d, e') ↦ ground (
            arith,
            e,
            e',
            decision_of-remove id other ds,
            decision_of-insert id d ds,
            confirmed-id other event.payload d e',
          )
        ]
      ]

  apply_events-last_word :
      (id : Uuid) (events : List RoomEvent) (ds : List ActiveDecision)
      → decision_of id (apply_events env events ds)
        ≡ unwrap_or (last_word id events) (decision_of id ds)
  apply_events-last_word id [] ds = refl
  apply_events-last_word id (event ∷ events) ds =
      apply_events-last_word id events (apply_event env event ds)
      ∙ elim (Option-cases (last_word id events)) [
        | inl e ↦ ground (arith, e, apply_event-says id event ds)
        | inr (word, e) ↦ ground (arith, e)
      ]

-- A decision is active after some events exactly as the last event that says something of it says:
-- with the title, the summary and the sources of that confirmation, or not at all when that event
-- dismissed, deleted or edited it, or when there is none. A confirmation without a status "active",
-- a title or a summary says nothing.
pub active_decisions-last_word :
    (env : Env) (id : Uuid) (events : List RoomEvent)
    → decision_of id (active_decisions env events) ≡ unwrap_or (last_word env id events) none
active_decisions-last_word env id events = apply_events-last_word env id events []

-- ===== src/AgentService/Citations.antt =====
-- src/agent_service.rs: what the result of a task may cite.
use thought_khoral_room_gate.Prelude.{
  ◌≡◌, refl, sym, ◌∙◌, ap, ap₂, String, Bool, true, ◌&&◌, ◌||◌, some, List, [], ◌∷◌, map, arith,
  any, all, any-append, All, keep, ◌==◌, str_eq_iff, Option-cases, inl, inr, &&-left, &&-right,
}
use thought_khoral_room_gate.Json.{Value, Items, array, list_of, get}
use thought_khoral_room_gate.Env.{Uuid, Env, EnvLaws}
use thought_khoral_room_gate.Protocol.Validity.{and_then}
use thought_khoral_room_gate.Store.{RoomEvent}
use thought_khoral_room_gate.Store.Leases.{AgentTaskLease, AgentTaskContext}
use thought_khoral_room_gate.Rooms.Visibility.{event_visible_to}
use thought_khoral_room_gate.AgentService.{
  ActiveDecision, CanonicalRoomContextPacket, NormalizedAgentTaskUpdate, filter_map, uuid_of,
  active_decisions, to_wire_value, context_packet, visible_ids, is_visible_citation,
  terminal_citations_are_visible,
}

abbrev pub shown : Env → AgentTaskContext → List RoomEvent
shown env context =
    keep (λ event. event_visible_to env event context.task.requester_id) context.events

-- The identifier is of an event of the context that the requester may see, or of a decision that is
-- active after those events.
abbrev pub is_shown : Env → AgentTaskContext → Uuid → Bool
is_shown env context id =
    any (λ event. (event.event_id == id) && event_visible_to env event context.task.requester_id)
      context.events
    || any (λ decision. decision.decision_id == id) (active_decisions env (shown env context))

any-keep :
    {A : Type 0} (p q : A → Bool) (xs : List A) → any q (keep p xs) ≡ any (λ x. q x && p x) xs
any-keep p q [] = refl
any-keep p q (x ∷ xs) = ground (arith, any-keep p q xs)

any-map :
    {A B : Type 0} (f : A → B) (q : B → Bool) (xs : List A)
    → any q (map f xs) ≡ any (λ x. q (f x)) xs
any-map f q [] = refl
any-map f q (x ∷ xs) = ground (arith, any-map f q xs)

module _ (env : Env) (laws : EnvLaws env) where
  -- The identifier of an event survives its wire form.
  wire-event_id :
      (event : RoomEvent)
      → and_then (get (to_wire_value env event) "eventId") (uuid_of env) ≡ some event.event_id
  wire-event_id event = laws.uuid_parse-to_string event.event_id

  wire_ids :
      (events : List RoomEvent)
      → filter_map
          (λ event. and_then (get event "eventId") (uuid_of env))
          (map (to_wire_value env) events)
        ≡ map (λ event. event.event_id) events
  wire_ids [] = refl
  wire_ids (event ∷ events) = ground (arith, wire-event_id event, wire_ids events)

  visible_ids-is_shown :
      (sha256 : CanonicalRoomContextPacket → String) (context : AgentTaskContext)
      (lease : AgentTaskLease) (id : Uuid)
      → any (λ visible. visible == id) (visible_ids env (context_packet env sha256 context lease))
        ≡ is_shown env context id
  unfolding context_packet
  visible_ids-is_shown sha256 context lease id =
      let events = shown env context in
      let decisions = active_decisions env events in
      any-append (λ visible. visible == id)
        (filter_map (λ event. and_then (get event "eventId") (uuid_of env))
          (map (to_wire_value env) events))
        (map (λ decision. decision.decision_id) decisions)
      ∙ ap₂ (λ a b. a || b)
          (ap (any (λ visible. visible == id)) (wire_ids events)
            ∙ any-map (λ (event : RoomEvent). event.event_id) (λ visible. visible == id) events
            ∙ any-keep (λ event. event_visible_to env event context.task.requester_id)
                (λ event. event.event_id == id) context.events)
          (any-map (λ (decision : ActiveDecision). decision.decision_id) (λ visible. visible == id)
            decisions)

  cites :
      (sha256 : CanonicalRoomContextPacket → String) (context : AgentTaskContext)
      (lease : AgentTaskLease) (citations : List Value)
      → all (is_visible_citation env (context_packet env sha256 context lease)) citations ≡ true
      → All
          (λ c. (id : Uuid) × (uuid_of env c ≡ some id) × (is_shown env context id ≡ true))
          citations
  cites sha256 context lease [] h = tt
  cites sha256 context lease (c ∷ cs) h =
      let packet = context_packet env sha256 context lease in
      let first =
        &&-left (is_visible_citation env packet c) (all (is_visible_citation env packet) cs) h in
      let rest =
        &&-right (is_visible_citation env packet c) (all (is_visible_citation env packet) cs) h in
      (
        elim (Option-cases (uuid_of env c)) [
          | inl e ↦ ground (arith, first, e)
          | inr (id, e) ↦
              (id, e, sym (visible_ids-is_shown sha256 context lease id) ∙ ground (arith, first, e))
        ],
        cites sha256 context lease cs rest,
      )

-- A report of success whose result lists citations passes the check against the packet of the lease
-- only if every citation is the identifier of an event of the context that the requester of the task
-- may see, or of a decision that is active after those events.
pub terminal_citations_are_visible_lem :
    (env : Env) (sha256 : CanonicalRoomContextPacket → String) (context : AgentTaskContext)
    (lease : AgentTaskLease) (update : NormalizedAgentTaskUpdate) (citations : Items)
    → EnvLaws env
    → terminal_citations_are_visible env (context_packet env sha256 context lease) update ≡ true
    → update.event_type ≡ "agent.task.succeeded"
    → and_then (get update.payload "result") (λ result. get result "citations")
      ≡ some (array citations)
    → All
        (λ c. (id : Uuid) × (uuid_of env c ≡ some id) × (is_shown env context id ≡ true))
        (list_of citations)
unfolding terminal_citations_are_visible
terminal_citations_are_visible_lem env sha256 context lease update citations laws passes is_success
      listed =
    cites env laws sha256 context lease (list_of citations) (
      ground
        (arith, passes, (str_eq_iff update.event_type "agent.task.succeeded").1 is_success, listed))

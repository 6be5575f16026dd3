-- ===== src/Ws/Delivery/Repeated.antt =====
-- src/ws.rs: what a session sends in answer to a request that was made before.
use thought_khoral_room_gate.Prelude.{
  ◌≡◌, refl, sym, ◌∙◌, subst, Bool, if◌then◌else◌, Option-cases, inl, inr, true, false, some, List,
  [], ◌∷◌, ◌++◌, ok, arith, All, Has, keep, leb, any, find, ◌==◌,
}
use thought_khoral_room_gate.Tx.{◌>>=◌, >>=-eq-ok, pure, or_else}
use thought_khoral_room_gate.Env.{Uuid, Env}
use thought_khoral_room_gate.Protocol.{ValidatedRequest, internal_error}
use thought_khoral_room_gate.Protocol.Fingerprint.{fingerprint}
use thought_khoral_room_gate.Auth.{Actor}
use thought_khoral_room_gate.Json.{Value}
use thought_khoral_room_gate.Store.{RoomEvent, World}
use thought_khoral_room_gate.Store.Events.{
  insert_by_sequence, order_by_sequence, events_by_id, is_request, prior_request, record_request,
}
use thought_khoral_room_gate.Rooms.Mentions.{Unicode}
use thought_khoral_room_gate.Rooms.Process.{
  Surroundings, ProcessedRequest, perform, process_new, process,
}
use thought_khoral_room_gate.Rooms.Process.Retry.{
  process-admitted, process-admits, in_room-new, in_room-repeat,
}
use thought_khoral_room_gate.Rooms.Process.History.{admits-HasIds}

-- All events are rows of the log.
abbrev pub AreStored : List RoomEvent → List RoomEvent → Type 0
AreStored log events = All (λ event. Has event log) events

Has-left : (event : RoomEvent) (xs ys : List RoomEvent) → Has event xs → Has event (xs ++ ys)
Has-left event [] ys h = absurd h
Has-left event (x ∷ xs) ys (inl is) = inl is
Has-left event (x ∷ xs) ys (inr later) = inr (Has-left event xs ys later)

pub AreStored-grown :
    (log more events : List RoomEvent) → AreStored log events → AreStored (log ++ more) events
AreStored-grown log more [] h = tt
AreStored-grown log more (event ∷ events) h =
    (Has-left event log more h.0, AreStored-grown log more events h.1)

AreStored-later :
    (first : RoomEvent) (log events : List RoomEvent)
    → AreStored log events
    → AreStored (first ∷ log) events
AreStored-later first log [] h = tt
AreStored-later first log (event ∷ events) h = (inr h.0, AreStored-later first log events h.1)

keep-AreStored : (p : RoomEvent → Bool) (log : List RoomEvent) → AreStored log (keep p log)
keep-AreStored p [] = tt
keep-AreStored p (event ∷ log) =
    by_test (p event) (AreStored-later event log (keep p log) (keep-AreStored p log))
  where
    by_test :
        (b : Bool)
        → AreStored (event ∷ log) (keep p log)
        → AreStored (event ∷ log) (if b then event ∷ keep p log else keep p log)
    by_test true rest = (inl refl, rest)
    by_test false rest = rest

insert-AreStored :
    (log : List RoomEvent) (event : RoomEvent) (events : List RoomEvent)
    → Has event log
    → AreStored log events
    → AreStored log (insert_by_sequence event events)
unfolding insert_by_sequence
insert-AreStored log event [] here h = (here, tt)
insert-AreStored log event (first ∷ rest) here h =
    by_test (leb event.sequence first.sequence) (insert-AreStored log event rest here h.1)
  where
    by_test :
        (b : Bool)
        → AreStored log (insert_by_sequence event rest)
        → AreStored log
            (if b then event ∷ (first ∷ rest) else first ∷ insert_by_sequence event rest)
    by_test true later = (here, h)
    by_test false later = (h.0, later)

order-AreStored :
    (log events : List RoomEvent) → AreStored log events → AreStored log (order_by_sequence events)
unfolding order_by_sequence
order-AreStored log [] h = tt
order-AreStored log (event ∷ events) h =
    insert-AreStored log event (order_by_sequence events) h.0 (order-AreStored log events h.1)

events_by_id-AreStored :
    (log : List RoomEvent) (ids : List Uuid) → AreStored log (events_by_id log ids)
unfolding events_by_id
events_by_id-AreStored log ids =
    order-AreStored log _ (keep-AreStored (λ event. any (λ id. event.event_id == id) ids) log)

prior-AreStored :
    (w : World) (room_id request_id : Uuid) (fp : Value) (events : List RoomEvent)
    → prior_request w room_id request_id ≡ some (fp, events)
    → AreStored w.room_events events
unfolding prior_request
prior-AreStored w room_id request_id fp events h =
    elim (Option-cases (find (is_request room_id request_id) w.room_requests)) [
      | inl missing ↦ absurd (ground (arith, h, missing))
      | inr (row, there) ↦
          let is : events_by_id w.room_events row.event_ids ≡ events = ground (arith, h, there) in
          subst (AreStored w.room_events) is (events_by_id-AreStored w.room_events row.event_ids)
    ]

module _ (env : Env) (unicode : Unicode) (around : Surroundings) (actor : Actor) where
  new-duplicate :
      (room_id request_id : Uuid) (request : ValidatedRequest) (w after : World)
      (p : ProcessedRequest)
      → process_new env unicode around actor room_id request_id request w ≡ ok (p, after)
      → p.duplicate ≡ false
  unfolding process_new
  new-duplicate room_id request_id request w after p h =
      let (events, middle, first, rest) =
        >>=-eq-ok (perform env unicode around actor request)
          (λ events.
            or_else (record_request room_id request_id (fingerprint env request) events)
              internal_error
            >>= λ _. pure (record { events = events; duplicate = false }))
          w h in
      ground (arith, rest)

  -- A duplicate is answered with rows of the log.
  pub duplicate-AreStored :
      (request : ValidatedRequest) (w after : World) (p : ProcessedRequest)
      → process env unicode around actor request w ≡ ok (p, after)
      → p.duplicate ≡ true
      → AreStored w.room_events p.events
  duplicate-AreStored request w after p h again =
      let a = process-admits env unicode around actor request w (p, after) h in
      let (room_id, request_id, room, own) = admits-HasIds actor request a in
      let run =
        sym (process-admitted env unicode around actor request room_id request_id w a room own)
        ∙ h in
      elim (Option-cases (prior_request w room_id request_id)) [
        | inl fresh ↦
            let first = new-duplicate room_id request_id request w after p (
              sym (in_room-new env unicode around actor room_id request_id request w fresh)
              ∙ run) in
            cc (again, first)
        | inr ((fp, events), prior) ↦
            let same =
              sym (
                in_room-repeat env unicode around actor room_id request_id request w fp events
                  prior)
              ∙ run in
            let is : events ≡ p.events = ground (arith, same) in
            subst (AreStored w.room_events) is
              (prior-AreStored w room_id request_id fp events prior)
      ]

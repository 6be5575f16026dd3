-- ===== src/Rooms/Process/Retry.antt =====
-- `process` is idempotent: a request is performed once, and its retries are answered from the
-- record, whoever sends them and whatever was stored in between.
use thought_khoral_room_gate.Prelude.{
  ◌≡◌, refl, sym, ◌⊎◌, ◌∙◌, ap₂, subst₂, Bool, true, false, none, some, List, ok, err, arith,
  Option-cases, some_inj, inl, inr, if◌then◌else◌,
}
use thought_khoral_room_gate.Tx.{◌>>=◌, >>=-eq-ok, or_else, pure}
use thought_khoral_room_gate.Json.{Value, value_eq}
use thought_khoral_room_gate.Env.{Uuid, Env, EnvLaws}
use thought_khoral_room_gate.Protocol
use thought_khoral_room_gate.Protocol.{
  RpcError, invalid_request, forbidden, conflicting_duplicate, internal_error, ValidatedRequest,
  session_authenticate, join, chat_send, decision_propose, decision_transition, decision_delete,
  agent_task_start,
}
use thought_khoral_room_gate.Protocol.Fingerprint.{fingerprint}
use thought_khoral_room_gate.Auth.{Actor, is_human}
use thought_khoral_room_gate.Store.{RoomEvent, World}
use thought_khoral_room_gate.Store.Events.{prior_request, record_request}
use thought_khoral_room_gate.Store.Events.Log.{IsWellFormed}
use thought_khoral_room_gate.Store.Events.Retry.{
  Remembers, Remembers-Later, record_request-Remembers, record_request-Later,
  record_request-IsWellFormed,
}
use thought_khoral_room_gate.Store.Events.Later.{Later}
use thought_khoral_room_gate.Rooms.Mentions.{Unicode}
use thought_khoral_room_gate.Rooms.Process.Growth.{perform-Grows}
use thought_khoral_room_gate.Rooms.Process.{
  ProcessedRequest, Surroundings, perform, process_new, process_repeat, process_in_room, process,
}

-- The guards at the head of `process`.
abbrev pub admits : Actor → ValidatedRequest → Bool
admits actor (session_authenticate _) = false
admits actor (join _) = false
admits actor (chat_send _) = true
admits actor (decision_propose _) = true
admits actor (decision_transition _) = is_human actor.role
admits actor (decision_delete _) = is_human actor.role
admits actor (agent_task_start _) = is_human actor.role

-- What a request that was performed leaves behind.
pub record Performed (env : Env) (w : World) (room_id request_id : Uuid)
    (request : ValidatedRequest) (p : ProcessedRequest) (after : World) : Type 0 where
  pub is_first : p.duplicate ≡ false
  pub later : Later w after
  pub remembers : Remembers after room_id request_id (fingerprint env request) p.events
  pub well_formed : IsWellFormed env after

module _ (env : Env) (unicode : Unicode) (around : Surroundings) (actor : Actor) where
  same_room :
      {own other room_id request_id : Uuid} (request : ValidatedRequest) (w : World)
      → some own ≡ some room_id
      → some other ≡ some request_id
      → process_in_room env unicode around actor own other request w
        ≡ process_in_room env unicode around actor room_id request_id request w
  same_room request w e e' =
      ap₂ (λ a b. process_in_room env unicode around actor a b request w) (some_inj e) (some_inj e')

  -- Behind the guards, a request is looked up in its room.
  pub process-admitted :
      (request : ValidatedRequest) (room_id request_id : Uuid) (w : World)
      → admits actor request ≡ true
      → Protocol.room_id request ≡ some room_id
      → Protocol.request_id request ≡ some request_id
      → process env unicode around actor request w
        ≡ process_in_room env unicode around actor room_id request_id request w
  unfolding process
  process-admitted (session_authenticate _) room_id request_id w a e e' = cc
  process-admitted (join _) room_id request_id w a e e' = cc
  process-admitted (chat_send r) room_id request_id w a e e' = same_room (chat_send r) w e e'
  process-admitted (decision_propose r) room_id request_id w a e e' =
      same_room (decision_propose r) w e e'
  process-admitted (decision_transition r) room_id request_id w a e e' =
      rw a (same_room (decision_transition r) w e e')
  process-admitted (decision_delete r) room_id request_id w a e e' =
      rw a (same_room (decision_delete r) w e e')
  process-admitted (agent_task_start r) room_id request_id w a e e' =
      rw a (same_room (agent_task_start r) w e e')

  -- A refused request has an error of its own, and a request that succeeds was admitted.
  pub process-admits :
      (request : ValidatedRequest) (w : World) (r : ProcessedRequest × World)
      → process env unicode around actor request w ≡ ok r
      → admits actor request ≡ true
  unfolding process
  process-admits (session_authenticate _) w r h = cc
  process-admits (join _) w r h = cc
  process-admits (chat_send q) w r h = refl
  process-admits (decision_propose q) w r h = refl
  process-admits _ w r h = ground arith

  module _ (room_id request_id : Uuid) (request : ValidatedRequest) (w : World) where
    pub in_room-new :
        prior_request w room_id request_id ≡ none
        → process_in_room env unicode around actor room_id request_id request w
          ≡ process_new env unicode around actor room_id request_id request w
    unfolding process_in_room
    in_room-new fresh = rw (fresh, process_in_room)

    pub in_room-repeat :
        (fp : Value) (events : List RoomEvent)
        → prior_request w room_id request_id ≡ some (fp, events)
        → process_in_room env unicode around actor room_id request_id request w ≡ (
            if value_eq fp (fingerprint env request)
            then ok (record { events = events; duplicate = true }, w)
            else err conflicting_duplicate)
    unfolding process_in_room process_repeat
    in_room-repeat fp events prior = rw (prior, process_in_room) (ground arith)

  module _ (laws : EnvLaws env) (room_id request_id : Uuid) (request : ValidatedRequest) (w : World)
      (wf : IsWellFormed env w) (room : Protocol.room_id request ≡ some room_id)
      (own : Protocol.request_id request ≡ some request_id) where
    recorded-Performed :
        (events : List RoomEvent) (w' after : World)
        → prior_request w room_id request_id ≡ none
        → perform env unicode around actor request w ≡ ok (events, w')
        → record_request room_id request_id (fingerprint env request) events w' ≡ ok (tt, after)
        → Performed env w room_id request_id request
            (record { events = events; duplicate = false })
            after
    recorded-Performed events w' after fresh first recorded =
        let grown =
          perform-Grows env laws actor unicode around w events w' room_id wf request request_id room
            own fresh first in
        let fp = fingerprint env request in
        record {
          is_first = refl;
          later = record_request-Later room_id request_id fp w w' after events fresh grown recorded;
          remembers =
              record_request-Remembers room_id request_id fp w w' after events fresh grown recorded;
          well_formed =
              record_request-IsWellFormed room_id request_id fp w w' after events fresh grown
                recorded;
        }

    process_new-Performed :
        (p : ProcessedRequest) (after : World)
        → prior_request w room_id request_id ≡ none
        → process_new env unicode around actor room_id request_id request w ≡ ok (p, after)
        → Performed env w room_id request_id request p after
    unfolding process_new
    process_new-Performed p after fresh h =
        let (events, w', first, rest) =
          >>=-eq-ok (perform env unicode around actor request)
            (λ events.
              or_else (record_request room_id request_id (fingerprint env request) events)
                internal_error
              >>= λ _. pure (record { events = events; duplicate = false }))
            w h in
        let (u, w'', recorded, last) =
          >>=-eq-ok
            (or_else (record_request room_id request_id (fingerprint env request) events)
              internal_error)
            (λ _. pure (record { events = events; duplicate = false })) w' rest in
        subst₂ (λ q v. Performed env w room_id request_id request q v) (cc last) (cc last)
          (recorded-Performed events w' w'' fresh first (ground (arith, recorded)))

    in_room-cases :
        (p : ProcessedRequest) (after : World)
        → process_in_room env unicode around actor room_id request_id request w ≡ ok (p, after)
        → Performed env w room_id request_id request p after ⊎ ((p.duplicate ≡ true) × (after ≡ w))
    in_room-cases p after h = elim (Option-cases (prior_request w room_id request_id)) [
      | inl fresh ↦ inl (
          process_new-Performed p after fresh
            (sym (in_room-new room_id request_id request w fresh) ∙ h))
      | inr ((fp, events), prior) ↦
          let same = sym (in_room-repeat room_id request_id request w fp events prior) ∙ h in
          inr (ground (arith, same), ground (arith, same))
    ]

    -- A request that succeeds was performed now, or was a repeat and changed nothing.
    pub process-cases :
        (p : ProcessedRequest) (after : World)
        → process env unicode around actor request w ≡ ok (p, after)
        → Performed env w room_id request_id request p after ⊎ ((p.duplicate ≡ true) × (after ≡ w))
    process-cases p after h = in_room-cases p after (
        sym (
          process-admitted request room_id request_id w (process-admits request w (p, after) h) room
            own)
        ∙ h)

-- A later request with the same identifiers, from anybody whom the guards admit, is answered with
-- the events of the first if its fingerprint is the same, and is refused otherwise; either way it
-- changes nothing.
pub process_retry :
    (env : Env) (unicode : Unicode) (around around' : Surroundings) (actor actor' : Actor)
    (request request' : ValidatedRequest) (room_id request_id : Uuid) (w w' later : World)
    (p : ProcessedRequest)
    → EnvLaws env
    → IsWellFormed env w
    → Protocol.room_id request ≡ some room_id
    → Protocol.request_id request ≡ some request_id
    → process env unicode around actor request w ≡ ok (p, w')
    → p.duplicate ≡ false
    → Later w' later
    → admits actor' request' ≡ true
    → Protocol.room_id request' ≡ some room_id
    → Protocol.request_id request' ≡ some request_id
    → process env unicode around' actor' request' later ≡ (
        if value_eq (fingerprint env request) (fingerprint env request')
        then ok (record { events = p.events; duplicate = true }, later)
        else err conflicting_duplicate)
process_retry env unicode around around' actor actor' request request' room_id request_id w w' later
      p laws wf room own h first l a room' own' =
    process-admitted env unicode around' actor' request' room_id request_id later a room' own'
    ∙ answered (
        process-cases env unicode around actor laws room_id request_id request w wf room own p w' h)
  where
    answered :
        Performed env w room_id request_id request p w' ⊎ ((p.duplicate ≡ true) × (w' ≡ w))
        → process_in_room env unicode around' actor' room_id request_id request' later ≡ (
            if value_eq (fingerprint env request) (fingerprint env request')
            then ok (record { events = p.events; duplicate = true }, later)
            else err conflicting_duplicate)
    answered (inl done) =
        in_room-repeat env unicode around' actor' room_id request_id request' later
          (fingerprint env request) p.events (Remembers-Later l done.remembers).answer
    answered (inr (second, same)) = cc (first, second)

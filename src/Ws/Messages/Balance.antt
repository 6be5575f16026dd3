-- ===== src/Ws/Messages/Balance.antt =====
-- src/ws.rs: a session takes back the presence that it added.
use thought_khoral_room_gate.Prelude.{
  ℕ, ◌+◌, ◌≡◌, sym, subst, subst₂, Bool, true, false, ◌&&◌, none, some, List, [], ◌∷◌, Result, ok,
  err, arith, leb, ◌==◌, Option-cases, Result-cases, inl, inr, if◌then◌else◌,
}
use thought_khoral_room_gate.Env.{Uuid, Instant, Env}
use thought_khoral_room_gate.Protocol.{
  RpcError, Join, ValidatedRequest, session_authenticate, join, forbidden, unauthenticated,
}
use thought_khoral_room_gate.Auth.{Actor}
use thought_khoral_room_gate.Rooms.Mentions.{Unicode}
use thought_khoral_room_gate.Rooms.Participants.{Presence, participant_snapshot}
use thought_khoral_room_gate.Rooms.Participants.Connections.{
  connections, register-connections, unregister-connections,
}
use thought_khoral_room_gate.Rooms.Process.{process, Surroundings}
use thought_khoral_room_gate.Ws.{Session, join_room, is_elsewhere}
use thought_khoral_room_gate.Ws.Messages.{
  Gateway, Message, text, close, other, Outcome, is_in, registered, handle_join,
  handle_room_request, handle_request, handle_message, cleanup_presence, answers, error_reply,
  join_reply,
}

-- What a session adds to the count of a participant of a room.
abbrev pub own_socket : Actor → Session → Uuid → Uuid → ℕ
own_socket actor session room_id id =
    if is_in session.joined_room (some room_id) && (actor.id == id) then 1 else 0

abbrev pub IsBalanced : Actor → Presence → Presence → Session → Type 0
IsBalanced actor before presence session =
    (room_id id : Uuid)
    → connections room_id id presence
      ≡ connections room_id id before + own_socket actor session room_id id

module _ (env : Env) (unicode : Unicode) (conversations_enabled : Bool) (now : Instant)
    (actor : Actor) (before : Presence) where
  abbrev KeepsBalance : Outcome → Type 0
  KeepsBalance outcome = IsBalanced actor before outcome.gateway.presence outcome.session

  joined-room :
      (request : Join) (gateway : Gateway) (session joined : Session)
      → join_room env actor.id gateway.world request session ≡ ok joined
      → (joined.joined_room ≡ some request.room_id)
        × (is_elsewhere session.joined_room request.room_id ≡ false)
  unfolding join_room
  joined-room request gateway session joined h = ground arith

  registered-IsBalanced :
      (request : Join) (gateway : Gateway) (session joined : Session)
      → joined.joined_room ≡ some request.room_id
      → is_elsewhere session.joined_room request.room_id ≡ false
      → IsBalanced actor before gateway.presence session
      → IsBalanced actor before (registered actor request gateway session) joined
  registered-IsBalanced request gateway session joined is here b room_id id = ground (
    arith,
    is,
    here,
    b room_id id,
    register-connections room_id request.room_id id actor gateway.presence,
  )

  join-eq-err :
      (request : Join) (gateway : Gateway) (session : Session) (e : RpcError)
      → join_room env actor.id gateway.world request session ≡ err e
      → handle_join env unicode conversations_enabled now actor request gateway session
        ≡ answers (error_reply e) gateway session
  unfolding handle_join
  join-eq-err request gateway session e is = rw (is, handle_join)

  join-eq-ok :
      (request : Join) (gateway : Gateway) (session joined : Session)
      → join_room env actor.id gateway.world request session ≡ ok joined
      → handle_join env unicode conversations_enabled now actor request gateway session
        ≡ answers
            (join_reply joined.sent (
              participant_snapshot env conversations_enabled gateway.world.room_events
                request.room_id
                (registered actor request gateway session)))
            (record { world = gateway.world; presence = registered actor request gateway session })
            joined
  unfolding handle_join
  join-eq-ok request gateway session joined is = rw (is, handle_join)

  join-IsBalanced :
      (request : Join) (gateway : Gateway) (session : Session)
      → IsBalanced actor before gateway.presence session
      → KeepsBalance
          (handle_join env unicode conversations_enabled now actor request gateway session)
  join-IsBalanced request gateway session b =
      elim (Result-cases (join_room env actor.id gateway.world request session)) [
        | inr (e, is) ↦ subst KeepsBalance (sym (join-eq-err request gateway session e is)) b
        | inl (joined, is) ↦
            let (there, here) = joined-room request gateway session joined is in
            subst KeepsBalance (sym (join-eq-ok request gateway session joined is))
              (registered-IsBalanced request gateway session joined there here b)
      ]

  -- A request in the joined room touches neither the presence nor the joined room.
  room_request-same :
      (request : ValidatedRequest) (gateway : Gateway) (session : Session)
      → let outcome =
          handle_room_request env unicode conversations_enabled now actor request gateway session in
        (outcome.gateway.presence ≡ gateway.presence)
        × (outcome.session.joined_room ≡ session.joined_room)
  unfolding handle_room_request
  room_request-same request gateway session =
      let around : Surroundings = record {
        presence = gateway.presence;
        conversations_enabled = conversations_enabled;
        now = now;
      } in
      elim (Result-cases (process env unicode around actor request gateway.world)) [
        | inr (e, is) ↦ (ground (arith, is), ground (arith, is))
        | inl ((processed, world), is) ↦ (ground (arith, is), ground (arith, is))
      ]

  gated-IsBalanced :
      (gate : Bool) (request : ValidatedRequest) (gateway : Gateway) (session : Session)
      → IsBalanced actor before gateway.presence session
      → KeepsBalance (
          if gate
          then handle_room_request env unicode conversations_enabled now actor request gateway
              session
          else answers (error_reply forbidden) gateway session)
  gated-IsBalanced false request gateway session b = b
  gated-IsBalanced true request gateway session b =
      let (presence, same) = room_request-same request gateway session in
      subst₂
        (λ p joined.
          (room_id id : Uuid)
          → connections room_id id p
            ≡ connections room_id id before
              + (if is_in joined (some room_id) && (actor.id == id) then 1 else 0))
        (sym presence) (sym same) b

  request-IsBalanced :
      (request : ValidatedRequest) (gateway : Gateway) (session : Session)
      → IsBalanced actor before gateway.presence session
      → KeepsBalance
          (handle_request env unicode conversations_enabled now actor request gateway session)
  unfolding handle_request
  request-IsBalanced (session_authenticate _) gateway session b = b
  request-IsBalanced (join request) gateway session b = join-IsBalanced request gateway session b
  request-IsBalanced request gateway session b = gated-IsBalanced _ request gateway session b

  message-IsBalanced :
      (seconds : ℕ) (message : Message) (gateway : Gateway) (session : Session)
      → IsBalanced actor before gateway.presence session
      → KeepsBalance (
          handle_message env unicode conversations_enabled now actor seconds message gateway
            session)
  unfolding handle_message
  message-IsBalanced seconds close gateway session b = b
  message-IsBalanced seconds other gateway session b = b
  message-IsBalanced seconds (text parsed) gateway session b =
      by_expiry (leb actor.expires_at seconds) parsed
    where
      by_expiry :
          (expired : Bool) (parsed : Result RpcError ValidatedRequest)
          → KeepsBalance (
              if expired
              then record {
                gateway = gateway;
                session = session;
                reply = error_reply unauthenticated;
                published = [];
                is_open = false;
              }
              else (elim parsed [
                | err e ↦ answers (error_reply e) gateway session
                | ok request ↦
                    handle_request env unicode conversations_enabled now actor request gateway
                      session
              ]))
      by_expiry true parsed = b
      by_expiry false (err e) = b
      by_expiry false (ok request) = request-IsBalanced request gateway session b

  -- The gateway and the session after some messages, each with the time of its arrival; a message
  -- that closes the session is the last.
  abbrev pub after_messages : List (ℕ × Message) → Gateway → Session → Gateway × Session
  after_messages [] gateway session = (gateway, session)
  after_messages ((seconds, message) ∷ rest) gateway session =
      let outcome =
        handle_message env unicode conversations_enabled now actor seconds message gateway
          session in
      let later = after_messages rest outcome.gateway outcome.session in
      if outcome.is_open then later else (outcome.gateway, outcome.session)

  messages-IsBalanced :
      (messages : List (ℕ × Message)) (gateway : Gateway) (session : Session)
      → IsBalanced actor before gateway.presence session
      → IsBalanced actor before
          (after_messages messages gateway session).0.presence
          (after_messages messages gateway session).1
  messages-IsBalanced [] gateway session b = b
  messages-IsBalanced ((seconds, message) ∷ rest) gateway session b =
      let outcome =
        handle_message env unicode conversations_enabled now actor seconds message gateway
          session in
      let here = message-IsBalanced seconds message gateway session b in
      let later = messages-IsBalanced rest outcome.gateway outcome.session here in
      by_open (outcome.gateway, outcome.session)
        (after_messages rest outcome.gateway outcome.session) outcome.is_open here later
    where
      by_open :
          (p q : Gateway × Session) (is_open : Bool)
          → IsBalanced actor before p.0.presence p.1
          → IsBalanced actor before q.0.presence q.1
          → let r : Gateway × Session = if is_open then q else p in
            IsBalanced actor before r.0.presence r.1
      by_open p q true here later = later
      by_open p q false here later = here

  cleanup-IsBalanced :
      (gateway : Gateway) (session : Session) (room_id id : Uuid)
      → IsBalanced actor before gateway.presence session
      → connections room_id id (cleanup_presence actor gateway session)
        ≡ connections room_id id before
  unfolding cleanup_presence
  cleanup-IsBalanced gateway session room_id id b = elim (Option-cases session.joined_room) [
    | inl e ↦ ground (arith, e, b room_id id)
    | inr (joined, e) ↦
        ground (
          arith,
          e,
          b room_id id,
          unregister-connections room_id joined id actor.id gateway.presence,
        )
  ]

-- A session that starts outside every room leaves the presence as it found it: after any messages,
-- whatever they are and however they are answered, and the cleanup at its end, every participant
-- of every room has as many connections as before, when no other socket joins or leaves meanwhile.
pub session_leaves_no_trace :
    (env : Env) (unicode : Unicode) (conversations_enabled : Bool) (now : Instant) (actor : Actor)
    (messages : List (ℕ × Message)) (gateway : Gateway) (session : Session) (room_id id : Uuid)
    → session.joined_room ≡ none
    → let after =
        after_messages env unicode conversations_enabled now actor gateway.presence messages gateway
          session in
      connections room_id id (cleanup_presence actor after.0 after.1)
      ≡ connections room_id id gateway.presence
session_leaves_no_trace env unicode conversations_enabled now actor messages gateway session room_id
      id outside =
    let start : IsBalanced actor gateway.presence gateway.presence session =
      λ r i. ground (arith, outside) in
    let after =
      after_messages env unicode conversations_enabled now actor gateway.presence messages gateway
        session in
    cleanup-IsBalanced env unicode conversations_enabled now actor gateway.presence after.0 after.1
      room_id id
      (messages-IsBalanced env unicode conversations_enabled now actor gateway.presence messages
        gateway session start)

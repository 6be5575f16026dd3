-- ===== src/Conversation/Retry.antt =====
-- src/conversation_store.rs: `reserve_inner` with a request that was made before.
use thought_khoral_room_gate.Prelude.{
  ◌+◌, ◌≡◌, refl, subst, subst₂, sym, ◌∙◌, true, Option, none, some, some_inj, Result, ok, err,
  arith, Result-cases, Option-cases, Bool-cases, inl, inr, find,
}
use thought_khoral_room_gate.Tx.{◌>>=◌, >>=-eq-ok, pure, lift}
use thought_khoral_room_gate.Json.{Value, value_eq}
use thought_khoral_room_gate.Env.{Uuid, Instant}
use thought_khoral_room_gate.Auth.{Actor}
use thought_khoral_room_gate.Store.Events.{is_request, prior_request}
use thought_khoral_room_gate.Conversation.{ConversationWorld, Crates, seconds}
use thought_khoral_room_gate.Conversation.Protocol.{ConversationError, codex_agent_id}
use thought_khoral_room_gate.Conversation.Protocol.Turns.{validate_turn_request-ok}
use thought_khoral_room_gate.Conversation.Policy.{ConversationPolicy}
use thought_khoral_room_gate.Conversation.Citations.{uuid_field}
use thought_khoral_room_gate.Conversation.Catalog.{CatalogQuery}
use thought_khoral_room_gate.Conversation.Mentions.{authorize_conversation_turn, admit}
use thought_khoral_room_gate.Conversation.Reserve.{
  ConversationReservation, Moments, is_accepted_turn, repeat_turn, minimum, fingerprint,
}
use thought_khoral_room_gate.Conversation.Reservation.{
  Gateway, reserve_or_repeat, still_authorized, reserve_in_transaction, reserve_inner,
}
use thought_khoral_room_gate.Conversation.Answered.{Accepted, Answered, Hoare-reserve_current}

lift_ok :
    {A : Type 0} (x : Result ConversationError A) (s t : ConversationWorld) (a : A)
    → lift x s ≡ ok (a, t)
    → (x ≡ ok a) × (t ≡ s)
lift_ok (ok b) s t a h = (cc h, cc h)
lift_ok (err e) s t a h = absurd (cc h)

-- The answer that the turn of a request was given.
abbrev pub answer_in : Uuid → Uuid → Uuid → ConversationWorld → Option Value
answer_in room request_id requester w =
    elim (find (is_accepted_turn room request_id requester) w.conversation_tasks) [
      | none ↦ none
      | some task ↦ some task.accepted_turn
    ]

kept_answer :
    (room request_id requester : Uuid) (w later : ConversationWorld) (accepted : Value)
    → answer_in room request_id requester later ≡ answer_in room request_id requester w
    → Accepted room request_id requester accepted w.conversation_tasks
    → Accepted room request_id requester accepted later.conversation_tasks
kept_answer room request_id requester w later accepted same (task, found, was) =
    elim (Option-cases
      (find (is_accepted_turn room request_id requester) later.conversation_tasks)) [
        | inl gone ↦ absurd (ground (arith, same, found, gone))
        | inr (task', found') ↦ (task', found', some_inj (ground (arith, same, found, found', was)))
      ]

module _ (crates : Crates) where
  module _ (policy : ConversationPolicy) (actor : Actor) where
    repeat_turn-Answered :
        (room request_id : Uuid) (request prior : Value) (s t : ConversationWorld)
        (o : ConversationReservation)
        → repeat_turn crates policy actor room request_id request prior s ≡ ok (o, t)
        → (t ≡ s)
          × (o.prompt ≡ none)
          × Accepted room request_id actor.id o.accepted s.conversation_tasks
    unfolding repeat_turn
    repeat_turn-Answered room request_id request prior s t o h =
        elim (Bool-cases (value_eq prior (fingerprint crates policy actor request))) [
          | inr other ↦ absurd (ground arith)
          | inl same ↦
              elim (Option-cases
                (find (is_accepted_turn room request_id actor.id) s.conversation_tasks)) [
                  | inl gone ↦ absurd (ground arith)
                  | inr (task, found) ↦ (ground arith, ground arith, (task, found, ground arith))
                ]
        ]

    -- A success answers the request for the next time.
    reserve_or_repeat-Answered :
        (room request_id : Uuid) (request : Value) (catalog : Option CatalogQuery)
        (gateway : Option Gateway) (until now : Instant) (s t : ConversationWorld)
        (o : ConversationReservation)
        → reserve_or_repeat crates policy actor room request_id request catalog gateway until now s
          ≡ ok (o, t)
        → Answered room request_id actor.id (fingerprint crates policy actor request) o.accepted t
    unfolding reserve_or_repeat prior_request repeat_turn
    reserve_or_repeat-Answered room request_id request catalog gateway until now s t o h =
        elim (Option-cases (find (is_request room request_id) s.rooms.room_requests)) [
          | inl new ↦
              (Hoare-reserve_current crates policy actor room request_id request catalog gateway
                  until now).run
                s o t tt (ground arith)
          | inr (row, old) ↦
              let (same, silent, accepted) =
                repeat_turn-Answered room request_id request row.request_fingerprint s t o
                  (ground arith) in
              let own : value_eq row.request_fingerprint (fingerprint crates policy actor request)
                  ≡ true =
                ground arith in
              rw same ((row, old, own), accepted)
        ]

    -- A request that was answered is answered again, and changes nothing.
    reserve_or_repeat-again :
        (room request_id : Uuid) (request : Value) (catalog : Option CatalogQuery)
        (gateway : Option Gateway) (until now : Instant) (s : ConversationWorld) (accepted : Value)
        → Answered room request_id actor.id (fingerprint crates policy actor request) accepted s
        → reserve_or_repeat crates policy actor room request_id request catalog gateway until now s
          ≡ ok (record { accepted = accepted; prompt = none }, s)
    unfolding reserve_or_repeat prior_request repeat_turn
    reserve_or_repeat-again room request_id request catalog gateway until now s accepted
          ((row, old, own), (task, found, was)) =
        ground (arith, old, own, found, was)

    -- The steps of a reservation that pass, up to its repeat.
    reserve_inner-again :
        (room request_id : Uuid) (value : Value) (requested : Instant)
        (catalog : Option CatalogQuery) (gateway : Option Gateway) (moments : Moments)
        (admitted : Value) (until : Instant) (s : ConversationWorld) (accepted : Value)
        → uuid_field crates.env value "roomId" ≡ ok room
        → uuid_field crates.env value "requestId" ≡ ok request_id
        → admit crates policy actor value requested moments.entered_at ≡ ok admitted
        → value ≡ admitted
        → authorize_conversation_turn crates actor requested moments.now (minimum crates policy)
          ≡ ok until
        → Answered room request_id actor.id (fingerprint crates policy actor value) accepted s
        → reserve_inner crates policy actor value requested catalog gateway moments s
          ≡ ok (record { accepted = accepted; prompt = none }, s)
    unfolding reserve_inner reserve_in_transaction still_authorized
    reserve_inner-again room request_id value requested catalog gateway moments admitted until s
          accepted is_room is_id is_admitted same allowed answered =
        let again =
          reserve_or_repeat-again room request_id value catalog gateway until moments.now s accepted
            answered in
        rw (is_admitted, ← same, is_room, is_id, allowed, again) refl

    admit-same :
        (value request : Value) (requested now : Instant)
        → admit crates policy actor value requested now ≡ ok request
        → value ≡ request
    unfolding admit
    admit-same value request requested now h =
        elim (Result-cases (
          authorize_conversation_turn crates actor requested now
            (seconds (policy.turn_deadline_seconds + policy.interrupt_grace_seconds)))) [
              | inl (until, e) ↦
                  (validate_turn_request-ok crates.is_valid
                    (crates.env.uuid_to_string codex_agent_id) value request (ground arith)).0
              | inr (error, e) ↦ absurd (ground arith)
            ]

    -- What a reservation comes down to.
    abbrev Parts :
        Value
        → Option CatalogQuery
        → Option Gateway
        → Instant
        → ConversationWorld
        → ConversationReservation
        → ConversationWorld
        → Type 0
    Parts value catalog gateway now s o t =
        (room : Uuid) × (id : Uuid) × (until : Instant) × (uuid_field crates.env value "roomId"
          ≡ ok room)
        × (uuid_field crates.env value "requestId" ≡ ok id)
        × (reserve_or_repeat crates policy actor room id value catalog gateway until now s
            ≡ ok (o, t))

    transaction-Parts :
        (value : Value) (requested : Instant) (catalog : Option CatalogQuery)
        (gateway : Option Gateway) (moments : Moments) (s t : ConversationWorld)
        (o : ConversationReservation)
        → reserve_in_transaction crates policy actor value requested catalog gateway moments s
          ≡ ok (o, t)
        → Parts value catalog gateway moments.now s o t
    unfolding reserve_in_transaction
    transaction-Parts value requested catalog gateway moments s t o h =
        let confirm = λ (until : Instant) (outcome : ConversationReservation).
          lift (still_authorized crates policy actor until moments.committed_at outcome.prompt)
          >>= λ _. pure outcome in
        let reserve = λ (room id : Uuid) (until : Instant).
          reserve_or_repeat crates policy actor room id value catalog gateway until moments.now in
        let allow = lift (
          authorize_conversation_turn crates actor requested moments.now (minimum crates policy)) in
        let (room, s1, first, rest1) =
          >>=-eq-ok (lift (uuid_field crates.env value "roomId"))
            (λ room. lift (uuid_field crates.env value "requestId") >>= λ id.
              allow >>= λ until. reserve room id until >>= confirm until)
            s h in
        let (id, s2, second, rest2) =
          >>=-eq-ok (lift (uuid_field crates.env value "requestId"))
            (λ id. allow >>= λ until. reserve room id until >>= confirm until) s1 rest1 in
        let (until, s3, third, rest3) =
          >>=-eq-ok allow (λ until. reserve room id until >>= confirm until) s2 rest2 in
        let (outcome, s4, fourth, rest4) =
          >>=-eq-ok (reserve room id until) (confirm until) s3 rest3 in
        let (_, s5, fifth, last) =
          >>=-eq-ok
            (lift (still_authorized crates policy actor until moments.committed_at outcome.prompt))
            (λ _. pure outcome) s4 rest4 in
        let (is_room, same1) = lift_ok _ s s1 room first in
        let (is_id, same2) = lift_ok _ s1 s2 id second in
        let (_, same3) = lift_ok _ s2 s3 until third in
        let (_, same5) = lift_ok _ s4 s5 _ fifth in
        (
          room,
          id,
          until,
          is_room,
          is_id,
          reserved room id until s3 s4 s5 outcome fourth (same3 ∙ same2 ∙ same1) same5 last,
        )
      where
        reserved :
            (room id : Uuid) (until : Instant) (s3 s4 s5 : ConversationWorld)
            (outcome : ConversationReservation)
            → reserve_or_repeat crates policy actor room id value catalog gateway until moments.now
                s3
              ≡ ok (outcome, s4)
            → s3 ≡ s
            → s5 ≡ s4
            → pure {E = ConversationError} outcome s5 ≡ ok (o, t)
            → reserve_or_repeat crates policy actor room id value catalog gateway until moments.now
                s
              ≡ ok (o, t)
        reserved room id until s3 s4 s5 outcome h before after last =
            subst
              (λ u.
                reserve_or_repeat crates policy actor room id value catalog gateway until
                  moments.now u
                ≡ ok (o, t))
              before (cc (h, after, last))

    reserve-Parts :
        (value : Value) (requested : Instant) (catalog : Option CatalogQuery)
        (gateway : Option Gateway) (moments : Moments) (s t : ConversationWorld)
        (o : ConversationReservation)
        → reserve_inner crates policy actor value requested catalog gateway moments s ≡ ok (o, t)
        → Parts value catalog gateway moments.now s o t
    unfolding reserve_inner
    reserve-Parts value requested catalog gateway moments s t o h =
        let admitted = admit crates policy actor value requested moments.entered_at in
        let next = λ (request : Value).
          reserve_in_transaction crates policy actor request requested catalog gateway moments in
        let (request, s1, first, rest) = >>=-eq-ok (lift admitted) next s h in
        let (is_request, same) = lift_ok admitted s s1 request first in
        let named = admit-same value request requested moments.entered_at is_request in
        transaction-Parts value requested catalog gateway moments s t o (
          subst (λ u. next value u ≡ ok (o, t)) same
            (subst (λ v. next v s1 ≡ ok (o, t)) (sym named) rest))

-- In every later state that still has the request and its turn, whatever has become of the turn, the
-- same request of the same actor, while it is admitted and authorized, under whatever policy, catalog
-- and presence, changes nothing: it is answered with the turn that was accepted the first time, and
-- without a message to publish.
pub reserve_retry :
    (crates : Crates) (policy policy' : ConversationPolicy) (actor : Actor) (request : Value)
    (requested requested' : Instant) (catalog catalog' : Option CatalogQuery)
    (gateway gateway' : Option Gateway) (moments moments' : Moments)
    (w w' later : ConversationWorld) (outcome : ConversationReservation) (room request_id : Uuid)
    (admitted : Value) (until : Instant)
    → reserve_inner crates policy actor request requested catalog gateway moments w
      ≡ ok (outcome, w')
    → uuid_field crates.env request "roomId" ≡ ok room
    → uuid_field crates.env request "requestId" ≡ ok request_id
    → find (is_request room request_id) later.rooms.room_requests
      ≡ find (is_request room request_id) w'.rooms.room_requests
    → answer_in room request_id actor.id later ≡ answer_in room request_id actor.id w'
    → admit crates policy' actor request requested' moments'.entered_at ≡ ok admitted
    → authorize_conversation_turn crates actor requested' moments'.now (minimum crates policy')
      ≡ ok until
    → reserve_inner crates policy' actor request requested' catalog' gateway' moments' later
      ≡ ok (record { accepted = outcome.accepted; prompt = none }, later)
reserve_retry crates policy policy' actor request requested requested' catalog catalog' gateway
      gateway' moments moments' w w' later outcome room request_id admitted until h is_room is_id
      same_request same_answer is_admitted allowed =
    let (room', id', until', is_room', is_id', first) =
      reserve-Parts crates policy actor request requested catalog gateway moments w w' outcome h in
    let one_room : room' ≡ room = cc (is_room, is_room') in
    let one_id : id' ≡ request_id = cc (is_id, is_id') in
    let ((row, old, own), accepted) =
      subst₂
        (λ r q. Answered r q actor.id (fingerprint crates policy actor request) outcome.accepted w')
        one_room one_id
        (reserve_or_repeat-Answered crates policy actor room' id' request catalog gateway until'
          moments.now w w' outcome first) in
    reserve_inner-again crates policy' actor room request_id request requested' catalog' gateway'
      moments' admitted until later outcome.accepted is_room is_id is_admitted
      (admit-same crates policy' actor request admitted requested' moments'.entered_at is_admitted)
      allowed
      (
        (row, same_request ∙ old, own),
        kept_answer room request_id actor.id w' later outcome.accepted same_answer accepted,
      )

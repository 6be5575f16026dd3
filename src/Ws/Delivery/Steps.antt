-- ===== src/Ws/Delivery/Steps.antt =====
-- src/ws.rs: a session under any interleaving of requests of the room with what the broadcast channel
-- delivers, which may lose, delay and repeat events.
use native.Mathlib.Nat.{zero-add}
use thought_khoral_room_gate.Prelude.{
  ℕ, zero, suc, ◌+◌, ◌-◌, ◌≤◌, ◌≡◌, refl, sym, ◌∙◌, ap, subst, subst₂, append_assoc, append-nil,
  some, List, [], ◌∷◌, ◌++◌, ok, ok_inj, arith, length, length-append, drop, take, keep,
  keep-append, ltb, ◌==◌, ==→eq, unwrap_or, Bool-cases, inl, inr, All-append, Has,
}
use thought_khoral_room_gate.Env.{Uuid, Env, EnvLaws}
use thought_khoral_room_gate.Protocol.{Join, RpcError, ValidatedRequest}
use thought_khoral_room_gate.Store.{RoomEvent, World}
use thought_khoral_room_gate.Store.Events.{in_room, room_log, events_after}
use thought_khoral_room_gate.Store.Events.Log.{Counts, IsWellFormed}
use thought_khoral_room_gate.Store.Events.Later.{Later}
use thought_khoral_room_gate.Store.Events.Replay.{events_after-drop}
use thought_khoral_room_gate.Rooms.Mentions.{Unicode}
use thought_khoral_room_gate.Rooms.Process.History.{Run, Run-IsWellFormed, process-IsWellFormed}
use thought_khoral_room_gate.Rooms.Process.{Surroundings, ProcessedRequest, process}
use thought_khoral_room_gate.Auth.{Actor}
use thought_khoral_room_gate.Ws.Delivery.Repeated.{AreStored, AreStored-grown, duplicate-AreStored}
use thought_khoral_room_gate.Ws.{
  Session, send_repeat, is_visible, send_if_visible, receive_event, receive_lagged, last_or,
  join_room, is_elsewhere,
}
use thought_khoral_room_gate.Ws.Delivery.{
  Delivered, Counts-drop, drop-append, last_or-Counts, caught_up, replay-eq, replay-Delivered,
  next-Delivered,
}

-- The states of the database and of one session after its join. The channel may deliver any event
-- of the room's log at any time. A `requested` step is a request of the session itself.
pub data Serves (env : Env) (unicode : Unicode) (actor_id room_id : Uuid) (base : World)
    (opened : Session) : World → Session → Type 0 where
  joined : Serves env unicode actor_id room_id base opened base opened
  stored :
      {w w' : World} {session : Session}
      → Serves env unicode actor_id room_id base opened w session
      → Run env unicode w w'
      → Serves env unicode actor_id room_id base opened w' session
  received :
      {w : World} {session session' : Session} (event : RoomEvent) (front back : List RoomEvent)
      → Serves env unicode actor_id room_id base opened w session
      → room_log room_id w.room_events ≡ front ++ event ∷ back
      → receive_event env actor_id w event session ≡ ok session'
      → Serves env unicode actor_id room_id base opened w session'
  lagged :
      {w : World} {session session' : Session}
      → Serves env unicode actor_id room_id base opened w session
      → receive_lagged env actor_id w session ≡ ok session'
      → Serves env unicode actor_id room_id base opened w session'
  requested :
      {w w' : World} {session : Session} (around : Surroundings) (actor : Actor)
      (request : ValidatedRequest) (p : ProcessedRequest)
      → Serves env unicode actor_id room_id base opened w session
      → process env unicode around actor request w ≡ ok (p, w')
      → Serves env unicode actor_id room_id base opened w' (send_repeat p session)

module _ (env : Env) (unicode : Unicode) (actor_id room_id : Uuid) (start : ℕ) where
  abbrev IsDelivered : World → Session → Type 0
  IsDelivered = Delivered env actor_id room_id start

  grown-Delivered :
      (w w' : World) (session : Session)
      → Later w w'
      → IsDelivered w session
      → IsDelivered w' session
  grown-Delivered w w' session later d =
      let more = room_log room_id later.more in
      let grown : room_log room_id w'.room_events ≡ room_log room_id w.room_events ++ more =
        ap (room_log room_id) later.log ∙ keep-append (in_room room_id) w.room_events later.more in
      record {
        passed = d.passed;
        ahead = d.ahead ++ more;
        joined = d.joined;
        log =
            ap (drop start) grown
            ∙ drop-append start (room_log room_id w.room_events) more d.within
            ∙ ap (λ xs. xs ++ more) d.log
            ∙ append_assoc d.passed d.ahead more;
        place = d.place;
        within =
            subst (λ xs. start ≤ length xs) (sym grown)
              (omega (arith, d.within, length-append (room_log room_id w.room_events) more));
        sent = d.sent;
        repeats =
            subst (λ log. AreStored log session.repeated) (sym later.log)
              (AreStored-grown w.room_events later.more session.repeated d.repeats);
      }

  send_repeat-Delivered :
      (around : Surroundings) (actor : Actor) (request : ValidatedRequest) (w : World)
      (session : Session) (p : ProcessedRequest) (w' : World)
      → Later w w'
      → process env unicode around actor request w ≡ ok (p, w')
      → IsDelivered w session
      → IsDelivered w' (send_repeat p session)
  send_repeat-Delivered around actor request w session p w' later h d =
      let d' = grown-Delivered w w' session later d in
      record {
        passed = d'.passed;
        ahead = d'.ahead;
        joined = d'.joined;
        log = d'.log;
        place = d'.place;
        within = d'.within;
        sent = d'.sent;
        repeats = elim (Bool-cases p.duplicate) [
          | inr first ↦
              let same : session.repeated ≡ (send_repeat p session).repeated =
                ground (arith, first) in
              subst (AreStored w'.room_events) same d'.repeats
          | inl again ↦
              let same : session.repeated ++ p.events ≡ (send_repeat p session).repeated =
                ground (arith, again) in
              let stored =
                AreStored-grown w.room_events later.more p.events
                  (duplicate-AreStored env unicode around actor request w w' p h again) in
              subst (AreStored w'.room_events) same (
                All-append (λ event. Has event w'.room_events) session.repeated p.events d'.repeats
                  (subst (λ log. AreStored log p.events) (sym later.log) stored))
        ];
      }

  module _ (w : World) (session : Session) (wf : IsWellFormed env w)
      (d : IsDelivered w session) where
    lagged-eq :
        receive_lagged env actor_id w session
        ≡ ok (caught_up env actor_id room_id start w wf session d)
    unfolding receive_lagged
    lagged-eq = ground (arith, d.joined, replay-eq env actor_id room_id start w wf session d)

    received-Delivered :
        (event : RoomEvent) (front back : List RoomEvent) (session' : Session)
        → room_log room_id w.room_events ≡ front ++ event ∷ back
        → receive_event env actor_id w event session ≡ ok session'
        → IsDelivered w session'
    unfolding receive_event
    received-Delivered event front back session' found h =
        elim (Bool-cases (event.sequence == session.last_sequence + 1)) [
          | inl next ↦
              let is : send_if_visible env actor_id event session ≡ session' =
                ok_inj {E = Session} (ground (arith, h, next)) in
              subst (IsDelivered w) is (
                next-Delivered env actor_id room_id start w wf session d event front back found
                  (==→eq event.sequence (session.last_sequence + 1) next))
          | inr not_next ↦ elim (Bool-cases (ltb (session.last_sequence + 1) event.sequence)) [
            | inl gap ↦
                let is : caught_up env actor_id room_id start w wf session d ≡ session' =
                  ok_inj {E = Session} (
                    sym (replay-eq env actor_id room_id start w wf session d)
                    ∙ ground (arith, h, not_next, gap, d.joined)) in
                subst (IsDelivered w) is
                  (replay-Delivered env actor_id room_id start w wf session d)
            | inr old ↦
                let is : session ≡ session' =
                  ok_inj {E = Session} (ground (arith, h, not_next, old)) in
                subst (IsDelivered w) is d
          ]
        ]

-- Where a join starts.
abbrev pub start_of : Join → ℕ
start_of request = unwrap_or request.after_sequence 0

joined-Delivered :
    (env : Env) (actor_id : Uuid) (w : World) (request : Join) (before session : Session)
    → IsWellFormed env w
    → start_of request ≤ length (room_log request.room_id w.room_events)
    → join_room env actor_id w request before ≡ ok session
    → Delivered env actor_id request.room_id (start_of request) w session
unfolding join_room
joined-Delivered env actor_id w request before session wf within h =
    elim (Bool-cases (is_elsewhere before.joined_room request.room_id)) [
      | inl away ↦ ground (arith, h, away)
      | inr here ↦
          let is : joins_as ≡ session = ok_inj {E = RpcError} (ground (arith, h, here)) in
          subst (Delivered env actor_id request.room_id (start_of request) w) is at_join
    ]
  where
    events : List RoomEvent
    events = events_after w.room_events request.room_id (start_of request)

    replayed : events ≡ drop (start_of request) (room_log request.room_id w.room_events)
    replayed = events_after-drop {env = env} w request.room_id (start_of request) wf

    joins_as : Session
    joins_as = record {
      joined_room = some request.room_id;
      last_sequence = last_or (start_of request) events;
      sent = keep (is_visible env actor_id) events;
      repeated = [];
    }

    at_join : Delivered env actor_id request.room_id (start_of request) w joins_as
    at_join = record {
      passed = events;
      ahead = [];
      joined = refl;
      log = sym replayed ∙ sym (append-nil events);
      place = last_or-Counts (start_of request) events (
          subst₂ Counts (zero-add (start_of request)) (sym replayed) (
            Counts-drop (start_of request) 0 (room_log request.room_id w.room_events) within
              (wf.counts request.room_id)));
      within = within;
      sent = refl;
      repeats = tt;
    }

Serves-Delivered :
    (env : Env) (unicode : Unicode) (actor_id room_id : Uuid) (start : ℕ) {base : World}
    {opened : Session} {w : World} {session : Session}
    → EnvLaws env
    → IsWellFormed env base
    → Delivered env actor_id room_id start base opened
    → Serves env unicode actor_id room_id base opened w session
    → IsWellFormed env w × Delivered env actor_id room_id start w session
Serves-Delivered env unicode actor_id room_id start laws wf d joined = (wf, d)
Serves-Delivered env unicode actor_id room_id start laws wf d
      (stored {w = v} {w' = v'} {session = s} before run) =
    let (wf', d') = Serves-Delivered env unicode actor_id room_id start laws wf d before in
    let (wf'', later) = Run-IsWellFormed env unicode laws wf' run in
    (wf'', grown-Delivered env unicode actor_id room_id start v v' s later d')
Serves-Delivered env unicode actor_id room_id start laws wf d
      (received {w = v} {session = s} {session' = s'} event front back before found h) =
    let (wf', d') = Serves-Delivered env unicode actor_id room_id start laws wf d before in
    (
      wf',
      received-Delivered env unicode actor_id room_id start v s wf' d' event front back s' found h,
    )
Serves-Delivered env unicode actor_id room_id start laws wf d
      (lagged {w = v} {session = s} {session' = s'} before h) =
    let (wf', d') = Serves-Delivered env unicode actor_id room_id start laws wf d before in
    let is : caught_up env actor_id room_id start v wf' s d' ≡ s' =
      ok_inj {E = Session} (sym (lagged-eq env unicode actor_id room_id start v s wf' d') ∙ h) in
    (
      wf',
      subst (Delivered env actor_id room_id start v) is
          (replay-Delivered env actor_id room_id start v wf' s d'),
    )
Serves-Delivered env unicode actor_id room_id start laws wf d
      (requested {w = v} {w' = v'} {session = s} around actor request p before h) =
    let (wf', d') = Serves-Delivered env unicode actor_id room_id start laws wf d before in
    let (wf'', later) = process-IsWellFormed env unicode laws around actor request v v' p wf' h in
    (
      wf'',
      send_repeat-Delivered env unicode actor_id room_id start around actor request v s p v' later h
          d',
    )

length-drop : (k : ℕ) (xs : List RoomEvent) → k ≤ length xs → k + length (drop k xs) ≡ length xs
length-drop zero xs le = zero-add (length xs)
length-drop (suc k) [] le = absurd (omega (arith, le))
length-drop (suc k) (x ∷ xs) le = omega (arith, length-drop k xs (omega (arith, le)))

take-length-append : (xs ys : List RoomEvent) (n : ℕ) → n ≡ length xs → take n (xs ++ ys) ≡ xs
take-length-append [] ys n e = ap (λ m. take m ys) e
take-length-append (x ∷ xs) ys n e =
    ap (λ m. take m (x ∷ (xs ++ ys))) e
    ∙ ap (λ zs. x ∷ zs) (take-length-append xs ys (length xs) refl)

-- After a join from a sequence that the room has reached, whatever requests are processed in any
-- room, the session's own among them, and whatever events of the room the channel delivers, in any
-- order, repeated, late or never: by the join, the broadcasts and the replays, the session has sent
-- exactly the events of the room's log from there up to the last sequence that it has passed, in order
-- and each once, but those that the actor may not see. Besides, in answer to its requests that repeat
-- an earlier one, it has sent events again, and these are all rows of the log. And it is never closed
-- by a gap: a replay at any time succeeds, and takes the session to the end of the log.
pub delivery_in_order :
    (env : Env) (unicode : Unicode) (actor_id : Uuid) (request : Join) (base w : World)
    (before opened session : Session)
    → EnvLaws env
    → IsWellFormed env base
    → start_of request ≤ length (room_log request.room_id base.room_events)
    → join_room env actor_id base request before ≡ ok opened
    → Serves env unicode actor_id request.room_id base opened w session
    → (session.sent
        ≡ keep (is_visible env actor_id) (
            take
              (session.last_sequence - start_of request)
              (drop (start_of request) (room_log request.room_id w.room_events))))
      × AreStored w.room_events session.repeated
      × ((after : Session) × (receive_lagged env actor_id w session ≡ ok after)
          × (after.last_sequence ≡ length (room_log request.room_id w.room_events)))
delivery_in_order env unicode actor_id request base w before opened session laws wf within h
      serves =
    let start = start_of request in
    let (wf', d) =
      Serves-Delivered env unicode actor_id request.room_id start laws wf
        (joined-Delivered env actor_id base request before opened wf within h) serves in
    let passed : session.last_sequence - start ≡ length d.passed = omega (arith, d.place) in
    (
      d.sent
          ∙ ap (keep (is_visible env actor_id)) (
              sym (
                ap (take (session.last_sequence - start)) d.log
                ∙ take-length-append d.passed d.ahead (session.last_sequence - start) passed)),
      d.repeats,
      (
        caught_up env actor_id request.room_id start w wf' session d,
        lagged-eq env unicode actor_id request.room_id start w session wf' d,
        omega (
          arith,
          d.place,
          ap length d.log,
          length-append d.passed d.ahead,
          length-drop start (room_log request.room_id w.room_events) d.within,
        ),
      ),
    )

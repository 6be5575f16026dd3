-- ===== src/Ws/Delivery.antt =====
-- src/ws.rs: what a socket has sent, and what each of its steps adds.
pub mod Repeated
pub mod Steps
use native.Mathlib.Nat.{zero-add}
use thought_khoral_room_gate.Prelude.{
  ℕ, zero, suc, ◌+◌, ◌-◌, ◌≤◌, ◌<◌, ◌≡◌, refl, sym, ◌∙◌, ap, ap₂, subst, subst₂, append_assoc,
  append-nil, Bool, true, false, Option, none, some, List, [], ◌∷◌, ◌++◌, Result, ok, err, ok_inj,
  arith, length, length-append, drop, keep, keep-append, ltb, leb, ◌==◌, unwrap_or, if◌then◌else◌,
  Bool-cases, inl, inr, drop-length-append,
}
use thought_khoral_room_gate.Env.{Uuid, Env, EnvLaws}
use thought_khoral_room_gate.Protocol.{RpcError, Join}
use thought_khoral_room_gate.Store.{RoomEvent, World}
use thought_khoral_room_gate.Store.Events.{room_log, events_after}
use thought_khoral_room_gate.Store.Events.Log.{Counts, IsWellFormed}
use thought_khoral_room_gate.Store.Events.Replay.{events_after-drop}
use thought_khoral_room_gate.Ws.Delivery.Repeated.{AreStored}
use thought_khoral_room_gate.Ws.{
  Session, is_visible, send_if_visible, send_in_order, replay_in_order, receive_event,
  receive_lagged, last_or, join_room,
}

-- The log of the room from event `start` on is what the session has passed and what is ahead of it;
-- of what it passed, it sent what the actor may see. What it repeated are rows of the log.
pub record Delivered (env : Env) (actor_id room_id : Uuid) (start : ℕ) (w : World)
    (session : Session) : Type 0 where
  pub passed : List RoomEvent
  pub ahead : List RoomEvent
  pub joined : session.joined_room ≡ some room_id
  pub log : drop start (room_log room_id w.room_events) ≡ passed ++ ahead
  pub place : session.last_sequence ≡ start + length passed
  pub within : start ≤ length (room_log room_id w.room_events)
  pub sent : session.sent ≡ keep (is_visible env actor_id) passed
  pub repeats : AreStored w.room_events session.repeated

pub Counts-drop :
    (k n : ℕ) (xs : List RoomEvent) → k ≤ length xs → Counts n xs → Counts (n + k) (drop k xs)
Counts-drop zero n xs le h = subst (λ m. Counts m xs) (omega arith) h
Counts-drop (suc k) n [] le h = omega (arith, le)
Counts-drop (suc k) n (x ∷ xs) le h =
    subst (λ m. Counts m (drop k xs)) (omega arith)
      (Counts-drop k (suc n) xs (omega (arith, le)) h.1)

Counts-right : (n : ℕ) (xs ys : List RoomEvent) → Counts n (xs ++ ys) → Counts (n + length xs) ys
Counts-right n [] ys h = subst (λ m. Counts m ys) (omega arith) h
Counts-right n (x ∷ xs) ys h =
    subst (λ m. Counts m ys) (omega arith) (Counts-right (suc n) xs ys h.1)

drop-nil : (n : ℕ) → drop {A = RoomEvent} n [] ≡ []
drop-nil zero = refl
drop-nil (suc n) = refl

drop-drop : (j k : ℕ) (xs : List RoomEvent) → drop (j + k) xs ≡ drop k (drop j xs)
drop-drop zero k xs = ap (λ m. drop m xs) (omega arith)
drop-drop (suc j) k [] = drop-nil (suc j + k) ∙ sym (drop-nil k)
drop-drop (suc j) k (x ∷ xs) =
    let step : suc j + k ≡ suc (j + k) = omega arith in
    ap (λ m. drop m (x ∷ xs)) step ∙ drop-drop j k xs

-- Events that continue the sequence are all sent.
send_in_order_lem :
    (env : Env) (actor_id : Uuid) (events : List RoomEvent) (session : Session)
    → Counts session.last_sequence events
    → send_in_order env actor_id events session
      ≡ ok (record session {
        last_sequence = session.last_sequence + length events;
        sent = session.sent ++ keep (is_visible env actor_id) events;
      })
unfolding send_in_order
send_in_order_lem env actor_id [] session h = ground (arith, append-nil session.sent)
send_in_order_lem env actor_id (e ∷ es) session h =
    let rest =
      send_in_order_lem env actor_id es (send_if_visible env actor_id e session)
        (subst (λ m. Counts m es) (sym h.0) h.1) in
    elim (Bool-cases (is_visible env actor_id e)) [
      | inl seen ↦ ground (
        arith,
        h.0,
        rest,
        seen,
        append_assoc session.sent (e ∷ []) (keep (is_visible env actor_id) es),
      )
      | inr hidden ↦ ground (arith, h.0, rest, hidden)
    ]

Counts-at :
    (n : ℕ) (front back : List RoomEvent) (event : RoomEvent)
    → Counts n (front ++ event ∷ back)
    → event.sequence ≡ suc (n + length front)
Counts-at n [] back event h = omega (arith, h.0)
Counts-at n (x ∷ front) back event h = omega (arith, Counts-at (suc n) front back event h.1)

pub drop-append :
    (k : ℕ) (xs ys : List RoomEvent) → k ≤ length xs → drop k (xs ++ ys) ≡ drop k xs ++ ys
drop-append zero xs ys le = refl
drop-append (suc k) [] ys le = absurd (omega (arith, le))
drop-append (suc k) (x ∷ xs) ys le = drop-append k xs ys (omega (arith, le))

pub last_or-Counts : (n : ℕ) (xs : List RoomEvent) → Counts n xs → last_or n xs ≡ n + length xs
last_or-Counts n [] h = omega arith
last_or-Counts n (x ∷ xs) h =
    ap (λ m. last_or m xs) h.0 ∙ last_or-Counts (suc n) xs h.1 ∙ (omega arith)

module _ (env : Env) (actor_id room_id : Uuid) (start : ℕ) (w : World)
    (wf : IsWellFormed env w) where
  abbrev log_of : List RoomEvent
  log_of = room_log room_id w.room_events

  module _ (session : Session) (d : Delivered env actor_id room_id start w session) where
    ahead_is : drop session.last_sequence log_of ≡ d.ahead
    ahead_is =
        ap (λ m. drop m log_of) d.place
        ∙ drop-drop start (length d.passed) log_of
        ∙ ap (drop (length d.passed)) d.log
        ∙ drop-length-append d.passed d.ahead

    ahead-Counts : Counts session.last_sequence d.ahead
    ahead-Counts =
        subst (λ m. Counts m d.ahead) (sym d.place)
          (Counts-right start d.passed d.ahead (
            subst₂ Counts (zero-add start) d.log
              (Counts-drop start 0 log_of d.within (wf.counts room_id))))

    abbrev pub caught_up : Session
    caught_up = record session {
      last_sequence = session.last_sequence + length d.ahead;
      sent = session.sent ++ keep (is_visible env actor_id) d.ahead;
    }

    -- A replay sends all that is ahead.
    pub replay-eq : replay_in_order env actor_id w room_id session ≡ ok caught_up
    unfolding replay_in_order
    replay-eq =
        ap (λ events. send_in_order env actor_id events session)
          (events_after-drop {env = env} w room_id session.last_sequence wf ∙ ahead_is)
        ∙ send_in_order_lem env actor_id d.ahead session ahead-Counts

    pub replay-Delivered : Delivered env actor_id room_id start w caught_up
    replay-Delivered = record {
      passed = d.passed ++ d.ahead;
      ahead = [];
      joined = d.joined;
      log = d.log ∙ sym (append-nil (d.passed ++ d.ahead));
      place = omega (arith, d.place, length-append d.passed d.ahead);
      within = d.within;
      sent =
          ap (λ xs. xs ++ keep (is_visible env actor_id) d.ahead) d.sent
          ∙ sym (keep-append (is_visible env actor_id) d.passed d.ahead);
      repeats = d.repeats;
    }

    -- The event that comes next is the first that is ahead.
    pub next-Delivered :
        (event : RoomEvent) (front back : List RoomEvent)
        → log_of ≡ front ++ event ∷ back
        → event.sequence ≡ session.last_sequence + 1
        → Delivered env actor_id room_id start w (send_if_visible env actor_id event session)
    next-Delivered event front back found next =
        let at : session.last_sequence ≡ length front = omega (
          arith,
          next,
          Counts-at 0 front back event (subst (Counts 0) found (wf.counts room_id)),
        ) in
        let head : d.ahead ≡ event ∷ back =
          sym ahead_is
          ∙ ap₂ (λ m xs. drop m xs) at found
          ∙ drop-length-append front (event ∷ back) in
        record {
          passed = d.passed ++ event ∷ [];
          ahead = back;
          joined = d.joined;
          log =
              d.log
              ∙ ap (λ xs. d.passed ++ xs) head
              ∙ sym (append_assoc d.passed (event ∷ []) back);
          place = omega (arith, next, d.place, length-append d.passed (event ∷ []));
          within = d.within;
          sent = kept;
          repeats = d.repeats;
        }
      where
        kept :
            (send_if_visible env actor_id event session).sent
            ≡ keep (is_visible env actor_id) (d.passed ++ event ∷ [])
        kept = ground (
          arith,
          d.sent,
          append-nil (keep (is_visible env actor_id) d.passed),
          keep-append (is_visible env actor_id) d.passed (event ∷ []),
        )

-- ===== src/Store/Events/Log.antt =====
-- The log of a room holds the sequences 1, 2, …, n in the order of insertion, and an append extends
-- it by one event.
use thought_khoral_room_gate.Prelude.{
  ℕ, suc, ◌+◌, ◌≤◌, ◌<◌, ◌≡◌, refl, subst, append-nil, Bool, true, false, List, [], ◌∷◌, ◌++◌, ok,
  arith, length, keep-append, any, any-append, ◌==◌, Bool-cases, inl, inr, if◌then◌else◌,
}
use thought_khoral_room_gate.Env.{Uuid, Env, EnvLaws}
use thought_khoral_room_gate.Protocol.Validity.{is_valid_room_event}
use thought_khoral_room_gate.Store.{NewEvent, RoomEvent, World, max_bigint}
use thought_khoral_room_gate.Store.Events.{
  in_room, room_log, max_sequence, same_key, is_storable, stored_event, append_event_in_transaction,
}

-- The sequences are n + 1, n + 2, ….
abbrev pub Counts : ℕ → List RoomEvent → Type 0
Counts n [] = Unit {0}
Counts n (event ∷ events) = (event.sequence ≡ suc n) × Counts (suc n) events

pub Counts-append :
    (n : ℕ) (xs ys : List RoomEvent) → Counts n xs → Counts (n + length xs) ys → Counts n (xs ++ ys)
Counts-append n [] ys h k = subst (λ m. Counts m ys) (omega arith) k
Counts-append n (x ∷ xs) ys h k =
    (h.0, Counts-append (suc n) xs ys h.1 (subst (λ m. Counts m ys) (omega arith) k))

-- Over such a log the greatest sequence is its length.
pub max_sequence-Counts :
    (n : ℕ) (x : RoomEvent) (xs : List RoomEvent)
    → Counts n (x ∷ xs)
    → max_sequence (x ∷ xs) ≡ n + length (x ∷ xs)
unfolding max_sequence
max_sequence-Counts n x [] h = ground arith
max_sequence-Counts n x (y ∷ ys) h = ground (arith, max_sequence-Counts (suc n) y ys h.1)

pub max_sequence-length : (xs : List RoomEvent) → Counts 0 xs → max_sequence xs ≡ length xs
unfolding max_sequence
max_sequence-length [] h = refl
max_sequence-length (x ∷ xs) h = omega (arith, max_sequence-Counts 0 x xs h)

abbrev pub has_id : Uuid → List RoomEvent → Bool
has_id id = any (λ event. event.event_id == id)

-- Every room's sequences count from 1, and no identifier that is still to be drawn is in use.
pub record IsWellFormed (env : Env) (w : World) : Type 0 where
  pub counts : (room_id : Uuid) → Counts 0 (room_log room_id w.room_events)
  pub unused : (i : ℕ) → w.drawn ≤ i → has_id (env.new_v4 i) w.room_events ≡ false

-- No row of the room has a sequence beyond the count.
no_clash :
    (new : RoomEvent) (n : ℕ) (events : List RoomEvent)
    → has_id new.event_id events ≡ false
    → Counts n (room_log new.room_id events)
    → n + length (room_log new.room_id events) < new.sequence
    → any (same_key new) events ≡ false
no_clash new n [] fresh counts above = refl
no_clash new n (event ∷ events) fresh counts above =
    elim (Bool-cases (event.room_id == new.room_id)) [
      | inl here ↦
          let h = rw here at counts in
          let a : suc n + length (room_log new.room_id events) < new.sequence =
            (let b = rw here at above in omega arith) in
          ground (arith, no_clash new (suc n) events (ground arith) h.1 a)
      | inr elsewhere ↦ ground (
        arith,
        no_clash new n events (ground arith) (rw elsewhere at counts) (rw elsewhere at above),
      )
    ]

module _ (env : Env) (event : NewEvent) (w : World) where
  -- The row that an append to this state writes, and the state that it leaves.
  abbrev pub next_event : RoomEvent
  next_event =
      stored_event env (env.new_v4 w.drawn) (length (room_log event.room_id w.room_events) + 1)
        event

  abbrev pub appended : World
  appended = record w {
    db = record w.db { room_events = w.room_events ++ next_event ∷ [] };
    drawn = suc w.drawn;
  }

  module _ (wf : IsWellFormed env w) where
    next_is_new : any (same_key next_event) w.room_events ≡ false
    next_is_new =
        no_clash next_event 0 w.room_events (wf.unused w.drawn (omega arith))
          (wf.counts event.room_id) (omega arith)

    -- On a well-formed log, a valid event whose texts, payload and instant PostgreSQL takes, in a room
    -- below the end of BIGINT, is stored under the next sequence of its room, with its payload as JSONB
    -- and its instant as TIMESTAMPTZ give them back.
    pub append_event_in_transaction_lem :
        is_valid_room_event env (env.new_v4 w.drawn) event ≡ true
        → is_storable env event ≡ true
        → length (room_log event.room_id w.room_events) < max_bigint
        → append_event_in_transaction env event w ≡ ok (next_event, appended)
    unfolding append_event_in_transaction
    append_event_in_transaction_lem valid taken room = ground (
      arith,
      next_is_new,
      max_sequence-length (room_log event.room_id w.room_events) (wf.counts event.room_id),
    )

    -- An append that succeeds has stored just that.
    pub append-eq-ok :
        (r : RoomEvent × World)
        → append_event_in_transaction env event w ≡ ok r
        → r ≡ (next_event, appended)
    unfolding append_event_in_transaction
    append-eq-ok r h = ground (
      arith,
      max_sequence-length (room_log event.room_id w.room_events) (wf.counts event.room_id),
    )

    -- The log of the event's room grows at its end, and the others stay.
    pub room_log-appended :
        (room_id : Uuid)
        → room_log room_id appended.room_events ≡ (
            if event.room_id == room_id
            then room_log room_id w.room_events ++ next_event ∷ []
            else room_log room_id w.room_events)
    room_log-appended room_id = ground (
      arith,
      keep-append (in_room room_id) w.room_events (next_event ∷ []),
      append-nil (room_log room_id w.room_events),
    )

    pub appended-IsWellFormed : EnvLaws env → IsWellFormed env appended
    appended-IsWellFormed laws = record {
      counts = λ room_id. rw room_log-appended (counts_after room_id);
      unused = λ i h. unused_after i h;
    }
      where
        counts_after :
            (room_id : Uuid)
            → Counts 0 (
                if event.room_id == room_id
                then room_log room_id w.room_events ++ next_event ∷ []
                else room_log room_id w.room_events)
        counts_after room_id = elim (Bool-cases (event.room_id == room_id)) [
          | inl here ↦ rw here (
              Counts-append 0 (room_log room_id w.room_events) (next_event ∷ []) (wf.counts room_id)
                (ground arith, tt))
          | inr elsewhere ↦ rw elsewhere (wf.counts room_id)
        ]

        unused_after :
            (i : ℕ) → suc w.drawn ≤ i → has_id (env.new_v4 i) appended.room_events ≡ false
        unused_after i h = ground (
          arith,
          any-append (λ e. e.event_id == env.new_v4 i) w.room_events (next_event ∷ []),
          wf.unused i,
          laws.new_v4_injective w.drawn i,
        )

-- ===== src/Store/Events/Lookup.antt =====
-- src/store.rs: `events_by_id` finds what a transaction has appended.
use thought_khoral_room_gate.Prelude.{
  ℕ, suc, ◌+◌, ◌≡◌, refl, ◌∙◌, ap, subst, Bool, true, false, List, [], ◌∷◌, ◌++◌, map, arith, any,
  keep, keep-append, All, length, ◌==◌, ==→eq, ==_refl,
}
use thought_khoral_room_gate.Env.{Uuid, Env}
use thought_khoral_room_gate.Store.{RoomEvent, World}
use thought_khoral_room_gate.Store.Events.{in_room, room_log, order_by_sequence, events_by_id}
use thought_khoral_room_gate.Store.Events.Log.{has_id, Counts}
use thought_khoral_room_gate.Store.Events.Replay.{
  Ascends, Counts-Ascends, order_by_sequence-Ascends,
}
use thought_khoral_room_gate.Store.Events.Growth.{IsNewIn, Grows}

abbrev pub ids_of : List RoomEvent → List Uuid
ids_of = map (λ event. event.event_id)

abbrev pub named : List Uuid → RoomEvent → Bool
named ids event = any (λ id. event.event_id == id) ids

abbrev pub IsUnused : List RoomEvent → RoomEvent → Type 0
IsUnused stored event = has_id event.event_id stored ≡ false

Counts-append_right :
    (n : ℕ) (xs ys : List RoomEvent) → Counts n (xs ++ ys) → Counts (n + length xs) ys
Counts-append_right n [] ys h = subst (λ m. Counts m ys) (omega arith) h
Counts-append_right n (x ∷ xs) ys h =
    subst (λ m. Counts m ys) (omega arith) (Counts-append_right (suc n) xs ys h.1)

-- No event of the old log is named by new identifiers.
named-old :
    (old : RoomEvent) (stored new : List RoomEvent)
    → All (IsUnused (old ∷ stored)) new
    → named (ids_of new) old ≡ false
named-old old stored [] h = refl
named-old old stored (e ∷ es) h =
    ground (arith, h.0, named-old old stored es h.1, ==→eq old.event_id e.event_id)

rest-IsUnused :
    (old : RoomEvent) (stored new : List RoomEvent)
    → All (IsUnused (old ∷ stored)) new
    → All (IsUnused stored) new
rest-IsUnused old stored [] h = tt
rest-IsUnused old stored (e ∷ es) h = (ground (arith, h.0), rest-IsUnused old stored es h.1)

keep_old :
    (stored new : List RoomEvent)
    → All (IsUnused stored) new
    → keep (named (ids_of new)) stored ≡ []
keep_old [] new h = refl
keep_old (old ∷ stored) new h =
    ground (arith, named-old old stored new h, keep_old stored new (rest-IsUnused old stored new h))

-- Every new event is named.
keep_new :
    (front new : List RoomEvent) (ids : List Uuid)
    → ((e : RoomEvent) → named (ids_of new) e ≡ true → named ids e ≡ true)
    → keep (named ids) new ≡ new
keep_new front [] ids h = refl
keep_new front (e ∷ es) ids h =
    let self = h e (ground (arith, ==_refl e.event_id)) in
    let later = keep_new front es ids (λ d k. h d (ground (arith, k))) in
    ground (arith, self, later)

new_in_room :
    (room_id : Uuid) (w : World) (events : List RoomEvent)
    → All (IsNewIn room_id w) events
    → room_log room_id events ≡ events
new_in_room room_id w [] h = refl
new_in_room room_id w (e ∷ es) h =
    ground (arith, h.0.0, ==_refl room_id, new_in_room room_id w es h.1)

pub new-IsUnused :
    (room_id : Uuid) (w : World) (events : List RoomEvent)
    → All (IsNewIn room_id w) events
    → All (IsUnused w.room_events) events
new-IsUnused room_id w [] h = tt
new-IsUnused room_id w (e ∷ es) h = (h.0.1, new-IsUnused room_id w es h.1)

-- The events that a transaction appended are what their identifiers select, in order.
pub events_by_id-Grows :
    {env : Env} (room_id : Uuid) (w w' : World) (events : List RoomEvent)
    → Grows env room_id w events w'
    → events_by_id w'.room_events (ids_of events) ≡ events
unfolding events_by_id
events_by_id-Grows room_id w w' events g =
    ap order_by_sequence selected ∙ order_by_sequence-Ascends from events ascends
  where
    selected : keep (named (ids_of events)) w'.room_events ≡ events
    selected =
        ap (keep (named (ids_of events))) g.log
        ∙ keep-append (named (ids_of events)) w.room_events events
        ∙ rw (keep_old w.room_events events (new-IsUnused room_id w events g.new))
            (keep_new [] events (ids_of events) (λ e h. h))

    counted : Counts 0 (room_log room_id w.room_events ++ events)
    counted =
        subst (Counts 0)
          (ap (room_log room_id) g.log
            ∙ keep-append (in_room room_id) w.room_events events
            ∙ ap (λ es. room_log room_id w.room_events ++ es) (new_in_room room_id w events g.new))
          (g.well_formed.counts room_id)

    from : ℕ
    from = 0 + length (room_log room_id w.room_events)

    ascends : Ascends from events
    ascends =
        Counts-Ascends from events
          (Counts-append_right 0 (room_log room_id w.room_events) events counted)

-- ===== src/Store/Events/Replay.antt =====
-- `events_after` against the log: a replay is the rest of the room's log, in order.
use thought_khoral_room_gate.Prelude.{
  ℕ, zero, suc, ◌+◌, ◌≤◌, ◌≡◌, refl, sym, subst, ◌∙◌, ap, Bool, ◌&&◌, List, [], ◌∷◌, arith, drop,
  keep, ltb,
}
use native.Mathlib.Nat.{zero-add}
use thought_khoral_room_gate.Env.{Uuid, Env}
use thought_khoral_room_gate.Store.{RoomEvent, World}
use thought_khoral_room_gate.Store.Events.{
  in_room, room_log, insert_by_sequence, order_by_sequence, events_after,
}
use thought_khoral_room_gate.Store.Events.Log.{Counts, IsWellFormed}

-- In order already, with every sequence from n on.
abbrev pub Ascends : ℕ → List RoomEvent → Type 0
Ascends n [] = Unit {0}
Ascends n (event ∷ events) = (n ≤ event.sequence) × Ascends event.sequence events

pub Counts-Ascends : (n : ℕ) (xs : List RoomEvent) → Counts n xs → Ascends n xs
Counts-Ascends n [] h = tt
Counts-Ascends n (x ∷ xs) h =
    (omega arith, subst (λ m. Ascends m xs) (sym h.0) (Counts-Ascends (suc n) xs h.1))

insert_by_sequence_first :
    (x : RoomEvent) (xs : List RoomEvent) → Ascends x.sequence xs → insert_by_sequence x xs ≡ x ∷ xs
unfolding insert_by_sequence
insert_by_sequence_first x [] h = refl
insert_by_sequence_first x (y ∷ ys) h = ground arith

pub order_by_sequence-Ascends :
    (n : ℕ) (xs : List RoomEvent) → Ascends n xs → order_by_sequence xs ≡ xs
unfolding order_by_sequence
order_by_sequence-Ascends n [] h = refl
order_by_sequence-Ascends n (x ∷ xs) h =
    rw (order_by_sequence-Ascends x.sequence xs h.1) (insert_by_sequence_first x xs h.1)

pub keep-keep :
    (p q : RoomEvent → Bool) (xs : List RoomEvent) → keep (λ x. p x && q x) xs ≡ keep q (keep p xs)
keep-keep p q [] = refl
keep-keep p q (x ∷ xs) = ground (arith, keep-keep p q xs)

after_all :
    (k n : ℕ) (xs : List RoomEvent)
    → k ≤ n
    → Counts n xs
    → keep (λ event. ltb k event.sequence) xs ≡ xs
after_all k n [] le h = refl
after_all k n (x ∷ xs) le h = ground (arith, after_all k (suc n) xs (omega arith) h.1)

after_some :
    (k n : ℕ) (xs : List RoomEvent)
    → Counts n xs
    → keep (λ event. ltb (n + k) event.sequence) xs ≡ drop k xs
after_some zero n xs h = after_all (n + 0) n xs (omega arith) h
after_some (suc k) n [] h = refl
after_some (suc k) n (x ∷ xs) h =
    let same : n + suc k ≡ suc n + k = omega arith in
    let rest = rw (← same) at (after_some k (suc n) xs h.1) in ground (arith, rest)

Counts-drop : (k n : ℕ) (xs : List RoomEvent) → Counts n xs → (m : ℕ) × Ascends m (drop k xs)
Counts-drop zero n xs h = (n, Counts-Ascends n xs h)
Counts-drop (suc k) n [] h = (n, tt)
Counts-drop (suc k) n (x ∷ xs) h = Counts-drop k (suc n) xs h.1

-- In a well-formed database, a replay after sequence k gives exactly the room's events but the
-- first k, in the order in which they were stored.
pub events_after-drop :
    {env : Env} (w : World) (room_id : Uuid) (k : ℕ)
    → IsWellFormed env w
    → events_after w.room_events room_id k ≡ drop k (room_log room_id w.room_events)
unfolding events_after
events_after-drop w room_id k wf =
    let log = room_log room_id w.room_events in
    let (m, ascends) = Counts-drop k 0 log (wf.counts room_id) in
    ap order_by_sequence (
      keep-keep (in_room room_id) (λ event. ltb k event.sequence) w.room_events
      ∙ (rw (zero-add k) at (after_some k 0 log (wf.counts room_id))))
    ∙ order_by_sequence-Ascends m (drop k log) ascends

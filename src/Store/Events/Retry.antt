-- ===== src/Store/Events/Retry.antt =====
-- A recorded request is found again, with its events in order, whatever is stored after it.
use thought_khoral_room_gate.Prelude.{
  ◌≡◌, refl, sym, ◌∙◌, ap, subst, true, false, none, some, List, [], ◌∷◌, ◌++◌, append-nil,
  append_assoc, ok, arith, any-append, find, keep, keep-append, find-append, find-append_some, All,
  ◌==◌, ==→eq, ==_refl,
}
use thought_khoral_room_gate.Json.{Value}
use thought_khoral_room_gate.Env.{Uuid, Env}
use thought_khoral_room_gate.Store.{RoomEvent, RequestRow, World}
use thought_khoral_room_gate.Store.Events.{
  room_log, order_by_sequence, events_by_id, is_request, prior_request, record_request,
}
use thought_khoral_room_gate.Store.Events.Log.{has_id, Counts, IsWellFormed}
use thought_khoral_room_gate.Store.Events.Growth.{Grows}
use thought_khoral_room_gate.Store.Events.Lookup.{
  ids_of, named, IsUnused, new-IsUnused, events_by_id-Grows,
}
use thought_khoral_room_gate.Store.Events.Later.{Later}

-- The database answers a request from its record, and all the events of the record are stored.
pub record Remembers (w : World) (room_id request_id : Uuid) (fingerprint : Value)
    (events : List RoomEvent) : Type 0 where
  pub answer : prior_request w room_id request_id ≡ some (fingerprint, events)
  pub row : RequestRow
  pub found : find (is_request room_id request_id) w.room_requests ≡ some row
  pub stored : All (λ id. has_id id w.room_events ≡ true) row.event_ids

named-unused :
    (e : RoomEvent) (stored : List RoomEvent) (ids : List Uuid)
    → has_id e.event_id stored ≡ false
    → All (λ id. has_id id stored ≡ true) ids
    → named ids e ≡ false
named-unused e stored [] h k = refl
named-unused e stored (id ∷ ids) h k =
    ground (arith, k.0, named-unused e stored ids h k.1, ==→eq e.event_id id)

keep_later :
    (stored more : List RoomEvent) (ids : List Uuid)
    → All (IsUnused stored) more
    → All (λ id. has_id id stored ≡ true) ids
    → keep (named ids) more ≡ []
keep_later stored [] ids h k = refl
keep_later stored (e ∷ es) ids h k =
    ground (arith, named-unused e stored ids h.0 k, keep_later stored es ids h.1 k)

has_later :
    (stored more : List RoomEvent) (ids : List Uuid)
    → All (λ id. has_id id stored ≡ true) ids
    → All (λ id. has_id id (stored ++ more) ≡ true) ids
has_later stored more [] k = tt
has_later stored more (id ∷ ids) k = (
  ground (arith, k.0, any-append (λ event. event.event_id == id) stored more),
  has_later stored more ids k.1,
)

events_by_id-Later :
    (before after : World) (ids : List Uuid)
    → Later before after
    → All (λ id. has_id id before.room_events ≡ true) ids
    → events_by_id after.room_events ids ≡ events_by_id before.room_events ids
unfolding events_by_id
events_by_id-Later before after ids l k =
    ap order_by_sequence {y = keep (named ids) before.room_events} (
      ap (keep (named ids)) l.log
      ∙ keep-append (named ids) before.room_events l.more
      ∙ (rw (keep_later before.room_events l.more ids l.unused k) (append-nil _)))

-- Later appends change no answer.
pub Remembers-Later :
    {before after : World} {room_id request_id : Uuid} {fingerprint : Value}
    {events : List RoomEvent}
    → Later before after
    → Remembers before room_id request_id fingerprint events
    → Remembers after room_id request_id fingerprint events
unfolding prior_request
Remembers-Later {before} {after} {room_id} {request_id} l r = record {
  answer = ground (
    arith,
    r.answer,
    r.found,
    found_later,
    events_by_id-Later before after r.row.event_ids l r.stored,
  );
  row = r.row;
  found = found_later;
  stored =
      subst (λ es. All (λ id. has_id id es ≡ true) r.row.event_ids) (sym l.log)
        (has_later before.room_events l.more r.row.event_ids r.stored);
}
  where
    found_later : find (is_request room_id request_id) after.room_requests ≡ some r.row
    found_later =
        ap (find (is_request room_id request_id)) l.requests
        ∙ find-append_some (is_request room_id request_id) before.room_requests l.rows r.row r.found

has_own :
    (old events : List RoomEvent) → All (λ id. has_id id (old ++ events) ≡ true) (ids_of events)
has_own old [] = tt
has_own old (e ∷ es) = (
  ground
      (arith, any-append (λ event. event.event_id == e.event_id) old (e ∷ es), ==_refl e.event_id),
  subst (λ xs. All (λ id. has_id id xs ≡ true) (ids_of es)) (append_assoc old (e ∷ []) es)
      (has_own (old ++ e ∷ []) es),
)

module _ {env : Env} (room_id request_id : Uuid) (fingerprint : Value) (w w' after : World)
    (events : List RoomEvent) (fresh : prior_request w room_id request_id ≡ none)
    (grown : Grows env room_id w events w')
    (recorded : record_request room_id request_id fingerprint events w' ≡ ok (tt, after)) where
  no_row : find (is_request room_id request_id) w'.room_requests ≡ none
  unfolding prior_request
  no_row = ap (find (is_request room_id request_id)) grown.requests ∙ (ground arith)

  new_row : RequestRow
  new_row = record {
    room_id = room_id;
    request_id = request_id;
    request_fingerprint = fingerprint;
    event_ids = ids_of events;
  }

  recorded_rows :
      (after.room_requests ≡ w'.room_requests ++ new_row ∷ [])
      × (after.room_events ≡ w'.room_events)
  unfolding record_request new_row
  recorded_rows = (ground arith, ground arith)

  found_row : find (is_request room_id request_id) after.room_requests ≡ some new_row
  unfolding new_row
  found_row =
      ap (find (is_request room_id request_id)) recorded_rows.0
      ∙ find-append (is_request room_id request_id) w'.room_requests (new_row ∷ []) no_row
      ∙ (ground (arith, ==_refl room_id, ==_refl request_id))

  -- A request that was new, and whose events were appended and recorded, is remembered.
  pub record_request-Remembers : Remembers after room_id request_id fingerprint events
  unfolding prior_request new_row
  record_request-Remembers = record {
    answer = ground (
      arith,
      found_row,
      ap (λ es. events_by_id es (ids_of events)) recorded_rows.1,
      events_by_id-Grows room_id w w' events grown,
    );
    row = new_row;
    found = found_row;
    stored =
        subst (λ es. All (λ id. has_id id es ≡ true) (ids_of events))
          (sym grown.log ∙ sym recorded_rows.1) (has_own w.room_events events);
  }

  pub record_request-Later : Later w after
  unfolding new_row
  record_request-Later = record {
    more = events;
    log = recorded_rows.1 ∙ grown.log;
    unused = new-IsUnused room_id w events grown.new;
    rows = new_row ∷ [];
    requests = recorded_rows.0 ∙ ap (λ rs. rs ++ new_row ∷ []) grown.requests;
  }

  pub record_request-IsWellFormed : IsWellFormed env after
  unfolding record_request
  record_request-IsWellFormed = record {
    counts = λ r.
        subst (λ es. Counts 0 (room_log r es)) (sym recorded_rows.1) (grown.well_formed.counts r);
    unused = λ i le.
        subst (λ es. has_id (env.new_v4 i) es ≡ false) (sym recorded_rows.1)
          (grown.well_formed.unused i (ground arith));
  }

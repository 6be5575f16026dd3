-- ===== src/Store/Events/Later.antt =====
-- What happens to the log and to the request records in the long run.
use thought_khoral_room_gate.Prelude.{
  ◌≡◌, sym, ◌∙◌, ap, subst, List, [], ◌∷◌, ◌++◌, append-nil, append_assoc, arith, any-append, All,
  All-append, ◌==◌,
}
use thought_khoral_room_gate.Store.{RoomEvent, RequestRow, World}
use thought_khoral_room_gate.Store.Events.Lookup.{IsUnused}

-- What happens to the two tables in the long run: rows are added, events under new identifiers.
pub record Later (before after : World) : Type 0 where
  pub more : List RoomEvent
  pub log : after.room_events ≡ before.room_events ++ more
  pub unused : All (IsUnused before.room_events) more
  pub rows : List RequestRow
  pub requests : after.room_requests ≡ before.room_requests ++ rows

pub Later-refl : (w : World) → Later w w
Later-refl w = record {
  more = [];
  log = sym (append-nil w.room_events);
  unused = tt;
  rows = [];
  requests = sym (append-nil w.room_requests);
}

IsUnused-earlier :
    (stored more events : List RoomEvent)
    → All (IsUnused (stored ++ more)) events
    → All (IsUnused stored) events
IsUnused-earlier stored more [] h = tt
IsUnused-earlier stored more (e ∷ es) h = (
  ground (arith, h.0, any-append (λ event. event.event_id == e.event_id) stored more),
  IsUnused-earlier stored more es h.1,
)

pub Later-trans : {a b c : World} → Later a b → Later b c → Later a c
Later-trans {a} {b} {c} l k = record {
  more = l.more ++ k.more;
  log = k.log ∙ ap (λ es. es ++ k.more) l.log ∙ append_assoc a.room_events l.more k.more;
  unused = All-append (IsUnused a.room_events) l.more k.more l.unused (
      IsUnused-earlier a.room_events l.more k.more
        (subst (λ es. All (IsUnused es) k.more) l.log k.unused));
  rows = l.rows ++ k.rows;
  requests =
      k.requests ∙ ap (λ rs. rs ++ k.rows) l.requests ∙ append_assoc a.room_requests l.rows k.rows;
}

-- ===== src/Rooms/Decisions/Table.antt =====
-- The decisions table by identifier: what each statement does to the status of every decision.
use thought_khoral_room_gate.Prelude.{
  String, ◌≡◌, refl, true, false, not, Option, none, some, List, [], ◌∷◌, ◌++◌, arith, any,
  any-append, keep, find, update_where, ◌==◌, ==→eq, ==_refl, if◌then◌else◌,
}
use thought_khoral_room_gate.Env.{Uuid, Instant}
use thought_khoral_room_gate.Store.{DecisionRow}
use thought_khoral_room_gate.Rooms.Decisions.{is_decision, is_decision_of, set_status}

-- The status of a decision, if it is in the table.
abbrev pub status_of : Uuid → List DecisionRow → Option String
status_of id [] = none
status_of id (row ∷ rows) =
    let rest = status_of id rows in if row.decision_id == id then some row.status else rest

-- The PRIMARY KEY of the table.
abbrev pub IsKeyed : List DecisionRow → Type 0
IsKeyed [] = Unit {0}
IsKeyed (row ∷ rows) = (any (is_decision row.decision_id) rows ≡ false) × IsKeyed rows

pub status_of-absent :
    (id : Uuid) (rows : List DecisionRow)
    → any (is_decision id) rows ≡ false
    → status_of id rows ≡ none
status_of-absent id [] h = refl
status_of-absent id (row ∷ rows) h = ground (arith, status_of-absent id rows)

pub status_of-append :
    (id : Uuid) (rows : List DecisionRow) (new : DecisionRow)
    → any (is_decision new.decision_id) rows ≡ false
    → status_of id (rows ++ new ∷ [])
      ≡ (if new.decision_id == id then some new.status else status_of id rows)
status_of-append id [] new h = refl
status_of-append id (row ∷ rows) new h = ground (
  arith,
  status_of-append id rows new,
  ==→eq row.decision_id id,
  ==→eq new.decision_id id,
  ==_refl row.decision_id,
)

pub IsKeyed-append :
    (rows : List DecisionRow) (new : DecisionRow)
    → any (is_decision new.decision_id) rows ≡ false
    → IsKeyed rows
    → IsKeyed (rows ++ new ∷ [])
IsKeyed-append [] new h k = (refl, tt)
IsKeyed-append (row ∷ rows) new h k = (
  ground (
    arith,
    k.0,
    any-append (is_decision row.decision_id) rows (new ∷ []),
    ==→eq new.decision_id row.decision_id,
    ==_refl row.decision_id,
  ),
  IsKeyed-append rows new (ground arith) k.1,
)

found-any :
    (id room_id : Uuid) (rows : List DecisionRow) (row : DecisionRow)
    → find (is_decision_of id room_id) rows ≡ some row
    → any (is_decision id) rows ≡ true
found-any id room_id [] row h = cc
found-any id room_id (first ∷ rows) row h = ground (arith, found-any id room_id rows row)

-- A row that a query by identifier and room finds is the one row of that identifier.
pub find-status :
    (id room_id : Uuid) (rows : List DecisionRow) (row : DecisionRow)
    → IsKeyed rows
    → find (is_decision_of id room_id) rows ≡ some row
    → (status_of id rows ≡ some row.status) × (row.decision_id ≡ id)
find-status id room_id [] row k h = cc
find-status id room_id (first ∷ rows) row k h = ground (
  arith,
  k.0,
  found-any id room_id rows row,
  find-status id room_id rows row k.1,
  ==→eq first.decision_id id,
)

abbrev pub status_after : Option String → String → Option String
status_after none status = none
status_after (some _) status = some status

pub status_of-update :
    (id decision_id : Uuid) (status : String) (at : Instant) (rows : List DecisionRow)
    → status_of id (update_where (is_decision decision_id) (set_status status at) rows)
      ≡ (if decision_id == id then status_after (status_of id rows) status else status_of id rows)
status_of-update id decision_id status at [] = ground arith
status_of-update id decision_id status at (row ∷ rows) = ground (
  arith,
  status_of-update id decision_id status at rows,
  ==→eq row.decision_id decision_id,
  ==→eq row.decision_id id,
  ==→eq decision_id id,
)

any-update :
    (id decision_id : Uuid) (status : String) (at : Instant) (rows : List DecisionRow)
    → any (is_decision id) (update_where (is_decision decision_id) (set_status status at) rows)
      ≡ any (is_decision id) rows
any-update id decision_id status at [] = refl
any-update id decision_id status at (row ∷ rows) =
    ground (arith, any-update id decision_id status at rows)

pub IsKeyed-update :
    (decision_id : Uuid) (status : String) (at : Instant) (rows : List DecisionRow)
    → IsKeyed rows
    → IsKeyed (update_where (is_decision decision_id) (set_status status at) rows)
IsKeyed-update decision_id status at [] k = tt
IsKeyed-update decision_id status at (row ∷ rows) k = (
  ground (arith, any-update row.decision_id decision_id status at rows, k.0),
  IsKeyed-update decision_id status at rows k.1,
)

abbrev pub kept_rows : Uuid → Uuid → List DecisionRow → List DecisionRow
kept_rows decision_id room_id = keep (λ row. not (is_decision_of decision_id room_id row))

any-kept :
    (id decision_id room_id : Uuid) (rows : List DecisionRow)
    → any (is_decision id) rows ≡ false
    → any (is_decision id) (kept_rows decision_id room_id rows) ≡ false
any-kept id decision_id room_id [] h = refl
any-kept id decision_id room_id (row ∷ rows) h =
    ground (arith, any-kept id decision_id room_id rows)

pub IsKeyed-kept :
    (decision_id room_id : Uuid) (rows : List DecisionRow)
    → IsKeyed rows
    → IsKeyed (kept_rows decision_id room_id rows)
IsKeyed-kept decision_id room_id [] k = tt
IsKeyed-kept decision_id room_id (row ∷ rows) k = ground (
  arith,
  any-kept row.decision_id decision_id room_id rows k.0,
  IsKeyed-kept decision_id room_id rows k.1,
)

status_of-kept_other :
    (id decision_id room_id : Uuid) (rows : List DecisionRow)
    → (decision_id == id) ≡ false
    → status_of id (kept_rows decision_id room_id rows) ≡ status_of id rows
status_of-kept_other id decision_id room_id [] h = refl
status_of-kept_other id decision_id room_id (row ∷ rows) h = ground (
  arith,
  status_of-kept_other id decision_id room_id rows,
  ==→eq row.decision_id decision_id,
  ==→eq row.decision_id id,
)

-- A delete of the row that was found removes its identifier, and no other.
pub status_of-kept :
    (id decision_id room_id : Uuid) (rows : List DecisionRow) (row : DecisionRow)
    → IsKeyed rows
    → find (is_decision_of decision_id room_id) rows ≡ some row
    → status_of id (kept_rows decision_id room_id rows)
      ≡ (if decision_id == id then none else status_of id rows)
status_of-kept id decision_id room_id [] row k h = cc
status_of-kept id decision_id room_id (first ∷ rows) row k h = ground (
  arith,
  k.0,
  found-any decision_id room_id rows row,
  status_of-kept id decision_id room_id rows row k.1,
  status_of-kept_other id decision_id room_id rows,
  any-kept id decision_id room_id rows,
  status_of-absent id (kept_rows decision_id room_id rows),
  ==→eq first.decision_id decision_id,
  ==→eq first.decision_id id,
  ==→eq decision_id id,
)

-- ===== src/Store/Updates/Final/Rows.antt =====
-- src/store.rs: a task of the tasks table that has ended.
use thought_khoral_room_gate.Prelude.{
  ◌||◌, ◌≡◌, refl, String, Bool, true, false, ◌&&◌, inl, inr, some, List, [], ◌∷◌, ◌++◌, ok, arith,
  any, find, update_where, ◌==◌, ==→eq, ==_refl, Bool-cases, Result-cases,
}
use thought_khoral_room_gate.Env.{Uuid, Instant}
use thought_khoral_room_gate.Store.{TaskRow, World}
use thought_khoral_room_gate.Store.Leases.{
  AgentTaskState, parse, AgentTaskRecord, agent_task_from_row, is_task, is_open,
}
use thought_khoral_room_gate.Store.Leases.Exclusive.{IsHeld}
use thought_khoral_room_gate.Store.Tasks.{same_task}
use thought_khoral_room_gate.Store.Updates.{is_open_state, set_state}

abbrev pub tasks : World → List TaskRow
tasks w = w.agent_tasks

abbrev pub is_open_task : Uuid → TaskRow → Bool
is_open_task task_id row = is_task task_id row && is_open row.state

-- The table has the task, and not in a state that a claim or a report takes.
abbrev pub HasEnded : Uuid → List TaskRow → Type 0
HasEnded task_id rows =
    (any (is_task task_id) rows ≡ true) × (any (is_open_task task_id) rows ≡ false)

pub HasEnded-IsHeld :
    (task_id : Uuid) (at : Instant) (rows : List TaskRow)
    → any (is_open_task task_id) rows ≡ false
    → IsHeld task_id at rows
HasEnded-IsHeld task_id at [] h = refl
HasEnded-IsHeld task_id at (row ∷ rows) h = ground (arith, HasEnded-IsHeld task_id at rows)

pub any-update_where :
    (p key : TaskRow → Bool) (f : TaskRow → TaskRow) (rows : List TaskRow)
    → ((x : TaskRow) → key x ≡ true → p (f x) ≡ p x)
    → any p (update_where key f rows) ≡ any p rows
any-update_where p key f [] h = refl
any-update_where p key f (row ∷ rows) h = ground (arith, h row, any-update_where p key f rows h)

pub any-none :
    (p key : TaskRow → Bool) (f : TaskRow → TaskRow) (rows : List TaskRow)
    → ((x : TaskRow) → p (f x) ≡ true → key x ≡ true → p x ≡ true)
    → any p rows ≡ false
    → any p (update_where key f rows) ≡ false
any-none p key f [] h none_of = refl
any-none p key f (row ∷ rows) h none_of = ground (arith, h row, any-none p key f rows h)

pub find-any :
    (p q : TaskRow → Bool) (rows : List TaskRow) (row : TaskRow)
    → find p rows ≡ some row
    → any q rows ≡ false
    → q row ≡ false
find-any p q [] row h k = cc
find-any p q (first ∷ rows) row h k = elim (Bool-cases (p first)) [
  | inl hit ↦ ground (arith, h, k, hit)
  | inr miss ↦ ground (arith, h, k, miss, find-any p q rows row)
]

pub ended_by_update :
    (task_id : Uuid) (state : String) (at : Instant) (rows : List TaskRow)
    → is_open state ≡ false
    → any (is_open_task task_id) (update_where (is_task task_id) (set_state state at) rows) ≡ false
ended_by_update task_id state at [] h = refl
ended_by_update task_id state at (row ∷ rows) h =
    ground (arith, h, ended_by_update task_id state at rows h)

open_text :
    (text : String) (state : AgentTaskState)
    → parse text ≡ ok state
    → is_open_state state ≡ true
    → is_open text ≡ true
unfolding parse
open_text text state h k = ground (arith, h, k)

pub row-is_open :
    (row : TaskRow) (task : AgentTaskRecord)
    → agent_task_from_row row ≡ ok task
    → is_open_state task.state ≡ true
    → (is_open row.state ≡ true) × (row.task_id ≡ task.task_id)
unfolding agent_task_from_row
row-is_open row task h k = elim (Result-cases (parse row.state)) [
  | inl (state, e) ↦ (open_text row.state state e (ground (arith, h, k, e)), ground (arith, h, e))
  | inr (bad, e) ↦ absurd (ground (arith, h, e))
]

pub found_is_there :
    (p : TaskRow → Bool) (task_id : Uuid) (rows : List TaskRow) (row : TaskRow)
    → find p rows ≡ some row
    → row.task_id ≡ task_id
    → any (is_task task_id) rows ≡ true
found_is_there p task_id rows row h own = elim (Bool-cases (any (is_task task_id) rows)) [
  | inl there ↦ there
  | inr absent ↦
      let no = find-any p (is_task task_id) rows row h absent in
      ground (arith, no, own, ==_refl task_id)
]

pub any-added :
    (p : TaskRow → Bool) (rows : List TaskRow) (row : TaskRow)
    → any p (rows ++ row ∷ []) ≡ (any p rows || p row)
any-added p [] row = ground arith
any-added p (first ∷ rows) row = ground (arith, any-added p rows row)

pub other_id :
    (rows : List TaskRow) (row : TaskRow) (task_id : Uuid)
    → any (same_task row) rows ≡ false
    → any (is_task task_id) rows ≡ true
    → (row.task_id == task_id) ≡ false
other_id [] row task_id h k = cc
other_id (first ∷ rows) row task_id h k = elim (Bool-cases (is_task task_id first)) [
  | inl own ↦ ground (arith, h, own, ==→eq first.task_id task_id own)
  | inr other ↦ other_id rows row task_id (ground (arith, h)) (ground (arith, k, other))
]

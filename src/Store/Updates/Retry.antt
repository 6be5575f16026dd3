-- ===== src/Store/Updates/Retry.antt =====
-- src/store.rs: a report that is sent again under the same lease.
use thought_khoral_room_gate.Prelude.{
  ◌/◌, String, ◌≡◌, refl, sym, ◌∙◌, ap, subst, Bool, Option, true, false, none, some, List, [], ◌∷◌,
  ok, err, arith, find, update_where, ltb, ==→eq, ==_refl, Bool-cases, some_inj, &&-right,
  Option-cases, Result-cases, inl, inr, ◌⊎◌, if◌then◌else◌,
}
use thought_khoral_room_gate.Json.{Value, value_eq}
use thought_khoral_room_gate.Env.{Uuid, Instant, Env, EnvLaws}
use thought_khoral_room_gate.Store.{RoomEvent, TaskRow, UpdateRow, World, conflicting_duplicate}
use thought_khoral_room_gate.Store.Events.{events_by_id}
use thought_khoral_room_gate.Store.Events.Log.{IsWellFormed}
use thought_khoral_room_gate.Store.Leases.Exclusive.{parse-as_str, find_sound}
use thought_khoral_room_gate.Store.Leases.{
  AgentTaskState, as_str, AgentTaskRecord, AgentTaskLease, agent_task_from_row, is_task, holds,
  runs_until,
}
use thought_khoral_room_gate.Store.Reports.{Parsers, normalized_agent_task_update_payload}
use thought_khoral_room_gate.Store.Updates.{
  AgentTaskUpdate, AgentTaskUpdateResult, is_update, set_state, repeat_update, record_update_of,
  record_agent_task_update_with_outcome, is_matching_agent_task_update,
}
use thought_khoral_room_gate.Store.Updates.Reported.{
  Reported, new-Reported, appended_once, found_again, matches,
}

-- Setting the state of a task does not change who holds it.
find-set_state :
    (p : TaskRow → Bool) (task_id : Uuid) (state : String) (at : Instant) (rows : List TaskRow)
    (row : TaskRow)
    → ((x : TaskRow) → p (set_state state at x) ≡ p x)
    → find p rows ≡ some row
    → find p (update_where (is_task task_id) (set_state state at) rows)
      ≡ some (if is_task task_id row then set_state state at row else row)
find-set_state p task_id state at [] row same h = cc
find-set_state p task_id state at (first ∷ rows) row same h = elim (Bool-cases (p first)) [
  | inl hit ↦
      let is : first ≡ row = some_inj (ground (arith, h, hit)) in
      subst
        (λ x.
          find p (update_where (is_task task_id) (set_state state at) (first ∷ rows))
          ≡ some (if is_task task_id x then set_state state at x else x))
        is (ground (arith, hit, same first))
  | inr miss ↦
      let rest = find-set_state p task_id state at rows row same (ground (arith, h, miss)) in
      ground (arith, miss, same first, rest)
]

abbrev moved : AgentTaskRecord → AgentTaskState → Instant → AgentTaskRecord
moved task state at = record task { state = state; updated_at = at }

from_row-set_state :
    (row : TaskRow) (task : AgentTaskRecord) (state : AgentTaskState) (at : Instant)
    → agent_task_from_row row ≡ ok task
    → agent_task_from_row (set_state (as_str state) at row) ≡ ok (moved task state at)
unfolding agent_task_from_row
from_row-set_state row task state at h = rw (parse-as_str state) (ground (arith, h))

from_row-id :
    (row : TaskRow) (task : AgentTaskRecord)
    → agent_task_from_row row ≡ ok task
    → row.task_id ≡ task.task_id
unfolding agent_task_from_row
from_row-id row task h = ground (arith, h)

runs_until-later :
    (end now now' : Instant) (expires_at : Option Instant)
    → ltb now end ≡ true
    → ltb now' end ≡ true
    → runs_until end now' expires_at ≡ runs_until end now expires_at
runs_until-later end now now' none h k = refl
runs_until-later end now now' (some expires_at) h k = ground (arith, h, k, ==→eq expires_at end)

holds-later :
    (env : Env) (lease : AgentTaskLease) (now now' : Instant) (row : TaskRow)
    → ltb now (env.stored_instant lease.expires_at) ≡ true
    → ltb now' (env.stored_instant lease.expires_at) ≡ true
    → holds env lease now' row ≡ holds env lease now row
holds-later env lease now now' row h k =
    rw (runs_until-later (env.stored_instant lease.expires_at) now now' row.lease_expires_at h k)
      refl

runs_until-before :
    (end now : Instant) (expires_at : Option Instant)
    → runs_until end now expires_at ≡ true
    → ltb now end ≡ true
runs_until-before end now none h = cc
runs_until-before end now (some expires_at) h = ground (arith, h, ==→eq expires_at end)

holds-before :
    (env : Env) (lease : AgentTaskLease) (now : Instant) (row : TaskRow)
    → holds env lease now row ≡ true
    → ltb now (env.stored_instant lease.expires_at) ≡ true
holds-before env lease now row held =
    runs_until-before (env.stored_instant lease.expires_at) now row.lease_expires_at
      (&&-right _ _ (&&-right _ _ held))

find-ext :
    (p q : TaskRow → Bool) (rows : List TaskRow)
    → ((x : TaskRow) → p x ≡ q x)
    → find p rows ≡ find q rows
find-ext p q [] same = refl
find-ext p q (row ∷ rows) same = ground (arith, same row, find-ext p q rows same)

find-holds :
    (env : Env) (lease : AgentTaskLease) (now now' : Instant) (rows : List TaskRow)
    → ltb now (env.stored_instant lease.expires_at) ≡ true
    → ltb now' (env.stored_instant lease.expires_at) ≡ true
    → find (holds env lease now') rows ≡ find (holds env lease now) rows
find-holds env lease now now' rows earlier later =
    find-ext (holds env lease now') (holds env lease now) rows
      (λ x. holds-later env lease now now' x earlier later)

module _ (env : Env) (parsers : Parsers) (lease : AgentTaskLease) where
  -- The row, the task and the payload of a report that succeeds.
  pub outcome-eq-ok :
      (now clock : Instant) (update : AgentTaskUpdate) (w : World)
      (x : AgentTaskUpdateResult × World)
      → record_agent_task_update_with_outcome env parsers lease now clock update w ≡ ok x
      → (row : TaskRow) × (task : AgentTaskRecord) × (payload : Value) × (find
            (holds env lease now)
            w.agent_tasks
          ≡ some row)
        × (agent_task_from_row row ≡ ok task)
        × (normalized_agent_task_update_payload env parsers task update.payload ≡ ok payload)
        × (record_update_of env parsers task lease clock update payload w ≡ ok x)
  unfolding record_agent_task_update_with_outcome
  outcome-eq-ok now clock update w x h =
      elim (Option-cases (find (holds env lease now) w.agent_tasks)) [
        | inl e ↦ ground (arith, h, e)
        | inr (row, e) ↦ elim (Result-cases (agent_task_from_row row)) [
          | inr (bad, e') ↦ ground (arith, h, e, e')
          | inl (task, e') ↦
              elim (Result-cases
                (normalized_agent_task_update_payload env parsers task update.payload)) [
                  | inr (bad, e'') ↦ ground (arith, h, e, e', e'')
                  | inl (payload, e'') ↦
                      (row, task, payload, e, e', e'', ground (arith, h, e, e', e''))
                ]
        ]
      ]

  outcome-again :
      (now clock : Instant) (update : AgentTaskUpdate) (w : World) (row : TaskRow)
      (task : AgentTaskRecord) (payload : Value)
      → find (holds env lease now) w.agent_tasks ≡ some row
      → agent_task_from_row row ≡ ok task
      → normalized_agent_task_update_payload env parsers task update.payload ≡ ok payload
      → record_agent_task_update_with_outcome env parsers lease now clock update w
        ≡ record_update_of env parsers task lease clock update payload w
  unfolding record_agent_task_update_with_outcome
  outcome-again now clock update w row task payload e e' e'' = ground (arith, e, e', e'')

  pub update_of-cases :
      (clock : Instant) (update : AgentTaskUpdate) (w after : World) (task : AgentTaskRecord)
      (payload : Value) (r : AgentTaskUpdateResult)
      → record_update_of env parsers task lease clock update payload w ≡ ok (r, after)
      → Reported env parsers task update payload w r after ⊎ ((r.duplicate ≡ true) × (after ≡ w))
  unfolding record_update_of repeat_update
  update_of-cases clock update w after task payload r h =
      elim (Option-cases (find (is_update task.task_id update.update_id) w.agent_task_updates)) [
        | inl e ↦ inl (
            new-Reported env parsers task lease clock update payload w r after
              (ground (arith, h, e)))
        | inr (row, e) ↦ inr (ground (arith, h, e), ground (arith, h, e))
      ]

  -- A report that was recorded is answered from the record.
  update_of-again :
      (clock : Instant) (update : AgentTaskUpdate) (w : World) (task : AgentTaskRecord)
      (payload : Value) (row : UpdateRow) (events : List RoomEvent)
      → find (is_update task.task_id update.update_id) w.agent_task_updates ≡ some row
      → events_by_id w.room_events row.event_ids ≡ events
      → record_update_of env parsers task lease clock update payload w ≡ (
          if is_matching_agent_task_update events update payload
          then ok (record { task_id = task.task_id; events = events; duplicate = true }, w)
          else err conflicting_duplicate)
  unfolding record_update_of repeat_update
  update_of-again clock update w task payload row events e e' = ground (arith, e, e')

  -- The row of the task is found again under the lease, with the state that the report set.
  held_again :
      (now now' at : Instant) (w : World) (row : TaskRow) (task : AgentTaskRecord)
      (state : AgentTaskState)
      → find (holds env lease now) w.agent_tasks ≡ some row
      → agent_task_from_row row ≡ ok task
      → ltb now' (env.stored_instant lease.expires_at) ≡ true
      → (found : TaskRow) × (find
            (holds env lease now')
            (update_where (is_task task.task_id) (set_state (as_str state) at) w.agent_tasks)
          ≡ some found)
        × (agent_task_from_row found ≡ ok (moved task state at))
  held_again now now' at w row task state found from later =
      let held = find_sound (holds env lease now) w.agent_tasks row found in
      let earlier : ltb now (env.stored_instant lease.expires_at) ≡ true =
        holds-before env lease now row held in
      let found' : find (holds env lease now') w.agent_tasks ≡ some row =
        find-holds env lease now now' w.agent_tasks earlier later ∙ found in
      let own : row.task_id ≡ task.task_id = from_row-id row task from in
      (
        set_state (as_str state) at row,
        find-set_state (holds env lease now') task.task_id (as_str state) at w.agent_tasks row
              (λ x. refl) found'
            ∙ ground (arith, own, ==_refl task.task_id),
        from_row-set_state row task state at from,
      )

-- The payload that a report is stored with and compared by.
abbrev pub normalized_payload :
    Env → Parsers → AgentTaskLease → Instant → AgentTaskUpdate → World → Option Value
normalized_payload env parsers lease now update w =
    elim (find (holds env lease now) w.agent_tasks) [
      | none ↦ none
      | some row ↦ elim (agent_task_from_row row) [
        | err e ↦ none
        | ok task ↦ elim (normalized_agent_task_update_payload env parsers task update.payload) [
          | err e ↦ none
          | ok payload ↦ some payload
        ]
      ]
    ]

-- A report sent again while its lease still runs, for instance after its answer was lost, is
-- answered with the event that the first one stored, as a duplicate, and changes nothing, also
-- when the first one ended the task; but if JSONB did not give back the payload of the report as it
-- was, as with a number that is stored in another form, the report is refused as a conflicting
-- duplicate. The database keeps the instant of the report to the microsecond.
pub update_retry :
    (env : Env) (parsers : Parsers) (lease : AgentTaskLease) (now now' clock clock' : Instant)
    (update : AgentTaskUpdate) (w after : World) (r : AgentTaskUpdateResult) (sent : Value)
    → EnvLaws env
    → IsWellFormed env w
    → record_agent_task_update_with_outcome env parsers lease now clock update w ≡ ok (r, after)
    → r.duplicate ≡ false
    → normalized_payload env parsers lease now update w ≡ some sent
    → env.stored_instant update.occurred_at / 1000 ≡ update.occurred_at / 1000
    → ltb now' (env.stored_instant lease.expires_at) ≡ true
    → record_agent_task_update_with_outcome env parsers lease now' clock' update after ≡ (
        if value_eq (env.jsonb sent) sent
        then ok (record { task_id = r.task_id; events = r.events; duplicate = true }, after)
        else err conflicting_duplicate)
unfolding normalized_agent_task_update_payload
update_retry env parsers lease now now' clock clock' update w after r sent laws wf h is_first said
      exact later =
    let (row, task, payload, found, from, normal, rest) =
      outcome-eq-ok env parsers lease now clock update w (r, after) h in
    let is_sent : payload ≡ sent = ground (arith, found, from, normal, said) in
    elim (update_of-cases env parsers lease clock update w after task payload r rest) [
      | inr (again, _) ↦ cc (is_first, again)
      | inl done ↦ subst Answers is_sent (answered row task payload found from normal done)
    ]
  where
    Answers : Value → Type 0
    Answers payload =
        record_agent_task_update_with_outcome env parsers lease now' clock' update after ≡ (
          if value_eq (env.jsonb payload) payload
          then ok (record { task_id = r.task_id; events = r.events; duplicate = true }, after)
          else err conflicting_duplicate)

    again : Uuid → List RoomEvent → AgentTaskUpdateResult
    again task_id events = record { task_id = task_id; events = events; duplicate = true }

    answered :
        (row : TaskRow) (task : AgentTaskRecord) (payload : Value)
        → find (holds env lease now) w.agent_tasks ≡ some row
        → agent_task_from_row row ≡ ok task
        → normalized_agent_task_update_payload env parsers task update.payload ≡ ok payload
        → Reported env parsers task update payload w r after
        → Answers payload
    answered row task payload found from normal done =
        let at = env.stored_instant update.occurred_at in
        let (row', found', from') =
          held_again env parsers lease now now' at w row task done.state found from later in
        let kept : done.middle.agent_tasks ≡ w.agent_tasks =
          ap (λ (x : RoomEvent × World). x.1.agent_tasks)
            (appended_once env parsers laws task update payload w r after wf done) in
        let tasks : after.agent_tasks
            ≡ update_where (is_task task.task_id) (set_state (as_str done.state) at) w.agent_tasks =
          done.tasks
          ∙ ap (update_where (is_task task.task_id) (set_state (as_str done.state) at)) kept in
        let (recorded, events) =
          found_again env parsers laws task update payload w r after wf done in
        outcome-again env parsers lease now' clock' update after row' (moved task done.state at)
          payload (ap (find (holds env lease now')) tasks ∙ found') from' normal
        ∙ update_of-again env parsers lease clock' update after (moved task done.state at) payload _
            (done.event ∷ []) recorded events
        ∙ ap
            (λ b.
              if b
              then ok (again task.task_id (done.event ∷ []), after)
              else err conflicting_duplicate)
            (matches env parsers laws task update payload w r after wf done exact)
        ∙ ap
            (λ q.
              if value_eq (env.jsonb payload) payload
              then ok (again q.task_id q.events, after)
              else err conflicting_duplicate)
            (sym done.result)

-- ===== src/Store/Leases/Context.antt =====
-- src/store.rs: what the holder of a lease reads.
use native.Mathlib.Nat.{zero-add}
use thought_khoral_room_gate.Prelude.{
  ℕ, zero, suc, ◌+◌, ◌≤◌, ◌≡◌, refl, ◌∙◌, ap, subst, ◌&&◌, some, List, [], ◌∷◌, ok, ok_inj,
  some_inj, arith, find, keep, take, leb, Option-cases, Result-cases, inl, inr,
}
use thought_khoral_room_gate.Env.{Instant, Env}
use thought_khoral_room_gate.Store.{RoomEvent, TaskRow, World, StoreError}
use thought_khoral_room_gate.Store.Events.{in_room, room_log, order_by_sequence}
use thought_khoral_room_gate.Store.Events.Log.{Counts, IsWellFormed}
use thought_khoral_room_gate.Store.Events.Replay.{
  Counts-Ascends, order_by_sequence-Ascends, keep-keep,
}
use thought_khoral_room_gate.Store.Leases.{
  AgentTaskRecord, AgentTaskLease, AgentTaskContext, agent_task_from_row, holds, context_for_lease,
}

up_to_none :
    (k n : ℕ) (xs : List RoomEvent)
    → k ≤ n
    → Counts n xs
    → keep (λ event. leb event.sequence k) xs ≡ []
up_to_none k n [] le h = refl
up_to_none k n (x ∷ xs) le h = ground (arith, h.0, up_to_none k (suc n) xs (omega (arith, le)) h.1)

up_to_take :
    (k n : ℕ) (xs : List RoomEvent)
    → Counts n xs
    → keep (λ event. leb event.sequence (n + k)) xs ≡ take k xs
up_to_take zero n xs h = up_to_none (n + 0) n xs (omega arith) h
up_to_take (suc k) n [] h = refl
up_to_take (suc k) n (x ∷ xs) h =
    let same : n + suc k ≡ suc n + k = omega arith in
    let rest = rw (← same) at (up_to_take k (suc n) xs h.1) in ground (arith, h.0, rest)

Counts-take : (k n : ℕ) (xs : List RoomEvent) → Counts n xs → Counts n (take k xs)
Counts-take zero n xs h = tt
Counts-take (suc k) n [] h = tt
Counts-take (suc k) n (x ∷ xs) h = (h.0, Counts-take k (suc n) xs h.1)

-- The context of a lease is of a task that the lease holds, and its events are the beginning of the
-- log of the task's room, up to the context revision of the task, in order: nothing that was stored
-- later, and nothing of another room.
pub context_for_lease-take :
    (env : Env) (lease : AgentTaskLease) (now : Instant) (w : World) (context : AgentTaskContext)
    → IsWellFormed env w
    → context_for_lease env lease now w ≡ ok (some context)
    → ((row : TaskRow) × (find (holds env lease now) w.agent_tasks ≡ some row)
        × (agent_task_from_row row ≡ ok context.task))
      × (context.events
          ≡ take context.task.context_revision (room_log context.task.room_id w.room_events))
unfolding context_for_lease
context_for_lease-take env lease now w context wf h =
    elim (Option-cases (find (holds env lease now) w.agent_tasks)) [
      | inl e ↦ ground (arith, h, e)
      | inr (row, e) ↦ elim (Result-cases (agent_task_from_row row)) [
        | inr (bad, e') ↦ ground (arith, h, e, e')
        | inl (task, e') ↦
            let is : context_of task ≡ context =
              some_inj (ok_inj {E = StoreError} (ground (arith, h, e, e'))) in
            subst
              (λ c.
                ((row : TaskRow) × (find (holds env lease now) w.agent_tasks ≡ some row)
                  × (agent_task_from_row row ≡ ok c.task))
                × (c.events ≡ take c.task.context_revision (room_log c.task.room_id w.room_events)))
              is ((row, e, e'), read task)
      ]
    ]
  where
    context_of : AgentTaskRecord → AgentTaskContext
    context_of task = record {
      task = task;
      events = order_by_sequence (
          keep (λ event. in_room task.room_id event && leb event.sequence task.context_revision)
            w.room_events);
    }

    read :
        (task : AgentTaskRecord)
        → (context_of task).events
          ≡ take task.context_revision (room_log task.room_id w.room_events)
    read task =
        let log = room_log task.room_id w.room_events in
        let counts = wf.counts task.room_id in
        ap order_by_sequence (
          keep-keep (in_room task.room_id) (λ event. leb event.sequence task.context_revision)
            w.room_events
          ∙ (rw (zero-add task.context_revision) at
              (up_to_take task.context_revision 0 log counts)))
        ∙ order_by_sequence-Ascends 0 (take task.context_revision log) (
            Counts-Ascends 0 (take task.context_revision log)
              (Counts-take task.context_revision 0 log counts))

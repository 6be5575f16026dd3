-- ===== src/Store/Updates/Final.antt =====
-- src/store.rs: a task that has ended is not taken up again.
mod Rows
mod Kept
use thought_khoral_room_gate.Prelude.{
  ◌||◌, ◌≡◌, refl, sym, ◌∙◌, ap, subst, String, Bool, Option, Option-cases, true, false, ◌&&◌, ◌⊎◌,
  inl, inr, some, List, [], ◌∷◌, ◌++◌, ok, ok_inj, arith, any, find, update_where, ◌==◌, ==→eq,
  ==_refl, Bool-cases, Result-cases,
}
use thought_khoral_room_gate.Tx.Frame.{
  Keeps, Keeps-pure, Keeps-fail, Keeps-gets, Keeps-if, Keeps-bind, Changes, Changes-first,
  Changes-later,
}
use thought_khoral_room_gate.Json.{Value}
use thought_khoral_room_gate.Env.{Uuid, Instant, Env}
use thought_khoral_room_gate.Protocol.{AgentTaskStart}
use thought_khoral_room_gate.Protocol.Fingerprint.{agent_task_fingerprint}
use thought_khoral_room_gate.Store.{
  RoomEvent, NewEvent, TaskRow, World, StoreError, invalid_agent_task,
}
use thought_khoral_room_gate.Store.Events.{
  new_v4, append_event_in_transaction, record_request, prior_request,
}
use thought_khoral_room_gate.Store.Leases.{
  AgentTaskState, succeeded, failed, as_str, parse, AgentTaskRecord, AgentTaskLease,
  agent_task_from_row, is_task, is_open, is_claimable_task, claimed, leased, lease_end, holds,
  claimable_of, oldest, claim_agent_task, claim_oldest_queued_agent_task,
}
use thought_khoral_room_gate.Store.Leases.Exclusive.{
  IsHeld, Claim, one, oldest_of, run_claim, held-run_claim, held-passed,
}
use thought_khoral_room_gate.Store.Reports.{Parsers}
use thought_khoral_room_gate.Store.Tasks.{
  AgentTaskStartResult, same_task, insert_agent_task, next_revision, requested_event, queued_task,
  start_new_task, repeat_task, start_agent_task_in_transaction,
}
use thought_khoral_room_gate.Store.Updates.{
  AgentTaskUpdate, AgentTaskUpdateResult, is_open_state, state_for_update, set_state,
  record_agent_task_update_with_outcome,
}
use thought_khoral_room_gate.Store.Updates.Retry.{outcome-eq-ok, update_of-cases}
use thought_khoral_room_gate.Store.Updates.Final.Rows.{
  tasks, is_open_task, HasEnded, HasEnded-IsHeld, any-update_where, any-none, find-any,
  ended_by_update, row-is_open, found_is_there, any-added, other_id,
}
use thought_khoral_room_gate.Store.Updates.Final.Kept.{
  append-tasks, claim-HasEnded, report-HasEnded, start-HasEnded,
}

-- A report of success or of failure.
abbrev pub Ends : AgentTaskUpdate → Type 0
Ends update =
    (state_for_update update.event_type ≡ ok succeeded)
    ⊎ (state_for_update update.event_type ≡ ok failed)

ended-IsHeld :
    (update : AgentTaskUpdate) (state : AgentTaskState)
    → Ends update
    → state_for_update update.event_type ≡ ok state
    → is_open (as_str state) ≡ false
unfolding as_str
ended-IsHeld update state (inl e) h =
    subst (λ s. is_open (as_str s) ≡ false) (ok_inj {E = StoreError} (sym e ∙ h)) refl
ended-IsHeld update state (inr e) h =
    subst (λ s. is_open (as_str s) ≡ false) (ok_inj {E = StoreError} (sym e ∙ h)) refl

-- What goes on with the tasks of external agents, whoever does it and at whatever time: claims, reports
-- and starts of tasks that succeed.
pub data TaskSteps (env : Env) (parsers : Parsers) (w : World) : World → Type 0 where
  here : TaskSteps env parsers w w
  claims :
      {v u : World} {lease : Option AgentTaskLease} (claim : Claim) (owner_id : Uuid)
      (now : Instant)
      → TaskSteps env parsers w v
      → run_claim env claim owner_id now v ≡ ok (lease, u)
      → TaskSteps env parsers w u
  reports :
      {v u : World} {r : AgentTaskUpdateResult} (lease : AgentTaskLease) (now clock : Instant)
      (update : AgentTaskUpdate)
      → TaskSteps env parsers w v
      → record_agent_task_update_with_outcome env parsers lease now clock update v ≡ ok (r, u)
      → TaskSteps env parsers w u
  starts :
      {v u : World} {r : AgentTaskStartResult} (now : Instant) (requester_id : Uuid) (name : String)
      (start : AgentTaskStart) (record_idempotency : Bool)
      → TaskSteps env parsers w v
      → start_agent_task_in_transaction env now requester_id name start record_idempotency v
        ≡ ok (r, u)
      → TaskSteps env parsers w u

steps-HasEnded :
    {env : Env} {parsers : Parsers} {w v : World} (task_id : Uuid)
    → HasEnded task_id w.agent_tasks
    → TaskSteps env parsers w v
    → HasEnded task_id v.agent_tasks
steps-HasEnded task_id k here = k
steps-HasEnded {env} task_id k (claims claim owner_id now before h) =
    claim-HasEnded env task_id claim owner_id now _ _ _ h (steps-HasEnded task_id k before)
steps-HasEnded {env} {parsers} task_id k (reports lease now clock update before h) =
    report-HasEnded env task_id parsers lease now clock update _ _ _ h
      (steps-HasEnded task_id k before)
steps-HasEnded {env} task_id k (starts now requester_id name start record_idempotency before h) =
    start-HasEnded env task_id now requester_id name start record_idempotency _ _ _ h
      (steps-HasEnded task_id k before)

-- A task that was reported as succeeded or failed is never claimed again: after any later claims,
-- reports and starts of tasks, by anybody and at any time, a claim of the task or of an agent's oldest
-- gets no lease or the lease of another task.
pub ended_is_final :
    (env : Env) (parsers : Parsers) (lease next : AgentTaskLease) (now clock later : Instant)
    (update : AgentTaskUpdate) (w after then last : World) (r : AgentTaskUpdateResult)
    (claim : Claim) (owner_id : Uuid)
    → record_agent_task_update_with_outcome env parsers lease now clock update w ≡ ok (r, after)
    → r.duplicate ≡ false
    → Ends update
    → TaskSteps env parsers after then
    → run_claim env claim owner_id later then ≡ ok (some next, last)
    → (next.task_id == r.task_id) ≡ false
ended_is_final env parsers lease next now clock later update w after then last r claim owner_id h
      is_first ends steps h' =
    held-run_claim env claim r.task_id owner_id later then last next
      (HasEnded-IsHeld r.task_id (env.stored_instant later) then.agent_tasks
        (steps-HasEnded r.task_id ended steps).1)
      h'
  where
    ended : HasEnded r.task_id after.agent_tasks
    ended =
        let (row, task, payload, found, from, _, rest) =
          outcome-eq-ok env parsers lease now clock update w (r, after) h in
        elim (update_of-cases env parsers lease clock update w after task payload r rest) [
          | inr (again, _) ↦ cc (is_first, again)
          | inl done ↦
              let own = (row-is_open row task from done.was_open).1 in
              let kept : done.middle.agent_tasks ≡ w.agent_tasks =
                (append-tasks env _).same _ _ _ done.stored in
              let there : any (is_task task.task_id) w.agent_tasks ≡ true =
                found_is_there (holds env lease now) task.task_id w.agent_tasks row found own in
              subst (λ id. HasEnded id after.agent_tasks) (sym (ap (λ q. q.task_id) done.result))
                (subst (HasEnded task.task_id) (sym done.tasks) (
                  any-update_where (is_task task.task_id) _ _ done.middle.agent_tasks (λ x e. refl)
                      ∙ ap (any (is_task task.task_id)) kept
                      ∙ there,
                  ended_by_update task.task_id (as_str done.state) _ done.middle.agent_tasks
                      (ended-IsHeld update done.state ends done.is_state),
                ))
        ]

-- ===== src/Store/Updates/Final/Kept.antt =====
-- src/store.rs: what claims, reports and starts leave of a task that has ended.
use thought_khoral_room_gate.Prelude.{
  ◌≡◌, refl, sym, ◌∙◌, ap, subst, String, Bool, Option, Option-cases, false, inl, inr, List, [],
  ◌∷◌, ◌++◌, ok, arith, any, find, update_where, ◌==◌, ==→eq,
}
use thought_khoral_room_gate.Tx.Frame.{
  Keeps, Keeps-pure, Keeps-fail, Keeps-gets, Keeps-if, Keeps-bind, Changes, Changes-first,
  Changes-later,
}
use thought_khoral_room_gate.Json.{Value}
use thought_khoral_room_gate.Env.{Uuid, Instant, Env}
use thought_khoral_room_gate.Protocol.{AgentTaskStart}
use thought_khoral_room_gate.Protocol.Fingerprint.{agent_task_fingerprint}
use thought_khoral_room_gate.Store.{RoomEvent, NewEvent, TaskRow, World, invalid_agent_task}
use thought_khoral_room_gate.Store.Events.{
  new_v4, append_event_in_transaction, record_request, prior_request,
}
use thought_khoral_room_gate.Store.Leases.{
  as_str, AgentTaskLease, is_task, is_claimable_task, claimed, leased, lease_end, holds,
  claimable_of, oldest, claim_agent_task, claim_oldest_queued_agent_task,
}
use thought_khoral_room_gate.Store.Leases.Exclusive.{Claim, one, oldest_of, run_claim, held-passed}
use thought_khoral_room_gate.Store.Reports.{Parsers}
use thought_khoral_room_gate.Store.Tasks.{
  AgentTaskStartResult, same_task, insert_agent_task, next_revision, requested_event, queued_task,
  start_new_task, repeat_task, start_agent_task_in_transaction,
}
use thought_khoral_room_gate.Store.Updates.{
  AgentTaskUpdate, AgentTaskUpdateResult, set_state, record_agent_task_update_with_outcome,
}
use thought_khoral_room_gate.Store.Updates.Retry.{outcome-eq-ok, update_of-cases}
use thought_khoral_room_gate.Store.Updates.Final.Rows.{
  tasks, is_open_task, HasEnded, HasEnded-IsHeld, any-update_where, any-none, find-any, row-is_open,
  any-added, other_id,
}

-- One new row, under a new identifier.
abbrev AddsTask : List TaskRow → List TaskRow → Type 0
AddsTask before after =
    (row : TaskRow) × (any (same_task row) before ≡ false) × (after ≡ before ++ row ∷ [])

insert-AddsTask : (row : TaskRow) → Changes tasks AddsTask (insert_agent_task row)
unfolding insert_agent_task
insert-AddsTask row = record { change = λ s a t h. (row, ground arith, ground arith) }

record-tasks :
    (room_id request_id : Uuid) (fp : Value) (events : List RoomEvent)
    → Keeps tasks (record_request room_id request_id fp events)
unfolding record_request
record-tasks room_id request_id fp events = record { same = λ s a t h. ground arith }

module _ (env : Env) where
  pub append-tasks : (event : NewEvent) → Keeps tasks (append_event_in_transaction env event)
  unfolding append_event_in_transaction
  append-tasks event = record { same = λ s a t h. ground arith }

  new_v4-tasks : Keeps tasks (new_v4 env)
  unfolding new_v4
  new_v4-tasks = record { same = λ s a t h. ground arith }

  start_new-Adds :
      (now : Instant) (requester_id : Uuid) (name : String) (start : AgentTaskStart)
      (record_idempotency : Bool)
      → Changes tasks AddsTask (start_new_task env now requester_id name start record_idempotency)
  unfolding start_new_task
  start_new-Adds now requester_id name start record_idempotency =
      Changes-later _ _ new_v4-tasks λ task_id.
        Changes-later _ _ (Keeps-gets (next_revision start.room_id)) λ revision.
          Changes-later _ _
            (append-tasks (requested_event env task_id requester_id name start revision))
            λ requested.
              Changes-later _ _
                (Keeps-if (requested.sequence == revision) _ _ (Keeps-pure tt)
                  (Keeps-fail invalid_agent_task))
                λ _.
                  Changes-first _ _
                    (insert-AddsTask (queued_task env now task_id requester_id start revision))
                    λ _.
                      Keeps-bind _ _
                        (Keeps-if record_idempotency _ _
                          (record-tasks start.room_id start.request_id
                            (agent_task_fingerprint env start) (requested ∷ []))
                          (Keeps-pure tt))
                        λ _. Keeps-pure (record { task_id = task_id; events = requested ∷ [] })

module _ (env : Env) (task_id : Uuid) where
  pub claim-HasEnded :
      (claim : Claim) (owner_id : Uuid) (now : Instant) (w after : World)
      (lease : Option AgentTaskLease)
      → run_claim env claim owner_id now w ≡ ok (lease, after)
      → HasEnded task_id w.agent_tasks
      → HasEnded task_id after.agent_tasks
  unfolding claim_agent_task claim_oldest_queued_agent_task
  claim-HasEnded (one other) owner_id now w after lease h k =
      let at = env.stored_instant now in
      elim (Option-cases (find (is_claimable_task other at) w.agent_tasks)) [
        | inl none_found ↦
            let same : w.agent_tasks ≡ after.agent_tasks = ground (arith, h, none_found) in
            subst (HasEnded task_id) same k
        | inr (row, is) ↦
            let written : after.agent_tasks
                ≡ update_where (is_claimable_task other at)
                    (claimed owner_id (lease_end env now) at) w.agent_tasks =
              ground (arith, h, is) in
            subst (HasEnded task_id) (sym written) (
              any-update_where (is_task task_id) _ _ w.agent_tasks (λ x e. refl) ∙ k.0,
              any-none (is_open_task task_id) (is_claimable_task other at)
                  (claimed owner_id (lease_end env now) at) w.agent_tasks (λ x e e'. ground arith)
                  k.1,
            )
      ]
  claim-HasEnded (oldest_of agent_id) owner_id now w after lease h k =
      let at = env.stored_instant now in
      elim (Option-cases (oldest (claimable_of agent_id at w.agent_tasks))) [
        | inl none_found ↦
            let same : w.agent_tasks ≡ after.agent_tasks = ground (arith, h, none_found) in
            subst (HasEnded task_id) same k
        | inr (row, is) ↦
            let written : after.agent_tasks
                ≡ update_where (is_task row.task_id)
                    (leased owner_id (lease_end env now) at "running") w.agent_tasks =
              ground (arith, h, is) in
            let other : (row.task_id == task_id) ≡ false =
              held-passed env task_id agent_id owner_id now w after
                (record {
                  task_id = row.task_id;
                  owner_id = owner_id;
                  expires_at = lease_end env now;
                })
                (HasEnded-IsHeld task_id at w.agent_tasks k.1) (ground (arith, is)) in
            subst (HasEnded task_id) (sym written) (
              any-update_where (is_task task_id) _ _ w.agent_tasks (λ x e. refl) ∙ k.0,
              any-update_where (is_open_task task_id) (is_task row.task_id)
                    (leased owner_id (lease_end env now) at "running") w.agent_tasks
                    (λ x e. ground (arith, other, ==→eq x.task_id row.task_id e))
                  ∙ k.1,
            )
      ]

module _ (env : Env) (task_id : Uuid) where
  pub report-HasEnded :
      (parsers : Parsers) (lease : AgentTaskLease) (now clock : Instant) (update : AgentTaskUpdate)
      (w after : World) (r : AgentTaskUpdateResult)
      → record_agent_task_update_with_outcome env parsers lease now clock update w ≡ ok (r, after)
      → HasEnded task_id w.agent_tasks
      → HasEnded task_id after.agent_tasks
  report-HasEnded parsers lease now clock update w after r h k =
      let (row, task, payload, found, from, _, rest) =
        outcome-eq-ok env parsers lease now clock update w (r, after) h in
      elim (update_of-cases env parsers lease clock update w after task payload r rest) [
        | inr (_, same) ↦ subst (λ (v : World). HasEnded task_id v.agent_tasks) (sym same) k
        | inl done ↦
            let (was_open, own) = row-is_open row task from done.was_open in
            let shut =
              find-any (holds env lease now) (is_open_task task_id) w.agent_tasks row found k.1 in
            let other : (task.task_id == task_id) ≡ false =
              subst (λ id. (id == task_id) ≡ false) own (ground (arith, shut, was_open)) in
            let kept : done.middle.agent_tasks ≡ w.agent_tasks =
              (append-tasks env _).same _ _ _ done.stored in
            let written : after.agent_tasks
                ≡ update_where (is_task task.task_id)
                    (set_state (as_str done.state) (env.stored_instant update.occurred_at))
                    w.agent_tasks =
              done.tasks
              ∙ ap
                  (update_where (is_task task.task_id)
                    (set_state (as_str done.state) (env.stored_instant update.occurred_at)))
                  kept in
            subst (HasEnded task_id) (sym written) (
              any-update_where (is_task task_id) _ _ w.agent_tasks (λ x e. refl) ∙ k.0,
              any-update_where (is_open_task task_id) (is_task task.task_id)
                    (set_state (as_str done.state) (env.stored_instant update.occurred_at))
                    w.agent_tasks (λ x e. ground (arith, other, ==→eq x.task_id task.task_id e))
                  ∙ k.1,
            )
      ]

  pub start-HasEnded :
      (now : Instant) (requester_id : Uuid) (name : String) (start : AgentTaskStart)
      (record_idempotency : Bool) (w after : World) (r : AgentTaskStartResult)
      → start_agent_task_in_transaction env now requester_id name start record_idempotency w
        ≡ ok (r, after)
      → HasEnded task_id w.agent_tasks
      → HasEnded task_id after.agent_tasks
  unfolding start_agent_task_in_transaction repeat_task
  start-HasEnded now requester_id name start record_idempotency w after r h k =
      elim (Option-cases (prior_request w start.room_id start.request_id)) [
        | inr ((fp, events), prior) ↦
            let same : w.agent_tasks ≡ after.agent_tasks = ground (arith, h, prior) in
            subst (HasEnded task_id) same k
        | inl fresh ↦
            let (row, new, written) =
              (start_new-Adds env now requester_id name start record_idempotency).change w r after
                (ground (arith, h, fresh)) in
            let other : (row.task_id == task_id) ≡ false =
              other_id w.agent_tasks row task_id new k.0 in
            subst (HasEnded task_id) (sym written) (
              any-added (is_task task_id) w.agent_tasks row ∙ ground (arith, k.0),
              any-added (is_open_task task_id) w.agent_tasks row ∙ ground (arith, k.1, other),
            )
      ]

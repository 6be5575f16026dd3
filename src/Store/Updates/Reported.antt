-- ===== src/Store/Updates/Reported.antt =====
-- src/store.rs: what a new report of an agent writes.
use thought_khoral_room_gate.Prelude.{
  suc, ◌/◌, ◌≡◌, refl, sym, ◌∙◌, ap, subst, true, false, some, [], ◌∷◌, ◌++◌, ok, arith, any, find,
  update_where, ==_refl, str_eq_iff, find-append, Result-cases, inl, inr,
}
use thought_khoral_room_gate.Json.{Value, value_eq}
use thought_khoral_room_gate.Env.{Instant, Env, EnvLaws}
use thought_khoral_room_gate.Store.{RoomEvent, World}
use thought_khoral_room_gate.Store.Events.{new_v4, append_event_in_transaction, events_by_id}
use thought_khoral_room_gate.Store.Events.Log.{IsWellFormed, append-eq-ok, appended, next_event}
use thought_khoral_room_gate.Store.Events.Lookup.{events_by_id-Grows}
use thought_khoral_room_gate.Store.Leases.Exclusive.{find-none}
use thought_khoral_room_gate.Store.Events.Growth.{Grows, Grows-none, Emits-append, Emits-new_v4}
use thought_khoral_room_gate.Store.Leases.{
  AgentTaskState, as_str, AgentTaskRecord, AgentTaskLease, is_task,
}
use thought_khoral_room_gate.Store.Reports.{Parsers}
use thought_khoral_room_gate.Store.Updates.{
  AgentTaskUpdate, AgentTaskUpdateResult, is_open_state, state_for_update, update_event, is_update,
  insert_update, set_state, update_state, record_new_update, is_matching_agent_task_update,
}

module _ (env : Env) (parsers : Parsers) where
  -- What a report that was new has done.
  pub record Reported (task : AgentTaskRecord) (update : AgentTaskUpdate) (payload : Value)
      (w : World) (r : AgentTaskUpdateResult) (after : World) : Type 0 where
    pub state : AgentTaskState
    pub event : RoomEvent
    pub middle : World
    pub was_open : is_open_state task.state ≡ true
    pub is_state : state_for_update update.event_type ≡ ok state
    pub stored :
        append_event_in_transaction env
          (update_event task update payload (env.new_v4 w.drawn))
          (record w { drawn = suc w.drawn })
        ≡ ok (event, middle)
    pub first : any (is_update task.task_id update.update_id) middle.agent_task_updates ≡ false
    pub result : r ≡ record { task_id = task.task_id; events = event ∷ []; duplicate = false }
    pub tasks :
        after.agent_tasks
        ≡ update_where
            (is_task task.task_id)
            (set_state (as_str state) (env.stored_instant update.occurred_at))
            middle.agent_tasks
    pub updates :
        after.agent_task_updates
        ≡ middle.agent_task_updates
          ++ record {
            task_id = task.task_id;
            update_id = update.update_id;
            event_ids = event.event_id ∷ [];
          }
            ∷ []
    pub log : after.room_events ≡ middle.room_events
    pub drawn : after.drawn ≡ middle.drawn

  pub new-Reported :
      (task : AgentTaskRecord) (lease : AgentTaskLease) (clock : Instant) (update : AgentTaskUpdate)
      (payload : Value) (w : World) (r : AgentTaskUpdateResult) (after : World)
      → record_new_update env parsers task lease clock update payload w ≡ ok (r, after)
      → Reported task update payload w r after
  unfolding record_new_update insert_update update_state new_v4
  new-Reported task lease clock update payload w r after h =
      elim (Result-cases (state_for_update update.event_type)) [
        | inr (e, is) ↦ ground (arith, h, is)
        | inl (state, is) ↦
            elim (Result-cases (
              append_event_in_transaction env
                (update_event task update payload (env.new_v4 w.drawn))
                (record w { drawn = suc w.drawn }))) [
                  | inr (e, no_event) ↦ ground (arith, h, is, no_event)
                  | inl ((event, middle), stored) ↦ record {
                    state = state;
                    event = event;
                    middle = middle;
                    was_open = ground (arith, h, is, stored);
                    is_state = is;
                    stored = stored;
                    first = ground (arith, h, is, stored);
                    result = ground (arith, h, is, stored);
                    tasks = ground (arith, h, is, stored);
                    updates = ground (arith, h, is, stored);
                    log = ground (arith, h, is, stored);
                    drawn = ground (arith, h, is, stored);
                  }
                ]
      ]

  module _ (laws : EnvLaws env) (task : AgentTaskRecord) (update : AgentTaskUpdate)
      (payload : Value) (w : World) (r : AgentTaskUpdateResult) (after : World)
      (wf : IsWellFormed env w) (done : Reported task update payload w r after) where
    drawn-Grows : Grows env task.room_id w [] (record w { drawn = suc w.drawn })
    unfolding new_v4
    drawn-Grows =
        (Emits-new_v4 env task.room_id).grows w w (env.new_v4 w.drawn)
          (record w { drawn = suc w.drawn }) (Grows-none env task.room_id w wf) refl

    -- The room of the task has got one event.
    pub middle-Grows : Grows env task.room_id w (done.event ∷ []) done.middle
    middle-Grows =
        (Emits-append env task.room_id (update_event task update payload (env.new_v4 w.drawn)) laws
            refl).grows
          w (record w { drawn = suc w.drawn }) done.event done.middle drawn-Grows done.stored

    pub appended_once :
        ◌≡◌ {A = RoomEvent × World}
          (done.event, done.middle)
          (
            next_event env
                (update_event task update payload (env.new_v4 w.drawn))
                (record w { drawn = suc w.drawn }),
            appended env
                (update_event task update payload (env.new_v4 w.drawn))
                (record w { drawn = suc w.drawn }),
          )
    appended_once =
        append-eq-ok env (update_event task update payload (env.new_v4 w.drawn))
          (record w { drawn = suc w.drawn }) drawn-Grows.well_formed (done.event, done.middle)
          done.stored

    -- The report is found again, with its event.
    pub found_again :
        (find (is_update task.task_id update.update_id) after.agent_task_updates
          ≡ some (record {
            task_id = task.task_id;
            update_id = update.update_id;
            event_ids = done.event.event_id ∷ [];
          }))
        × (events_by_id after.room_events (done.event.event_id ∷ []) ≡ done.event ∷ [])
    found_again = (
      ap (find (is_update task.task_id update.update_id)) done.updates
          ∙ (find-append (is_update task.task_id update.update_id) done.middle.agent_task_updates _
                (find-none _ done.middle.agent_task_updates done.first)
              ∙ ground (arith, ==_refl task.task_id, ==_refl update.update_id)),
      ap (λ log. events_by_id log (done.event.event_id ∷ [])) done.log
          ∙ events_by_id-Grows task.room_id w done.middle (done.event ∷ []) middle-Grows,
    )

    -- The event says what the update says, as far as JSONB keeps its payload.
    pub matches :
        env.stored_instant update.occurred_at / 1000 ≡ update.occurred_at / 1000
        → is_matching_agent_task_update (done.event ∷ []) update payload
          ≡ value_eq (env.jsonb payload) payload
    unfolding is_matching_agent_task_update
    matches exact =
        let is = ap (λ (x : RoomEvent × World). x.0) appended_once in
        subst
          (λ e.
            is_matching_agent_task_update (e ∷ []) update payload
            ≡ value_eq (env.jsonb payload) payload)
          (sym is)
          (ground (
            arith,
            exact,
            (str_eq_iff update.event_type update.event_type).1 refl,
            ==_refl (update.occurred_at / 1000),
          ))

-- ===== src/Examples/Agents.antt =====
-- Agents at work on their tasks.
use thought_khoral_room_gate.Prelude.{
  ℕ, inl, find, take, ◌≡◌, refl, true, false, Option, none, some, [], ◌∷◌, Result, ok, ◌==◌, All,
  Has, ◌&&◌, unwrap_or,
}
use thought_khoral_room_gate.Json.{json, string, Value, null, value_eq}
use thought_khoral_room_gate.Env.{Uuid}
use thought_khoral_room_gate.Store.{World, TaskRow, StoreError, empty_db}
use thought_khoral_room_gate.Store.Events.{
  append_event_in_transaction, new_v4, room_log, events_by_id,
}
use thought_khoral_room_gate.Store.Events.Log.{IsWellFormed}
use thought_khoral_room_gate.Protocol.Validity.{is_valid_room_event}
use thought_khoral_room_gate.Store.Leases.{
  agent_task_from_row, AgentTaskRecord, AgentTaskContext, running, holds, context_for_lease,
  AgentTaskLease, as_str, parse, awaiting_external_input, claim_oldest_queued_agent_task,
  is_claimable, oldest,
}
use thought_khoral_room_gate.Store.Leases.Exclusive.{parse-as_str, oldest_of, lease_is_exclusive}
use thought_khoral_room_gate.Store.Leases.Oldest.{Waits, claim_oldest_first}
use thought_khoral_room_gate.Store.Reports.{Parsers, normalized_agent_task_update_payload}
use thought_khoral_room_gate.Store.Updates.{
  AgentTaskUpdate, AgentTaskUpdateResult, state_for_update, insert_update, update_state,
  record_new_update, repeat_update, is_matching_agent_task_update, record_update_of,
  record_agent_task_update_with_outcome,
}
use thought_khoral_room_gate.Store.Updates.Retry.{normalized_payload, update_retry}
use thought_khoral_room_gate.Store.Updates.Final.{Ends, reports, here, ended_is_final}
use thought_khoral_room_gate.Store.Leases.Context.{context_for_lease-take}
use thought_khoral_room_gate.Protocol.{summarize_context}
use thought_khoral_room_gate.Examples.Setting.{env, env_laws, state_of, answer_of}

parse-as_str_example : parse (as_str awaiting_external_input) ≡ ok awaiting_external_input
parse-as_str_example = parse-as_str awaiting_external_input

abbrev task : Uuid → ℕ → TaskRow
task task_id created_at = record {
  task_id = task_id;
  room_id = 1;
  request_id = task_id;
  requester_id = 7;
  agent_id = 3;
  skill_id = "summarize-context";
  input = "all";
  context_revision = 0;
  state = "queued";
  lease_owner = none;
  lease_expires_at = none;
  created_at = created_at;
  updated_at = created_at;
}

abbrev two_tasks : World
two_tasks = record { db = record empty_db { agent_tasks = task 5 20 ∷ task 6 10 ∷ [] }; drawn = 0 }

abbrev no_lease : Option AgentTaskLease
no_lease = none

abbrev first_claim : Result StoreError (Option AgentTaskLease × World)
first_claim = claim_oldest_queued_agent_task env 3 40 100 two_tasks

abbrev first_lease : AgentTaskLease
first_lease = record { task_id = 6; owner_id = 40; expires_at = 300000000100 }

is_first :
    claim_oldest_queued_agent_task env 3 40 100 two_tasks
    ≡ ok (some first_lease, state_of first_claim)
unfolding claim_oldest_queued_agent_task
is_first = refl

abbrev second_claim : Result StoreError (Option AgentTaskLease × World)
second_claim = claim_oldest_queued_agent_task env 3 41 200 (state_of first_claim)

abbrev second_lease : AgentTaskLease
second_lease = record { task_id = 5; owner_id = 41; expires_at = 300000000200 }

is_second :
    claim_oldest_queued_agent_task env 3 41 200 (state_of first_claim)
    ≡ ok (some second_lease, state_of second_claim)
unfolding claim_oldest_queued_agent_task
is_second = refl

lease_is_exclusive_example : (second_lease.task_id == first_lease.task_id) ≡ false
lease_is_exclusive_example =
    lease_is_exclusive env (oldest_of 3) (oldest_of 3) 40 41 100 200 two_tasks
      (state_of first_claim) (state_of second_claim) first_lease second_lease (refl, (refl, tt))
      is_first refl is_second

claim_oldest_first_example :
    (first : TaskRow) × (first_lease.task_id ≡ first.task_id)
    × Has first two_tasks.agent_tasks
    × (((first.agent_id == 3) && is_claimable 100 first) ≡ true)
    × All (Waits 3 100 first) two_tasks.agent_tasks
claim_oldest_first_example =
    claim_oldest_first env 3 40 100 two_tasks (state_of first_claim) first_lease is_first

abbrev parsers : Parsers
parsers = record { parse_url = λ s. none; parse_from_rfc3339 = λ s. none }

abbrev progress : AgentTaskUpdate
progress = record {
  update_id = 60;
  event_type = "agent.task.progressed";
  payload = json (("note", string "half") ∷ []);
  occurred_at = 5001;
}

abbrev no_result : AgentTaskUpdateResult
no_result = record { task_id = 0; events = []; duplicate = true }

abbrev reported : Result StoreError (AgentTaskUpdateResult × World)
reported =
    record_agent_task_update_with_outcome env parsers first_lease 5000 5000 progress
      (state_of first_claim)

is_reported :
    record_agent_task_update_with_outcome env parsers first_lease 5000 5000 progress
      (state_of first_claim)
    ≡ ok (answer_of no_result reported, state_of reported)
unfolding record_agent_task_update_with_outcome record_update_of record_new_update
    claim_oldest_queued_agent_task insert_update update_state state_for_update
    append_event_in_transaction new_v4 is_valid_room_event as_str
is_reported = refl

is_new : (answer_of no_result reported).duplicate ≡ false
unfolding record_agent_task_update_with_outcome record_update_of record_new_update
    claim_oldest_queued_agent_task insert_update update_state state_for_update
    append_event_in_transaction new_v4 is_valid_room_event as_str
is_new = refl

claimed-IsWellFormed : IsWellFormed env (state_of first_claim)
unfolding claim_oldest_queued_agent_task
claimed-IsWellFormed = record { counts = λ r. tt; unused = λ i h. refl }

abbrev sent_progress : Value
sent_progress =
    unwrap_or (normalized_payload env parsers first_lease 5000 progress (state_of first_claim)) null

is_sent :
    normalized_payload env parsers first_lease 5000 progress (state_of first_claim)
    ≡ some sent_progress
unfolding claim_oldest_queued_agent_task oldest parse agent_task_from_row
    normalized_agent_task_update_payload
is_sent = refl

update_retry_example :
    record_agent_task_update_with_outcome env parsers first_lease 6000 6000 progress
      (state_of reported)
    ≡ ok (
      record {
        task_id = (answer_of no_result reported).task_id;
        events = (answer_of no_result reported).events;
        duplicate = true;
      },
      state_of reported,
    )
unfolding claim_oldest_queued_agent_task oldest parse agent_task_from_row
    normalized_agent_task_update_payload value_eq
update_retry_example =
    update_retry env parsers first_lease 5000 6000 5000 6000 progress (state_of first_claim)
      (state_of reported) (answer_of no_result reported) sent_progress env_laws claimed-IsWellFormed
      is_reported is_new is_sent refl refl

abbrev success : AgentTaskUpdate
success = record {
  update_id = 61;
  event_type = "agent.task.succeeded";
  payload = json (("note", string "done") ∷ []);
  occurred_at = 5001;
}

abbrev ended : Result StoreError (AgentTaskUpdateResult × World)
ended =
    record_agent_task_update_with_outcome env parsers first_lease 5000 5000 success
      (state_of first_claim)

is_ended :
    record_agent_task_update_with_outcome env parsers first_lease 5000 5000 success
      (state_of first_claim)
    ≡ ok (answer_of no_result ended, state_of ended)
unfolding record_agent_task_update_with_outcome record_update_of record_new_update
    claim_oldest_queued_agent_task insert_update update_state state_for_update
    append_event_in_transaction new_v4 is_valid_room_event as_str
is_ended = refl

is_new_end : (answer_of no_result ended).duplicate ≡ false
unfolding record_agent_task_update_with_outcome record_update_of record_new_update
    claim_oldest_queued_agent_task insert_update update_state state_for_update
    append_event_in_transaction new_v4 is_valid_room_event as_str
is_new_end = refl

ends : Ends success
unfolding state_for_update
ends = inl refl

abbrev repeated : Result StoreError (AgentTaskUpdateResult × World)
repeated =
    record_agent_task_update_with_outcome env parsers first_lease 6000 6000 success (state_of ended)

is_repeated :
    record_agent_task_update_with_outcome env parsers first_lease 6000 6000 success (state_of ended)
    ≡ ok (answer_of no_result repeated, state_of repeated)
unfolding record_agent_task_update_with_outcome record_update_of record_new_update repeat_update
    claim_oldest_queued_agent_task insert_update update_state state_for_update
    append_event_in_transaction new_v4 is_valid_room_event as_str events_by_id value_eq
    is_matching_agent_task_update
is_repeated = refl

abbrev later_claim : Result StoreError (Option AgentTaskLease × World)
later_claim = claim_oldest_queued_agent_task env 3 42 900000000000 (state_of repeated)

abbrev later_lease : AgentTaskLease
later_lease = record { task_id = 5; owner_id = 42; expires_at = 1200000000000 }

is_later :
    claim_oldest_queued_agent_task env 3 42 900000000000 (state_of repeated)
    ≡ ok (some later_lease, state_of later_claim)
unfolding record_agent_task_update_with_outcome record_update_of record_new_update repeat_update
    claim_oldest_queued_agent_task insert_update update_state state_for_update
    append_event_in_transaction new_v4 is_valid_room_event as_str events_by_id value_eq
    is_matching_agent_task_update
is_later = refl

ended_is_final_example : (later_lease.task_id == (answer_of no_result ended).task_id) ≡ false
ended_is_final_example =
    ended_is_final env parsers first_lease later_lease 5000 5000 900000000000 success
      (state_of first_claim) (state_of ended) (state_of repeated) (state_of later_claim)
      (answer_of no_result ended) (oldest_of 3) 42 is_ended is_new_end ends
      (reports first_lease 6000 6000 success here is_repeated) is_later

abbrev first_task : AgentTaskRecord
first_task = record {
  task_id = 6;
  room_id = 1;
  request_id = 6;
  requester_id = 7;
  agent_id = 3;
  skill_id = summarize_context;
  input = "all";
  context_revision = 0;
  state = running;
  lease_owner = some 40;
  lease_expires_at = some 300000000100;
  created_at = 10;
  updated_at = 100;
}

abbrev first_context : AgentTaskContext
first_context = record { task = first_task; events = [] }

is_context : context_for_lease env first_lease 5000 (state_of first_claim) ≡ ok (some first_context)
unfolding context_for_lease claim_oldest_queued_agent_task
is_context = refl

context_for_lease-take_example :
    ((row : TaskRow) × (find (holds env first_lease 5000) (state_of first_claim).agent_tasks
        ≡ some row)
      × (agent_task_from_row row ≡ ok first_task))
    × ([] ≡ take 0 (room_log 1 (state_of first_claim).room_events))
context_for_lease-take_example =
    context_for_lease-take env first_lease 5000 (state_of first_claim) first_context
      claimed-IsWellFormed is_context

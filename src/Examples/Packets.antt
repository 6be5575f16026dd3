-- ===== src/Examples/Packets.antt =====
-- What an agent is shown, and the drafts of the memory engine.
use thought_khoral_room_gate.Prelude.{
  ◌≡◌, refl, String, true, none, some, [], ◌∷◌, ok, All, unwrap_or,
}
use thought_khoral_room_gate.Json.{Items, cons, nil, json, json_array, string, list_of}
use thought_khoral_room_gate.Env.{Uuid}
use thought_khoral_room_gate.Protocol.{summarize_context}
use thought_khoral_room_gate.Store.{RoomEvent}
use thought_khoral_room_gate.Store.Leases.{AgentTaskLease, AgentTaskContext, running}
use thought_khoral_room_gate.Facilitator.{
  MemoryEngineDraftProposal, proposal_of, validate_memory_engine_proposal,
}
use thought_khoral_room_gate.Facilitator.Acceptance.{
  is_ok, is_acceptable, validate_memory_engine_proposal_lem,
}
use thought_khoral_room_gate.AgentService.{
  NormalizedAgentTaskUpdate, CanonicalRoomContextPacket, uuid_of, active_decisions, context_packet,
  terminal_citations_are_visible,
}
use thought_khoral_room_gate.AgentService.Standing.{
  decision_of, last_word, active_decisions-last_word,
}
use thought_khoral_room_gate.AgentService.Citations.{is_shown, terminal_citations_are_visible_lem}
use thought_khoral_room_gate.Rooms.Visibility.{event_visible_to}
use thought_khoral_room_gate.Examples.Setting.{env, env_laws}
use thought_khoral_room_gate.Examples.Requests.{after_confirmation}

active_decisions-last_word_example :
    decision_of 0 (active_decisions env after_confirmation.room_events)
    ≡ unwrap_or (last_word env 0 after_confirmation.room_events) none
active_decisions-last_word_example = active_decisions-last_word env 0 after_confirmation.room_events

abbrev spoken : RoomEvent
spoken = record {
  event_id = 4;
  room_id = 1;
  sequence = 1;
  request_id = 2;
  event_type = "message.created";
  actor_id = 7;
  actor_role = "human";
  actor_display_name = none;
  payload = json [];
  occurred_at = 1;
}

abbrev draft : MemoryEngineDraftProposal
draft = record { room_id = 1; title = "Ship"; summary = "on Friday"; source_event_ids = 4 ∷ [] }

validate_memory_engine_proposal_lem_example :
    (is_ok (validate_memory_engine_proposal draft (spoken ∷ []))
      ≡ is_acceptable draft (spoken ∷ []))
    × (is_acceptable draft (spoken ∷ []) ≡ true
        → validate_memory_engine_proposal draft (spoken ∷ []) ≡ ok (proposal_of draft))
validate_memory_engine_proposal_lem_example =
    validate_memory_engine_proposal_lem draft (spoken ∷ [])

abbrev context : AgentTaskContext
context = record {
  task = record {
    task_id = 6;
    room_id = 1;
    request_id = 6;
    requester_id = 7;
    agent_id = 3;
    skill_id = summarize_context;
    input = "all";
    context_revision = 1;
    state = running;
    lease_owner = some 40;
    lease_expires_at = some 500;
    created_at = 10;
    updated_at = 100;
  };
  events = spoken ∷ [];
}

abbrev lease : AgentTaskLease
lease = record { task_id = 6; owner_id = 40; expires_at = 500 }

abbrev no_digest : CanonicalRoomContextPacket → String
no_digest packet = ""

abbrev cited : Items
cited = cons (string "IIII") nil

abbrev result : NormalizedAgentTaskUpdate
result = record {
  event_type = "agent.task.succeeded";
  payload = json (("result", json (("citations", json_array (string "IIII" ∷ [])) ∷ [])) ∷ []);
  occurred_at = 2;
}

is_cited :
    terminal_citations_are_visible env (context_packet env no_digest context lease) result ≡ true
unfolding terminal_citations_are_visible context_packet event_visible_to
is_cited = refl

terminal_citations_are_visible_lem_example :
    All
      (λ c. (id : Uuid) × (uuid_of env c ≡ some id) × (is_shown env context id ≡ true))
      (list_of cited)
terminal_citations_are_visible_lem_example =
    terminal_citations_are_visible_lem env no_digest context lease result cited env_laws is_cited
      refl refl

-- ===== src/Lib.antt =====
-- The core of the room gateway, with proofs.
--
-- The gateway (src/) keeps rooms. Participants send JSON-RPC requests over a WebSocket; each request
-- is one PostgreSQL transaction that appends events to the log of its room, and every committed
-- event goes to a broadcast channel, from which the sockets of the room send it on. Agents outside
-- claim tasks from a queue under leases, and report on them.
--
-- Which file models what:
--   Env, Json, Text, Tx       what the gateway calls: identifiers, time, the JSON schemas, JSON values,
--                             texts, and transactions as functions of the state
--   Protocol, Protocol/*      src/protocol.rs: requests, errors, fingerprint, is_valid_room_event
--   Auth                      src/auth.rs: Actor, ActorRole
--   Store, Store/Events       src/store.rs: append_event_in_transaction, events_after, events_by_id,
--                             prior_request, record_request; migrations/ for the tables
--   Store/Tasks               src/store.rs: start_agent_task_in_transaction
--   Store/Leases              src/store.rs: claim_agent_task, claim_oldest_queued_agent_task,
--                             context_for_lease, agent_task_from_row
--   Store/Reports,            src/store.rs: record_agent_task_update_with_outcome and its helpers
--   Store/Updates
--   ActionItems               src/action_items.rs: extract_action_items
--   Rooms/Mentions,           src/rooms.rs: participant_mention_tokens, validate_mentions,
--   Rooms/Audience,           resolve_chat_audience, normalized_chat_payload, event_visible_to
--   Rooms/Visibility
--   Rooms/Participants        src/rooms.rs: presence and participant_snapshot
--   Rooms/Decisions           src/rooms.rs: decisions, from proposal to delete
--   Rooms/ActionItems         src/rooms.rs: the events of the built-in agent
--   Rooms/Process             src/rooms.rs: GatewayState::process
--   Ws, Ws/Messages,          src/ws.rs: websocket_session, handle_message, replay_in_order,
--   Ws/Delivery               cleanup_presence
--   AgentService              src/agent_service.rs: context_packet, active_decisions,
--                             terminal_citations_are_visible; src/store.rs: to_wire_value
--   Facilitator               src/facilitator.rs: validate_memory_engine_proposal
--   Conversation              src/conversation_store.rs, migrations/0006 and 0007: the tables of the agent
--                             conversations, and the crates that they call, as a record of functions
--   Conversation/Protocol     src/conversation_protocol.rs: errors, values, validate_turn_request
--   Conversation/Policy       src/conversation_store.rs: ConversationPolicy
--   Conversation/Context,     src/conversation_context.rs: build_context, freeze_context,
--   Conversation/Canonical    canonical_context_bytes, source_manifest
--   Conversation/Authority,   src/conversation_store.rs: task_authority, task_in_transaction, fail_task,
--   Conversation/Tasks,       claim, packet
--   Conversation/Claims
--   Conversation/Citations,   src/conversation_store.rs: record_update, validate_citations
--   Conversation/Updates,
--   Conversation/Reports
--   Conversation/Reserve,     src/conversation_store.rs: reserve_inner; src/rooms.rs:
--   Conversation/Turn,        authorize_conversation_turn, validate_conversation_mentions
--   Conversation/Reservation,
--   Conversation/Mentions
--   Conversation/Catalog      src/conversation_service.rs: validate_catalog, validate_catalog_selection
--   Conversation/Views        src/conversation_store.rs: conversation_view, task_view, receipt
--   Conversation/Service      src/conversation_service.rs: the handlers of the workers, of a conversation
--                             and of a task, profile_error
--   Conversation/Runs         sequences of the calls of the store
--   CatalogBridge/*           src/catalog_bridge.rs: CatalogBridgeSecret::new, CatalogBridge::page
--   Examples                  tests on a small world
-- The files below each of these hold the lemmas about it.
--
-- The state is a record of the tables as lists in the order of insertion, with a counter of the
-- identifiers that Uuid::new_v4 has given. A transaction is a function from the state to an error or
-- to a value and the next state; an error carries no state, since the transaction is rolled back.
-- The advisory lock of a room makes the requests of one room sequential, so a run is a sequence of
-- whole transactions. NOW() and Utc::now() are arguments. A primary key or a unique constraint is a
-- test in the insert; a CHECK is not, and that of agent_conversations is shown to hold. Identifiers
-- are the numbers of their 128 bits, instants are nanoseconds. What JSONB makes of the payload of an
-- event, and which payloads, texts and instants the columns of an event refuse, are parameters, since
-- JSONB changes the form of numbers and PostgreSQL stores no U+0000; the fingerprints and the other
-- columns are read back as they were stored.
--
-- Loops are structural. Only the search for mention tokens has fuel: for the length of a suffix as
-- many steps as the longest token has characters, and for its number one step more than there are
-- occupied tokens. A claim of a turn and the search of the catalog have the 100 rounds of the source.
--
-- A call of the conversations is one transaction, but a claim is one for each round: its result is the
-- world that it leaves beside the answer, since it may fail a turn, commit that and answer with an error.
-- The JSON schemas of the conversations are a parameter, of which the exclusion of turns uses only that
-- contracts/agent-conversation-v1/schemas/turn.schema.json admits no mode but "new" and "continue".
--
-- Not modelled: faults of connections and of the database, the room lock itself, the queue to the
-- memory engine after a commit, validate_request, the handlers turn, defaults and models, the
-- authentication and the strict reader of JSON in src/conversation_service.rs, the handlers of
-- src/agent_service.rs, tokens, the client of the catalog bridge and the configuration.
pub mod Prelude
pub mod Text
pub mod Json
pub mod Env
pub mod Tx
pub mod Store
pub mod Protocol
pub mod Auth
pub mod ActionItems
pub mod Rooms
pub mod Ws
pub mod Facilitator
pub mod Conversation
pub mod CatalogBridge
pub mod AgentService
pub mod Examples

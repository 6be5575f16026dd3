-- ===== src/Examples/Sockets.antt =====
-- Sockets that join, and messages with action items.
use thought_khoral_room_gate.Prelude.{
  ℕ, true, ◌-◌, ◌≡◌, refl, String, none, some, List, [], ◌∷◌, ok, All, keep, take, drop, length,
  arith,
}
use thought_khoral_room_gate.Text.{chars, lines}
use thought_khoral_room_gate.Protocol.{Join, join, decision_propose}
use thought_khoral_room_gate.Json.{value_eq}
use thought_khoral_room_gate.Protocol.Validity.{is_valid_room_event}
use thought_khoral_room_gate.Protocol.Fingerprint.{fingerprint}
use thought_khoral_room_gate.Store.Events.{
  room_log, events_after, append_event_in_transaction, new_v4, record_request, prior_request,
  events_by_id,
}
use thought_khoral_room_gate.ActionItems.{ActionItem, extract_action_items, remove_first}
use thought_khoral_room_gate.ActionItems.Fields.{
  IsComplete, count_bullets, extract_action_items-IsComplete,
}
use thought_khoral_room_gate.Rooms.Visibility.{event_visible_to}
use thought_khoral_room_gate.Rooms.Decisions.{append_as_actor, propose_decision, insert_decision}
use thought_khoral_room_gate.Rooms.Process.{
  ProcessedRequest, perform, process_new, process_repeat, process_in_room, process,
}
use thought_khoral_room_gate.Rooms.Process.History.{empty_world, empty-IsWellFormed}
use thought_khoral_room_gate.Rooms.Participants.Connections.{
  connections, joins, leaves, apply_changes, count_sockets, connections-count_sockets,
}
use thought_khoral_room_gate.Ws.{Session, send_repeat, is_visible, join_room, receive_lagged}
use thought_khoral_room_gate.Ws.Messages.{Gateway, Message, text, close, other, cleanup_presence}
use thought_khoral_room_gate.Ws.Messages.Balance.{after_messages, session_leaves_no_trace}
use thought_khoral_room_gate.Ws.Delivery.Repeated.{AreStored}
use thought_khoral_room_gate.Ws.Delivery.Steps.{
  Serves, joined, stored, lagged, requested, start_of, delivery_in_order,
}
use thought_khoral_room_gate.Examples.Setting.{env, env_laws, unicode, around, maya}
use thought_khoral_room_gate.Examples.Requests.{proposal, after_proposal, Run-of_proposal}

connections-count_sockets_example :
    connections 1 7 (apply_changes (joins 1 maya ∷ joins 1 maya ∷ leaves 1 7 ∷ []) [])
    ≡ count_sockets 1 7 (joins 1 maya ∷ joins 1 maya ∷ leaves 1 7 ∷ []) 0
connections-count_sockets_example =
    connections-count_sockets (joins 1 maya ∷ joins 1 maya ∷ leaves 1 7 ∷ []) [] 1 7

abbrev notes : String
notes = "@action-items\n- ship it | owner: Maya | due: Friday\nx\r\n - b"

abbrev two_items : List ActionItem
two_items =
    record { text = chars "ship it"; owner = some (chars "Maya"); due = some (chars "Friday") }
    ∷ record { text = chars "b"; owner = none; due = none }
    ∷ []

is_extracted : extract_action_items notes ≡ ok two_items
unfolding extract_action_items
is_extracted = refl

extract_action_items-IsComplete_example :
    All IsComplete two_items
    × (length two_items
        ≡ count_bullets (lines (remove_first (chars "@action-items") (chars notes))))
extract_action_items-IsComplete_example =
    extract_action_items-IsComplete notes two_items is_extracted

abbrev join_one : Join
join_one = record {
  id = "1";
  contract_version = "n2n.room.v1";
  request_id = 8;
  room_id = 1;
  occurred_at = 1;
  after_sequence = none;
}

abbrev unjoined : Session
unjoined = record { joined_room = none; last_sequence = 0; sent = []; repeated = [] }

abbrev opened : Session
opened = record { joined_room = some 1; last_sequence = 0; sent = []; repeated = [] }

abbrev caught_up : Session
caught_up = record {
  joined_room = some 1;
  last_sequence = 1;
  sent = after_proposal.room_events;
  repeated = [];
}

is_opened : join_room env 7 empty_world join_one unjoined ≡ ok opened
unfolding join_room events_after
is_opened = refl

is_caught_up : receive_lagged env 7 after_proposal opened ≡ ok caught_up
unfolding receive_lagged events_after process process_in_room prior_request process_new perform
    propose_decision new_v4 insert_decision append_as_actor append_event_in_transaction
    is_valid_room_event record_request event_visible_to
is_caught_up = refl

catches_up : Serves env unicode 7 1 empty_world opened after_proposal caught_up
catches_up = lagged (stored joined Run-of_proposal) is_caught_up

abbrev repeat : ProcessedRequest
repeat = record { events = after_proposal.room_events; duplicate = true }

is_repeat :
    process env unicode around maya (decision_propose proposal) after_proposal
    ≡ ok (repeat, after_proposal)
unfolding process process_in_room process_repeat prior_request process_new perform propose_decision
    new_v4 insert_decision append_as_actor append_event_in_transaction is_valid_room_event
    record_request events_by_id value_eq fingerprint
is_repeat = refl

abbrev answered_again : Session
answered_again = send_repeat repeat caught_up

answers_again : Serves env unicode 7 1 empty_world opened after_proposal answered_again
answers_again = requested around maya (decision_propose proposal) repeat catches_up is_repeat

delivery_in_order_example :
    (answered_again.sent
      ≡ keep (is_visible env 7) (
          take
            (answered_again.last_sequence - start_of join_one)
            (drop (start_of join_one) (room_log 1 after_proposal.room_events))))
    × AreStored after_proposal.room_events answered_again.repeated
    × ((after : Session) × (receive_lagged env 7 after_proposal answered_again ≡ ok after)
        × (after.last_sequence ≡ length (room_log 1 after_proposal.room_events)))
delivery_in_order_example =
    delivery_in_order env unicode 7 join_one empty_world after_proposal unjoined opened
      answered_again env_laws (empty-IsWellFormed env) (omega arith) is_opened answers_again

abbrev gateway : Gateway
gateway = record { world = after_proposal; presence = [] }

abbrev messages : List (ℕ × Message)
messages = (5, text (ok (join join_one))) ∷ (6, other) ∷ (7, close) ∷ []

session_leaves_no_trace_example :
    let after = after_messages env unicode true 100 maya [] messages gateway unjoined in
    connections 1 7 (cleanup_presence maya after.0 after.1) ≡ connections 1 7 []
session_leaves_no_trace_example =
    session_leaves_no_trace env unicode true 100 maya messages gateway unjoined 1 7 refl

-- ===== src/Conversation/Runs.antt =====
-- The conversations over time (src/conversation_store.rs): calls in any order, each of its transactions
-- under the lock of its room, while the rooms change as they like.
use thought_khoral_room_gate.Prelude.{
  ℕ, ◌≤◌, ◌≡◌, refl, String, Option, [], ok, arith, count, count_mono,
}
use thought_khoral_room_gate.Json.{Value}
use thought_khoral_room_gate.Env.{Uuid, Instant}
use thought_khoral_room_gate.Auth.{Actor}
use thought_khoral_room_gate.Store.{World}
use thought_khoral_room_gate.Conversation.{ConversationWorld, Crates}
use thought_khoral_room_gate.Conversation.Policy.{ConversationPolicy}
use thought_khoral_room_gate.Conversation.Catalog.{CatalogQuery}
use thought_khoral_room_gate.Conversation.Claims.{Times, claim, packet}
use thought_khoral_room_gate.Conversation.Updates.{Clocks}
use thought_khoral_room_gate.Conversation.Reports.{record_update}
use thought_khoral_room_gate.Conversation.Reserve.{ConversationReservation, Moments, is_current}
use thought_khoral_room_gate.Conversation.Reservation.{Gateway, reserve_inner}
use thought_khoral_room_gate.Conversation.Invariant.{
  open_in, busy_in, is_unchecked, IsSound, busy_in-is_current,
}
use thought_khoral_room_gate.Conversation.Invariant.Frame.{tables}
use thought_khoral_room_gate.Conversation.Invariant.Joined.{Sound}
use thought_khoral_room_gate.Conversation.Invariant.Claiming.{claim-Sound, packet-Sound}
use thought_khoral_room_gate.Conversation.Invariant.Recording.{record_update-Sound}
use thought_khoral_room_gate.Conversation.Invariant.Reservations.{ModeLaw, reserve_inner-Sound}

-- A step may run under another policy than the one before: the gateway was restarted.
pub data Step (crates : Crates) (w : ConversationWorld) : ConversationWorld → Type 0 where
  reserving :
      (policy : ConversationPolicy) (actor : Actor) (request : Value) (requested : Instant)
      (catalog : Option CatalogQuery) (gateway : Option Gateway) (moments : Moments)
      (outcome : ConversationReservation) (w' : ConversationWorld)
      → reserve_inner crates policy actor request requested catalog gateway moments w
        ≡ ok (outcome, w')
      → Step crates w w'
  claiming :
      (policy : ConversationPolicy) (owner : String) (times : ℕ → Times)
      → Step crates w (claim crates policy owner times w).0
  delivering :
      (policy : ConversationPolicy) (times : Times) (task lease : Uuid)
      → Step crates w (packet crates policy times task lease w).0
  reporting :
      (policy : ConversationPolicy) (task lease : Uuid) (clocks : Clocks) (request : Value)
      → Step crates w (record_update crates policy task lease clocks request w).0
  elsewhere : (rooms : World) → Step crates w (record w { rooms = rooms })

pub data Run (crates : Crates) (w : ConversationWorld) : ConversationWorld → Type 0 where
  start : Run crates w w
  next : {u v : ConversationWorld} → Run crates w u → Step crates u v → Run crates w v

abbrev pub without_conversations : World → ConversationWorld
without_conversations rooms = record {
  rooms = rooms;
  agent_conversations = [];
  conversation_tasks = [];
  conversation_updates = [];
  conversation_disclosures = [];
  conversation_update_requests = [];
}

Step-Sound :
    {crates : Crates} {u v : ConversationWorld}
    → ModeLaw crates
    → Step crates u v
    → Sound (tables u)
    → Sound (tables v)
Step-Sound {crates} {u} law
      (reserving policy actor request requested catalog gateway moments outcome v h) sound =
    (reserve_inner-Sound crates policy actor request requested catalog gateway moments law).keep u
      outcome v sound h
Step-Sound {crates} {u} law (claiming policy owner times) sound =
    claim-Sound crates policy owner times u sound
Step-Sound {crates} {u} law (delivering policy times task lease) sound =
    packet-Sound crates policy times task lease u sound
Step-Sound {crates} {u} law (reporting policy task lease clocks request) sound =
    record_update-Sound crates policy task lease clocks request u sound
Step-Sound law (elsewhere rooms) sound = sound

pub Run-Sound :
    {crates : Crates} {w v : ConversationWorld}
    → ModeLaw crates
    → Sound (tables w)
    → Run crates w v
    → Sound (tables v)
Run-Sound law sound start = sound
Run-Sound law sound (next run step) = Step-Sound law step (Run-Sound law sound run)

pub nothing_stored : IsSound [] []
nothing_stored = record {
  conversation_key = λ id. omega arith;
  task_key = λ id. omega arith;
  one_current = λ r. omega arith;
  open_busy = λ r. omega arith;
  checked = refl;
}

-- From a database without conversations, whatever is reserved, claimed, delivered and reported, at any
-- times, under any policies, and whatever happens in the rooms meanwhile: a room never has more than one
-- turn that is reserved or running, nor more than one conversation that is not superseded; it has such a
-- turn only while its conversation is reserved or running; and no conversation is reserved or running
-- without an active task, or otherwise with one. It is used of the schema of a turn that it admits no
-- mode but "new" and "continue".
pub turns_are_exclusive :
    {crates : Crates} {rooms : World} {w : ConversationWorld}
    → ModeLaw crates
    → Run crates (without_conversations rooms) w
    → (room : Uuid)
    → (count (open_in room) w.conversation_tasks ≤ 1)
      × (count (is_current room) w.agent_conversations ≤ 1)
      × (count (open_in room) w.conversation_tasks ≤ count (busy_in room) w.agent_conversations)
      × (count is_unchecked w.agent_conversations ≡ 0)
turns_are_exclusive {w = w} law run room =
    let sound = Run-Sound law nothing_stored run in
    (
      omega (
        arith,
        sound.open_busy room,
        sound.one_current room,
        count_mono (busy_in room) (is_current room) w.agent_conversations (busy_in-is_current room),
      ),
      sound.one_current room,
      sound.open_busy room,
      sound.checked,
    )

-- ===== src/Conversation/Invariant/Frame.antt =====
-- The steps of the conversation transactions that leave the two tables of the invariant alone, and the
-- rules for those that write them.
use thought_khoral_room_gate.Prelude.{◌≡◌, Bool, List, arith, update_where}
use thought_khoral_room_gate.Tx.{Tx}
use thought_khoral_room_gate.Tx.Frame.{Keeps}
use thought_khoral_room_gate.Tx.Hoare.{Hoare}
use thought_khoral_room_gate.Json.{Value}
use thought_khoral_room_gate.Env.{Env}
use thought_khoral_room_gate.Store.{World, StoreError}
use thought_khoral_room_gate.Conversation.{
  ConversationRow, TaskRow, UpdateRow, UpdateRequestRow, ConversationWorld, in_rooms,
}
use thought_khoral_room_gate.Conversation.Policy.{ConversationPolicy}
use thought_khoral_room_gate.Conversation.Tasks.{update_tasks, update_conversations, insert_update}
use thought_khoral_room_gate.Conversation.Citations.{validate_citations}
use thought_khoral_room_gate.Conversation.Updates.{insert_request, delete_updates}

abbrev pub Tables : Type 0
Tables = List ConversationRow × List TaskRow

abbrev pub tables : ConversationWorld → Tables
tables w = (w.agent_conversations, w.conversation_tasks)

pub Keeps-in_rooms : {A : Type 0} (m : Tx World StoreError A) → Keeps tables (in_rooms m)
Keeps-in_rooms m = record { same = λ s a t h. ground arith }

pub Keeps-insert_update : (row : UpdateRow) → Keeps tables (insert_update row)
unfolding insert_update
Keeps-insert_update row = record { same = λ s a t h. ground arith }

pub Keeps-insert_request : (row : UpdateRequestRow) → Keeps tables (insert_request row)
unfolding insert_request
Keeps-insert_request row = record { same = λ s a t h. ground arith }

pub Keeps-delete_updates : (p : UpdateRow → Bool) → Keeps tables (delete_updates p)
unfolding delete_updates
Keeps-delete_updates p = record { same = λ s a t h. ground arith }

pub Keeps-validate_citations :
    (env : Env) (policy : ConversationPolicy) (task : TaskRow) (reply : Value)
    → Keeps tables (validate_citations env policy task reply)
unfolding validate_citations
Keeps-validate_citations env policy task reply = record { same = λ s a t h. ground arith }

-- A condition on the tables after a write is the condition on what is written.
pub Hoare-update_tasks :
    (P : Tables → Type 0) (p : TaskRow → Bool) (f : TaskRow → TaskRow)
    → Hoare
        (λ s. P (s.agent_conversations, update_where p f s.conversation_tasks))
        (update_tasks p f)
        (λ _ s. P (tables s))
unfolding update_tasks
Hoare-update_tasks P p f = record {
  run = λ s a t h e.
      let cs : t.agent_conversations ≡ s.agent_conversations = ground arith in
      let ts : t.conversation_tasks ≡ update_where p f s.conversation_tasks = ground arith in
      rw (cs, ts) h;
}

pub Hoare-update_conversations :
    (P : Tables → Type 0) (p : ConversationRow → Bool) (f : ConversationRow → ConversationRow)
    → Hoare
        (λ s. P (update_where p f s.agent_conversations, s.conversation_tasks))
        (update_conversations p f)
        (λ _ s. P (tables s))
unfolding update_conversations
Hoare-update_conversations P p f = record {
  run = λ s a t h e.
      let cs : t.agent_conversations ≡ update_where p f s.agent_conversations = ground arith in
      let ts : t.conversation_tasks ≡ s.conversation_tasks = ground arith in rw (cs, ts) h;
}

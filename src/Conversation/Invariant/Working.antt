-- ===== src/Conversation/Invariant/Working.antt =====
-- `claim` and `packet` keep the invariant of the conversations, also when they fail a turn.
use thought_khoral_room_gate.Prelude.{
  ℕ, ◌≡◌, refl, String, Bool, true, ok, arith, update_where, ◌&&◌,
}
use thought_khoral_room_gate.Tx.{Tx, ◌>>=◌}
use thought_khoral_room_gate.Tx.Hoare.{
  Hoare, Hoare-bind, Hoare-keeps, Stable, Stable-Hoare, Stable-Keeps, stable_rules, Hoare-pure,
  Hoare-weaken,
}
use thought_khoral_room_gate.Env.{Uuid, Instant, Env}
use thought_khoral_room_gate.Store.{World, StoreError}
use thought_khoral_room_gate.Store.Events.{new_v4}
use thought_khoral_room_gate.Conversation.{
  ConversationState, TaskRow, UpdateRow, ConversationWorld, Crates, in_rooms,
}
use thought_khoral_room_gate.Conversation.Protocol.{ConversationError}
use thought_khoral_room_gate.Conversation.Policy.{ConversationPolicy}
use thought_khoral_room_gate.Conversation.Authority.{
  JoinedRow, is_open, is_task, is_conversation, task_authority, to_claim,
}
use thought_khoral_room_gate.Conversation.Tasks.{
  fail_task_state, fail_task, record_failure, update_tasks, update_conversations, works_on,
  released, failed_task, insert_update, with_ordinal,
}
use thought_khoral_room_gate.Conversation.Claims.{
  Times, refused, issue, start_lease, hand_over, refuse, leased_task, running_conversation,
  lease_expiry,
}
use thought_khoral_room_gate.Conversation.Invariant.{IsSound}
use thought_khoral_room_gate.Conversation.Invariant.Frame.{
  tables, Keeps-in_rooms, Keeps-insert_update, Hoare-update_tasks, Hoare-update_conversations,
}
use thought_khoral_room_gate.Conversation.Invariant.Joined.{
  Reads, Sound, task_authority-open, together-IsSound, fail-IsSound, neutral-IsSound,
}

-- The steps that keep the invariant whatever they are given.
abbrev pub KeepsSound : {A : Type 0} → Tx ConversationWorld ConversationError A → Type 0
KeepsSound m = Stable (λ s. Sound (tables s)) m

pub Sound-in_rooms : {A : Type 0} (m : Tx World StoreError A) → KeepsSound (in_rooms m)
Sound-in_rooms m = Stable-Keeps Sound tables (in_rooms m) (Keeps-in_rooms m)

pub Sound-insert_update : (row : UpdateRow) → KeepsSound (insert_update row)
Sound-insert_update row = Stable-Keeps Sound tables (insert_update row) (Keeps-insert_update row)

pub Sound-neutral :
    (p : TaskRow → Bool) (f : TaskRow → TaskRow)
    → ((t : TaskRow)
        → ((f t).task_id ≡ t.task_id) × ((f t).room_id ≡ t.room_id) × ((f t).state ≡ t.state))
    → KeepsSound (update_tasks p f)
unfolding update_tasks
Sound-neutral p f keeps = record {
  keep = λ s a t sound h.
      let cs : t.agent_conversations ≡ s.agent_conversations = ground arith in
      let ts : t.conversation_tasks ≡ update_where p f s.conversation_tasks = ground arith in
      rw (cs, ts) (neutral-IsSound p f keeps sound);
}

pub Sound-with_ordinal :
    (task : Uuid) (ordinal : ℕ) → KeepsSound (update_tasks (is_task task) (with_ordinal ordinal))
Sound-with_ordinal task ordinal =
    Sound-neutral (is_task task) (with_ordinal ordinal) (λ t. (refl, refl, refl))

Sound-record_failure :
    (env : Env) (now : Instant) (row : JoinedRow) (error : ConversationError)
    → KeepsSound (record_failure env now row error)
unfolding record_failure
Sound-record_failure env now row error =
    search (stable_rules, Sound-in_rooms, Sound-insert_update, Sound-with_ordinal)

module _ (row : JoinedRow) (open_task : is_open row.task.state ≡ true) where
  pub Hoare-fail_task_state :
      (now : Instant) (error : ConversationError)
      → Hoare (λ s. Reads row (tables s)) (fail_task_state now row error) (λ _ s. Sound (tables s))
  unfolding fail_task_state
  Hoare-fail_task_state now error =
      let p = λ (t : TaskRow). is_task row.task.task_id t && is_open t.state in
      let g = released ConversationState.unusable now in
      Hoare-bind
        (λ _ s.
          IsSound (update_where (works_on row.task) g s.agent_conversations) s.conversation_tasks)
        (update_tasks p (failed_task now error)) (λ _. update_conversations (works_on row.task) g)
        (Hoare-weaken (update_tasks p (failed_task now error))
          (Hoare-update_tasks (λ (cs, ts). IsSound (update_where (works_on row.task) g cs) ts) p
            (failed_task now error))
          (λ s h. fail-IsSound row h open_task now error) (λ a s h. h))
        (λ _. Hoare-update_conversations Sound (works_on row.task) g)

  pub Hoare-fail_task :
      (env : Env) (now : Instant) (error : ConversationError)
      → Hoare (λ s. Reads row (tables s)) (fail_task env now row error) (λ _ s. Sound (tables s))
  unfolding fail_task
  Hoare-fail_task env now error =
      Hoare-bind (λ _ s. Sound (tables s)) (fail_task_state now row error)
        (λ _. record_failure env now row error) (Hoare-fail_task_state now error)
        (λ _. Stable-Hoare _ (Sound-record_failure env now row error))

  module _ (crates : Crates) (policy : ConversationPolicy) where
    pub Hoare-refuse :
        (times : Times) (error : ConversationError)
        → Hoare
            (λ s. Reads row (tables s))
            (refuse crates policy times row error)
            (λ _ s. Sound (tables s))
    unfolding refuse
    Hoare-refuse times error =
        Hoare-bind (λ _ s. Sound (tables s))
          (fail_task crates.env times.current_timestamp row error) _
          (Hoare-fail_task crates.env times.current_timestamp error) (λ _. Hoare-pure refused)

    Hoare-start_lease :
        (owner : String) (times : Times) (token : Uuid)
        → task_authority policy times.now row to_claim ≡ ok tt
        → Hoare
            (λ s. Reads row (tables s))
            (start_lease crates policy owner times row token)
            (λ _ s. Sound (tables s))
    unfolding start_lease
    Hoare-start_lease owner times token allowed =
        let granted = task_authority-open policy times.now row to_claim allowed in
        let f =
          leased_task owner token (lease_expiry crates policy row.task) times.current_timestamp in
        let g = running_conversation times.current_timestamp in
        let q = is_conversation row.task.conversation_id in
        Hoare-bind (λ _ s. IsSound (update_where q g s.agent_conversations) s.conversation_tasks)
          (update_tasks (is_task row.task.task_id) f) (λ _. update_conversations q g)
          (Hoare-weaken (update_tasks (is_task row.task.task_id) f)
            (Hoare-update_tasks (λ (cs, ts). IsSound (update_where q g cs) ts)
              (is_task row.task.task_id) f)
            (λ s reads.
              together-IsSound row reads open_task f g (λ t. (refl, refl)) (λ c. (refl, refl, refl))
                granted.2 (ground (arith, granted.1, reads.1.active_read)) (λ _. refl))
            (λ a s h. h))
          (λ _. Hoare-update_conversations Sound q g)

    Sound-hand_over :
        (owner : String) (token : Uuid) → KeepsSound (hand_over crates policy owner row token)
    unfolding hand_over
    Sound-hand_over owner token = search stable_rules

    pub Hoare-issue :
        (owner : String) (times : Times)
        → task_authority policy times.now row to_claim ≡ ok tt
        → Hoare
            (λ s. Reads row (tables s))
            (issue crates policy owner times row)
            (λ _ s. Sound (tables s))
    unfolding issue
    Hoare-issue owner times allowed =
        Hoare-bind (λ _ s. Reads row (tables s)) (in_rooms (new_v4 crates.env))
          (λ token. start_lease crates policy owner times row token >>= λ _.
            hand_over crates policy owner row token)
          (Hoare-keeps tables (Reads row) _ (Keeps-in_rooms (new_v4 crates.env)))
          (λ token.
            Hoare-bind (λ _ s. Sound (tables s)) (start_lease crates policy owner times row token)
              (λ _. hand_over crates policy owner row token)
              (Hoare-start_lease owner times token allowed)
              (λ _. Stable-Hoare _ (Sound-hand_over owner token)))

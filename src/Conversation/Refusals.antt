-- ===== src/Conversation/Refusals.antt =====
-- src/conversation_store.rs: what `packet` and `record_update` leave when they return an error.
use thought_khoral_room_gate.Prelude.{
  ℕ, suc, ◌≡◌, refl, subst, ◌&&◌, ◌⊎◌, Result, ok, err, arith, Result-cases, Option-cases, inl, inr,
  find, sym,
}
use thought_khoral_room_gate.Tx.{Tx, ◌>>=◌, >>=-eq-ok, pure}
use thought_khoral_room_gate.Tx.Hoare.{Hoare, Hoare-bind, Hoare-fail, Hoare-if, Hoare-weaken}
use thought_khoral_room_gate.Json.{Value}
use thought_khoral_room_gate.Env.{Uuid}
use thought_khoral_room_gate.Conversation.{ConversationWorld, Crates}
use thought_khoral_room_gate.Conversation.Protocol.{ConversationError}
use thought_khoral_room_gate.Conversation.Policy.{ConversationPolicy}
use thought_khoral_room_gate.Conversation.Authority.{
  JoinedRow, is_open, id_is, task_authority, under,
}
use thought_khoral_room_gate.Conversation.Tasks.{task_in_transaction, fail_task}
use thought_khoral_room_gate.Conversation.Claims.{
  Times, settle, refuse_packet, deliver, room_of_task, packet_in_transaction, packet, fails_packet,
}
use thought_khoral_room_gate.Conversation.Updates.{Clocks, ConversationUpdateOutcome, is_request}
use thought_khoral_room_gate.Conversation.Reports.{
  record_allowed, record_denied, record_new, record_identified, record_update_in_transaction,
  record_update,
}
use thought_khoral_room_gate.Conversation.Invariant.Frame.{tables}
use thought_khoral_room_gate.Conversation.Invariant.Joined.{Reads, Sound, task_in_transaction-Reads}
use thought_khoral_room_gate.Conversation.Invariant.Closing.{open_turns, Hoare-fail_task-open}
use thought_khoral_room_gate.Conversation.Invariant.Reservations.{ModeLaw}
use thought_khoral_room_gate.Conversation.Runs.{
  Run, Run-Sound, without_conversations, nothing_stored,
}
use thought_khoral_room_gate.Store.{World}
use thought_khoral_room_gate.Conversation.Logged.{
  Anything, Hoare-after, Hoare-returns, Hoare-repeat,
}
use thought_khoral_room_gate.Conversation.Repeats.{record_update_parts, Keeps-room_of_task}

-- An error that is committed has closed one of the open turns.
abbrev Closes : {A : Type 0} → ℕ → Result ConversationError A → ConversationWorld → Type 0
Closes n r s = (e : ConversationError) → r ≡ err e → suc (open_turns s) ≡ n

-- What a call leaves with an error: the state as it was, or one open turn less.
abbrev ClosesOne : ConversationWorld → ConversationWorld → Type 0
ClosesOne w w' = (w' ≡ w) ⊎ (suc (open_turns w') ≡ open_turns w)

Hoare-no_error :
    {A : Type 0} {n : ℕ} (m : Tx ConversationWorld ConversationError (Result ConversationError A))
    → Hoare Anything m (λ r _. (a : A) × (r ≡ ok a))
    → Hoare Anything m (Closes n)
Hoare-no_error m h = Hoare-weaken m h (λ s p. p) (λ r s (a, is_ok) e is_err. absurd (ground arith))

Hoare-ok :
    {A : Type 0} (a : A)
    → Hoare {E = ConversationError} Anything
        (pure {A = Result ConversationError A} (ok a))
        (λ r _. (x : A) × (r ≡ ok x))
Hoare-ok a = Hoare-returns (ok a) (a, refl)

module _ (crates : Crates) (policy : ConversationPolicy) (row : JoinedRow) (lease : Uuid)
    (n : ℕ) where
  abbrev Before : ConversationWorld → Type 0
  Before s = Reads row (tables s) × (open_turns s ≡ n)

  Hoare-record_denied-Closes :
      (clocks : Clocks) (error : ConversationError)
      → Hoare Before (record_denied crates policy row clocks error) (Closes n)
  unfolding record_denied
  Hoare-record_denied-Closes clocks error =
      Hoare-if (is_open row.task.state) _ _
        (λ open_task.
          Hoare-bind (λ _ s. suc (open_turns s) ≡ n)
            (fail_task crates.env clocks.current_timestamp row error) (λ _. pure (err error))
            (Hoare-fail_task-open row open_task n crates.env clocks.current_timestamp error)
            (λ _. record {
              run = λ s r t closed h. λ e is_err. let same : t ≡ s = cc h in rw same closed;
            }))
        (λ _. Hoare-fail error)

  Hoare-record_new-Closes :
      (room : Uuid) (clocks : Clocks) (update_id : Uuid) (request : Value)
      → Hoare Before (record_new crates policy row lease room clocks update_id request) (Closes n)
  unfolding record_new record_allowed
  Hoare-record_new-Closes room clocks update_id request =
      elim (Result-cases (task_authority policy clocks.checked_at row (under lease))) [
        | inl (granted, allowed) ↦
            rw (allowed, record_new)
              (Hoare-weaken _ (Hoare-no_error _ (search (Hoare-after, Hoare-ok))) (λ s p. tt)
                (λ r s p. p))
        | inr (error, denied) ↦ rw (denied, record_new) (Hoare-record_denied-Closes clocks error)
      ]

  Hoare-deliver-Closes :
      (times : Times) → Hoare Before (deliver crates policy times lease row) (Closes n)
  unfolding deliver refuse_packet
  Hoare-deliver-Closes times =
      elim (Result-cases (task_authority policy times.now row (under lease))) [
        | inl (granted, allowed) ↦
            rw (allowed, deliver)
              (Hoare-weaken _ (Hoare-no_error _ (search (Hoare-after, Hoare-ok))) (λ s p. tt)
                (λ r s p. p))
        | inr (error, denied) ↦
            rw (denied, deliver)
              (Hoare-if
                (id_is row.task.lease_token lease && (fails_packet error && is_open row.task.state))
                _ _
                (λ fails.
                  Hoare-bind (λ _ s. suc (open_turns s) ≡ n)
                    (fail_task crates.env times.current_timestamp row error) (λ _. pure (err error))
                    (Hoare-fail_task-open row (ground arith) n crates.env times.current_timestamp
                      error)
                    (λ _. record {
                      run = λ s r t closed h. λ e is_err. let same : t ≡ s = cc h in rw same closed;
                    }))
                (λ _. Hoare-fail error))
      ]

module _ (crates : Crates) (policy : ConversationPolicy) where
  settle-ClosesOne :
      {A : Type 0} (m : Tx ConversationWorld ConversationError (Result ConversationError A))
      (w w' : ConversationWorld) (e : ConversationError)
      → ((r : Result ConversationError A) (t : ConversationWorld)
          → m w ≡ ok (r, t)
          → Closes (open_turns w) r t)
      → settle m w ≡ (w', err e)
      → ClosesOne w w'
  settle-ClosesOne m w w' e h k = elim (Result-cases (m w)) [
    | inl ((r, t), run) ↦
        let is_err : r ≡ err e = ground arith in
        let same : t ≡ w' = ground arith in
        inr (subst (λ u. suc (open_turns u) ≡ open_turns w) same (h r t run e is_err))
    | inr (error, rolled_back) ↦ inl (ground arith)
  ]

  record_identified-Closes :
      (row : JoinedRow) (lease room : Uuid) (clocks : Clocks) (request : Value) (id : Uuid)
      (s t : ConversationWorld) (r : Result ConversationError ConversationUpdateOutcome)
      → Reads row (tables s)
      → record_identified crates policy row lease room clocks request id s ≡ ok (r, t)
      → Closes (open_turns s) r t
  unfolding record_identified
  record_identified-Closes row lease room clocks request id s t r reads h =
      elim (Option-cases (find (is_request row.task.task_id id) s.conversation_update_requests)) [
        | inl new ↦
            (Hoare-record_new-Closes crates policy row lease (open_turns s) room clocks id
                request).run
              s r t (reads, refl) (ground arith)
        | inr (prior, found) ↦
            let answer =
              (Hoare-repeat crates policy row lease room clocks request prior).run s r t tt
                (ground arith) in
            λ e is_err. absurd (ground arith)
      ]

  refused_report :
      (task lease : Uuid) (clocks : Clocks) (request : Value) (w w' : ConversationWorld)
      (e : ConversationError)
      → Sound (tables w)
      → record_update crates policy task lease clocks request w ≡ (w', err e)
      → ClosesOne w w'
  unfolding record_update
  refused_report task lease clocks request w w' e sound =
      settle-ClosesOne (record_update_in_transaction crates policy task lease clocks request) w w' e
        (λ r t run.
          let (room, row, id, read, this, named, rest) =
            record_update_parts crates policy task lease clocks request w t r run in
          let (_, _, reads) = task_in_transaction-Reads task w w row sound read in
          record_identified-Closes row lease room clocks request id w t r reads rest)

  refused_packet :
      (times : Times) (task lease : Uuid) (w w' : ConversationWorld) (e : ConversationError)
      → Sound (tables w)
      → packet crates policy times task lease w ≡ (w', err e)
      → ClosesOne w w'
  unfolding packet packet_in_transaction
  refused_packet times task lease w w' e sound =
      settle-ClosesOne (packet_in_transaction crates policy times task lease) w w' e (λ r t run.
        let (room, s1, first, after_room) =
          >>=-eq-ok (room_of_task task)
            (λ _. task_in_transaction task >>= deliver crates policy times lease) w run in
        let (row, s2, second, last) =
          >>=-eq-ok (task_in_transaction task) (deliver crates policy times lease) s1 after_room in
        let same1 : s1 ≡ w = (Keeps-room_of_task task).same w room s1 first in
        let (same2, _, reads) =
          task_in_transaction-Reads task s1 s2 row (subst (λ u. Sound (tables u)) (sym same1) sound)
            second in
        let open_same : open_turns s2 ≡ open_turns w = rw (same2, same1) refl in
        (Hoare-deliver-Closes crates policy row lease (open_turns w) times).run s2 r t
          (subst (λ u. Reads row (tables u)) (sym same2) reads, open_same) last)

-- A delivery or a report that returns an error, and what it leaves.
pub data RefusedCall (crates : Crates) (w w' : ConversationWorld) : Type 0 where
  delivery :
      (policy : ConversationPolicy) (times : Times) (task lease : Uuid) (e : ConversationError)
      → packet crates policy times task lease w ≡ (w', err e)
      → RefusedCall crates w w'
  report :
      (policy : ConversationPolicy) (task lease : Uuid) (clocks : Clocks) (request : Value)
      (e : ConversationError)
      → record_update crates policy task lease clocks request w ≡ (w', err e)
      → RefusedCall crates w w'

-- From a database without conversations, whatever is reserved, claimed, delivered and reported before: a
-- delivery or a report that returns an error leaves everything as it was, or has closed one turn that
-- was open. It is used of the schema of a turn that it admits no mode but "new" and "continue".
pub refused_calls :
    {crates : Crates} {rooms : World} {w w' : ConversationWorld}
    → ModeLaw crates
    → Run crates (without_conversations rooms) w
    → RefusedCall crates w w'
    → (w' ≡ w) ⊎ (suc (open_turns w') ≡ open_turns w)
refused_calls {crates} {w = w} {w' = w'} law run (delivery policy times task lease e h) =
    refused_packet crates policy times task lease w w' e (Run-Sound law nothing_stored run) h
refused_calls {crates} {w = w} {w' = w'} law run (report policy task lease clocks request e h) =
    refused_report crates policy task lease clocks request w w' e (Run-Sound law nothing_stored run)
      h

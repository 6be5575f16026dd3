-- ===== src/Store/Leases/Exclusive.antt =====
-- src/store.rs: who can hold a task.
use thought_khoral_room_gate.Prelude.{
  String, ◌≡◌, refl, sym, ◌∙◌, ap, subst, subst₂, &&-left, Bool, true, false, Option, none, some,
  List, [], ◌∷◌, ok, arith, any, find, update_where, ltb, ◌==◌, ==→eq, Bool-cases, Option-cases,
  inl, inr, some_inj,
}
use thought_khoral_room_gate.Tx.{Tx}
use thought_khoral_room_gate.Env.{Uuid, Instant, Env}
use thought_khoral_room_gate.Store.{TaskRow, World, StoreError}
use thought_khoral_room_gate.Store.Leases.{
  AgentTaskState, AgentTaskLease, as_str, parse, queued, running, awaiting_external_input,
  succeeded, failed, is_task, leased, lease_end, oldest, claimable_of, claim_agent_task,
  claim_oldest_queued_agent_task, is_claimable_task, claimed,
}

-- The text of a state is read back as that state.
pub parse-as_str : (state : AgentTaskState) → parse (as_str state) ≡ ok state
unfolding parse as_str
parse-as_str queued = refl
parse-as_str running = refl
parse-as_str awaiting_external_input = refl
parse-as_str succeeded = refl
parse-as_str failed = refl

-- No row of the task can be claimed at this time.
abbrev pub IsHeld : Uuid → Instant → List TaskRow → Type 0
IsHeld task_id at rows = any (is_claimable_task task_id at) rows ≡ false

pub find-none : {A : Type 0} (p : A → Bool) (xs : List A) → any p xs ≡ false → find p xs ≡ none
find-none p [] h = refl
find-none p (x ∷ xs) h = ground (arith, find-none p xs)

pub find_sound : {A : Type 0} (p : A → Bool) (xs : List A) (a : A) → find p xs ≡ some a → p a ≡ true
find_sound p [] a h = cc
find_sound p (x ∷ xs) a h = elim (Bool-cases (p x)) [
  | inl hit ↦ subst (λ b. p b ≡ true) (some_inj (ground (arith, h, hit))) hit
  | inr miss ↦ find_sound p xs a (ground (arith, h, miss))
]

-- The PRIMARY KEY (task_id).
abbrev pub IsKeyed : List TaskRow → Type 0
IsKeyed [] = Unit {0}
IsKeyed (row ∷ rows) = (any (is_task row.task_id) rows ≡ false) × IsKeyed rows

no_rows-IsHeld :
    (task_id : Uuid) (at : Instant) (rows : List TaskRow)
    → any (is_task task_id) rows ≡ false
    → IsHeld task_id at rows
no_rows-IsHeld task_id at [] h = refl
no_rows-IsHeld task_id at (row ∷ rows) h = ground (arith, no_rows-IsHeld task_id at rows)

module _ (task_id owner_id : Uuid) (expires_at at at' : Instant)
    (until : ltb at' expires_at ≡ true) where
  untouched-IsHeld :
      (rows : List TaskRow)
      → any (is_task task_id) rows ≡ false
      → IsHeld task_id at'
          (update_where (is_claimable_task task_id at) (claimed owner_id expires_at at) rows)
  untouched-IsHeld [] h = refl
  untouched-IsHeld (row ∷ rows) h = ground (arith, untouched-IsHeld rows)

  no_rows-found :
      (rows : List TaskRow)
      → any (is_task task_id) rows ≡ false
      → find (is_claimable_task task_id at) rows ≡ none
  no_rows-found rows h =
      find-none (is_claimable_task task_id at) rows (no_rows-IsHeld task_id at rows h)

  -- A claim that found a row leaves the task held until its lease ends.
  claimed-IsHeld :
      (rows : List TaskRow) (found : TaskRow)
      → IsKeyed rows
      → find (is_claimable_task task_id at) rows ≡ some found
      → IsHeld task_id at'
          (update_where (is_claimable_task task_id at) (claimed owner_id expires_at at) rows)
  claimed-IsHeld [] found k h = refl
  claimed-IsHeld (row ∷ rows) found k h = elim (Bool-cases (row.task_id == task_id)) [
    | inl own ↦
        let alone =
          subst (λ id. any (is_task id) rows ≡ false) (==→eq row.task_id task_id own) k.0 in
        ground (arith, until, own, alone, untouched-IsHeld rows, no_rows-found rows)
    | inr other ↦ ground (arith, other, claimed-IsHeld rows found k.1)
  ]

  -- So does a claim of the oldest, whatever state it sets.
  all_leased-IsHeld :
      (state : String) (rows : List TaskRow)
      → IsHeld task_id at'
          (update_where (is_task task_id) (leased owner_id expires_at at state) rows)
  all_leased-IsHeld state [] = refl
  all_leased-IsHeld state (row ∷ rows) = ground (arith, until, all_leased-IsHeld state rows)

-- The oldest of some rows is one of them.
pub oldest-any :
    (p : TaskRow → Bool) (rows : List TaskRow) (row : TaskRow)
    → any p rows ≡ false
    → oldest rows ≡ some row
    → p row ≡ false
unfolding oldest
oldest-any p [] row h e = cc
oldest-any p (first ∷ rows) row h e = elim (Option-cases (oldest rows)) [
  | inl empty ↦ ground (arith, empty)
  | inr (other, is) ↦ ground (arith, is, oldest-any p rows other)
]

claimable_of-held :
    (agent_id task_id : Uuid) (at : Instant) (rows : List TaskRow)
    → IsHeld task_id at rows
    → any (is_task task_id) (claimable_of agent_id at rows) ≡ false
claimable_of-held agent_id task_id at [] h = refl
claimable_of-held agent_id task_id at (row ∷ rows) h =
    ground (arith, claimable_of-held agent_id task_id at rows)

module _ (env : Env) where
  held-refused :
      (task_id owner_id : Uuid) (now : Instant) (w : World)
      → IsHeld task_id (env.stored_instant now) w.agent_tasks
      → claim_agent_task env task_id owner_id now w ≡ ok (none, w)
  unfolding claim_agent_task
  held-refused task_id owner_id now w h = rw (
    find-none (is_claimable_task task_id (env.stored_instant now)) w.agent_tasks h,
    claim_agent_task,
  )

  pub held-passed :
      (task_id agent_id owner_id : Uuid) (now : Instant) (w w' : World) (lease : AgentTaskLease)
      → IsHeld task_id (env.stored_instant now) w.agent_tasks
      → claim_oldest_queued_agent_task env agent_id owner_id now w ≡ ok (some lease, w')
      → (lease.task_id == task_id) ≡ false
  unfolding claim_oldest_queued_agent_task
  held-passed task_id agent_id owner_id now w w' lease h k =
      let at = env.stored_instant now in
      elim (Option-cases (oldest (claimable_of agent_id at w.agent_tasks))) [
        | inl empty ↦ ground (arith, k, empty)
        | inr (row, is) ↦ ground (
          arith,
          k,
          is,
          oldest-any (is_task task_id) (claimable_of agent_id at w.agent_tasks) row
              (claimable_of-held agent_id task_id at w.agent_tasks h),
        )
      ]

  -- What a claim of one task that succeeds returns and writes.
  claim-eq-ok :
      (task_id owner_id : Uuid) (now : Instant) (w after : World) (lease : AgentTaskLease)
      → claim_agent_task env task_id owner_id now w ≡ ok (some lease, after)
      → (row : TaskRow) × (find (is_claimable_task task_id (env.stored_instant now)) w.agent_tasks
          ≡ some row)
        × (lease
            ≡ record { task_id = row.task_id; owner_id = owner_id; expires_at = lease_end env now })
        × (after.agent_tasks
            ≡ update_where
                (is_claimable_task task_id (env.stored_instant now))
                (claimed owner_id (lease_end env now) (env.stored_instant now))
                w.agent_tasks)
  unfolding claim_agent_task
  claim-eq-ok task_id owner_id now w after lease h =
      elim (Option-cases
        (find (is_claimable_task task_id (env.stored_instant now)) w.agent_tasks)) [
          | inl none_found ↦ ground (arith, h, none_found)
          | inr (row, is) ↦ (row, is, ground (arith, h, is), ground (arith, h, is))
        ]

  pub oldest-eq-ok :
      (agent_id owner_id : Uuid) (now : Instant) (w after : World) (lease : AgentTaskLease)
      → claim_oldest_queued_agent_task env agent_id owner_id now w ≡ ok (some lease, after)
      → (row : TaskRow) × (oldest (claimable_of agent_id (env.stored_instant now) w.agent_tasks)
          ≡ some row)
        × (lease
            ≡ record { task_id = row.task_id; owner_id = owner_id; expires_at = lease_end env now })
        × (after.agent_tasks
            ≡ update_where
                (is_task row.task_id)
                (leased owner_id (lease_end env now) (env.stored_instant now) "running")
                w.agent_tasks)
  unfolding claim_oldest_queued_agent_task
  oldest-eq-ok agent_id owner_id now w after lease h =
      elim (Option-cases (oldest (claimable_of agent_id (env.stored_instant now) w.agent_tasks))) [
        | inl none_found ↦ ground (arith, h, none_found)
        | inr (row, is) ↦ (row, is, ground (arith, h, is), ground (arith, h, is))
      ]

  claim-IsHeld :
      (task_id owner_id : Uuid) (now now' : Instant) (w after : World) (lease : AgentTaskLease)
      → IsKeyed w.agent_tasks
      → claim_agent_task env task_id owner_id now w ≡ ok (some lease, after)
      → ltb (env.stored_instant now') lease.expires_at ≡ true
      → IsHeld lease.task_id (env.stored_instant now') after.agent_tasks
  claim-IsHeld task_id owner_id now now' w after lease k h until =
      let (row, is, returned, written) = claim-eq-ok task_id owner_id now w after lease h in
      let own =
        find_sound (is_claimable_task task_id (env.stored_instant now)) w.agent_tasks row is in
      let until' : ltb (env.stored_instant now') (lease_end env now) ≡ true =
        subst (λ l. ltb (env.stored_instant now') l.expires_at ≡ true) returned until in
      let same : task_id ≡ lease.task_id =
        sym (==→eq row.task_id task_id (&&-left _ _ own)) ∙ sym (ap (λ l. l.task_id) returned) in
      subst₂ (λ id rows. IsHeld id (env.stored_instant now') rows) same (sym written)
        (claimed-IsHeld task_id owner_id (lease_end env now) (env.stored_instant now)
          (env.stored_instant now') until' w.agent_tasks row k is)

  oldest-IsHeld :
      (agent_id owner_id : Uuid) (now now' : Instant) (w after : World) (lease : AgentTaskLease)
      → claim_oldest_queued_agent_task env agent_id owner_id now w ≡ ok (some lease, after)
      → ltb (env.stored_instant now') lease.expires_at ≡ true
      → IsHeld lease.task_id (env.stored_instant now') after.agent_tasks
  oldest-IsHeld agent_id owner_id now now' w after lease h until =
      let (row, is, returned, written) = oldest-eq-ok agent_id owner_id now w after lease h in
      let until' : ltb (env.stored_instant now') (lease_end env now) ≡ true =
        subst (λ l. ltb (env.stored_instant now') l.expires_at ≡ true) returned until in
      subst₂ (λ id rows. IsHeld id (env.stored_instant now') rows)
        (sym (ap (λ l. l.task_id) returned)) (sym written)
        (all_leased-IsHeld row.task_id owner_id (lease_end env now) (env.stored_instant now)
          (env.stored_instant now') until' "running" w.agent_tasks)

-- A claim of a task, or of an agent's oldest task.
pub data Claim : Type 0 where
  one : Uuid → Claim
  oldest_of : Uuid → Claim

abbrev pub run_claim : Env → Claim → Uuid → Instant → Tx World StoreError (Option AgentTaskLease)
run_claim env (one task_id) = claim_agent_task env task_id
run_claim env (oldest_of agent_id) = claim_oldest_queued_agent_task env agent_id

-- No claim gets a task that is held.
pub held-run_claim :
    (env : Env) (claim : Claim) (task_id owner_id : Uuid) (now : Instant) (w after : World)
    (lease : AgentTaskLease)
    → IsHeld task_id (env.stored_instant now) w.agent_tasks
    → run_claim env claim owner_id now w ≡ ok (some lease, after)
    → (lease.task_id == task_id) ≡ false
held-run_claim env (oldest_of agent_id) task_id owner_id now w after lease held h =
    held-passed env task_id agent_id owner_id now w after lease held h
held-run_claim env (one other) task_id owner_id now w after lease held h =
    let (row, is, returned, written) = claim-eq-ok env other owner_id now w after lease h in
    let own = find_sound (is_claimable_task other (env.stored_instant now)) w.agent_tasks row is in
    let same : lease.task_id ≡ other =
      ap (λ l. l.task_id) returned ∙ ==→eq row.task_id other (&&-left _ _ own) in
    elim (Bool-cases (lease.task_id == task_id)) [
      | inr apart ↦ apart
      | inl both ↦
          let refused = held-refused env other owner_id now w (
            subst (λ id. IsHeld id (env.stored_instant now) w.agent_tasks)
              (sym (==→eq lease.task_id task_id both) ∙ same) held) in
          cc (h, refused)
    ]

-- While a lease runs, no claim by anybody gets its task: until the end of the lease that a claim
-- returned, the next claim, of either kind, returns no lease or one of another task.
pub lease_is_exclusive :
    (env : Env) (first second : Claim) (owner_id owner_id' : Uuid) (now now' : Instant)
    (w w' w'' : World) (lease lease' : AgentTaskLease)
    → IsKeyed w.agent_tasks
    → run_claim env first owner_id now w ≡ ok (some lease, w')
    → ltb (env.stored_instant now') lease.expires_at ≡ true
    → run_claim env second owner_id' now' w' ≡ ok (some lease', w'')
    → (lease'.task_id == lease.task_id) ≡ false
lease_is_exclusive env first second owner_id owner_id' now now' w w' w'' lease lease' k h until h' =
    held-run_claim env second lease.task_id owner_id' now' w' w'' lease' (held first h) h'
  where
    held :
        (claim : Claim)
        → run_claim env claim owner_id now w ≡ ok (some lease, w')
        → IsHeld lease.task_id (env.stored_instant now') w'.agent_tasks
    held (one task_id) h = claim-IsHeld env task_id owner_id now now' w w' lease k h until
    held (oldest_of agent_id) h = oldest-IsHeld env agent_id owner_id now now' w w' lease h until

-- ===== src/Store/Leases/Oldest.antt =====
-- src/store.rs: which task a claim for an agent takes.
use thought_khoral_room_gate.Prelude.{
  ◌≡◌, refl, sym, ap, subst, true, false, ◌&&◌, none, some, List, [], ◌∷◌, ok, arith, All, ◌==◌,
  Has, Has-keep, ◌∙◌, Option-cases, Bool-cases, inl, inr, some_inj,
}
use thought_khoral_room_gate.Env.{Uuid, Instant, Env}
use thought_khoral_room_gate.Store.{TaskRow, World}
use thought_khoral_room_gate.Store.Leases.{
  AgentTaskLease, is_claimable, is_older, oldest, claimable_of, claim_oldest_queued_agent_task,
}
use thought_khoral_room_gate.Store.Leases.Exclusive.{oldest-eq-ok}

abbrev Before : TaskRow → TaskRow → Type 0
Before a b = is_older a b ≡ true

is_older_trans : (a b c : TaskRow) → is_older a b ≡ true → is_older b c ≡ true → is_older a c ≡ true
is_older_trans a b c h k = ground arith

is_older_total : (a b : TaskRow) → is_older a b ≡ false → is_older b a ≡ true
is_older_total a b h = ground arith

is_older_refl : (a : TaskRow) → is_older a a ≡ true
is_older_refl a = ground arith

All-Before :
    (a b : TaskRow) (rows : List TaskRow) → Before a b → All (Before b) rows → All (Before a) rows
All-Before a b [] h k = tt
All-Before a b (row ∷ rows) h k = (is_older_trans a b row h k.0, All-Before a b rows h k.1)

oldest-empty : (rows : List TaskRow) → oldest rows ≡ none → rows ≡ []
unfolding oldest
oldest-empty [] h = refl
oldest-empty (row ∷ rows) h = elim (Option-cases (oldest rows)) [
  | inl e ↦ ground (arith, h, e)
  | inr (other, e) ↦ elim (Bool-cases (is_older row other)) [
    | inl older ↦ ground (arith, h, e, older)
    | inr newer ↦ ground (arith, h, e, newer)
  ]
]

oldest-All :
    (rows : List TaskRow) (first : TaskRow) → oldest rows ≡ some first → All (Before first) rows
unfolding oldest
oldest-All [] first h = tt
oldest-All (row ∷ rows) first h = elim (Option-cases (oldest rows)) [
  | inl e ↦
      let is : row ≡ first = some_inj (ground (arith, h, e)) in
      subst (λ x. All (Before x) (row ∷ rows)) is
        (is_older_refl row, subst (All (Before row)) (sym (oldest-empty rows e)) tt)
  | inr (other, e) ↦ elim (Bool-cases (is_older row other)) [
    | inl older ↦
        let is : row ≡ first = some_inj (ground (arith, h, e, older)) in
        subst (λ x. All (Before x) (row ∷ rows)) is
          (is_older_refl row, All-Before row other rows older (oldest-All rows other e))
    | inr newer ↦
        let is : other ≡ first = some_inj (ground (arith, h, e, newer)) in
        subst (λ x. All (Before x) (row ∷ rows)) is
          (is_older_total row other newer, oldest-All rows other e)
  ]
]

-- Claimable tasks of the agent come after the first.
abbrev pub Waits : Uuid → Instant → TaskRow → TaskRow → Type 0
Waits agent_id at first row =
    ((row.agent_id == agent_id) && is_claimable at row) ≡ true → is_older first row ≡ true

All-kept :
    (agent_id : Uuid) (at : Instant) (first : TaskRow) (rows : List TaskRow)
    → All (Before first) (claimable_of agent_id at rows)
    → All (Waits agent_id at first) rows
All-kept agent_id at first [] h = tt
All-kept agent_id at first (row ∷ rows) h =
    elim (Bool-cases ((row.agent_id == agent_id) && is_claimable at row)) [
      | inl kept ↦
          let e : claimable_of agent_id at (row ∷ rows) ≡ row ∷ claimable_of agent_id at rows =
            ground (arith, kept) in
          let h' = subst (All (Before first)) e h in
          (λ _. h'.0, All-kept agent_id at first rows h'.1)
      | inr dropped ↦
          let e : claimable_of agent_id at (row ∷ rows) ≡ claimable_of agent_id at rows =
            ground (arith, dropped) in
          let h' = subst (All (Before first)) e h in
          (λ k. ground (arith, k, dropped), All-kept agent_id at first rows h')
    ]

-- The oldest of some rows is one of them.
oldest-Has : (rows : List TaskRow) (first : TaskRow) → oldest rows ≡ some first → Has first rows
unfolding oldest
oldest-Has [] first h = cc
oldest-Has (row ∷ rows) first h = elim (Option-cases (oldest rows)) [
  | inl e ↦ inl (some_inj (ground (arith, h, e)))
  | inr (other, e) ↦ elim (Bool-cases (is_older row other)) [
    | inl older ↦ inl (some_inj (ground (arith, h, e, older)))
    | inr newer ↦
        let is : other ≡ first = some_inj (ground (arith, h, e, newer)) in
        inr (oldest-Has rows first (e ∙ ap some is))
  ]
]

-- A claim for an agent takes its oldest claimable task: the task of the lease is the one of a row of
-- the table that is the agent's and claimable, and than which no claimable task of the agent was
-- created earlier, with the smaller identifier first among tasks created at the same instant.
pub claim_oldest_first :
    (env : Env) (agent_id owner_id : Uuid) (now : Instant) (w after : World)
    (lease : AgentTaskLease)
    → claim_oldest_queued_agent_task env agent_id owner_id now w ≡ ok (some lease, after)
    → (first : TaskRow) × (lease.task_id ≡ first.task_id)
      × Has first w.agent_tasks
      × (((first.agent_id == agent_id) && is_claimable (env.stored_instant now) first) ≡ true)
      × All (Waits agent_id (env.stored_instant now) first) w.agent_tasks
claim_oldest_first env agent_id owner_id now w after lease h =
    let at = env.stored_instant now in
    let (first, is, returned, _) = oldest-eq-ok env agent_id owner_id now w after lease h in
    let (own, there) =
      Has-keep (λ row. (row.agent_id == agent_id) && is_claimable at row) first w.agent_tasks
        (oldest-Has (claimable_of agent_id at w.agent_tasks) first is) in
    (
      first,
      ap (λ l. l.task_id) returned,
      there,
      own,
      All-kept agent_id at first w.agent_tasks
          (oldest-All (claimable_of agent_id at w.agent_tasks) first is),
    )

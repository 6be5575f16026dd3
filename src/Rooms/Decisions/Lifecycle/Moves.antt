-- ===== src/Rooms/Decisions/Lifecycle/Moves.antt =====
-- src/rooms.rs: how a decision request may move the status of each decision.
use thought_khoral_room_gate.Prelude.{
  String, ◌≡◌, refl, sym, ◌∙◌, ap, subst, subst₂, Option, none, some, List, arith, ◌==◌, ==→eq,
  if◌then◌else◌, Bool, true, false, ◌⊎◌, Bool-cases, inl, inr,
}
use thought_khoral_room_gate.Env.{Uuid}
use thought_khoral_room_gate.Protocol.{
  ValidatedRequest, decision_propose, decision_transition, decision_delete, confirm, edit, dismiss,
  DecisionAction, DecisionPropose, DecisionTransition, DecisionDelete,
}
use thought_khoral_room_gate.Store.{DecisionRow}
use thought_khoral_room_gate.Rooms.Decisions.Table.{
  status_of, IsKeyed, status_of-append, IsKeyed-append, find-status, status_after, status_of-update,
  IsKeyed-update, IsKeyed-kept, status_of-kept, status_of-absent,
}
use thought_khoral_room_gate.Rooms.Decisions.Lifecycle.{Adds, Sets, Effect, Transitions, Deletes}

-- The moves of the status of decision `id`, by the request that makes them.
pub data Moves (request : ValidatedRequest) (id : Uuid)
    : Option String → Option String → Type 0 where
  stays : (status : Option String) → Moves request id status status
  proposed :
      (r : DecisionPropose) → request ≡ decision_propose r → Moves request id none (some "draft")
  confirmed :
      (r : DecisionTransition)
      → request ≡ decision_transition r
      → r.decision_id ≡ id
      → r.action ≡ confirm
      → Moves request id (some "draft") (some "active")
  dismissed :
      (r : DecisionTransition)
      → request ≡ decision_transition r
      → r.decision_id ≡ id
      → r.action ≡ dismiss
      → Moves request id (some "draft") (some "dismissed")
  superseded :
      (r : DecisionTransition)
      → request ≡ decision_transition r
      → r.decision_id ≡ id
      → r.action ≡ edit
      → Moves request id (some "draft") (some "superseded")
  replaced :
      (r : DecisionTransition)
      → request ≡ decision_transition r
      → r.action ≡ edit
      → Moves request id none (some "active")
  deleted :
      (r : DecisionDelete) (status : String)
      → request ≡ decision_delete r
      → r.decision_id ≡ id
      → Moves request id (some status) none

abbrev pub MovesAll : ValidatedRequest → List DecisionRow → List DecisionRow → Type 0
MovesAll request before after =
    IsKeyed after × ((id : Uuid) → Moves request id (status_of id before) (status_of id after))

-- What a new request does to the rows of the decisions table.
abbrev pub Effects : ValidatedRequest → List DecisionRow → List DecisionRow → Type 0
Effects (decision_propose r) before after = Adds "draft" before after
Effects (decision_transition r) before after = Transitions r before after
Effects (decision_delete r) before after = Deletes r before after
Effects _ before after = after ≡ before

-- The moves of a new request and its effect on the rows; a repeated request does nothing.
abbrev pub Done : ValidatedRequest → Bool → List DecisionRow → List DecisionRow → Type 0
Done request duplicate before after =
    MovesAll request before after
    × (((duplicate ≡ false) × Effects request before after)
        ⊎ ((duplicate ≡ true) × (after ≡ before)))

pub MovesAll-same :
    (request : ValidatedRequest) (before after : List DecisionRow)
    → IsKeyed before
    → after ≡ before
    → MovesAll request before after
MovesAll-same request before after k e =
    subst (λ rows. MovesAll request before rows) (sym e) (k, λ id. stays (status_of id before))

move :
    {request : ValidatedRequest} {id : Uuid} {a b x y : Option String}
    → Moves request id a b
    → x ≡ a
    → y ≡ b
    → Moves request id x y
move {request} {id} m e f = subst₂ (Moves request id) (sym e) (sym f) m

-- One new row.
pub added-Moves :
    (request : ValidatedRequest) (status : String) (before after : List DecisionRow)
    → ((id : Uuid) → Moves request id none (some status))
    → IsKeyed before
    → Adds status before after
    → MovesAll request before after
added-Moves request status before after how k (row, is_status, absent, grown) = (
  subst IsKeyed (sym grown) (IsKeyed-append before row absent k),
  λ id.
      let seen = ap (status_of id) grown ∙ status_of-append id before row absent in
      elim (Bool-cases (row.decision_id == id)) [
        | inl same ↦
            move (how id)
              (subst (λ i. status_of i before ≡ none) (==→eq row.decision_id id same)
                (status_of-absent row.decision_id before absent))
              (ground (arith, seen, same, is_status))
        | inr other ↦ move (stays (status_of id before)) refl (ground (arith, seen, other))
      ],
)

-- One row changed from "draft".
set-Moves :
    (request : ValidatedRequest) (decision_id : Uuid) (status : String)
    (before after : List DecisionRow)
    → ((id : Uuid) → decision_id ≡ id → Moves request id (some "draft") (some status))
    → IsKeyed before
    → status_of decision_id before ≡ some "draft"
    → Sets decision_id status before after
    → MovesAll request before after
set-Moves request decision_id status before after how k draft (at, set) = (
  subst IsKeyed (sym set) (IsKeyed-update decision_id status at before k),
  λ id.
      let seen = ap (status_of id) set ∙ status_of-update id decision_id status at before in
      elim (Bool-cases (decision_id == id)) [
        | inl same ↦
            let here =
              subst (λ i. status_of i before ≡ some "draft") (==→eq decision_id id same) draft in
            move (how id (==→eq decision_id id same)) here (ground (arith, seen, same, here))
        | inr other ↦ move (stays (status_of id before)) refl (ground (arith, seen, other))
      ],
)

-- One draft superseded, and one new active row.
edit-Moves :
    (r : DecisionTransition) (before after : List DecisionRow)
    → r.action ≡ edit
    → IsKeyed before
    → status_of r.decision_id before ≡ some "draft"
    → Effect r.decision_id edit before after
    → MovesAll (decision_transition r) before after
edit-Moves r before after e k draft (middle, (at, set), (row, is_status, absent, grown)) = (
  subst IsKeyed (sym grown) (
      IsKeyed-append middle row absent
        (subst IsKeyed (sym set) (IsKeyed-update r.decision_id "superseded" at before k))),
  λ id.
      let seen = ap (status_of id) grown ∙ status_of-append id middle row absent in
      let halfway =
        ap (status_of id) set ∙ status_of-update id r.decision_id "superseded" at before in
      elim (Bool-cases (row.decision_id == id)) [
        | inl new ↦
            let gone =
              subst (λ i. status_of i middle ≡ none) (==→eq row.decision_id id new)
                (status_of-absent row.decision_id middle absent) in
            move (replaced r refl e) (was_absent id gone halfway)
              (ground (arith, seen, new, is_status))
        | inr old ↦ elim (Bool-cases (r.decision_id == id)) [
          | inl same ↦
              let here =
                subst (λ i. status_of i before ≡ some "draft") (==→eq r.decision_id id same)
                  draft in
              move (superseded r refl (==→eq r.decision_id id same) e) here
                (ground (arith, seen, old, halfway, same, here))
          | inr other ↦
              move (stays (status_of id before)) refl (ground (arith, seen, old, halfway, other))
        ]
      ],
)
  where
    was_absent :
        (id : Uuid)
        → status_of id middle ≡ none
        → status_of id middle ≡ (
            if r.decision_id == id
            then status_after (status_of id before) "superseded"
            else status_of id before)
        → status_of id before ≡ none
    was_absent id gone halfway = elim (Bool-cases (r.decision_id == id)) [
      | inl same ↦
          let here =
            subst (λ i. status_of i before ≡ some "draft") (==→eq r.decision_id id same) draft in
          ground (arith, gone, halfway, same, here)
      | inr other ↦ ground (arith, gone, halfway, other)
    ]

pub transition-Moves :
    (r : DecisionTransition) (before after : List DecisionRow)
    → IsKeyed before
    → Transitions r before after
    → MovesAll (decision_transition r) before after
transition-Moves r before after k (row, found, is_draft, effect) =
    by_action r.action refl (find-status r.decision_id r.room_id before row k found).0 effect
  where
    by_action :
        (action : DecisionAction)
        → r.action ≡ action
        → status_of r.decision_id before ≡ some row.status
        → Effect r.decision_id action before after
        → MovesAll (decision_transition r) before after
    by_action confirm e here changed =
        set-Moves _ r.decision_id "active" before after (λ id own. confirmed r refl own e) k
          (here ∙ ap some is_draft) changed
    by_action dismiss e here changed =
        set-Moves _ r.decision_id "dismissed" before after (λ id own. dismissed r refl own e) k
          (here ∙ ap some is_draft) changed
    by_action edit e here changed = edit-Moves r before after e k (here ∙ ap some is_draft) changed

pub delete-Moves :
    (r : DecisionDelete) (before after : List DecisionRow)
    → IsKeyed before
    → Deletes r before after
    → MovesAll (decision_delete r) before after
delete-Moves r before after k (row, found, kept) = (
  subst IsKeyed (sym kept) (IsKeyed-kept r.decision_id r.room_id before k),
  λ id.
      let seen =
        ap (status_of id) kept ∙ status_of-kept id r.decision_id r.room_id before row k found in
      elim (Bool-cases (r.decision_id == id)) [
        | inl same ↦
            move (deleted r row.status refl (==→eq r.decision_id id same))
              (subst (λ i. status_of i before ≡ some row.status) (==→eq r.decision_id id same)
                (find-status r.decision_id r.room_id before row k found).0)
              (ground (arith, seen, same))
        | inr other ↦ move (stays (status_of id before)) refl (ground (arith, seen, other))
      ],
)

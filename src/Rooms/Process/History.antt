-- ===== src/Rooms/Process/History.antt =====
-- Any number of requests, one transaction after another.
use thought_khoral_room_gate.Prelude.{ℕ, ◌≡◌, refl, sym, subst, true, some, ok, inl, inr, drop, ◌⊎◌}
use thought_khoral_room_gate.Env.{Uuid, Env, EnvLaws}
use thought_khoral_room_gate.Protocol
use thought_khoral_room_gate.Protocol.{
  ValidatedRequest, session_authenticate, join, chat_send, decision_propose, decision_transition,
  decision_delete, agent_task_start,
}
use thought_khoral_room_gate.Auth.{Actor}
use thought_khoral_room_gate.Store.{World, empty_db}
use thought_khoral_room_gate.Store.Events.{room_log, events_after}
use thought_khoral_room_gate.Store.Events.Log.{IsWellFormed}
use thought_khoral_room_gate.Store.Events.Replay.{events_after-drop}
use thought_khoral_room_gate.Store.Events.Later.{Later, Later-refl, Later-trans}
use thought_khoral_room_gate.Rooms.Mentions.{Unicode}
use thought_khoral_room_gate.Rooms.Process.{ProcessedRequest, Surroundings, process}
use thought_khoral_room_gate.Rooms.Process.Retry.{admits, process-admits, process-cases, Performed}

-- The states that requests lead to; a request that is refused leads nowhere.
pub data Run (env : Env) (unicode : Unicode) (start : World) : World → Type 0 where
  here : Run env unicode start start
  next :
      {w after : World} (around : Surroundings) (actor : Actor) (request : ValidatedRequest)
      (p : ProcessedRequest)
      → Run env unicode start w
      → process env unicode around actor request w ≡ ok (p, after)
      → Run env unicode start after

abbrev pub HasIds : ValidatedRequest → Type 0
HasIds request =
    (room_id : Uuid) × (request_id : Uuid) × (Protocol.room_id request ≡ some room_id)
    × (Protocol.request_id request ≡ some request_id)

pub admits-HasIds :
    (actor : Actor) (request : ValidatedRequest) → admits actor request ≡ true → HasIds request
unfolding Protocol.room_id Protocol.request_id
admits-HasIds actor (session_authenticate _) a = cc
admits-HasIds actor (join _) a = cc
admits-HasIds actor (chat_send r) a = (r.room_id, r.request_id, refl, refl)
admits-HasIds actor (decision_propose r) a = (r.room_id, r.request_id, refl, refl)
admits-HasIds actor (decision_transition r) a = (r.room_id, r.request_id, refl, refl)
admits-HasIds actor (decision_delete r) a = (r.room_id, r.request_id, refl, refl)
admits-HasIds actor (agent_task_start r) a = (r.room_id, r.request_id, refl, refl)

module _ (env : Env) (unicode : Unicode) (laws : EnvLaws env) where
  -- One request keeps the log in order and only adds to it.
  pub process-IsWellFormed :
      (around : Surroundings) (actor : Actor) (request : ValidatedRequest) (w after : World)
      (p : ProcessedRequest)
      → IsWellFormed env w
      → process env unicode around actor request w ≡ ok (p, after)
      → IsWellFormed env after × Later w after
  process-IsWellFormed around actor request w after p wf h =
      let a = process-admits env unicode around actor request w (p, after) h in
      let (room_id, request_id, room, own) = admits-HasIds actor request a in
      kept (
        process-cases env unicode around actor laws room_id request_id request w wf room own p after
          h)
    where
      kept :
          {room_id request_id : Uuid}
          → Performed env w room_id request_id request p after
            ⊎ ((p.duplicate ≡ true) × (after ≡ w))
          → IsWellFormed env after × Later w after
      kept (inl done) = (done.well_formed, done.later)
      kept (inr (second, same)) =
          subst (λ v. IsWellFormed env v × Later w v) (sym same) (wf, Later-refl w)

  -- So do any number of requests.
  pub Run-IsWellFormed :
      {w after : World}
      → IsWellFormed env w
      → Run env unicode w after
      → IsWellFormed env after × Later w after
  Run-IsWellFormed {w} wf here = (wf, Later-refl w)
  Run-IsWellFormed {w} wf (next {w = v} {after = after} around actor request p run h) =
      let (wf', l) = Run-IsWellFormed wf run in
      let (wf'', k) = process-IsWellFormed around actor request v after p wf' h in
      (wf'', Later-trans l k)

abbrev pub empty_world : World
empty_world = record { db = empty_db; drawn = 0 }

pub empty-IsWellFormed : (env : Env) → IsWellFormed env empty_world
empty-IsWellFormed env = record { counts = λ r. tt; unused = λ i h. refl }

-- From an empty database, after any requests: the replay of any room after sequence k is that
-- room's log without its first k events.
pub replay_after-Run :
    (env : Env) (unicode : Unicode) (w : World) (room_id : Uuid) (k : ℕ)
    → EnvLaws env
    → Run env unicode empty_world w
    → events_after w.room_events room_id k ≡ drop k (room_log room_id w.room_events)
replay_after-Run env unicode w room_id k laws run =
    events_after-drop w room_id k (Run-IsWellFormed env unicode laws (empty-IsWellFormed env) run).0

-- ===== src/Conversation/Invariant/Reservations.antt =====
-- The whole of `reserve_inner` keeps the invariant of the conversations.
use thought_khoral_room_gate.Prelude.{
  ◌+◌, ◌≡◌, refl, subst, String, Bool, true, false, not, Option, none, some, ok, arith, ensure,
  Result-cases, Option-cases, ◌⊎◌, inl, inr, find, unwrap_or, is_some, str_eq, str_eq_iff,
  if◌then◌else◌,
}
use thought_khoral_room_gate.Tx.{◌>>=◌, lift, gets}
use thought_khoral_room_gate.Tx.Frame.{Keeps, keeps_rules}
use thought_khoral_room_gate.Tx.Hoare.{
  Hoare, Hoare-bind, Hoare-keeps, Hoare-lift, Hoare-ensure, Hoare-weaken, Stable-bind, Stable-lift,
  Stable-gets, stable_rules,
}
use thought_khoral_room_gate.Json.{Value, as_str, at}
use thought_khoral_room_gate.Env.{Uuid, Instant}
use thought_khoral_room_gate.Auth.{Actor}
use thought_khoral_room_gate.Store.Events.{new_v4, prior_request}
use thought_khoral_room_gate.Conversation.{
  ConversationRow, ConversationWorld, Crates, in_rooms, seconds,
}
use thought_khoral_room_gate.Conversation.Protocol.{codex_agent_id, conversation_busy}
use thought_khoral_room_gate.Conversation.Policy.{ConversationPolicy}
use thought_khoral_room_gate.Conversation.Mentions.{admit, authorize_conversation_turn}
use thought_khoral_room_gate.Conversation.Catalog.{CatalogQuery}
use thought_khoral_room_gate.Conversation.Reserve.{
  Moments, Place, is_current, repeat_turn, continue_place, new_place, is_accepted_turn,
}
use thought_khoral_room_gate.Conversation.Turn.{Turn, store_turn}
use thought_khoral_room_gate.Conversation.Reservation.{
  Gateway, mode_of, busy, choose_place, choose_settings, reserve_new, reserve_found,
  mentions_allowed, reserve_current, reserve_or_repeat, reserve_in_transaction, reserve_inner,
}
use thought_khoral_room_gate.Conversation.Invariant.Frame.{tables, Keeps-in_rooms}
use thought_khoral_room_gate.Conversation.Invariant.Joined.{Sound}
use thought_khoral_room_gate.Conversation.Invariant.Working.{KeepsSound}
use thought_khoral_room_gate.Conversation.Invariant.Reserving.{Finds, Placed, Hoare-store_turn}
use thought_khoral_room_gate.Conversation.Protocol.Turns.{validate_turn_request-ok}

-- `conversation.mode`, where there is one, is one of two texts.
abbrev pub HasMode : Value → Type 0
HasMode request =
    (text : String)
    → as_str (at (at request "conversation") "mode") ≡ some text
    → (text ≡ "new") ⊎ (text ≡ "continue")

-- contracts/agent-conversation-v1/schemas/turn.schema.json admits nothing else.
pub record ModeLaw (crates : Crates) : Type 0 where
  pub turn_modes : (v : Value) → crates.is_valid "turn" v ≡ true → HasMode v

mode_of-continue :
    (request : Value) (current : Option ConversationRow)
    → HasMode request
    → str_eq (mode_of request current) "new" ≡ false
    → str_eq (mode_of request current) "continue" ≡ true
mode_of-continue request current known other =
    split (as_str (at (at request "conversation") "mode")) known current other
  where
    split :
        (o : Option String)
        → ((text : String) → o ≡ some text → (text ≡ "new") ⊎ (text ≡ "continue"))
        → (c : Option ConversationRow)
        → str_eq (unwrap_or o (if is_some c then "continue" else "new")) "new" ≡ false
        → str_eq (unwrap_or o (if is_some c then "continue" else "new")) "continue" ≡ true
    split none k none h = cc h
    split none k (some c) h = refl
    split (some text) k c h = elim (k text refl) [
      | inl e ↦ absurd (ground (arith, str_eq_iff text "new", e))
      | inr e ↦ (str_eq_iff text "continue").1 e
    ]

Sound-repeat_turn :
    (crates : Crates) (policy : ConversationPolicy) (actor : Actor) (room request_id : Uuid)
    (request prior : Value)
    → KeepsSound (repeat_turn crates policy actor room request_id request prior)
unfolding repeat_turn
Sound-repeat_turn crates policy actor room request_id request prior = record {
  keep = λ s a t sound h.
      elim (Option-cases (find (is_accepted_turn room request_id actor.id) s.conversation_tasks)) [
        | inl e ↦ absurd (ground arith)
        | inr (task, e) ↦ let same : t ≡ s = ground arith in rw same sound
      ];
}

module _ (crates : Crates) (policy : ConversationPolicy) where
  Hoare-continue_place :
      (room : Uuid) (request : Value) (current : Option ConversationRow)
      → Hoare
          (λ s. Finds room current (tables s))
          (continue_place crates policy request current)
          (λ place s. Finds room current (tables s) × Placed true current place)
  unfolding continue_place
  Hoare-continue_place room request none = record { run = λ s a t h e. cc e }
  Hoare-continue_place room request (some c) = record {
    run = λ s a t h e.
        let same : t ≡ s = ground arith in
        let here : a.conversation_id ≡ c.conversation_id = ground arith in
        (rw same h, (c, refl, here));
  }

  Keeps-new_place : (room : Uuid) → Keeps tables (new_place crates policy room)
  unfolding new_place
  Keeps-new_place room = search (keeps_rules, Keeps-in_rooms) depth 10

  Hoare-choose_place :
      (continues : Bool) (room : Uuid) (request : Value) (current : Option ConversationRow)
      → Hoare
          (λ s. Finds room current (tables s))
          (choose_place crates policy continues room request current)
          (λ place s. Finds room current (tables s) × Placed continues current place)
  unfolding choose_place
  Hoare-choose_place true room request current = Hoare-continue_place room request current
  Hoare-choose_place false room request current =
      Hoare-weaken (new_place crates policy room)
        (Hoare-keeps tables (Finds room current) _ (Keeps-new_place room)) (λ s h. h)
        (λ a s h. (h, tt))

  Keeps-choose_settings :
      (continues : Bool) (request : Value) (catalog : Option CatalogQuery)
      (current : Option ConversationRow)
      → Keeps tables (choose_settings crates policy continues request catalog current)
  unfolding choose_settings
  Keeps-choose_settings continues request catalog current = search keeps_rules depth 10

  Hoare-reserve_new :
      (actor : Actor) (room request_id : Uuid) (request : Value) (catalog : Option CatalogQuery)
      (authorized_until now : Instant) (current : Option ConversationRow)
      → HasMode request
      → Hoare
          (λ s. Finds room current (tables s))
          (reserve_new crates policy actor room request_id request catalog authorized_until now
            current)
          (λ _ s. Sound (tables s))
  unfolding reserve_new
  Hoare-reserve_new actor room request_id request catalog authorized_until now current known =
      let mode = mode_of request current in
      let turn = λ (place : Place) (settings : Value) (task_id : Uuid).
        let t : Turn = record {
          room = room;
          request_id = request_id;
          mode = mode;
          place = place;
          task_id = task_id;
          settings = settings;
          authorized_until = authorized_until;
          now = now;
        } in
        t in
      let last = λ (place : Place) (settings : Value) (task_id : Uuid).
        store_turn crates policy actor request current (turn place settings task_id) in
      let settle = λ (place : Place) (settings : Value).
        in_rooms (new_v4 crates.env) >>= λ task_id. last place settings task_id in
      let Known = λ (s : ConversationWorld). Finds room current (tables s) in
      let choose = choose_place crates policy (str_eq mode "continue") room request current in
      let offers = choose_settings crates policy (str_eq mode "continue") request catalog current in
      Hoare-bind (λ _ s. Known s × (not (busy current) ≡ true))
        (lift (ensure (not (busy current)) conversation_busy))
        (λ _. choose >>= λ place. offers >>= λ settings. settle place settings)
        (Hoare-ensure (not (busy current)) conversation_busy)
        (λ _. record {
          run = λ s a t (start, free) h.
              (Hoare-bind (λ place s. Known s × Placed (str_eq mode "continue") current place)
                  choose (λ place. offers >>= λ settings. settle place settings)
                  (Hoare-choose_place (str_eq mode "continue") room request current)
                  (λ place. record {
                    run = λ s' a' t' (known_s, placed) h'.
                        (Hoare-bind (λ _. Known) offers (settle place)
                            (Hoare-keeps tables (Finds room current) offers (
                              Keeps-choose_settings (str_eq mode "continue") request catalog
                                current))
                            (λ settings.
                              Hoare-bind (λ _. Known) (in_rooms (new_v4 crates.env))
                                (last place settings)
                                (Hoare-keeps tables (Finds room current) _
                                  (Keeps-in_rooms (new_v4 crates.env)))
                                (λ task_id.
                                  Hoare-store_turn crates policy actor request current
                                    (turn place settings task_id) (ground arith)
                                    (λ other.
                                      subst (λ b. Placed b current place)
                                        (mode_of-continue request current known other)
                                        placed)))).run
                          s' a' t' known_s h';
                  })).run
                s a t start h;
        })

  Sound-reserve_found :
      (actor : Actor) (room request_id : Uuid) (request : Value) (catalog : Option CatalogQuery)
      (authorized_until now : Instant)
      → HasMode request
      → KeepsSound
          (reserve_found crates policy actor room request_id request catalog authorized_until now)
  unfolding reserve_found
  Sound-reserve_found actor room request_id request catalog authorized_until now known = record {
    keep =
        (Hoare-bind
          (λ current s. Sound (tables s) × (find (is_current room) s.agent_conversations ≡ current))
          (gets (λ w. find (is_current room) w.agent_conversations))
          (reserve_new crates policy actor room request_id request catalog authorized_until now)
          (record {
            run = λ s a t sound h.
                let same : t ≡ s = ground arith in
                let found : find (is_current room) s.agent_conversations ≡ a = ground arith in
                rw same (sound, found);
          })
          (λ current.
            Hoare-reserve_new actor room request_id request catalog authorized_until now current
              known)).run;
  }

  Sound-reserve_current :
      (actor : Actor) (room request_id : Uuid) (request : Value) (catalog : Option CatalogQuery)
      (gateway : Option Gateway) (authorized_until now : Instant)
      → HasMode request
      → KeepsSound (
          reserve_current crates policy actor room request_id request catalog gateway
            authorized_until now)
  unfolding reserve_current
  Sound-reserve_current actor room request_id request catalog gateway authorized_until now known =
      let found =
        Sound-reserve_found actor room request_id request catalog authorized_until now known in
      let next =
        reserve_found crates policy actor room request_id request catalog authorized_until now in
      Stable-bind (gets (λ w. w.rooms.room_events))
        (λ events. lift (mentions_allowed crates policy gateway events room request) >>= λ _. next)
        (Stable-gets (λ w. w.rooms.room_events))
        (λ events.
          Stable-bind (lift (mentions_allowed crates policy gateway events room request))
            (λ _. next) (Stable-lift (mentions_allowed crates policy gateway events room request))
            (λ _. found))

  Sound-reserve_or_repeat :
      (actor : Actor) (room request_id : Uuid) (request : Value) (catalog : Option CatalogQuery)
      (gateway : Option Gateway) (authorized_until now : Instant)
      → HasMode request
      → KeepsSound (
          reserve_or_repeat crates policy actor room request_id request catalog gateway
            authorized_until now)
  unfolding reserve_or_repeat
  Sound-reserve_or_repeat actor room request_id request catalog gateway authorized_until now known =
      record {
        keep = λ s a t sound h. elim (Option-cases (prior_request s.rooms room request_id)) [
          | inl new ↦
              (Sound-reserve_current actor room request_id request catalog gateway authorized_until
                  now known).keep
                s a t sound (ground arith)
          | inr ((prior, events), old) ↦
              (Sound-repeat_turn crates policy actor room request_id request prior).keep s a t sound
                (ground arith)
        ];
      }

  Sound-reserve_in_transaction :
      (actor : Actor) (request : Value) (requested : Instant) (catalog : Option CatalogQuery)
      (gateway : Option Gateway) (moments : Moments)
      → HasMode request
      → KeepsSound
          (reserve_in_transaction crates policy actor request requested catalog gateway moments)
  unfolding reserve_in_transaction
  Sound-reserve_in_transaction actor request requested catalog gateway moments known =
      let reserved = λ (room request_id : Uuid) (until : Instant).
        Sound-reserve_or_repeat actor room request_id request catalog gateway until moments.now
          known in
      search (stable_rules, reserved) depth 10

  admit-HasMode :
      (actor : Actor) (value request : Value) (requested now : Instant)
      → ModeLaw crates
      → admit crates policy actor value requested now ≡ ok request
      → HasMode request
  unfolding admit
  admit-HasMode actor value request requested now law h =
      elim (Result-cases (
        authorize_conversation_turn crates actor requested now
          (seconds (policy.turn_deadline_seconds + policy.interrupt_grace_seconds)))) [
            | inl (until, e) ↦
                let (same, valid) =
                  validate_turn_request-ok crates.is_valid
                    (crates.env.uuid_to_string codex_agent_id) value request (ground arith) in
                rw (← same) (law.turn_modes value valid)
            | inr (error, e) ↦ absurd (ground arith)
          ]

  pub reserve_inner-Sound :
      (actor : Actor) (value : Value) (requested : Instant) (catalog : Option CatalogQuery)
      (gateway : Option Gateway) (moments : Moments)
      → ModeLaw crates
      → KeepsSound (reserve_inner crates policy actor value requested catalog gateway moments)
  unfolding reserve_inner
  reserve_inner-Sound actor value requested catalog gateway moments law =
      let admitted = admit crates policy actor value requested moments.entered_at in
      record {
        keep =
            (Hoare-bind (λ request s. Sound (tables s) × (admitted ≡ ok request)) (lift admitted)
              (λ request.
                reserve_in_transaction crates policy actor request requested catalog gateway
                  moments)
              (Hoare-lift admitted)
              (λ request. record {
                run = λ s a t (sound, ok_request) h.
                    (Sound-reserve_in_transaction actor request requested catalog gateway moments (
                        admit-HasMode actor value request requested moments.entered_at law
                          ok_request)).keep
                      s a t sound h;
              })).run;
      }

-- ===== src/Conversation/Context/Public.antt =====
-- What the agent is shown depends on the public records alone (src/conversation_context.rs).
use thought_khoral_room_gate.Prelude.{
  ℕ, ◌≡◌, refl, sym, ◌∙◌, ap, fun_ext, Bool, true, false, ◌&&◌, List, [], ◌∷◌, ◌++◌, arith, inl,
  inr, any, all, find, keep, Option, none, some, some_inj, Bool-cases, str_eq_iff, leb, ◌==◌,
  str_eq, Option-cases,
}
use thought_khoral_room_gate.Json.{
  Value, null, bool, number, string, array, object, get, as_str, json_array, value_eq,
}
use thought_khoral_room_gate.Env.{Uuid, Env}
use thought_khoral_room_gate.Protocol.Validity.{and_then}
use thought_khoral_room_gate.Store.{RoomEvent, DecisionRow}
use thought_khoral_room_gate.Rooms.Visibility.{event_visible_to}
use thought_khoral_room_gate.Conversation.{ConversationWorld, Crates}
use thought_khoral_room_gate.Conversation.Policy.{ConversationPolicy}
use thought_khoral_room_gate.Conversation.Citations.{is_public, public_source}
use thought_khoral_room_gate.Conversation.Context.{
  is_disclosable, disclosable_decisions, is_trigger, freeze_context, build_context,
}

-- The rooms as they would be without the records that are not public.
abbrev public_part : ConversationWorld → ConversationWorld
public_part w = record w {
  rooms = record w.rooms {
    db = record w.rooms.db { room_events = keep is_public w.rooms.room_events };
  };
}

module _ {A : Type 0} (q : A → Bool) where
  keep-within :
      (p : A → Bool) (xs : List A)
      → ((x : A) → p x ≡ true → q x ≡ true)
      → keep p xs ≡ keep p (keep q xs)
  keep-within p [] h = refl
  keep-within p (x ∷ xs) h = ground (arith, h x, keep-within p xs h)

  find-within :
      (p : A → Bool) (xs : List A)
      → ((x : A) → p x ≡ true → q x ≡ true)
      → find p xs ≡ find p (keep q xs)
  find-within p [] h = refl
  find-within p (x ∷ xs) h = ground (arith, h x, find-within p xs h)

  any-keep-within :
      (p r : A → Bool) (xs : List A)
      → ((x : A) → p x ≡ true → q x ≡ true)
      → any p (keep r xs) ≡ any p (keep r (keep q xs))
  any-keep-within p r [] h = refl
  any-keep-within p r (x ∷ xs) h = ground (arith, h x, any-keep-within p r xs h)

disclosable_public :
    (events : List RoomEvent) (room : Uuid) (base revision : ℕ)
    → keep (is_disclosable room base revision) events
      ≡ keep (is_disclosable room base revision) (keep is_public events)
disclosable_public events room base revision =
    keep-within is_public (is_disclosable room base revision) events (λ e h. ground arith)

sources_public :
    (events : List RoomEvent) (revision : ℕ)
    → public_source (keep (λ e. leb e.sequence revision) events)
      ≡ public_source (keep (λ e. leb e.sequence revision) (keep is_public events))
sources_public events revision = fun_ext λ room. fun_ext λ id.
    any-keep-within is_public (λ e. e.event_id == id && (e.room_id == room && is_public e))
      (λ e. leb e.sequence revision) events (λ e h. ground arith)

decisions_public :
    (events : List RoomEvent) (room : Uuid) (revision : ℕ) (ds : List DecisionRow)
    → disclosable_decisions events room revision ds
      ≡ disclosable_decisions (keep is_public events) room revision ds
unfolding disclosable_decisions
decisions_public events room revision ds =
    ap
      (λ (f : Uuid → Uuid → Bool).
        keep
          (λ d.
            d.room_id == room && (str_eq d.status "active" && all (f d.room_id) d.source_event_ids))
          ds)
      (sources_public events revision)

trigger-is_public :
    (crates : Crates) (trigger room : Uuid) (e : RoomEvent)
    → is_trigger crates trigger room e ≡ true
    → is_public e ≡ true
unfolding is_public
trigger-is_public crates trigger room e h = elim (Option-cases (get e.payload "audienceIds")) [
  | inl missing ↦ ground arith
  | inr (audience, there) ↦ ground arith
]

freeze_context_public :
    (crates : Crates) (w : ConversationWorld) (room conversation : Uuid)
    (generation base revision : ℕ) (policy : ConversationPolicy)
    → freeze_context crates w room conversation generation base revision policy
      ≡ freeze_context crates (public_part w) room conversation generation base revision policy
unfolding freeze_context
freeze_context_public crates w room conversation generation base revision policy =
    rw
      (
        disclosable_public w.rooms.room_events room base revision,
        decisions_public w.rooms.room_events room revision w.rooms.decisions,
      )
      refl

build_context_public :
    (crates : Crates) (w : ConversationWorld) (room conversation : Uuid) (generation base : ℕ)
    (trigger : Uuid) (policy : ConversationPolicy)
    → build_context crates w room conversation generation base trigger policy
      ≡ build_context crates (public_part w) room conversation generation base trigger policy
unfolding build_context
build_context_public crates w room conversation generation base trigger policy = simp (
  find-within is_public (is_trigger crates trigger room) w.rooms.room_events
      (trigger-is_public crates trigger room),
  freeze_context_public crates w room conversation,
)

-- A record that some participant may not see in the room, or that is addressed to somebody.
pub data IsPrivate (env : Env) (event : RoomEvent) : Type 0 where
  hidden_from : (viewer : Uuid) → event_visible_to env event viewer ≡ false → IsPrivate env event
  addressed :
      (audience_id : Value) (audience_ids : List Value)
      → get event.payload "audienceIds" ≡ some (json_array (audience_id ∷ audience_ids))
      → IsPrivate env event

mentioned-not_public :
    (delivery : Option Value)
    → and_then delivery as_str ≡ some "mentioned"
    → (delivery ≡ some (string "mentioned"))
mentioned-not_public none h = cc h
mentioned-not_public (some null) h = cc h
mentioned-not_public (some (bool b)) h = cc h
mentioned-not_public (some (number n)) h = cc h
mentioned-not_public (some (string s)) h = ap (λ t. some (string t)) (some_inj h)
mentioned-not_public (some (array xs)) h = cc h
mentioned-not_public (some (object fs)) h = cc h

hidden-mentioned :
    (env : Env) (event : RoomEvent) (viewer : Uuid)
    → event_visible_to env event viewer ≡ false
    → get event.payload "delivery" ≡ some (string "mentioned")
unfolding event_visible_to
hidden-mentioned env event viewer h =
    mentioned-not_public (get event.payload "delivery")
      (elim (Option-cases (and_then (get event.payload "delivery") as_str)) [
        | inl missing ↦ absurd (ground (arith, h, missing))
        | inr (delivery, there) ↦ elim (Bool-cases (str_eq delivery "mentioned")) [
          | inl is ↦ there ∙ ap some ((str_eq_iff delivery "mentioned").0 is)
          | inr other ↦ absurd (ground (arith, h, there, other))
        ]
      ])

private-not_public : (env : Env) (event : RoomEvent) → IsPrivate env event → is_public event ≡ false
unfolding is_public value_eq
private-not_public env event (hidden_from viewer h) =
    let is = hidden-mentioned env event viewer h in ground (arith, is)
private-not_public env event (addressed audience_id audience_ids h) = ground (arith, h)

abbrev pub with_events : ConversationWorld → List RoomEvent → ConversationWorld
with_events w events = record w {
  rooms = record w.rooms { db = record w.rooms.db { room_events = events } };
}

keep-without :
    (front back : List RoomEvent) (event : RoomEvent)
    → is_public event ≡ false
    → keep is_public (front ++ event ∷ back) ≡ keep is_public (front ++ back)
keep-without [] back event h = ground (arith, h)
keep-without (x ∷ front) back event h = ground (arith, keep-without front back event h)

-- The context of a turn does not depend on a private record, of whatever room: it is the same without
-- the record's row, with the other rows and their sequence numbers as they are. A record is private that
-- some participant may not see, or that has an audience.
pub build_context_is_public :
    (crates : Crates) (w : ConversationWorld) (front back : List RoomEvent) (event : RoomEvent)
    (room conversation : Uuid) (generation base : ℕ) (trigger : Uuid) (policy : ConversationPolicy)
    → w.rooms.room_events ≡ front ++ event ∷ back
    → IsPrivate crates.env event
    → build_context crates w room conversation generation base trigger policy
      ≡ build_context crates
          (with_events w (front ++ back))
          room
          conversation
          generation
          base
          trigger
          policy
build_context_is_public crates w front back event room conversation generation base trigger policy
      found private =
    build_context_public crates w room conversation generation base trigger policy
    ∙ ap
        (λ events.
          build_context crates (with_events w events) room conversation generation base trigger
            policy)
        (ap (keep is_public) found
          ∙ keep-without front back event (private-not_public crates.env event private))
    ∙ sym (
        build_context_public crates (with_events w (front ++ back)) room conversation generation
          base trigger policy)

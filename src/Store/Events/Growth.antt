-- ===== src/Store/Events/Growth.antt =====
-- Transactions that only append to the log of one room, and return what they appended: the rules
-- for the ways in which the services build them.
use thought_khoral_room_gate.Prelude.{
  ◌≤◌, ◌≡◌, refl, sym, ◌∙◌, ap, subst, subst₂, Bool, true, false, ◌==◌, List, [], ◌∷◌, ◌++◌,
  append_assoc, append-nil, Result, ok, err, arith, any-append, All, All-append, if◌then◌else◌,
}
use thought_khoral_room_gate.Tx.{Tx, ◌>>=◌, >>=-eq-ok, pure, fail, gets, lift, or_else}
use thought_khoral_room_gate.Env.{Uuid, Env, EnvLaws}
use thought_khoral_room_gate.Store.{NewEvent, RoomEvent, World}
use thought_khoral_room_gate.Store.Events.{room_log, new_v4, append_event_in_transaction}
use thought_khoral_room_gate.Store.Events.Log.{
  has_id, Counts, IsWellFormed, appended, next_event, append-eq-ok, appended-IsWellFormed,
}

-- An event of the room whose identifier was not in use.
abbrev pub IsNewIn : Uuid → World → RoomEvent → Type 0
IsNewIn room_id w event = (event.room_id ≡ room_id) × (has_id event.event_id w.room_events ≡ false)

-- `after` is `before` with these events at the end of the log, and with the same requests.
pub record Grows (env : Env) (room_id : Uuid) (before : World) (events : List RoomEvent)
    (after : World) : Type 0 where
  pub log : after.room_events ≡ before.room_events ++ events
  pub requests : after.room_requests ≡ before.room_requests
  pub new : All (IsNewIn room_id before) events
  pub well_formed : IsWellFormed env after

pub record Emits (env : Env) (room_id : Uuid) {E : Type 0} {A : Type 0} (emitted : List RoomEvent)
    (total : A → List RoomEvent) (m : Tx World E A) : Type 0 where
  pub grows :
      (start w : World) (a : A) (after : World)
      → Grows env room_id start emitted w
      → m w ≡ ok (a, after)
      → Grows env room_id start (total a) after

module _ (env : Env) (room_id : Uuid) where
  pub Grows-none : (w : World) → IsWellFormed env w → Grows env room_id w [] w
  Grows-none w wf = record {
    log = sym (append-nil w.room_events);
    requests = refl;
    new = tt;
    well_formed = wf;
  }

  module _ {A : Type 0} {E : Type 0} {xs : List RoomEvent} {f : A → List RoomEvent} where
    pub Emits-pure : (a : A) → f a ≡ xs → Emits env room_id {E = E} xs f (pure a)
    Emits-pure a same = record {
      grows = λ start w b after g h.
          subst₂ (λ ys v. Grows env room_id start ys v) (cc (same, h)) (cc h) g;
    }

    pub Emits-fail : (e : E) → Emits env room_id {A = A} xs f (fail e)
    Emits-fail e = record { grows = λ start w b after g h. cc h }

    pub Emits-if :
        (b : Bool) (m n : Tx World E A)
        → Emits env room_id xs f m
        → Emits env room_id xs f n
        → Emits env room_id xs f (if b then m else n)
    Emits-if true m n hm hn = hm
    Emits-if false m n hm hn = hn

    pub Emits-or_else :
        {F : Type 0} (m : Tx World E A) (e : F)
        → Emits env room_id xs f m
        → Emits env room_id xs f (or_else m e)
    Emits-or_else m e h = record {
      grows = λ start w b after g k. h.grows start w b after g (ground arith);
    }

  module _ {A B E : Type 0} {xs : List RoomEvent} {f : A → List RoomEvent}
      {g : B → List RoomEvent} where
    pub Emits-bind :
        (m : Tx World E A) (k : A → Tx World E B)
        → Emits env room_id xs f m
        → ((a : A) → Emits env room_id (f a) g (k a))
        → Emits env room_id xs g (m >>= k)
    Emits-bind m k hm hk = record {
      grows = λ start w b after grown h.
          let (a, middle, first, second) = >>=-eq-ok m k w h in
          (hk a).grows start middle b after (hm.grows start w a middle grown first) second;
    }

  -- A step that leaves the log, the requests and the identifiers alone.
  pub Emits-silent :
      {A E : Type 0} {xs : List RoomEvent} (m : Tx World E A)
      → ((w : World) (a : A) (after : World)
          → m w ≡ ok (a, after)
          → (after.room_events ≡ w.room_events)
            × (after.room_requests ≡ w.room_requests)
            × (w.drawn ≤ after.drawn))
      → Emits env room_id xs (λ _. xs) m
  Emits-silent m quiet = record {
    grows = λ start w a after grown h.
        let (log, requests, drawn) = quiet w a after h in
        record {
          log = log ∙ grown.log;
          requests = requests ∙ grown.requests;
          new = grown.new;
          well_formed = record {
            counts = λ r.
                subst (λ events. Counts 0 (room_log r events)) (sym log)
                  (grown.well_formed.counts r);
            unused = λ i le.
                subst (λ events. has_id (env.new_v4 i) events ≡ false) (sym log)
                  (grown.well_formed.unused i (omega arith));
          };
        };
  }

  pub Emits-gets :
      {A E : Type 0} {xs : List RoomEvent} (f : World → A)
      → Emits env room_id {E = E} xs (λ _. xs) (gets f)
  Emits-gets f = Emits-silent (gets f) (λ w a after h. (ground arith, ground arith, ground arith))

  pub Emits-lift :
      {A E : Type 0} {xs : List RoomEvent} (r : Result E A)
      → Emits env room_id xs (λ _. xs) (lift r)
  Emits-lift (ok a) = Emits-pure a refl
  Emits-lift (err e) = Emits-fail e

  -- A function of the state that emits whatever it reads.
  pub Emits-at :
      {A E : Type 0} {xs : List RoomEvent} {f : A → List RoomEvent} (m : World → Tx World E A)
      → ((w : World) → Emits env room_id xs f (m w))
      → Emits env room_id xs f (λ w. m w w)
  Emits-at m h = record { grows = λ start w a after g k. (h w).grows start w a after g k }

  Grows-next :
      (xs : List RoomEvent) (event : NewEvent) (start w : World)
      → EnvLaws env
      → event.room_id ≡ room_id
      → Grows env room_id start xs w
      → Grows env room_id start (xs ++ next_event env event w ∷ []) (appended env event w)
  Grows-next xs event start w laws here grown = record {
    log =
        ap (λ events. events ++ next_event env event w ∷ []) grown.log
        ∙ append_assoc start.room_events xs (next_event env event w ∷ []);
    requests = grown.requests;
    new =
        All-append (IsNewIn room_id start) xs (next_event env event w ∷ []) grown.new
          ((here, unused_before), tt);
    well_formed = appended-IsWellFormed env event w grown.well_formed laws;
  }
    where
      unused_before : has_id (env.new_v4 w.drawn) start.room_events ≡ false
      unused_before =
          let unused = rw grown.log at (grown.well_formed.unused w.drawn (omega arith)) in
          ground
            (arith, unused, any-append (λ e. e.event_id == env.new_v4 w.drawn) start.room_events xs)

  pub Emits-append :
      {xs : List RoomEvent} (event : NewEvent)
      → EnvLaws env
      → event.room_id ≡ room_id
      → Emits env room_id xs (λ e. xs ++ e ∷ []) (append_event_in_transaction env event)
  Emits-append {xs} event laws here = record {
    grows = λ start w e after grown h.
        subst (λ (r : RoomEvent × World). Grows env room_id start (xs ++ r.0 ∷ []) r.1)
          (sym (append-eq-ok env event w grown.well_formed (e, after) h))
          (Grows-next xs event start w laws here grown);
  }

  pub Emits-new_v4 : {xs : List RoomEvent} → Emits env room_id xs (λ _. xs) (new_v4 env)
  unfolding new_v4
  Emits-new_v4 =
      Emits-silent (λ w. new_v4 env w) (λ w a after h. (ground arith, ground arith, ground arith))

-- ===== src/Tx/Hoare.antt =====
-- Triples of a condition, a transaction, and what holds after a success.
use thought_khoral_room_gate.Prelude.{
  ◌≡◌, refl, sym, subst, Bool, true, false, Result, ok, err, ensure, if◌then◌else◌,
}
use thought_khoral_room_gate.Tx.{Tx, ◌>>=◌, >>=-eq-ok, pure, fail, gets, lift}
use thought_khoral_room_gate.Tx.Frame.{Keeps}

pub record Hoare {S E A : Type 0} (P : S → Type 0) (m : Tx S E A) (Q : A → S → Type 0)
    : Type 0 where
  pub run : (s : S) (a : A) (t : S) → P s → m s ≡ ok (a, t) → Q a t

module _ {S E A B : Type 0} where
  pub Hoare-bind :
      {P : S → Type 0} {Q : B → S → Type 0} (R : A → S → Type 0) (m : Tx S E A) (k : A → Tx S E B)
      → Hoare P m R
      → ((a : A) → Hoare (R a) (k a) Q)
      → Hoare P (m >>= k) Q
  Hoare-bind R m k hm hk = record {
    run = λ s b u p h.
        let (a, t, first, second) = >>=-eq-ok m k s h in
        (hk a).run t b u (hm.run s a t p first) second;
  }

module _ {S E A : Type 0} where
  pub Hoare-keeps :
      {X : Type 0} (view : S → X) (P : X → Type 0) (m : Tx S E A)
      → Keeps view m
      → Hoare (λ s. P (view s)) m (λ a s. P (view s))
  Hoare-keeps view P m k = record { run = λ s a t p h. subst P (sym (k.same s a t h)) p }

  pub Hoare-pure : {P : S → Type 0} (a : A) → Hoare {E = E} P (pure a) (λ _. P)
  Hoare-pure {P} a = record { run = λ s b t p h. subst P (cc h) p }

  pub Hoare-fail : {P : S → Type 0} {Q : A → S → Type 0} (e : E) → Hoare P (fail e) Q
  Hoare-fail e = record { run = λ s a t p h. cc h }

  pub Hoare-lift : {P : S → Type 0} (r : Result E A) → Hoare P (lift r) (λ a s. P s × (r ≡ ok a))
  Hoare-lift {P} (ok a) = record { run = λ s b t p h. (subst P (cc h) p, cc h) }
  Hoare-lift (err e) = record { run = λ s b t p h. cc h }

  pub Hoare-gets : {P : S → Type 0} (f : S → A) → Hoare {E = E} P (gets f) (λ a s. P s × (f s ≡ a))
  Hoare-gets {P} f = record {
    run = λ s a t p h. (
      subst P (cc h) p,
      subst (λ u. f u ≡ a) (let e : s ≡ t = cc h in e) (let e : f s ≡ a = cc h in e),
    );
  }

  pub Hoare-if :
      {P : S → Type 0} {Q : A → S → Type 0} (b : Bool) (m n : Tx S E A)
      → (b ≡ true → Hoare P m Q)
      → (b ≡ false → Hoare P n Q)
      → Hoare P (if b then m else n) Q
  Hoare-if true m n hm hn = hm refl
  Hoare-if false m n hm hn = hn refl

  -- A stronger condition, and a weaker conclusion.
  pub Hoare-weaken :
      {P P' : S → Type 0} {Q Q' : A → S → Type 0} (m : Tx S E A)
      → Hoare P m Q
      → ((s : S) → P' s → P s)
      → ((a : A) (s : S) → Q a s → Q' a s)
      → Hoare P' m Q'
  Hoare-weaken m h before after = record {
    run = λ s a t p e. after a t (h.run s a t (before s p) e);
  }

module _ {S E : Type 0} where
  pub Hoare-ensure :
      {P : S → Type 0} (b : Bool) (e : E)
      → Hoare {A = Unit {0}} P (lift (ensure b e)) (λ _ s. P s × (b ≡ true))
  Hoare-ensure {P} true e = record { run = λ s a t p h. (subst P (cc h) p, refl) }
  Hoare-ensure false e = record { run = λ s a t p h. cc h }

-- A condition that a transaction keeps, whatever its result.
pub record Stable {S E A : Type 0} (P : S → Type 0) (m : Tx S E A) : Type 0 where
  pub keep : (s : S) (a : A) (t : S) → P s → m s ≡ ok (a, t) → P t

module _ {S E A : Type 0} {P : S → Type 0} where
  pub Stable-Hoare : (m : Tx S E A) → Stable P m → Hoare P m (λ _. P)
  Stable-Hoare m h = record { run = h.keep }

  pub Stable-pure : (a : A) → Stable {E = E} P (pure a)
  Stable-pure a = record { keep = λ s b t p h. subst P (cc h) p }

  pub Stable-fail : (e : E) → Stable {A = A} P (fail e)
  Stable-fail e = record { keep = λ s b t p h. cc h }

  pub Stable-gets : (f : S → A) → Stable {E = E} P (gets f)
  Stable-gets f = record { keep = λ s b t p h. subst P (cc h) p }

  pub Stable-lift : (r : Result E A) → Stable P (lift r)
  Stable-lift (ok a) = Stable-pure a
  Stable-lift (err e) = Stable-fail e

  pub Stable-if :
      (b : Bool) (m n : Tx S E A) → Stable P m → Stable P n → Stable P (if b then m else n)
  Stable-if true m n hm hn = hm
  Stable-if false m n hm hn = hn

module _ {S E A X : Type 0} where
  pub Stable-Keeps :
      (P : X → Type 0) (view : S → X) (m : Tx S E A) → Keeps view m → Stable (λ s. P (view s)) m
  Stable-Keeps P view m k = record { keep = λ s a t p h. subst P (sym (k.same s a t h)) p }

module _ {S E A B : Type 0} {P : S → Type 0} where
  pub Stable-bind :
      (m : Tx S E A) (k : A → Tx S E B)
      → Stable P m
      → ((a : A) → Stable P (k a))
      → Stable P (m >>= k)
  Stable-bind m k hm hk = record {
    keep = λ s b u p h.
        let (a, t, first, second) = >>=-eq-ok m k s h in
        (hk a).keep t b u (hm.keep s a t p first) second;
  }

pub ruleset stable_rules =
    (Stable-pure, Stable-fail, Stable-gets, Stable-lift, Stable-if, Stable-bind)

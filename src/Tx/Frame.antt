-- ===== src/Tx/Frame.antt =====
-- What a transaction leaves alone: a view of the state that is the same after a success.
use thought_khoral_room_gate.Prelude.{
  ◌≡◌, sym, subst, ◌∙◌, ap, Bool, true, false, Result, ok, err, arith, if◌then◌else◌,
}
use thought_khoral_room_gate.Tx.{Tx, ◌>>=◌, >>=-eq-ok, pure, fail, gets, lift, or_else}

pub record Keeps {ℓ} {S E A X : Type ℓ} (view : S → X) (m : Tx S E A) : Type ℓ where
  pub same : (s : S) (a : A) (t : S) → m s ≡ ok (a, t) → view t ≡ view s

module _ {ℓ} {S E A X : Type ℓ} {view : S → X} where
  pub Keeps-pure : (a : A) → Keeps {E = E} view (pure a)
  Keeps-pure a = record { same = λ s b t h. ap view (cc h) }

  pub Keeps-fail : (e : E) → Keeps {A = A} view (fail e)
  Keeps-fail e = record { same = λ s b t h. cc h }

  pub Keeps-gets : (f : S → A) → Keeps {E = E} view (gets f)
  Keeps-gets f = record { same = λ s b t h. ap view (cc h) }

  pub Keeps-lift : (r : Result E A) → Keeps view (lift r)
  Keeps-lift (ok a) = Keeps-pure a
  Keeps-lift (err e) = Keeps-fail e

  pub Keeps-if :
      (b : Bool) (m n : Tx S E A) → Keeps view m → Keeps view n → Keeps view (if b then m else n)
  Keeps-if true m n hm hn = hm
  Keeps-if false m n hm hn = hn

  pub Keeps-at : (m : S → Tx S E A) → ((s : S) → Keeps view (m s)) → Keeps view (λ s. m s s)
  Keeps-at m h = record { same = λ s a t k. (h s).same s a t k }

module _ {S E F A X : Type 0} {view : S → X} where
  pub Keeps-or_else : (m : Tx S E A) (e : F) → Keeps view m → Keeps view (or_else m e)
  Keeps-or_else m e h = record { same = λ s a t k. h.same s a t (ground arith) }

module _ {ℓ} {S E A B X : Type ℓ} {view : S → X} where
  pub Keeps-bind :
      (m : Tx S E A) (k : A → Tx S E B)
      → Keeps view m
      → ((a : A) → Keeps view (k a))
      → Keeps view (m >>= k)
  Keeps-bind m k hm hk = record {
    same = λ s b u h.
        let (a, t, first, second) = >>=-eq-ok m k s h in
        (hk a).same t b u second ∙ hm.same s a t first;
  }

-- How a success changes a view of the state.
pub record Changes {ℓ κ} {S E A X : Type ℓ} (view : S → X) (rel : X → X → Type κ) (m : Tx S E A)
    : Type (ℓ ⊔ κ) where
  pub change : (s : S) (a : A) (t : S) → m s ≡ ok (a, t) → rel (view s) (view t)

module _ {S E A B X : Type 0} {view : S → X} {rel : X → X → Type 0} where
  pub Changes-first :
      (m : Tx S E A) (k : A → Tx S E B)
      → Changes view rel m
      → ((a : A) → Keeps view (k a))
      → Changes view rel (m >>= k)
  Changes-first m k hm hk = record {
    change = λ s b u h.
        let (a, t, first, second) = >>=-eq-ok m k s h in
        subst (rel (view s)) (sym ((hk a).same t b u second)) (hm.change s a t first);
  }

  pub Changes-later :
      (m : Tx S E A) (k : A → Tx S E B)
      → Keeps view m
      → ((a : A) → Changes view rel (k a))
      → Changes view rel (m >>= k)
  Changes-later m k hm hk = record {
    change = λ s b u h.
        let (a, t, first, second) = >>=-eq-ok m k s h in
        subst (λ x. rel x (view u)) (hm.same s a t first) ((hk a).change t b u second);
  }

module _ {S E A B X : Type 0} {view : S → X} {rel rel' : X → X → Type 0} where
  pub Changes-both :
      (m : Tx S E A) (k : A → Tx S E B)
      → Changes view rel m
      → ((a : A) → Changes view rel' (k a))
      → Changes view (λ x z. (y : X) × rel x y × rel' y z) (m >>= k)
  Changes-both m k hm hk = record {
    change = λ s b u h.
        let (a, t, first, second) = >>=-eq-ok m k s h in
        (view t, hm.change s a t first, (hk a).change t b u second);
  }

module _ {S E F A X : Type 0} {view : S → X} {rel : X → X → Type 0} where
  pub Changes-or_else : (m : Tx S E A) (e : F) → Changes view rel m → Changes view rel (or_else m e)
  Changes-or_else m e h = record { change = λ s a t k. h.change s a t (ground arith) }

pub ruleset keeps_rules =
    (Keeps-pure, Keeps-fail, Keeps-gets, Keeps-lift, Keeps-if, Keeps-or_else, Keeps-bind)

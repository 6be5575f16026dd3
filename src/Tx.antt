-- ===== src/Tx.antt =====
-- A function over a `sqlx::Transaction`. An early return drops the transaction, which rolls it
-- back: an error carries no state.
pub mod Frame
pub mod Hoare
use thought_khoral_room_gate.Prelude.{Result, ok, err, map_err, Bool, true, false, ◌≡◌, refl}

abbrev pub Tx {ℓ} : Type ℓ → Type ℓ → Type ℓ → Type ℓ
Tx S E A = S → Result E (A × S)

module _ {ℓ} {S E A : Type ℓ} where
  abbrev pub pure : A → Tx S E A
  pure a s = ok (a, s)

  abbrev pub fail : E → Tx S E A
  fail e s = err e

  abbrev pub lift : Result E A → Tx S E A
  lift (ok a) s = ok (a, s)
  lift (err e) s = err e

  abbrev pub gets : (S → A) → Tx S E A
  gets f s = ok (f s, s)

  -- `map_err(|_| …)?`.
  abbrev pub or_else {κ} : {F : Type κ} → (S → Result F (A × S)) → E → Tx S E A
  or_else m e s = map_err (λ _. e) (m s)

module _ {ℓ} {S E A B : Type ℓ} where
  abbrev pub continue : Result E (A × S) → (A → Tx S E B) → Result E (B × S)
  continue (ok (a, s)) f = f a s
  continue (err e) f = err e

  infixl 5 ◌>>=◌ ◌>>◌
  abbrev pub ◌>>=◌ : Tx S E A → (A → Tx S E B) → Tx S E B
  ◌>>=◌ m f s = continue (m s) f

  abbrev pub ◌>>◌ : Tx S E A → Tx S E B → Tx S E B
  ◌>>◌ m n s = continue (m s) (λ _. n)

  -- Inversion of a bind that succeeds.
  pub >>=-eq-ok :
      (m : Tx S E A) (f : A → Tx S E B) (s : S) {r : B × S}
      → (m >>= f) s ≡ ok r
      → (a : A) × (t : S) × (m s ≡ ok (a, t)) × (f a t ≡ ok r)
  >>=-eq-ok m f s {r} h = split (m s) refl h
    where
      split :
          (x : Result E (A × S))
          → m s ≡ x
          → continue x f ≡ ok r
          → (a : A) × (t : S) × (m s ≡ ok (a, t)) × (f a t ≡ ok r)
      split (ok (a, t)) e k = (a, t, e, k)
      split (err _) e k = cc

-- ===== src/Prelude/Members.antt =====
-- The rows of a table, and what a query gives of them.
use Prim.Native.Nat.{◌≤◌}
use mathlib.Core.Path.{◌≡◌, ap, subst}
use mathlib.Core.Logic.{◌⊎◌, inl, inr}
use mathlib.Core.Bool.{Bool, true, false}
use mathlib.Core.List.{List, [], ◌∷◌}
use mathlib.Core.Option.{some}
use native.Mathlib.Omega.{arith}
use thought_khoral_room_gate.Prelude.Tests.{Bool-cases, if◌then◌else◌}
use thought_khoral_room_gate.Prelude.Lists.{find, keep}
use thought_khoral_room_gate.Prelude.Counts.{count}

module _ {A : Type 0} where
  abbrev pub Has : A → List A → Type 0
  Has a [] = ⊥
  Has a (x ∷ xs) = (x ≡ a) ⊎ Has a xs

  pub Has-keep : (p : A → Bool) (a : A) (xs : List A) → Has a (keep p xs) → (p a ≡ true) × Has a xs
  Has-keep p a [] h = absurd h
  Has-keep p a (x ∷ xs) h = split (Bool-cases (p x)) (Has-keep p a xs)
    where
      split :
          (p x ≡ true) ⊎ (p x ≡ false)
          → (Has a (keep p xs) → (p a ≡ true) × Has a xs)
          → (p a ≡ true) × Has a (x ∷ xs)
      split (inr out) ih =
          let rest = ih (subst (λ b. Has a (if b then x ∷ keep p xs else keep p xs)) out h) in
          (rest.0, inr rest.1)
      split (inl in_) ih =
          elim (subst (λ b. Has a (if b then x ∷ keep p xs else keep p xs)) in_ h) [
            | inl e ↦ (subst (λ y. p y ≡ true) e in_, inl e)
            | inr later ↦ let rest = ih later in (rest.0, inr rest.1)
          ]

  Has-count : (key : A → Bool) (a : A) (xs : List A) → Has a xs → key a ≡ true → 1 ≤ count key xs
  Has-count key a [] h k = absurd h
  Has-count key a (x ∷ xs) (inl e) k = let first : key x ≡ true = rw e k in ground arith
  Has-count key a (x ∷ xs) (inr later) k = ground (arith, Has-count key a xs later k)

  -- The one row with a key is found by it.
  pub Has-find :
      (key : A → Bool) (a : A) (xs : List A)
      → count key xs ≤ 1
      → Has a xs
      → key a ≡ true
      → find key xs ≡ some a
  Has-find key a [] one h k = absurd h
  Has-find key a (x ∷ xs) one (inl e) k = let first : key x ≡ true = rw e k in rw first (ap some e)
  Has-find key a (x ∷ xs) one (inr later) k =
      ground (arith, Has-count key a xs later k, Has-find key a xs (omega arith) later k)

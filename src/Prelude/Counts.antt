-- ===== src/Prelude/Counts.antt =====
-- How many rows of a table pass a test, and what an update does to that number.
use Prim.Native.Nat.{ℕ, ◌+◌, ◌≤◌}
use mathlib.Core.Path.{◌≡◌, refl}
use mathlib.Core.Bool.{Bool, true, false}
use mathlib.Core.List.{List, [], ◌∷◌, ◌++◌}
use mathlib.Core.Option.{none, some}
use native.Mathlib.Omega.{arith}
use thought_khoral_room_gate.Prelude.Lists.{find, any, update_where}

abbrev pub one_if : Bool → ℕ
one_if true = 1
one_if false = 0

module _ {ℓ} {A : Type ℓ} where
  abbrev pub count : (A → Bool) → List A → ℕ
  count p [] = 0
  count p (x ∷ xs) = one_if (p x) + count p xs

  pub count-append : (p : A → Bool) (xs ys : List A) → count p (xs ++ ys) ≡ count p xs + count p ys
  count-append p [] ys = omega arith
  count-append p (x ∷ xs) ys = omega (arith, count-append p xs ys)

  -- No row passes the test that is applied to find one.
  pub count-find-none : (p : A → Bool) (xs : List A) → find p xs ≡ none → count p xs ≡ 0
  count-find-none p [] h = refl
  count-find-none p (x ∷ xs) h = ground (arith, count-find-none p xs)

  pub find-some : (p : A → Bool) (xs : List A) (a : A) → find p xs ≡ some a → p a ≡ true
  find-some p [] a h = ground arith
  find-some p (x ∷ xs) a h = ground (arith, find-some p xs a)

  pub any_false→count : (p : A → Bool) (xs : List A) → any p xs ≡ false → count p xs ≡ 0
  any_false→count p [] h = refl
  any_false→count p (x ∷ xs) h = ground (arith, any_false→count p xs)

  pub count_mono :
      (p q : A → Bool) (xs : List A) → ((x : A) → p x ≡ true → q x ≡ true) → count p xs ≤ count q xs
  count_mono p q [] h = omega arith
  count_mono p q (x ∷ xs) h = ground (arith, h x, count_mono p q xs h)

  -- An update outside the rows that the test accepts, before and after it.
  pub count-update_where_same :
      (p key : A → Bool) (f : A → A) (xs : List A)
      → ((x : A) → key x ≡ true → p (f x) ≡ p x)
      → count p (update_where key f xs) ≡ count p xs
  count-update_where_same p key f [] h = refl
  count-update_where_same p key f (x ∷ xs) h =
      ground (arith, h x, count-update_where_same p key f xs h)

  pub count-update_where_none :
      (p key : A → Bool) (f : A → A) (xs : List A)
      → count key xs ≡ 0
      → count p (update_where key f xs) ≡ count p xs
  count-update_where_none p key f [] h = refl
  count-update_where_none p key f (x ∷ xs) h = ground (arith, count-update_where_none p key f xs)

  -- The update of the one row with a key.
  pub count-update_where :
      (p key : A → Bool) (f : A → A) (xs : List A) (a : A)
      → count key xs ≤ 1
      → find key xs ≡ some a
      → count p (update_where key f xs) + one_if (p a) ≡ count p xs + one_if (p (f a))
  count-update_where p key f [] a one h = ground arith
  count-update_where p key f (x ∷ xs) a one h =
      ground (arith, count-update_where_none p key f xs, count-update_where p key f xs a)

  -- A row that is found is counted by every test that it passes.
  pub count-find-some :
      (p key : A → Bool) (xs : List A) (a : A)
      → find p xs ≡ some a
      → key a ≡ true
      → 1 ≤ count key xs
  count-find-some p key [] a h k = ground arith
  count-find-some p key (x ∷ xs) a h k = ground (arith, count-find-some p key xs a)

  -- A row is found by its key as by any other test.
  pub find-key :
      (p key : A → Bool) (xs : List A) (a : A)
      → count key xs ≤ 1
      → find p xs ≡ some a
      → key a ≡ true
      → find key xs ≡ some a
  find-key p key [] a one h k = ground arith
  find-key p key (x ∷ xs) a one h k =
      ground (arith, find-key p key xs a, count-find-some p key xs a)

  -- Where at most one row passes a test, a narrower test that it fails is failed by all.
  pub count-narrower :
      (p q : A → Bool) (xs : List A) (a : A)
      → ((x : A) → q x ≡ true → p x ≡ true)
      → count p xs ≤ 1
      → find p xs ≡ some a
      → q a ≡ false
      → count q xs ≡ 0
  count-narrower p q [] a h one f k = refl
  count-narrower p q (x ∷ xs) a h one f k =
      ground (arith, h x, count-narrower p q xs a h, count_mono q p xs h)

  pub update_where-find-none :
      (p : A → Bool) (f : A → A) (xs : List A) → find p xs ≡ none → update_where p f xs ≡ xs
  update_where-find-none p f [] h = refl
  update_where-find-none p f (x ∷ xs) h = ground (arith, update_where-find-none p f xs)

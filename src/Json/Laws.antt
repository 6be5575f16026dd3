-- ===== src/Json/Laws.antt =====
-- What the modules rely on of `serde_json`: reading back what was written, and equality.
use Prim.Native.Nat.{Ordering}
use Prim.Native.String.{compare}
use text.Mathlib.TextPositions.{compare_refl}
use text.Mathlib.TextEquality.{path_by_compare}
use thought_khoral_room_gate.Prelude.{
  String, ◌≡◌, refl, ap, subst, ◌≢◌, Bool, true, ◌&&◌, some, List, [], ◌∷◌, arith, ==→eq, ==_refl,
  str_eq, str_eq_iff, &&-left, &&-right, if◌then◌else◌,
}
use thought_khoral_room_gate.Json.{
  Number, pos_int, neg_int, float, Value, null, bool, number, string, array, object, Items, nil,
  cons, Fields, end, field, insert, lookup, items_of, list_of, number_eq, bool_eq, value_eq,
  items_eq, fields_eq,
}

pub list_of-items_of : (vs : List Value) → list_of (items_of vs) ≡ vs
list_of-items_of [] = refl
list_of-items_of (v ∷ vs) = ap (λ r. v ∷ r) (list_of-items_of vs)

-- A key that was inserted is read back, and the others are as before.
pub lookup-insert :
    (k j : String) (v : Value) (fs : Fields)
    → lookup j (insert k v fs) ≡ (if str_eq k j then some v else lookup j fs)
lookup-insert k j v end = refl
lookup-insert k j v (field i w fs) = split (compare k i) refl (lookup-insert k j v fs)
  where
    split :
        (o : Ordering)
        → compare k i ≡ o
        → lookup j (insert k v fs) ≡ (if str_eq k j then some v else lookup j fs)
        → lookup j (insert k v (field i w fs))
          ≡ (if str_eq k j then some v else lookup j (field i w fs))
    split Ordering.lt e ih = rw (e, insert) refl
    split Ordering.eq e ih =
        let same = path_by_compare k i e in
        rw (e, insert) (ground (arith, same, str_eq_iff k j, str_eq_iff i j))
    split Ordering.gt e ih =
        let differ : k ≢ i =
          λ p. (cc (e, subst (λ x. compare k x ≡ Ordering.eq) p (compare_refl k))) in
        rw (e, insert) (ground (arith, ih, differ, str_eq_iff k j, str_eq_iff i j))

number_eq_sound : (a b : Number) → number_eq a b ≡ true → a ≡ b
number_eq_sound (pos_int a) (pos_int b) h = ap pos_int (==→eq a b h)
number_eq_sound (neg_int a) (neg_int b) h = ap neg_int (==→eq a b h)
number_eq_sound (float s) (float t) h = ap float ((str_eq_iff s t).0 h)
number_eq_sound (pos_int _) (neg_int _) h = ground arith
number_eq_sound a b h = ground arith

number_eq_refl : (a : Number) → number_eq a a ≡ true
number_eq_refl (pos_int a) = ==_refl a
number_eq_refl (neg_int a) = ==_refl a
number_eq_refl (float s) = (str_eq_iff s s).1 refl

bool_eq_sound : (a b : Bool) → bool_eq a b ≡ true → a ≡ b
bool_eq_sound a b h = ground arith

bool_eq_refl : (a : Bool) → bool_eq a a ≡ true
bool_eq_refl a = ground arith

mutual
  unfolding value_eq

  value_sound : (x y : Value) → value_eq x y ≡ true → x ≡ y
  value_sound null null h = refl
  value_sound (bool a) (bool b) h = ap bool (bool_eq_sound a b h)
  value_sound (number a) (number b) h = ap number (number_eq_sound a b h)
  value_sound (string s) (string t) h = ap string ((str_eq_iff s t).0 h)
  value_sound (array xs) (array ys) h = ap array (items_sound xs ys h)
  value_sound (object xs) (object ys) h = ap object (fields_sound xs ys h)
  value_sound _ _ h = cc

  items_sound : (xs ys : Items) → items_eq xs ys ≡ true → xs ≡ ys
  items_sound nil nil h = refl
  items_sound (cons x xs) (cons y ys) h = cc (
    value_sound x y (&&-left (value_eq x y) (items_eq xs ys) h),
    items_sound xs ys (&&-right (value_eq x y) (items_eq xs ys) h),
  )
  items_sound _ _ h = cc

  fields_sound : (xs ys : Fields) → fields_eq xs ys ≡ true → xs ≡ ys
  fields_sound end end h = refl
  fields_sound (field j x xs) (field k y ys) h =
      let rest = &&-right (str_eq j k) (value_eq x y && fields_eq xs ys) h in
      cc (
        (str_eq_iff j k).0 (&&-left (str_eq j k) (value_eq x y && fields_eq xs ys) h),
        value_sound x y (&&-left (value_eq x y) (fields_eq xs ys) rest),
        fields_sound xs ys (&&-right (value_eq x y) (fields_eq xs ys) rest),
      )
  fields_sound _ _ h = cc

mutual
  unfolding value_eq

  value_refl : (x : Value) → value_eq x x ≡ true
  value_refl null = refl
  value_refl (bool a) = bool_eq_refl a
  value_refl (number a) = number_eq_refl a
  value_refl (string s) = (str_eq_iff s s).1 refl
  value_refl (array xs) = items_refl xs
  value_refl (object xs) = fields_refl xs

  items_refl : (xs : Items) → items_eq xs xs ≡ true
  items_refl nil = refl
  items_refl (cons x xs) = ground (arith, value_refl x, items_refl xs)

  fields_refl : (xs : Fields) → fields_eq xs xs ≡ true
  fields_refl end = refl
  fields_refl (field j x xs) = ground (arith, (str_eq_iff j j).1 refl, value_refl x, fields_refl xs)

pub value_eq_sound : (x y : Value) → value_eq x y ≡ true → x ≡ y
value_eq_sound x y h = value_sound x y h

pub value_eq_refl : (x : Value) → value_eq x x ≡ true
value_eq_refl x = value_refl x

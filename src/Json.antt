-- ===== src/Json.antt =====
-- `serde_json::Value` as the gateway uses it (src/protocol.rs, src/rooms.rs, src/store.rs): the
-- crate's own type, with objects as its default `BTreeMap`, that is sorted by key.
pub mod Laws
use Prim.Native.Nat.{Ordering}
use Prim.Native.String.{compare}
use thought_khoral_room_gate.Prelude.{
  ℕ, String, Bool, true, false, ◌&&◌, Option, none, some, List, [], ◌∷◌, ◌==◌, str_eq,
  if◌then◌else◌,
}

-- `serde_json::Number`: `neg_int n` is -(n + 1), and a float is its text.
pub data Number : Type 0 where
  pos_int neg_int : ℕ → Number
  float : String → Number

mutual
  pub data Value : Type 0 where
    null : Value
    bool : Bool → Value
    number : Number → Value
    string : String → Value
    array : Items → Value
    object : Fields → Value

  pub data Items : Type 0 where
    nil : Items
    cons : Value → Items → Items

  pub data Fields : Type 0 where
    end : Fields
    field : String → Value → Fields → Fields

-- `Map::insert`: the entry goes to its place in the order of the keys.
abbrev pub insert : String → Value → Fields → Fields
insert k v end = field k v end
insert k v (field j w fs) =
    let rest = insert k v fs in
    elim (compare k j) [
      | Ordering.lt ↦ field k v (field j w fs)
      | Ordering.eq ↦ field k v fs
      | Ordering.gt ↦ field j w rest
    ]

-- `Map::get`.
abbrev pub lookup : String → Fields → Option Value
lookup k end = none
lookup k (field j v fs) = let rest = lookup k fs in if str_eq j k then some v else rest

-- `json!({ … })`.
abbrev pub fields_of : List (String × Value) → Fields
fields_of [] = end
fields_of ((k, v) ∷ rest) = insert k v (fields_of rest)

abbrev pub items_of : List Value → Items
items_of [] = nil
items_of (v ∷ vs) = cons v (items_of vs)

abbrev pub list_of : Items → List Value
list_of nil = []
list_of (cons v vs) = v ∷ list_of vs

abbrev pub json : List (String × Value) → Value
json fields = object (fields_of fields)

abbrev pub json_array : List Value → Value
json_array values = array (items_of values)

abbrev pub json_number : ℕ → Value
json_number n = number (pos_int n)

-- `Value::get`, `Value::as_str`, `Value::as_array`, `Value::as_object`.
abbrev pub get : Value → String → Option Value
get (object fs) k = lookup k fs
get _ k = none

-- `value[key]`, that is null where there is no such entry.
abbrev pub at : Value → String → Value
at v k = elim (get v k) [ none ↦ null | some x ↦ x ]

-- `json!` of an option.
abbrev pub json_option {ℓ} : {A : Type ℓ} → (A → Value) → Option A → Value
json_option f none = null
json_option f (some a) = f a

abbrev pub as_str : Value → Option String
as_str (string s) = some s
as_str _ = none

-- `Value::as_i64`, of a number that is not negative.
abbrev pub as_i64 : Value → Option ℕ
as_i64 (number (pos_int n)) = some n
as_i64 _ = none

abbrev pub as_array : Value → Option (List Value)
as_array (array xs) = some (list_of xs)
as_array _ = none

abbrev pub as_object : Value → Option Fields
as_object (object fs) = some fs
as_object _ = none

abbrev number_eq : Number → Number → Bool
number_eq (pos_int a) (pos_int b) = a == b
number_eq (neg_int a) (neg_int b) = a == b
number_eq (float s) (float t) = str_eq s t
number_eq _ _ = false

abbrev bool_eq : Bool → Bool → Bool
bool_eq true true = true
bool_eq false false = true
bool_eq _ _ = false

-- `==` on values.
unfoldable mutual
  pub value_eq : Value → Value → Bool
  value_eq null null = true
  value_eq (bool a) (bool b) = bool_eq a b
  value_eq (number a) (number b) = number_eq a b
  value_eq (string s) (string t) = str_eq s t
  value_eq (array xs) (array ys) = items_eq xs ys
  value_eq (object xs) (object ys) = fields_eq xs ys
  value_eq _ _ = false

  pub items_eq : Items → Items → Bool
  items_eq nil nil = true
  items_eq (cons x xs) (cons y ys) = value_eq x y && items_eq xs ys
  items_eq _ _ = false

  pub fields_eq : Fields → Fields → Bool
  fields_eq end end = true
  fields_eq (field j x xs) (field k y ys) = str_eq j k && (value_eq x y && fields_eq xs ys)
  fields_eq _ _ = false

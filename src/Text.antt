-- ===== src/Text.antt =====
-- Rust's `str` as the gateway uses it (src/action_items.rs, src/store.rs, src/ws.rs): the language's own
-- operations, over the characters of a text.
use Prim.Native.Char.{Char, code}
use mathlib.Core.List.{reverse}
use thought_khoral_room_gate.Prelude.{
  ℕ, String, Bool, true, false, ◌&&◌, ◌||◌, Option, none, some, List, [], ◌∷◌, leb, ltb, ◌+◌, ◌==◌,
  if◌then◌else◌,
}

abbrev pub Text : Type 0
Text = List Char

abbrev pub chars : String → Text
chars String.[] = []
chars (String.◌∷◌ c s) = c ∷ chars s

abbrev pub text : Text → String
text [] = String.[]
text (c ∷ cs) = String.◌∷◌ c (text cs)

-- `str::len`, PostgreSQL's `octet_length`: the bytes in UTF-8.
abbrev utf8_width : ℕ → ℕ
utf8_width n = if ltb n 0x80 then 1 else if ltb n 0x800 then 2 else if ltb n 0x10000 then 3 else 4

unfoldable pub octet_length : String → ℕ
octet_length String.[] = 0
octet_length (String.◌∷◌ c s) = utf8_width (code c) + octet_length s

-- `char::is_whitespace`: the code points with the property White_Space.
unfoldable pub is_whitespace : Char → Bool
is_whitespace c =
    let n = code c in
    (leb 9 n && leb n 13)
    || (n == 32
        || (n == 0x85
            || (n == 0xa0
                || (n == 0x1680
                    || ((leb 0x2000 n && leb n 0x200a)
                        || (n == 0x2028
                            || (n == 0x2029 || (n == 0x202f || (n == 0x205f || n == 0x3000)))))))))

unfoldable pub trim_start : Text → Text
unfolding is_whitespace
trim_start [] = []
trim_start (c ∷ cs) = let rest = trim_start cs in if is_whitespace c then rest else c ∷ cs

unfoldable pub trim : Text → Text
unfolding trim_start
trim s = reverse (trim_start (reverse (trim_start s)))

unfoldable pub strip_prefix : Text → Text → Option Text
strip_prefix [] s = some s
strip_prefix (p ∷ ps) [] = none
strip_prefix (p ∷ ps) (c ∷ cs) = if code p == code c then strip_prefix ps cs else none

abbrev pub cons_first : Char → List Text → List Text
cons_first c [] = (c ∷ []) ∷ []
cons_first c (piece ∷ pieces) = (c ∷ piece) ∷ pieces

-- `str::split` by one character: at least one piece.
unfoldable pub split_on : ℕ → Text → List Text
split_on separator [] = [] ∷ []
split_on separator (c ∷ cs) =
    let rest = split_on separator cs in if code c == separator then [] ∷ rest else cons_first c rest

strip_return : Text → Text
strip_return [] = []
strip_return (c ∷ []) = if code c == 13 then [] else c ∷ []
strip_return (c ∷ (d ∷ cs)) = c ∷ strip_return (d ∷ cs)

-- A line ends in "\n" or "\r\n", and nothing follows the last end of line.
lines_of : List Text → List Text
unfolding strip_return
lines_of [] = []
lines_of ([] ∷ []) = []
lines_of ((c ∷ cs) ∷ []) = (c ∷ cs) ∷ []
lines_of (line ∷ (next ∷ more)) = strip_return line ∷ lines_of (next ∷ more)

unfoldable pub lines : Text → List Text
unfolding lines_of split_on
lines s = lines_of (split_on 10 s)

-- `str::split_once(':')`.
unfoldable pub split_once : ℕ → Text → Option (Text × Text)
split_once separator [] = none
split_once separator (c ∷ cs) =
    let rest : Option (Text × Text) = elim (split_once separator cs) [
      | none ↦ none
      | some (before, after) ↦ some (c ∷ before, after)
    ] in
    if code c == separator then some ([], cs) else rest

unfoldable pub text_eq : Text → Text → Bool
text_eq [] [] = true
text_eq (a ∷ s) (b ∷ t) = (code a == code b) && text_eq s t
text_eq _ _ = false

abbrev pub is_empty : Text → Bool
is_empty [] = true
is_empty (_ ∷ _) = false

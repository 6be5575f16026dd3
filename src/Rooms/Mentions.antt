-- ===== src/Rooms/Mentions.antt =====
-- src/rooms.rs: the canonical mention token of each participant of a roster.
pub mod Validate
use thought_khoral_room_gate.Prelude.{
  ℕ, zero, suc, ◌+◌, ◌-◌, ◌/◌, ◌%◌, String, Bool, true, false, not, ◌&&◌, ◌||◌, Option, none, some,
  List, [], ◌∷◌, ◌++◌, map, length, take, keep, find, any, ltb, leb, ◌==◌, str_eq, unwrap_or,
  if◌then◌else◌,
}
use Prim.Native.Nat.{compare, Ordering}
use Prim.Native.Char.{code}
use Prim.Native.String.{}
use mathlib.Core.List.{reverse}
use thought_khoral_room_gate.Env.{Uuid, Env}
use thought_khoral_room_gate.Rooms.{RoomParticipant, codex_agent_id}

-- A text as its code points.
abbrev pub Text : Type 0
Text = List ℕ

abbrev pub codes : String → Text
codes String.[] = []
codes (String.◌∷◌ c s) = code c ∷ codes s

abbrev pub text_eq : Text → Text → Bool
text_eq [] [] = true
text_eq (a ∷ s) (b ∷ t) = (a == b) && text_eq s t
text_eq _ _ = false

abbrev pub contains : List Text → Text → Bool
contains texts t = any (text_eq t) texts

-- `str::cmp` on ASCII texts.
compare_texts : Text → Text → Ordering
compare_texts [] [] = Ordering.eq
compare_texts [] (b ∷ t) = Ordering.lt
compare_texts (a ∷ s) [] = Ordering.gt
compare_texts (a ∷ s) (b ∷ t) =
    let rest = compare_texts s t in
    elim (compare a b) [
      | Ordering.lt ↦ Ordering.lt
      | Ordering.eq ↦ rest
      | Ordering.gt ↦ Ordering.gt
    ]

-- `format!("{n}")`, a digit for each step.
decimal : ℕ → ℕ → Text
decimal zero n = []
decimal (suc fuel) n =
    let front = decimal fuel (n / 10) in
    if ltb n 10 then (b'0' + n) ∷ [] else front ++ (b'0' + n % 10) ∷ []

is_ascii_alphanumeric : ℕ → Bool
is_ascii_alphanumeric c =
    (leb b'0' c && leb c b'9') || ((leb b'a' c && leb c b'z') || (leb b'A' c && leb c b'Z'))

flat_map : (ℕ → Text) → Text → Text
flat_map f [] = []
flat_map f (c ∷ cs) = f c ++ flat_map f cs

-- The fold of `normalized_participant_name`, with the slug in reverse.
slug_step : Text → ℕ → Text
slug_step [] c = if is_ascii_alphanumeric c then c ∷ [] else b'-' ∷ []
slug_step (l ∷ slug) c =
    if is_ascii_alphanumeric c
    then c ∷ (l ∷ slug)
    else if l == b'-'
    then l ∷ slug
    else b'-' ∷ (l ∷ slug)

slug_fold : Text → Text → Text
slug_fold slug [] = slug
slug_fold slug (c ∷ cs) = slug_fold (slug_step slug c) cs

trim_start_dashes : Text → Text
trim_start_dashes [] = []
trim_start_dashes (c ∷ cs) = let rest = trim_start_dashes cs in if c == b'-' then rest else c ∷ cs

abbrev participant_text : Text
participant_text = codes "participant"

or_participant : Text → Text
or_participant [] = participant_text
or_participant (c ∷ cs) = c ∷ cs

abbrev codex_token : Text
codex_token = codes "codex-agent"

abbrev mention_aliases : List Text
mention_aliases = codes "allhumans" ∷ codes "allagents" ∷ []

-- The Unicode tables that the slug reads: `nfkd` of the crate unicode-normalization, and
-- `char::to_lowercase`.
pub record Unicode : Type 0 where
  pub nfkd : Text → Text
  pub to_lowercase : ℕ → Text

-- One participant with what the loops know of it.
pub record Row : Type 0 where
  pub index : ℕ
  pub name : Text
  pub id_token : Text
  pub pinned : Bool
  pub suffixed : Bool

module _ (env : Env) (unicode : Unicode) where
  pub normalized_participant_name : Text → Text
  unfolding is_ascii_alphanumeric flat_map slug_step slug_fold trim_start_dashes or_participant
  normalized_participant_name display_name =
      let letters = keep (λ c. not (leb 0x300 c && leb c 0x36f)) (unicode.nfkd display_name) in
      let slug = slug_fold [] (flat_map unicode.to_lowercase letters) in
      or_participant (trim_start_dashes (reverse (trim_start_dashes slug)))

  pub participant_id_token : Uuid → Text
  unfolding is_ascii_alphanumeric flat_map or_participant
  participant_id_token id =
      or_participant
        (flat_map unicode.to_lowercase (keep is_ascii_alphanumeric (codes (env.uuid_to_string id))))

  count_name : Text → List Text → ℕ
  count_name name names = length (keep (text_eq name) names)

  abbrev pinned_codex : RoomParticipant → Bool
  pinned_codex p = (p.id == codex_agent_id) && str_eq p.role "agent"

  needs_suffix : List Text → RoomParticipant → Text → Bool
  unfolding count_name
  needs_suffix names p name =
      not (pinned_codex p)
      && (text_eq name codex_token
          || (contains mention_aliases name || ltb 1 (count_name name names)))

  rows_from : ℕ → List Text → List RoomParticipant → List Row
  unfolding needs_suffix normalized_participant_name participant_id_token
  rows_from index names [] = []
  rows_from index names (p ∷ ps) =
      record {
        index = index;
        name = normalized_participant_name (codes p.display_name);
        id_token = participant_id_token p.id;
        pinned = pinned_codex p;
        suffixed = needs_suffix names p (normalized_participant_name (codes p.display_name));
      }
      ∷ rows_from (suc index) names ps

  pub rows : List RoomParticipant → List Row
  unfolding rows_from
  rows ps = rows_from 0 (map (λ p. normalized_participant_name (codes p.display_name)) ps) ps

-- The token of a participant that needs no suffix.
abbrev pub plain_token : Row → Text
plain_token row = if row.pinned then codex_token else row.name

-- What is taken once the plain tokens are given out.
pub first_occupied : List Row → List Text
first_occupied [] = codex_token ∷ mention_aliases
first_occupied (row ∷ rest) =
    if row.suffixed then first_occupied rest else row.name ∷ first_occupied rest

row_before : Row → Row → Bool
unfolding compare_texts
row_before a b = elim (compare_texts a.name b.name) [
  | Ordering.lt ↦ true
  | Ordering.gt ↦ false
  | Ordering.eq ↦ elim (compare_texts a.id_token b.id_token) [
    | Ordering.lt ↦ true
    | Ordering.gt ↦ false
    | Ordering.eq ↦ leb a.index b.index
  ]
]

insert_row : Row → List Row → List Row
insert_row row [] = row ∷ []
insert_row row (first ∷ rest) =
    let later = insert_row row rest in
    if row_before row first then row ∷ (first ∷ rest) else first ∷ later

pub sort_rows : List Row → List Row
unfolding insert_row row_before
sort_rows [] = []
sort_rows (row ∷ rest) = insert_row row (sort_rows rest)

-- `format!("{name}-{}", &id[..length])`.
abbrev pub suffix : Text → Text → ℕ → Text
suffix name id n = name ++ (b'-' ∷ take n id)

all_distinct : List Text → Bool
all_distinct [] = true
all_distinct (t ∷ ts) = not (contains ts t) && all_distinct ts

max_length : List Text → ℕ
max_length [] = 0
max_length (t ∷ ts) = let m = max_length ts in if ltb m (length t) then length t else m

-- `while id_length < max_id_length && (…) { id_length += 1 }`.
group_loop : ℕ → Text → List Text → List Text → ℕ → ℕ → ℕ
group_loop zero name ids occupied most n = n
group_loop (suc fuel) name ids occupied most n =
    let next = group_loop fuel name ids occupied most (n + 1) in
    let clash =
      not (all_distinct (map (take n) ids))
      || any (λ id. contains occupied (suffix name id n)) ids in
    if ltb n most && clash then next else n

-- The length that all participants of one name share.
pub group_length : List Row → List Text → Text → ℕ
unfolding group_loop all_distinct max_length
group_length disambiguated occupied name =
    let ids = map (λ row. row.id_token) (keep (λ row. text_eq row.name name) disambiguated) in
    let most = max_length ids in
    group_loop most name ids occupied most (if ltb 8 most then 8 else most)

-- `while occupied.contains(&token) && id_length < id.len()`.
lengthen_loop : ℕ → Text → Text → List Text → ℕ → ℕ
lengthen_loop zero name id occupied n = n
lengthen_loop (suc fuel) name id occupied n =
    let next = lengthen_loop fuel name id occupied (n + 1) in
    if contains occupied (suffix name id n) && ltb n (length id) then next else n

-- `while occupied.contains(&token) { token = format!("{name}-{id}-{duplicate}"); duplicate += 1 }`.
number_loop : ℕ → Text → List Text → Text → ℕ → Text
unfolding decimal
number_loop zero stem occupied token duplicate = token
number_loop (suc fuel) stem occupied token duplicate =
    let next =
      number_loop fuel stem occupied (stem ++ (b'-' ∷ decimal (suc duplicate) duplicate))
        (duplicate + 1) in
    if contains occupied token then next else token

pub suffixed_token : Row → ℕ → List Text → Text
unfolding lengthen_loop number_loop
suffixed_token row shared occupied =
    let most = length row.id_token in
    let start = if ltb shared most then shared else most in
    let n = lengthen_loop most row.name row.id_token occupied start in
    number_loop (suc (length occupied)) (row.name ++ (b'-' ∷ row.id_token)) occupied
      (suffix row.name row.id_token n) 2

-- The tokens that the last loop gives out, by index.
pub assign : (Text → ℕ) → List Row → List Text → List (ℕ × Text)
unfolding suffixed_token
assign shared [] occupied = []
assign shared (row ∷ rest) occupied =
    let token = suffixed_token row (shared row.name) occupied in
    (row.index, token) ∷ assign shared rest (token ∷ occupied)

pub token_at : ℕ → List (ℕ × Text) → Option Text
token_at index [] = none
token_at index ((i, token) ∷ rest) =
    let later = token_at index rest in if i == index then some token else later

pub tokens_of : List Row → List Text
unfolding first_occupied sort_rows group_length assign token_at
tokens_of all_rows =
    let occupied = first_occupied all_rows in
    let disambiguated = sort_rows (keep (λ row. row.suffixed) all_rows) in
    let given = assign (group_length disambiguated occupied) disambiguated occupied in
    map
      (λ row.
        if row.suffixed
        then unwrap_or (token_at row.index given) participant_text
        else plain_token row)
      all_rows

unfoldable pub participant_mention_tokens : Env → Unicode → List RoomParticipant → List Text
unfolding rows tokens_of
participant_mention_tokens env unicode participants = tokens_of (rows env unicode participants)

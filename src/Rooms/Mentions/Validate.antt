-- ===== src/Rooms/Mentions/Validate.antt =====
-- src/rooms.rs: `validate_mentions`, against the tokens of the roster.
use thought_khoral_room_gate.Prelude.{
  Bool, true, false, Option, none, some, List, [], ◌∷◌, Result, ok, err, any, ◌==◌, if◌then◌else◌,
}
use thought_khoral_room_gate.Env.{Uuid, Env}
use thought_khoral_room_gate.Protocol.{
  RpcError, unknown_mention_target, ChatMention, participant, alias, ChatMentionAlias, all_humans,
  all_agents,
}
use thought_khoral_room_gate.Rooms.{RoomParticipant}
use thought_khoral_room_gate.Rooms.Mentions.{
  Text, codes, text_eq, Unicode, participant_mention_tokens,
}

-- The map from identifiers to tokens; of two entries for one identifier the later counts.
unfoldable pub token_of : List RoomParticipant → List Text → Uuid → Option Text
token_of [] tokens id = none
token_of (p ∷ ps) [] id = none
token_of (p ∷ ps) (token ∷ tokens) id = elim (token_of ps tokens id) [
  | none ↦ if p.id == id then some token else none
  | some later ↦ some later
]

abbrev alias_eq : ChatMentionAlias → ChatMentionAlias → Bool
alias_eq all_humans all_humans = true
alias_eq all_agents all_agents = true
alias_eq _ _ = false

abbrev pub seen_id : List Uuid → Uuid → Bool
seen_id ids id = any (λ other. other == id) ids

abbrev pub seen_alias : List ChatMentionAlias → ChatMentionAlias → Bool
seen_alias aliases a = any (alias_eq a) aliases

-- The loop, with the two hash sets as the identifiers and the aliases seen.
unfoldable pub validate_from :
    (Uuid → Option Text)
    → List ChatMention
    → List Uuid
    → List ChatMentionAlias
    → Result RpcError (Unit {0})
validate_from known [] ids aliases = ok tt
validate_from known (participant id token ∷ rest) ids aliases = elim (known id) [
  | none ↦ err unknown_mention_target
  | some canonical_token ↦
      let later = validate_from known rest (id ∷ ids) aliases in
      if seen_id ids id
      then err unknown_mention_target
      else if text_eq (codes token) canonical_token
      then later
      else err unknown_mention_target
]
validate_from known (alias a ∷ rest) ids aliases =
    let later = validate_from known rest ids (a ∷ aliases) in
    if seen_alias aliases a then err unknown_mention_target else later

unfoldable pub validate_mentions :
    Env → Unicode → List RoomParticipant → List ChatMention → Result RpcError (Unit {0})
unfolding validate_from token_of
validate_mentions env unicode participants mentions =
    let tokens = participant_mention_tokens env unicode participants in
    validate_from (token_of participants tokens) mentions [] []

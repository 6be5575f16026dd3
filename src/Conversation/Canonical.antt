-- ===== src/Conversation/Canonical.antt =====
-- src/conversation_context.rs: the canonical form of a value, whose text is digested, and the manifest of
-- the sources that a context shows.
use Prim.Native.Char.{code}
use thought_khoral_room_gate.Prelude.{
  String, Bool, true, ◌&&◌, none, some, List, [], ◌∷◌, ◌++◌, Result, ok, err, ◌>>=◌, any, ltb,
  str_eq, if◌then◌else◌,
}
use thought_khoral_room_gate.Json.{
  Value, null, string, number, bool, array, object, Items, nil, cons, Fields, end, field, json,
  json_array, as_str, as_array, at,
}
use thought_khoral_room_gate.Conversation.Protocol.{
  ConversationError, safe_number, context_mismatch,
}

unfoldable pub is_ascii : String → Bool
is_ascii String.[] = true
is_ascii (String.◌∷◌ c s) = ltb (code c) 128 && is_ascii s

-- `sorted`: an object is already in the order of its keys, so the new map has the same order.
unfoldable mutual
  unfolding safe_number is_ascii

  pub canonical : Value → Result ConversationError Value
  canonical (number n) = if safe_number n then ok (number n) else err context_mismatch
  canonical (object fs) = canonical_fields fs >>= λ sorted. ok (object sorted)
  canonical (array vs) = canonical_items vs >>= λ sorted. ok (array sorted)
  canonical (string s) = ok (string s)
  canonical (bool b) = ok (bool b)
  canonical null = ok null

  pub canonical_items : Items → Result ConversationError Items
  canonical_items nil = ok nil
  canonical_items (cons v vs) =
      canonical v >>= λ first. canonical_items vs >>= λ rest. ok (cons first rest)

  pub canonical_fields : Fields → Result ConversationError Fields
  canonical_fields end = ok end
  canonical_fields (field k v fs) =
      let sorted =
        canonical v >>= λ first. canonical_fields fs >>= λ rest. ok (field k first rest) in
      if is_ascii k then sorted else err context_mismatch

-- The identifiers and the sources so far.
pub record Manifest : Type 0 where
  pub ids : List String
  pub sources : List Value

-- `ids.insert(…)`, then a push. The identifiers of a built context are texts; others would panic.
unfoldable pub add_source : String → Value → Manifest → Manifest
add_source kind id manifest = elim (as_str id) [
  | none ↦ manifest
  | some text ↦ if any (str_eq text) manifest.ids then manifest else record {
    ids = text ∷ manifest.ids;
    sources = manifest.sources ++ json (("sourceId", id) ∷ (("sourceKind", string kind) ∷ [])) ∷ [];
  }
]

abbrev listed : Value → List Value
listed v = elim (as_array v) [ none ↦ [] | some vs ↦ vs ]

unfoldable pub add_entries : List Value → Manifest → Manifest
unfolding add_source
add_entries [] manifest = manifest
add_entries (entry ∷ entries) manifest =
    add_entries entries (add_source "event" (at entry "eventId") manifest)

unfoldable pub add_ids : List Value → Manifest → Manifest
unfolding add_source
add_ids [] manifest = manifest
add_ids (id ∷ ids) manifest = add_ids ids (add_source "event" id manifest)

unfoldable pub add_decisions : List Value → Manifest → Manifest
unfolding add_source add_ids
add_decisions [] manifest = manifest
add_decisions (d ∷ ds) manifest =
    add_decisions ds (
      add_ids (listed (at d "sourceEventIds")) (add_source "decision" (at d "decisionId") manifest))

unfoldable pub manifest_of : Value → Manifest
unfolding add_entries add_decisions
manifest_of context = add_decisions (listed (at context "activeDecisions")) (
    add_entries (listed (at context "nativeReplyBindings"))
      (add_entries (listed (at context "entries")) (record { ids = []; sources = [] })))

unfoldable pub source_manifest : Value → Value
unfolding manifest_of
source_manifest context = json_array (manifest_of context).sources

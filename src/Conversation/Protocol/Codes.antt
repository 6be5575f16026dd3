-- ===== src/Conversation/Protocol/Codes.antt =====
-- The codes of the errors (src/conversation_protocol.rs) are read back (`failure_code` of
-- src/conversation_store.rs).
use thought_khoral_room_gate.Prelude.{
  ◌≡◌, refl, String, some, List, [], ◌∷◌, ok, arith, inl, inr, str_eq, str_eq_iff, Bool-cases,
  Option-cases,
}
use thought_khoral_room_gate.Conversation.Protocol.{
  ConversationError, invalid_task_input, forbidden, conversation_busy, conversation_stale,
  context_mismatch, context_too_large, runtime_unavailable, authentication_required,
  session_unavailable, timeout, conversation_interrupted, execution_failed, duplicate_conflict,
  code, with_code, all_errors, failure_code,
}

failure_code-code : (e : ConversationError) → failure_code (code e) ≡ ok e
unfolding failure_code
failure_code-code invalid_task_input = refl
failure_code-code forbidden = refl
failure_code-code conversation_busy = refl
failure_code-code conversation_stale = refl
failure_code-code context_mismatch = refl
failure_code-code context_too_large = refl
failure_code-code runtime_unavailable = refl
failure_code-code authentication_required = refl
failure_code-code session_unavailable = refl
failure_code-code timeout = refl
failure_code-code conversation_interrupted = refl
failure_code-code execution_failed = refl
failure_code-code duplicate_conflict = refl

with_code-code :
    (text : String) (es : List ConversationError) (e : ConversationError)
    → with_code text es ≡ some e
    → code e ≡ text
unfolding with_code
with_code-code text [] e h = absurd (ground arith)
with_code-code text (x ∷ xs) e h = elim (Bool-cases (str_eq (code x) text)) [
  | inl same ↦ let this : x ≡ e = ground arith in rw (← this) ((str_eq_iff (code x) text).0 same)
  | inr other ↦ with_code-code text xs e (ground arith)
]

-- The code of every error is read back as that error, and a text is read as an error only if it is the
-- code of that error.
pub failure_code_lem :
    (e : ConversationError) (text : String)
    → (failure_code (code e) ≡ ok e)
      × ((f : ConversationError) → failure_code text ≡ ok f → code f ≡ text)
unfolding failure_code
failure_code_lem e text = (
  failure_code-code e,
  λ f h. elim (Option-cases (with_code text all_errors)) [
    | inl missing ↦ absurd (ground arith)
    | inr (g, found) ↦
        let same : g ≡ f = ground arith in rw (← same) (with_code-code text all_errors g found)
  ],
)

-- ===== src/CatalogBridge/Secret.antt =====
-- src/catalog_bridge.rs: the credential of the bridge.
use Prim.Native.Char.{Char, code}
use thought_khoral_room_gate.Prelude.{String, Bool, ◌&&◌, ◌||◌, Result, ensure, all, any, leb, ◌==◌}
use thought_khoral_room_gate.Text.{chars, octet_length}
use thought_khoral_room_gate.Conversation.Protocol.{ConversationError, runtime_unavailable}

abbrev is_between : Char → Char → Char → Bool
is_between low high c = leb (code low) (code c) && leb (code c) (code high)

-- `is_ascii_alphanumeric() || b"-._~+/=".contains(&b)`: a byte of a longer character is neither.
abbrev secret_char : Char → Bool
secret_char c =
    (is_between "0" "9" c || (is_between "A" "Z" c || is_between "a" "z" c))
    || any (λ other. code other == code c) (chars "-._~+/=")

-- `CatalogBridgeSecret::new`.
unfoldable pub new_secret : String → Result ConversationError (Unit {0})
unfolding octet_length
new_secret value =
    ensure
      (leb 32 (octet_length value)
        && (leb (octet_length value) 4096 && all secret_char (chars value)))
      runtime_unavailable

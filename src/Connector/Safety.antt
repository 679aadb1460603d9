-- ===== src/Connector/Safety.antt =====
-- safeConnectorCommandReason (connector_command_adapter.go), safeExternalActionRef and
-- isCredentialShapedExternalValue (command_template_driver.go).
use Prim.Native.Char.{code}
use genesis.Prelude.{
  ℕ, ◌+◌, String, Bool, true, false, not, ◌&&◌, ◌||◌, List, [], ◌∷◌, ◌==◌, ltb, leb, any,
  if◌then◌else◌,
}
use genesis.Prelude.Text.{is_empty}

abbrev codes : String → List ℕ
codes String.[] = []
codes (String.◌∷◌ c s) = code c ∷ codes s

-- The bytes of a code point in UTF-8, and of a text: Go's `len`.
abbrev utf8_width : ℕ → ℕ
utf8_width c = if ltb c 0x80 then 1 else if ltb c 0x800 then 2 else if ltb c 0x10000 then 3 else 4

abbrev byte_len : List ℕ → ℕ
byte_len [] = 0
byte_len (c ∷ s) = utf8_width c + byte_len s

-- strings.ToLower, as far as its result can be an ASCII letter: the ASCII capitals, the Kelvin sign
-- and the dotted capital I.
abbrev to_lower : ℕ → ℕ
to_lower c =
    if leb 65 c && leb c 90
    then c + 32
    else if c == 0x212a
    then 107
    else if c == 0x130
    then 105
    else c

abbrev lower : List ℕ → List ℕ
lower [] = []
lower (c ∷ s) = to_lower c ∷ lower s

abbrev has_prefix : List ℕ → List ℕ → Bool
has_prefix s [] = true
has_prefix [] (p ∷ ps) = false
has_prefix (c ∷ s) (p ∷ ps) = c == p && has_prefix s ps

-- strings.Contains
abbrev contains : List ℕ → List ℕ → Bool
contains [] p = has_prefix [] p
contains (c ∷ s) p = has_prefix (c ∷ s) p || contains s p

abbrev credential_markers : List String
credential_markers =
    "authorization" ∷ "bearer " ∷ "credential" ∷ "secret" ∷ "api_key" ∷ "apikey" ∷ "password"
    ∷ "token" ∷ "sk-" ∷ "xoxb-" ∷ "xoxp-" ∷ []

unfoldable pub is_credential_shaped : String → Bool
is_credential_shaped value =
    let text = lower (codes value) in
    any (λ marker. contains text (codes marker)) credential_markers

-- A control character other than tab, line feed and carriage return.
abbrev is_control : ℕ → Bool
is_control r = not (r == 9 || r == 10 || r == 13) && (ltb r 0x20 || r == 0x7f)

abbrev max_connector_command_reason_bytes : ℕ
max_connector_command_reason_bytes = 256

unfoldable pub safe_reason : String → Bool
unfolding is_credential_shaped
safe_reason reason =
    if is_empty reason
    then true
    else if ltb max_connector_command_reason_bytes (byte_len (codes reason))
        || is_credential_shaped reason
    then false
    else not (any is_control (codes reason))

abbrev is_ref_char : ℕ → Bool
is_ref_char r =
    (leb 97 r && leb r 122)
    || (leb 65 r && leb r 90)
    || (leb 48 r && leb r 57)
    || (r == b'_' || r == b'-' || r == b'.' || r == b':')

unfoldable pub safe_external_action_ref : String → Bool
unfolding is_credential_shaped
safe_external_action_ref ref =
    if is_empty ref || ltb 256 (byte_len (codes ref)) || is_credential_shaped ref
    then false
    else not (any (λ r. not (is_ref_char r)) (codes ref))

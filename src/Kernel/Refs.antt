-- ===== src/Kernel/Refs.antt =====
-- kernel_refs.go and validateIdempotencyKey (shell.go): the forms of refs, authorities and tokens.
-- The regular expressions are written as tests of the same texts.
use Prim.Native.Char.{code}
use genesis.Prelude.{
  ℕ, zero, suc, ◌+◌, String, Bool, true, false, not, ◌&&◌, ◌||◌, Option, none, some, List, [], ◌∷◌,
  ltb, leb, ◌==◌, str_eq, if◌then◌else◌,
}
use genesis.Prelude.Text.{is_empty, append, trim}

-- [A-Za-z0-9]
abbrev is_alnum : ℕ → Bool
is_alnum c = (leb 97 c && leb c 122) || (leb 65 c && leb c 90) || (leb 48 c && leb c 57)

-- [A-Za-z0-9._:-]
abbrev is_token_char : ℕ → Bool
is_token_char c = is_alnum c || (c == 45) || (c == 95) || (c == 46) || (c == 58)

-- [A-Za-z0-9._:/-]
abbrev is_ref_tail_char : ℕ → Bool
is_ref_tail_char c = is_token_char c || (c == 47)

-- At most `n` characters, each of which passes the test.
abbrev run_within : (ℕ → Bool) → ℕ → String → Bool
run_within test n String.[] = true
run_within test zero (String.◌∷◌ c s) = false
run_within test (suc n) (String.◌∷◌ c s) = test (code c) && run_within test n s

-- An alphanumeric character, and at most `n` more that pass the test.
abbrev name_within : (ℕ → Bool) → ℕ → String → Bool
name_within test n String.[] = false
name_within test n (String.◌∷◌ c s) = is_alnum (code c) && run_within test n s

-- The rest of a text after a prefix.
abbrev after_prefix : String → String → Option String
after_prefix String.[] s = some s
after_prefix (String.◌∷◌ c p) String.[] = none
after_prefix (String.◌∷◌ c p) (String.◌∷◌ d s) = if code c == code d then after_prefix p s else none

-- ^(word|...):[A-Za-z0-9][A-Za-z0-9._:/-]{0,190}$
abbrev matches_ref : List String → String → Bool
matches_ref [] s = false
matches_ref (word ∷ words) s =
    elim (after_prefix (append word ":") s) [
      | none ↦ false
      | some rest ↦ name_within is_ref_tail_char 190 rest
    ]
    || matches_ref words s

-- kernelRefPattern
abbrev kernel_ref_words : List String
kernel_ref_words =
    "turn" ∷ "review" ∷ "approval" ∷ "work" ∷ "operation" ∷ "memory" ∷ "event" ∷ "agent_profile"
    ∷ "parent_result" ∷ []

-- kernelAuthorityPattern
abbrev kernel_authority_words : List String
kernel_authority_words = "runtime" ∷ "operator" ∷ "user" ∷ "daemon" ∷ "system" ∷ "application" ∷ []

-- validateKernelRef
unfoldable pub validate_kernel_ref : String → String → Option String
validate_kernel_ref field value =
    if matches_ref kernel_ref_words (trim value)
    then none
    else some (append field " must be a kernel ref")

-- validateKernelAuthority
unfoldable pub validate_kernel_authority : String → String → Option String
validate_kernel_authority field value =
    if matches_ref kernel_authority_words (trim value)
    then none
    else some (append field " must be a kernel authority ref")

-- validateKernelControlToken
unfoldable pub validate_kernel_control_token : String → String → Option String
validate_kernel_control_token field value =
    if is_empty value
    then none
    else if not (str_eq (trim value) value)
    then some (append field " must not contain leading or trailing whitespace")
    else if not (name_within is_token_char 127 value)
    then some (append field " may contain only letters, numbers, '.', '_', '-', or ':'")
    else none

-- The number of bytes of a text's UTF-8 form.
abbrev text_bytes : String → ℕ
text_bytes String.[] = 0
text_bytes (String.◌∷◌ c s) =
    (if ltb (code c) 0x80
      then 1
      else if ltb (code c) 0x800
      then 2
      else if ltb (code c) 0x10000
      then 3
      else 4)
    + text_bytes s

abbrev all_token_chars : String → Bool
all_token_chars String.[] = true
all_token_chars (String.◌∷◌ c s) = is_token_char (code c) && all_token_chars s

-- validateIdempotencyKey
unfoldable pub validate_idempotency_key : String → Option String
validate_idempotency_key key =
    if is_empty key
    then none
    else if not (str_eq (trim key) key)
    then some "idempotency_key must not contain leading or trailing whitespace"
    else if ltb 128 (text_bytes key)
    then some "idempotency_key must be 128 characters or fewer"
    else if not (all_token_chars key)
    then some "idempotency_key may contain only letters, numbers, '.', '_', '-', or ':'"
    else none

-- if strings.TrimSpace(value) == "" { return errors.New("... is required") }
unfoldable pub required : String → String → Option String
required field value = if is_empty (trim value) then some (append field " is required") else none

-- Checks one after the other: the first error is returned.
unfoldable pub first_error : List (Option String) → Option String
first_error [] = none
first_error (none ∷ rest) = first_error rest
first_error (some e ∷ rest) = some e

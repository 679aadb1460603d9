-- ===== src/Prelude/Text.antt =====
-- Go's `strings.TrimSpace`, `strings.Join`, `+` on strings and `fmt.Sprint` of an int.
use Prim.Native.Nat.{ℕ, zero, suc, ◌/◌, ◌%◌}
use Prim.Native.Char.{code}
use Prim.Native.String.{String}
use mathlib.Core.Bool.{Bool, true, false, ◌||◌, ◌&&◌}
use mathlib.Core.List.{List, [], ◌∷◌}
use genesis.Prelude.Tests.{ltb, leb, ◌==◌, if◌then◌else◌}

-- s == ""
abbrev pub is_empty : String → Bool
is_empty String.[] = true
is_empty (String.◌∷◌ c s) = false

abbrev pub append : String → String → String
append String.[] t = t
append (String.◌∷◌ c s) t = String.◌∷◌ c (append s t)

abbrev pub join : String → List String → String
join sep [] = ""
join sep (s ∷ []) = s
join sep (s ∷ t ∷ rest) = append s (append sep (join sep (t ∷ rest)))

-- unicode.IsSpace
pub is_space : ℕ → Bool
is_space c =
    (leb 9 c && leb c 13)
    || (c == 32)
    || (c == 0x85)
    || (c == 0xa0)
    || (c == 0x1680)
    || (leb 0x2000 c && leb c 0x200a)
    || (c == 0x2028)
    || (c == 0x2029)
    || (c == 0x202f)
    || (c == 0x205f)
    || (c == 0x3000)

trim_left : String → String
trim_left String.[] = ""
trim_left (String.◌∷◌ c s) =
    let rest = trim_left s in if is_space (code c) then rest else String.◌∷◌ c s

trim_right : String → String
trim_right String.[] = ""
trim_right (String.◌∷◌ c s) =
    let rest = trim_right s in if is_empty rest && is_space (code c) then "" else String.◌∷◌ c rest

-- strings.TrimSpace
unfoldable pub trim : String → String
unfolding trim_left trim_right is_space
trim s = trim_right (trim_left s)

-- One decimal digit.
abbrev digit : ℕ → String
digit zero = "0"
digit (suc zero) = "1"
digit (suc (suc zero)) = "2"
digit (suc (suc (suc zero))) = "3"
digit (suc (suc (suc (suc zero)))) = "4"
digit (suc (suc (suc (suc (suc zero))))) = "5"
digit (suc (suc (suc (suc (suc (suc zero)))))) = "6"
digit (suc (suc (suc (suc (suc (suc (suc zero))))))) = "7"
digit (suc (suc (suc (suc (suc (suc (suc (suc zero)))))))) = "8"
digit _ = "9"

decimal : ℕ → ℕ → String
decimal zero n = ""
decimal (suc f) n =
    let more = decimal f (n / 10) in if ltb n 10 then digit n else append more (digit (n % 10))

-- fmt.Sprint of a non-negative int; n + 1 rounds are enough for the digits of n.
unfoldable pub sprint : ℕ → String
unfolding decimal
sprint n = decimal (suc n) n

-- s < t on texts: Go compares the bytes of UTF-8, whose order is that of the code points.
unfoldable pub string_lt : String → String → Bool
string_lt s String.[] = false
string_lt String.[] (String.◌∷◌ d t) = true
string_lt (String.◌∷◌ c s) (String.◌∷◌ d t) =
    ltb (code c) (code d) || ((code c == code d) && string_lt s t)

-- ===== src/Prelude/Text.antt =====
-- `strings.TrimSpace` of the Go library, over the characters of a text.
use Prim.Native.Nat.{ℕ, ◌+◌, ◌-◌, ◌*◌}
use mathlib.Core.List.{List, [], ◌∷◌}
use mathlib.Core.Option.{Option, none, some}
use Prim.Native.Char.{Char, code}
use Prim.Native.String.{String, ◌++◌}
use mathlib.Core.Bool.{Bool, ◌&&◌, ◌||◌}
use mathlib.Core.Path.{◌≡◌, refl}
use artalk.Prelude.Tests.{leb, ◌==◌, if◌then◌else◌}

-- unicode.IsSpace
unfoldable pub is_space : ℕ → Bool
is_space c =
    (leb 9 c && leb c 13)
    || c == 0x20
    || c == 0x85
    || c == 0xA0
    || c == 0x1680
    || (leb 0x2000 c && leb c 0x200A)
    || c == 0x2028
    || c == 0x2029
    || c == 0x202F
    || c == 0x205F
    || c == 0x3000

unfoldable pub trim_left : String → String
unfolding is_space
trim_left String.[] = String.[]
trim_left (String.◌∷◌ c s) =
    let rest = trim_left s in if is_space (code c) then rest else String.◌∷◌ c s

-- A space is dropped if nothing is left behind it.
drop_if_last : Char → String → String
drop_if_last c String.[] = if is_space (code c) then String.[] else String.◌∷◌ c String.[]
drop_if_last c (String.◌∷◌ d t) = String.◌∷◌ c (String.◌∷◌ d t)

unfoldable pub trim_right : String → String
unfolding is_space drop_if_last
trim_right String.[] = String.[]
trim_right (String.◌∷◌ c s) = drop_if_last c (trim_right s)

unfoldable pub trim_space : String → String
unfolding trim_left trim_right
trim_space s = trim_right (trim_left s)

trim_both : trim_space "  a b " ≡ "a b"
unfolding trim_space
trim_both = refl

-- `a + b` on texts.
abbrev pub concat : String → String → String
concat a b = a ++ b

-- The rest of a text behind a prefix, if it begins with it.
unfoldable pub strip_prefix : String → String → Option String
strip_prefix String.[] s = some s
strip_prefix (String.◌∷◌ c p) String.[] = none
strip_prefix (String.◌∷◌ c p) (String.◌∷◌ d s) =
    let rest = strip_prefix p s in if code c == code d then rest else none

-- `strings.TrimPrefix(s, prefix)`
unfoldable pub trim_prefix : String → String → String
unfolding strip_prefix
trim_prefix s prefix = elim (strip_prefix prefix s) [ none ↦ s | some rest ↦ rest ]

trim_prefix_bearer : trim_prefix "Bearer abc" "Bearer " ≡ "abc"
unfolding trim_prefix
trim_prefix_bearer = refl

-- `hex.DecodeString`: an even number of digits, two for each byte.
unfoldable pub hex_digit : ℕ → Option ℕ
hex_digit c =
    if leb b'0' c && leb c b'9'
    then some (c - b'0')
    else if leb b'a' c && leb c b'f'
    then some (c - b'a' + 10)
    else if leb b'A' c && leb c b'F'
    then some (c - b'A' + 10)
    else none

join_byte : Option ℕ → Option ℕ → Option (List ℕ) → Option (List ℕ)
join_byte (some hi) (some lo) (some bytes) = some ((hi * 16 + lo) ∷ bytes)
join_byte _ _ _ = none

unfoldable pub decode_hex : String → Option (List ℕ)
unfolding hex_digit join_byte
decode_hex String.[] = some []
decode_hex (String.◌∷◌ c String.[]) = none
decode_hex (String.◌∷◌ c (String.◌∷◌ d s)) =
    join_byte (hex_digit (code c)) (hex_digit (code d)) (decode_hex s)

decode_hex_bytes : decode_hex "0aFF" ≡ some (10 ∷ 255 ∷ [])
unfolding decode_hex
decode_hex_bytes = refl

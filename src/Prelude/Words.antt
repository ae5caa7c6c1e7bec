-- ===== src/Prelude/Words.antt =====
-- Splitting, joining, searching and replacing in texts: package strings of Go, for separators and
-- patterns that are not empty, and the helpers over it in internal/utils/string.go.
use Prim.Native.Nat.{ℕ, zero, suc, ◌+◌, ◌-◌, ◌*◌}
use Prim.Native.Char.{code}
use Prim.Native.String.{String}
use mathlib.Core.Bool.{Bool, true, not, ◌&&◌, ◌||◌}
use mathlib.Core.List.{List, [], ◌∷◌, map}
use mathlib.Core.Option.{Option, none, some}
use mathlib.Core.Path.{◌≡◌, refl}
use text.Mathlib.Text.{starts_with}
use artalk.Prelude.Tests.{leb, str_eq, if◌then◌else◌}
use artalk.Prelude.Lists.{filter}
use artalk.Prelude.Text.{trim_space, concat, strip_prefix}

unfoldable pub str_length : String → ℕ
str_length String.[] = 0
str_length (String.◌∷◌ c s) = suc (str_length s)

-- `skip` characters of a separator that was found are still to be passed over, and `word` is what
-- stands before the next separator so far.
split_from : String → ℕ → String → String → List String
unfolding str_length
split_from sep skip word String.[] = word ∷ []
split_from sep (suc skip) word (String.◌∷◌ c s) = split_from sep skip word s
split_from sep zero word (String.◌∷◌ c s) =
    let found = starts_with (String.◌∷◌ c s) sep in
    let rest =
      split_from sep (if found then str_length sep - 1 else 0)
        (if found then "" else concat word (String.◌∷◌ c String.[])) s in
    if found then word ∷ rest else rest

-- `strings.Split`
unfoldable pub split : String → String → List String
unfolding split_from
split s sep = split_from sep 0 "" s

-- `strings.Join`
unfoldable pub join : List String → String → String
join [] sep = ""
join (s ∷ []) sep = s
join (s ∷ t ∷ rest) sep = concat s (concat sep (join (t ∷ rest) sep))

-- `strings.Contains`
unfoldable pub contains_text : String → String → Bool
contains_text String.[] part = starts_with String.[] part
contains_text (String.◌∷◌ c s) part = starts_with (String.◌∷◌ c s) part || contains_text s part

-- `strings.Repeat`
unfoldable pub repeat : String → ℕ → String
repeat s zero = ""
repeat s (suc n) = concat s (repeat s n)

replace_from : String → String → ℕ → String → String
unfolding str_length
replace_from old new skip String.[] = String.[]
replace_from old new (suc skip) (String.◌∷◌ c s) = replace_from old new skip s
replace_from old new zero (String.◌∷◌ c s) =
    let found = starts_with (String.◌∷◌ c s) old in
    let rest = replace_from old new (if found then str_length old - 1 else 0) s in
    if found then concat new rest else String.◌∷◌ c rest

-- `strings.Replace` without a limit
unfoldable pub replace_all : String → String → String → String
unfolding replace_from
replace_all s old new = replace_from old new 0 s

unfoldable pub remove_blank_strings : List String → List String
unfolding filter trim_space
remove_blank_strings s = filter (λ str. not (str_eq (trim_space str) "")) s

unfoldable pub split_and_trim_space : String → String → List String
unfolding split trim_space remove_blank_strings
split_and_trim_space s sep = remove_blank_strings (map trim_space (split s sep))

-- `strconv.Atoi` of a count, its error dropped: the digits behind an optional plus sign, else 0.
-- The range of the type is not checked.
digits_from : ℕ → String → Option ℕ
digits_from acc String.[] = some acc
digits_from acc (String.◌∷◌ c s) =
    let rest = digits_from (acc * 10 + (code c - b'0')) s in
    if leb b'0' (code c) && leb (code c) b'9' then rest else none

unsigned : String → String
unfolding strip_prefix
unsigned s = elim (strip_prefix "+" s) [ none ↦ s | some rest ↦ rest ]

unfoldable pub atoi : String → ℕ
unfolding digits_from unsigned strip_prefix
atoi s = elim (digits_from 0 (unsigned s)) [ none ↦ 0 | some n ↦ n ]

split_urls : split_and_trim_space "a, b,, c " "," ≡ "a" ∷ "b" ∷ "c" ∷ []
unfolding split_and_trim_space
split_urls = refl

replace_word : replace_all "a bad, bad day" "bad" "***" ≡ "a ***, *** day"
unfolding replace_all
replace_word = refl

contains_word : contains_text "a bad day" "bad" ≡ true
unfolding contains_text
contains_word = refl

atoi_count : atoi "+120" ≡ 120
unfolding atoi
atoi_count = refl

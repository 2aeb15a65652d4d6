-- ===== src/Prelude/Text.antt =====
-- What the code uses of Go's `strings` and `strconv`, over the characters of a text. A Go string
-- that is not valid UTF-8 is outside the model.
use Prim.Native.Char.{code}
use Prim.Native.Nat.{ℕ, zero, suc, ◌+◌, ◌-◌, ◌*◌, ◌^◌, ◌/◌, ◌%◌}
use Prim.Native.String.{String, ◌++◌, char_at}
use mathlib.Core.Path.{◌≡◌, refl}
use mathlib.Core.Bool.{Bool, true, false, ◌&&◌, ◌||◌}
use mathlib.Core.List.{List, [], ◌∷◌, map}
use mathlib.Core.Option.{Option, none, some}
use qrl_tests.Prelude.Int.{ℤ, pos, sub_ℕ}
use text.Mathlib.Text.{◌==◌ as str_eq}
use qrl_tests.Prelude.Tests.{ltb, leb, ◌==◌, if◌then◌else◌}

abbrev pub codes : String → List ℕ
codes String.[] = []
codes (String.◌∷◌ c s) = code c ∷ codes s

infixr 64 ◌<>◌
abbrev pub ◌<>◌ : String → String → String
s <> t = s ++ t

-- unicode.IsSpace
unfoldable pub is_space : ℕ → Bool
is_space c =
    (leb 9 c && leb c 13)
    || c == 32
    || c == 0x85
    || c == 0xa0
    || c == 0x1680
    || (leb 0x2000 c && leb c 0x200a)
    || c == 0x2028
    || c == 0x2029
    || c == 0x202f
    || c == 0x205f
    || c == 0x3000

unfoldable pub trim_left : String → String
unfolding is_space
trim_left String.[] = ""
trim_left (String.◌∷◌ c s) = if is_space (code c) then trim_left s else String.◌∷◌ c s

unfoldable pub trim_right : String → String
unfolding is_space
trim_right String.[] = ""
trim_right (String.◌∷◌ c s) =
    let rest = trim_right s in if is_space (code c) && str_eq rest "" then "" else String.◌∷◌ c rest

-- strings.TrimSpace
unfoldable pub trim_space : String → String
unfolding trim_left trim_right
trim_space s = trim_right (trim_left s)

-- strings.Join
unfoldable pub join_text : List String → String → String
join_text [] sep = ""
join_text (s ∷ []) sep = s
join_text (s ∷ t ∷ rest) sep = s <> sep <> join_text (t ∷ rest) sep

-- unicode.ToLower, as far as its value can be an ASCII letter: the other letters of Unicode keep
-- their code here, and no search of the code can tell.
unfoldable pub lower_code : ℕ → ℕ
lower_code c =
    if leb 65 c && leb c 90
    then c + 32
    else if c == 0x130
    then 105
    else if c == 0x212a
    then 107
    else c

-- strings.ToLower, for a text of ASCII characters
unfoldable pub lower_text : String → String
lower_text String.[] = ""
lower_text (String.◌∷◌ c s) =
    String.◌∷◌
      (if leb 65 (code c) && leb (code c) 90
        then char_at "abcdefghijklmnopqrstuvwxyz" (code c - 65)
        else c)
      (lower_text s)

-- strings.CutPrefix: what follows the prefix, if the text has it
unfoldable pub cut_prefix : String → String → Option String
cut_prefix s String.[] = some s
cut_prefix String.[] (String.◌∷◌ c t) = none
cut_prefix (String.◌∷◌ d s) (String.◌∷◌ c t) =
    let more = cut_prefix s t in if code d == code c then more else none

-- strings.TrimPrefix
unfoldable pub trim_prefix : String → String → String
unfolding cut_prefix
trim_prefix s prefix = elim (cut_prefix s prefix) [ none ↦ s | some rest ↦ rest ]

-- The verb `%q`, for a text with no character that needs an escape.
unfoldable pub quoted : String → String
quoted s = "\"" <> s <> "\""

starts_with : List ℕ → List ℕ → Bool
starts_with s [] = true
starts_with [] (c ∷ t) = false
starts_with (d ∷ s) (c ∷ t) = d == c && starts_with s t

-- strings.Contains
unfoldable pub contains_text : List ℕ → List ℕ → Bool
unfolding starts_with
contains_text [] t = starts_with [] t
contains_text (c ∷ s) t = starts_with (c ∷ s) t || contains_text s t

-- strings.Contains(strings.ToLower(s), t), for a `t` of ASCII letters in lower case
unfoldable pub contains_lowered : String → String → Bool
unfolding contains_text lower_code
contains_lowered s t = contains_text (map lower_code (codes s)) (codes t)

unfoldable pub digit : ℕ → String
digit zero = "0"
digit (suc zero) = "1"
digit (suc (suc zero)) = "2"
digit (suc (suc (suc zero))) = "3"
digit (suc (suc (suc (suc zero)))) = "4"
digit (suc (suc (suc (suc (suc zero))))) = "5"
digit (suc (suc (suc (suc (suc (suc zero)))))) = "6"
digit (suc (suc (suc (suc (suc (suc (suc zero))))))) = "7"
digit (suc (suc (suc (suc (suc (suc (suc (suc zero)))))))) = "8"
digit _ = "9"

-- A 64-bit number has at most twenty digits.
unfoldable pub decimal_digits : ℕ → ℕ → String
unfolding digit
decimal_digits zero n = ""
decimal_digits (suc fuel) n =
    let more = decimal_digits fuel (n / 10) in if ltb n 10 then digit n else more <> digit (n % 10)

-- The decimal text of an unsigned number of at most 64 bits: strconv.FormatUint(n, 10), and `%d`.
unfoldable pub decimal : ℕ → String
unfolding decimal_digits
decimal n = decimal_digits 20 n

-- The value of a run of decimal digits, `none` at any other character.
unfoldable pub digits_value : ℕ → List ℕ → Option ℕ
digits_value acc [] = some acc
digits_value acc (c ∷ rest) =
    let more = digits_value (acc * 10 + (c - 48)) rest in
    if leb 48 c && leb c 57 then more else none

unfoldable pub unsigned_value : List ℕ → Option ℕ
unfolding digits_value
unsigned_value [] = none
unsigned_value (c ∷ rest) = digits_value 0 (c ∷ rest)

unfoldable pub signed_value : List ℕ → Option ℤ
unfolding unsigned_value
signed_value [] = none
signed_value (c ∷ rest) =
    if c == b'-'
    then elim (unsigned_value rest) [
      | none ↦ none
      | some n ↦ if leb n (2 ^ 63) then some (sub_ℕ 0 n) else none
    ]
    else elim (unsigned_value (if c == b'+' then rest else c ∷ rest)) [
      | none ↦ none
      | some n ↦ if ltb n (2 ^ 63) then some (pos n) else none
    ]

-- strconv.Atoi: `none` for a syntax error and for a value outside the 64-bit range
unfoldable pub atoi : String → Option ℤ
unfolding signed_value
atoi s = signed_value (codes s)

decimal_runs : decimal 18446744073709551615 ≡ "18446744073709551615"
unfolding decimal
decimal_runs = refl

trim_space_runs : trim_space " a b \n" ≡ "a b"
unfolding trim_space
trim_space_runs = refl

contains_lowered_runs : contains_lowered "Suite TimeOut Elapsed" "timeout" ≡ true
unfolding contains_lowered
contains_lowered_runs = refl

atoi_runs : atoi "+042" ≡ some (pos 42)
unfolding atoi
atoi_runs = refl

lower_text_runs : lower_text "TCP" ≡ "tcp"
unfolding lower_text
lower_text_runs = refl

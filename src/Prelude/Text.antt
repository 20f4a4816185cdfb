-- ===== src/Prelude/Text.antt =====
-- The operations of Go's `strings`, `unicode`, `strconv` and `fmt` that the program calls, on texts
-- as sequences of code points.
pub mod Digits
use Prim.Native.Char.{Char, code}
use Prim.Native.String.{String, ◌++◌, char_at}
use Prim.Native.String.compare.{cons-nil}
use Prim.Native.Nat.{ℕ, zero, suc, ◌+◌, ◌*◌, ◌-◌, ◌/◌, ◌%◌}
use mathlib.Core.Path.{◌≡◌, refl}
use mathlib.Core.Bool.{Bool, true, false, ◌&&◌, ◌||◌}
use mathlib.Core.Option.{Option, none, some}
use text.Mathlib.Text.{◌==◌ as text_eq, is_eq}
use inline_chat.Prelude.Tests.{ltb, leb, ◌==◌, if◌then◌else◌}

-- unicode.IsSpace
unfoldable pub is_space : ℕ → Bool
is_space c =
    (leb 9 c && leb c 13)
    || c == 32
    || c == 0x85
    || c == 0xa0
    || c == 0x1680
    || (leb 0x2000 c && leb c 0x200a)
    || c == 0x2028
    || c == 0x2029
    || c == 0x202f
    || c == 0x205f
    || c == 0x3000

unfoldable pub is_empty : String → Bool
is_empty String.[] = true
is_empty (String.◌∷◌ c s) = false

trim_left : String → String
trim_left String.[] = String.[]
trim_left (String.◌∷◌ c s) =
    let rest = trim_left s in if is_space (code c) then rest else String.◌∷◌ c s

trim_right : String → String
trim_right String.[] = String.[]
trim_right (String.◌∷◌ c s) =
    let rest = trim_right s in
    if is_space (code c) && is_empty rest then String.[] else String.◌∷◌ c rest

-- strings.TrimSpace
unfoldable pub trim_space : String → String
unfolding trim_left trim_right is_space is_empty
trim_space s = trim_right (trim_left s)

trim_right-solid :
    (c : Char) (s : String)
    → is_space (code c) ≡ false
    → text_eq (trim_right (String.◌∷◌ c s)) "" ≡ false
unfolding trim_right
trim_right-solid c s h = rw h (λ i. is_eq (cons-nil c (trim_right s) i))

-- A text that starts with no space is not trimmed away.
pub trim_space-solid :
    (c : Char) (s : String)
    → is_space (code c) ≡ false
    → text_eq (trim_space (String.◌∷◌ c s)) "" ≡ false
unfolding trim_space trim_left
trim_space-solid c s h = rw h (trim_right-solid c s h)

-- A letter of strings.ToLower. Beside A to Z, the two other code points whose lower case is an
-- ASCII letter are mapped; the rest stay, which no comparison with an ASCII word can tell.
lower_char : Char → Char
lower_char c =
    if leb 65 (code c) && leb (code c) 90
    then char_at "abcdefghijklmnopqrstuvwxyz" (code c - 65)
    else if code c == 0x130
    then "i"
    else if code c == 0x212a
    then "k"
    else c

unfoldable pub to_lower : String → String
unfolding lower_char
to_lower String.[] = String.[]
to_lower (String.◌∷◌ c s) = String.◌∷◌ (lower_char c) (to_lower s)

-- One of the code points that fold to the same ASCII letter.
fold_char : Char → Char
fold_char c =
    if leb 65 (code c) && leb (code c) 90
    then char_at "abcdefghijklmnopqrstuvwxyz" (code c - 65)
    else if code c == 0x17f
    then "s"
    else if code c == 0x212a
    then "k"
    else c

fold : String → String
unfolding fold_char
fold String.[] = String.[]
fold (String.◌∷◌ c s) = String.◌∷◌ (fold_char c) (fold s)

-- strings.EqualFold, where one text is ASCII.
unfoldable pub equal_fold : String → String → Bool
unfolding fold
equal_fold s t = text_eq (fold s) (fold t)

has_prefix : String → String → Bool
has_prefix s String.[] = true
has_prefix String.[] (String.◌∷◌ d t) = false
has_prefix (String.◌∷◌ c s) (String.◌∷◌ d t) = code c == code d && has_prefix s t

-- strings.Contains
unfoldable pub contains : String → String → Bool
unfolding has_prefix
contains String.[] t = has_prefix String.[] t
contains (String.◌∷◌ c s) t = has_prefix (String.◌∷◌ c s) t || contains s t

drop_prefix : String → String → Option String
drop_prefix s String.[] = some s
drop_prefix String.[] (String.◌∷◌ d t) = none
drop_prefix (String.◌∷◌ c s) (String.◌∷◌ d t) =
    let rest = drop_prefix s t in if code c == code d then rest else none

or_text : String → Option String → String
or_text s none = s
or_text s (some t) = t

-- strings.TrimPrefix and strings.TrimSuffix
unfoldable pub trim_prefix : String → String → String
unfolding drop_prefix or_text
trim_prefix s t = or_text s (drop_prefix s t)

unfoldable pub trim_suffix : String → String → String
trim_suffix String.[] t = String.[]
trim_suffix (String.◌∷◌ c s) t =
    let rest = trim_suffix s t in
    if text_eq (String.◌∷◌ c s) t then String.[] else String.◌∷◌ c rest

-- utf8.RuneCountInString, of a text that is valid UTF-8.
abbrev pub rune_count : String → ℕ
rune_count String.[] = 0
rune_count (String.◌∷◌ c s) = suc (rune_count s)

byte_width : ℕ → ℕ
byte_width c = if ltb c 0x80 then 1 else if ltb c 0x800 then 2 else if ltb c 0x10000 then 3 else 4

-- len(s), the bytes of the UTF-8 encoding.
unfoldable pub byte_count : String → ℕ
unfolding byte_width
byte_count String.[] = 0
byte_count (String.◌∷◌ c s) = byte_width (code c) + byte_count s

pub digit : ℕ → String
digit n = String.◌∷◌ (char_at "0123456789" (n % 10)) String.[]

pub digits_of : ℕ → ℕ → String
unfolding digit
digits_of zero n = String.[]
digits_of (suc fuel) n =
    let rest = digits_of fuel (n / 10) in if ltb n 10 then digit n else rest ++ digit n

-- strconv.FormatUint in base 10: a number has at most as many digits as its value plus one.
unfoldable pub format_uint : ℕ → String
unfolding digits_of
format_uint n = digits_of (suc n) n

zeros : ℕ → String
zeros zero = String.[]
zeros (suc n) = "0" ++ zeros n

-- The verb %04d.
unfoldable pub format_padded4 : ℕ → String
unfolding format_uint zeros
format_padded4 n = zeros (4 - rune_count (format_uint n)) ++ format_uint n

pub digit_value : Char → Option ℕ
digit_value c = if leb 48 (code c) && leb (code c) 57 then some (code c - 48) else none

parse_digits : ℕ → String → Option ℕ
unfolding digit_value
parse_digits acc String.[] = some acc
parse_digits acc (String.◌∷◌ c s) = elim (digit_value c) [
  | none ↦ none
  | some d ↦ parse_digits (acc * 10 + d) s
]

in_range : Option ℕ → Option ℕ
in_range none = none
in_range (some n) = if ltb n 18446744073709551616 then some n else none

-- strconv.ParseUint(s, 10, 64), where `none` is its error.
unfoldable pub parse_uint64 : String → Option ℕ
unfolding parse_digits in_range
parse_uint64 String.[] = none
parse_uint64 (String.◌∷◌ c s) = in_range (parse_digits 0 (String.◌∷◌ c s))

-- strings.SplitN(s, " ", 2), where `none` is a text without a space.
unfoldable pub split_at_space : String → Option (String × String)
split_at_space String.[] = none
split_at_space (String.◌∷◌ c s) =
    let later : Option (String × String) = elim (split_at_space s) [
      | none ↦ none
      | some (before, after) ↦ some (String.◌∷◌ c before, after)
    ] in
    if code c == 32 then some (String.[], s) else later

-- The token of a header `Authorization: Bearer <token>`, as parseBearerToken of the services reads it.
unfoldable pub parse_bearer_token : String → String
unfolding split_at_space equal_fold trim_space
parse_bearer_token header = elim (split_at_space header) [
  | none ↦ String.[]
  | some (scheme, token) ↦ if equal_fold scheme "Bearer" then trim_space token else String.[]
]

bearer : parse_bearer_token "bEARER  abc " ≡ "abc"
unfolding parse_bearer_token
bearer = refl

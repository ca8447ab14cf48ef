-- ===== src/Prelude/Text.antt =====
-- What the program uses of Go's `strings`, over the native texts. The case mappings are those of
-- ASCII; a letter outside ASCII is left as it is.
use Prim.Native.Nat.{ℕ, zero, suc, ◌+◌, ◌-◌, ◌/◌, ◌%◌}
use Prim.Native.Char.{Char, code}
use Prim.Native.String.{String, compare, ◌++◌, slice, len}
use text.Mathlib.Text.{◌==◌, is_lt, char_at?, starts_with}
use mathlib.Core.List.{List, [], ◌∷◌, ◌++◌ as ◌++ᴸ◌}
use mathlib.Core.Bool.{Bool, false, ◌&&◌, ◌||◌}
use mathlib.Core.Path.{◌≡◌, refl}
use kasirinaja.Prelude.Int.{ℤ, pos, negsuc}
use kasirinaja.Prelude.Tests.{ltb, leb, ◌==◌ as eqb, get_or, if◌then◌else◌}

-- `a == b` on strings
abbrev pub str_eq : String → String → Bool
str_eq a b = a == b

-- `a < b` on strings
abbrev pub str_lt : String → String → Bool
str_lt a b = is_lt (compare a b)

-- `unicode.IsSpace`
is_space : ℕ → Bool
is_space c =
    (leb 9 c && leb c 13)
    || eqb c 32
    || eqb c 0x85
    || eqb c 0xa0
    || eqb c 0x1680
    || (leb 0x2000 c && leb c 0x200a)
    || eqb c 0x2028
    || eqb c 0x2029
    || eqb c 0x202f
    || eqb c 0x205f
    || eqb c 0x3000

trim_left : String → String
unfolding is_space
trim_left String.[] = String.[]
trim_left (String.◌∷◌ c s) =
    let rest = trim_left s in if is_space (code c) then rest else String.◌∷◌ c s

trim_right : String → String
unfolding is_space
trim_right String.[] = String.[]
trim_right (String.◌∷◌ c s) =
    let rest = trim_right s in
    if is_space (code c) && (rest == "") then String.[] else String.◌∷◌ c rest

-- `strings.TrimSpace`
unfoldable pub trim_space : String → String
unfolding trim_left trim_right
trim_space s = trim_right (trim_left s)

upper_char : Char → Char
upper_char c =
    if leb b'a' (code c) && leb (code c) b'z'
    then get_or (char_at? "ABCDEFGHIJKLMNOPQRSTUVWXYZ" (code c - b'a')) c
    else c

lower_char : Char → Char
lower_char c =
    if leb b'A' (code c) && leb (code c) b'Z'
    then get_or (char_at? "abcdefghijklmnopqrstuvwxyz" (code c - b'A')) c
    else c

-- `strings.ToUpper`
unfoldable pub to_upper : String → String
unfolding upper_char
to_upper String.[] = String.[]
to_upper (String.◌∷◌ c s) = String.◌∷◌ (upper_char c) (to_upper s)

-- `strings.ToLower`
unfoldable pub to_lower : String → String
unfolding lower_char
to_lower String.[] = String.[]
to_lower (String.◌∷◌ c s) = String.◌∷◌ (lower_char c) (to_lower s)

-- The bytes of a code point in UTF-8.
utf8 : ℕ → List ℕ
utf8 c =
    if ltb c 0x80
    then c ∷ []
    else if ltb c 0x800
    then (0xc0 + c / 64) ∷ (0x80 + c % 64) ∷ []
    else if ltb c 0x1_0000
    then (0xe0 + c / 4096) ∷ (0x80 + c / 64 % 64) ∷ (0x80 + c % 64) ∷ []
    else (0xf0 + c / 0x4_0000)
      ∷ (0x80 + c / 4096 % 64)
      ∷ (0x80 + c / 64 % 64)
      ∷ (0x80 + c % 64)
      ∷ []

-- `[]byte(s)`, which `s[i]` and `len(s)` go by
unfoldable pub bytes : String → List ℕ
unfolding utf8
bytes String.[] = []
bytes (String.◌∷◌ c s) = utf8 (code c) ++ᴸ bytes s

-- `strings.HasPrefix` and `strings.TrimPrefix`
abbrev pub has_prefix : String → String → Bool
has_prefix = starts_with

unfoldable pub trim_prefix : String → String → String
trim_prefix s t = if has_prefix s t then slice s (len t) (len s) else s

-- `strings.HasSuffix` and `strings.TrimSuffix`
unfoldable pub has_suffix : String → String → Bool
has_suffix s t = leb (len t) (len s) && (slice s (len s - len t) (len s) == t)

unfoldable pub trim_suffix : String → String → String
unfolding has_suffix
trim_suffix s t = if has_suffix s t then slice s 0 (len s - len t) else s

has_char : Char → String → Bool
has_char c String.[] = false
has_char c (String.◌∷◌ d s) = eqb (code c) (code d) || has_char c s

-- `strings.ContainsAny`
unfoldable pub contains_any : String → String → Bool
unfolding has_char
contains_any String.[] chars = false
contains_any (String.◌∷◌ c s) chars = has_char c chars || contains_any s chars

-- `strings.Contains`
unfoldable pub contains : String → String → Bool
contains String.[] t = t == ""
contains (String.◌∷◌ c s) t = has_prefix (String.◌∷◌ c s) t || contains s t

digit : ℕ → String
digit n = slice "0123456789" n (n + 1)

-- `fuel` bounds the number of digits: `show_nat` gives 20, and an `int64` has 19.
show_digits : ℕ → ℕ → String
unfolding digit
show_digits zero n = ""
show_digits (suc fuel) n =
    let front = show_digits fuel (n / 10) in if ltb n 10 then digit n else (front ++ digit (n % 10))

unfoldable pub show_nat : ℕ → String
unfolding show_digits
show_nat n = show_digits 20 n

-- `%d`
unfoldable pub show_int : ℤ → String
unfolding show_nat
show_int (pos n) = show_nat n
show_int (negsuc n) = "-" ++ show_nat (suc n)

zeros : ℕ → String
zeros zero = ""
zeros (suc n) = "0" ++ zeros n

-- `%0wd` of a number that is not negative
unfoldable pub show_padded : ℕ → ℕ → String
unfolding zeros show_nat
show_padded width n = let text = show_nat n in zeros (width - len text) ++ text

trims : trim_space " \t sku-1 \n" ≡ "sku-1"
unfolding trim_space
trims = refl

raises : to_upper "sku-a1z" ≡ "SKU-A1Z"
unfolding to_upper
raises = refl

shows : (show_int (negsuc 41) ++ show_padded 2 7) ≡ "-4207"
unfolding show_int show_padded
shows = refl

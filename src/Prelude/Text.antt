-- ===== src/Prelude/Text.antt =====
-- Text: decimal printing, bytes, and prefixes.
use Prim.Native.Nat.{ℕ, ◌+◌, zero, suc, ◌/◌, ◌%◌, compare, Ordering}
use Prim.Native.Char.{Char, code}
use Prim.Native.String.{String, ◌++◌}
use mathlib.Core.Bool.{Bool, ◌&&◌, ◌||◌}
use benchmark_rust_llms.Prelude.Lists.{any}
use mathlib.Core.Option.{Option, none, some}
use mathlib.Core.List.{List, [], ◌∷◌, ◌++◌ as ◌+++◌}
use text.Mathlib.Text.{◌==◌}
use benchmark_rust_llms.Prelude.Tests.{if◌then◌else◌}
use benchmark_rust_llms.Prelude.Tests

abbrev pub str_eq : String → String → Bool
str_eq s t = s == t

-- The UTF-8 bytes of a character, from its code.
unfoldable pub utf8 : ℕ → List ℕ
utf8 n =
    if Tests.ltb n 128
    then n ∷ []
    else if Tests.ltb n 2048
    then (192 + n / 64) ∷ (128 + n % 64) ∷ []
    else if Tests.ltb n 65536
    then (224 + n / 4096) ∷ (128 + n / 64 % 64) ∷ (128 + n % 64) ∷ []
    else (240 + n / 262144) ∷ (128 + n / 4096 % 64) ∷ (128 + n / 64 % 64) ∷ (128 + n % 64) ∷ []

-- `str::as_bytes`
unfoldable pub as_bytes : String → List ℕ
unfolding utf8
as_bytes String.[] = []
as_bytes (String.◌∷◌ c s) = ◌+++◌ (utf8 (code c)) (as_bytes s)

-- `str::strip_prefix`
unfoldable pub strip_prefix : String → String → Option String
strip_prefix String.[] s = some s
strip_prefix (String.◌∷◌ c p) String.[] = none
strip_prefix (String.◌∷◌ c p) (String.◌∷◌ d s) =
    if Tests.◌==◌ (code c) (code d) then strip_prefix p s else none

unfoldable pub char_at : ℕ → String → String
char_at n String.[] = ""
char_at zero (String.◌∷◌ c s) = String.◌∷◌ c ""
char_at (suc n) (String.◌∷◌ c s) = char_at n s

unfoldable pub digit : ℕ → String
unfolding char_at
digit n = char_at n "0123456789"

unfoldable pub digits_of : ℕ → ℕ → String
unfolding digit
digits_of zero n = ""
digits_of (suc places) n = elim (compare n 10) [
  | Ordering.lt ↦ digit n
  | _ ↦ digits_of places (n / 10) ++ digit (n % 10)
]

-- `{n}` of a format: 20 places hold every u64.
unfoldable pub decimal : ℕ → String
unfolding digits_of
decimal n = digits_of 20 n

unfoldable pub hex_digit : ℕ → String
unfolding char_at
hex_digit n = char_at n "0123456789abcdef"

-- `{b:02x}` of each byte, joined.
unfoldable pub hex_text : List ℕ → String
unfolding hex_digit
hex_text [] = ""
hex_text (b ∷ bs) = hex_digit (b / 16) ++ (hex_digit (b % 16) ++ hex_text bs)

-- `char::is_whitespace`, on the code.
unfoldable pub is_whitespace : ℕ → Bool
is_whitespace c =
    Tests.leb 9 c && Tests.leb c 13
    || Tests.leb 8192 c && Tests.leb c 8202
    || any (Tests.◌==◌ c) (32 ∷ 133 ∷ 160 ∷ 5760 ∷ 8232 ∷ 8233 ∷ 8239 ∷ 8287 ∷ 12288 ∷ [])

unfoldable pub trim_start : String → String
unfolding is_whitespace
trim_start String.[] = ""
trim_start (String.◌∷◌ c s) = if is_whitespace (code c) then trim_start s else String.◌∷◌ c s

cons_unless_blank : Char → String → String
cons_unless_blank c String.[] = if is_whitespace (code c) then "" else String.◌∷◌ c ""
cons_unless_blank c (String.◌∷◌ d s) = String.◌∷◌ c (String.◌∷◌ d s)

unfoldable pub trim_end : String → String
unfolding is_whitespace cons_unless_blank
trim_end String.[] = ""
trim_end (String.◌∷◌ c s) = cons_unless_blank c (trim_end s)

-- `str::trim`
unfoldable pub trim : String → String
unfolding trim_start trim_end
trim s = trim_end (trim_start s)

cons_first : Char → List String → List String
cons_first c [] = String.◌∷◌ c "" ∷ []
cons_first c (s ∷ ss) = String.◌∷◌ c s ∷ ss

-- `str::split` at a character: never without a part.
unfoldable pub split : ℕ → String → List String
unfolding cons_first
split c String.[] = "" ∷ []
split c (String.◌∷◌ d s) =
    if Tests.◌==◌ (code d) c then "" ∷ split c s else cons_first d (split c s)

-- Texts are ordered by their bytes.
unfoldable pub bytes_leb : List ℕ → List ℕ → Bool
bytes_leb [] ys = Bool.true
bytes_leb (x ∷ xs) [] = Bool.false
bytes_leb (x ∷ xs) (y ∷ ys) = Tests.ltb x y || Tests.◌==◌ x y && bytes_leb xs ys

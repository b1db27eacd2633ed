-- ===== src/Prelude/Numbers.antt =====
-- `from_str` of the standard library's integers.
use Prim.Native.Nat.{ℕ, ◌+◌, ◌-◌, ◌*◌, ◌^◌, ◌<◌}
use Prim.Native.Char.{code}
use Prim.Native.String.{String}
use mathlib.Core.Path.{◌≡◌}
use mathlib.Core.Logic.{inl, inr}
use mathlib.Core.Bool.{true, false, ◌&&◌}
use mathlib.Core.Option.{Option, none, some}
use native.Mathlib.Omega.{arith}
use benchmark_rust_llms.Prelude.Int.{ℤ, pos, negsuc}
use benchmark_rust_llms.Prelude.Tests.{if◌then◌else◌, leb, ltb, ◌==◌, Bool-cases}

-- The digits of `u64::from_str`, from the value read before them; none on another character or
-- beyond the u64 range.
unfoldable pub read_digits : ℕ → String → Option ℕ
read_digits n String.[] = some n
read_digits n (String.◌∷◌ c s) =
    let m = n * 10 + (code c - b'0') in
    elim (leb b'0' (code c) && leb (code c) b'9' && ltb m (2 ^ 64)) [
      | true ↦ read_digits m s
      | false ↦ none
    ]

unfoldable pub read_number : String → Option ℕ
unfolding read_digits
read_number String.[] = none
read_number (String.◌∷◌ c s) = read_digits 0 (String.◌∷◌ c s)

-- `u64::from_str`: a sign `+` may stand before the digits.
unfoldable pub read_u64 : String → Option ℕ
unfolding read_number
read_u64 String.[] = none
read_u64 (String.◌∷◌ c s) = if code c == b'+' then read_number s else read_number (String.◌∷◌ c s)

-- The magnitude of a number below zero, as an i64.
abbrev pub below_zero : Option ℕ → Option ℤ
below_zero none = none
below_zero (some n) =
    if n == 0 then some (pos 0) else if leb n (2 ^ 63) then some (negsuc (n - 1)) else none

abbrev pub above_zero : Option ℕ → Option ℤ
above_zero none = none
above_zero (some n) = if ltb n (2 ^ 63) then some (pos n) else none

-- `i64::from_str`
unfoldable pub read_i64 : String → Option ℤ
unfolding read_u64 read_number
read_i64 String.[] = none
read_i64 (String.◌∷◌ c s) =
    if code c == b'-' then below_zero (read_number s) else above_zero (read_u64 (String.◌∷◌ c s))

abbrev pub below : ℕ → Option ℕ → Option ℕ
below limit none = none
below limit (some n) = if ltb n limit then some n else none

-- `u32::from_str`
unfoldable pub read_u32 : String → Option ℕ
unfolding read_u64
read_u32 s = below (2 ^ 32) (read_u64 s)

read_digits-lt : (n : ℕ) (s : String) {m : ℕ} → n < 2 ^ 64 → read_digits n s ≡ some m → m < 2 ^ 64
unfolding read_digits
read_digits-lt n String.[] {m} h e = ground arith
read_digits-lt n (String.◌∷◌ c s) {m} h e =
    let next = n * 10 + (code c - b'0') in
    elim (Bool-cases (leb b'0' (code c) && leb (code c) b'9' && ltb next (2 ^ 64))) [
      | inl t ↦ read_digits-lt next s (ground arith) (rw (t, read_digits) at e)
      | inr t ↦ absurd (let e' = rw (t, read_digits) at e in cc)
    ]

read_number-lt : (s : String) {m : ℕ} → read_number s ≡ some m → m < 2 ^ 64
unfolding read_number
read_number-lt String.[] e = cc
read_number-lt (String.◌∷◌ c s) e = read_digits-lt 0 (String.◌∷◌ c s) (omega arith) e

pub read_u64-lt : (s : String) {m : ℕ} → read_u64 s ≡ some m → m < 2 ^ 64
unfolding read_u64
read_u64-lt String.[] e = cc
read_u64-lt (String.◌∷◌ c s) e = elim (Bool-cases (code c == b'+')) [
  | inl t ↦ read_number-lt s (rw t at e)
  | inr t ↦ read_number-lt (String.◌∷◌ c s) (rw t at e)
]

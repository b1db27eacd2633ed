-- ===== src/Q/Delivery/Backoff.antt =====
-- q/src/delivery/backoff.rs: the delay before a retry. The generator's next value is an argument.
use native.Mathlib.Nat.{mod-eq_of_lt}
use benchmark_rust_llms.Prelude.{
  ℕ, ◌+◌, ◌-◌, ◌*◌, ◌%◌, ◌^◌, ◌≤◌, ◌<◌, min, ◌==◌, if◌then◌else◌, ◌≡◌, refl, arith, lt→ltb, Option,
  none, some, ltb,
}

abbrev pub max_u64 : ℕ
max_u64 = 2 ^ 64 - 1

unfoldable pub uniform_inclusive : ℕ → ℕ → ℕ
uniform_inclusive next_u64 cap = if cap == max_u64 then next_u64 else next_u64 % (cap + 1)

-- `u64::checked_shl`: it fails on a shift of 64 bits or more; bits shifted out are lost.
abbrev pub checked_shl : ℕ → ℕ → Option ℕ
checked_shl base exp = if ltb exp 64 then some (base * 2 ^ exp % 2 ^ 64) else none

abbrev unwrap_or_max : Option ℕ → ℕ
unwrap_or_max none = max_u64
unwrap_or_max (some n) = n

-- `attempt.saturating_sub(1).min(20)`
abbrev pub exponent : ℕ → ℕ
exponent attempt = min (attempt - 1) 20

abbrev pub delay_cap : ℕ → ℕ → ℕ → ℕ
delay_cap attempt base_ms max_ms =
    min (unwrap_or_max (checked_shl base_ms (exponent attempt))) max_ms

unfoldable pub next_delay_ms : ℕ → ℕ → ℕ → ℕ → ℕ
unfolding uniform_inclusive
next_delay_ms attempt base_ms max_ms next_u64 =
    uniform_inclusive next_u64 (delay_cap attempt base_ms max_ms)

uniform_inclusive-le : (n cap : ℕ) → n < 2 ^ 64 → cap < 2 ^ 64 → uniform_inclusive n cap ≤ cap
unfolding uniform_inclusive
uniform_inclusive-le n cap h k = ground arith

uniform_inclusive_onto : (d cap : ℕ) → d ≤ cap → uniform_inclusive d cap ≡ d
unfolding uniform_inclusive
uniform_inclusive_onto d top h = ground (arith, mod-eq_of_lt {n = d} {m = top + 1} (omega arith))

mod_small : (x : ℕ) → x < 2 ^ 64 → x % 2 ^ 64 ≡ x
mod_small x h = omega arith

cap_lem :
    (attempt base_ms max_ms : ℕ)
    → max_ms < 2 ^ 64
    → base_ms * 2 ^ min (attempt - 1) 20 < 2 ^ 64
    → delay_cap attempt base_ms max_ms ≡ min (base_ms * 2 ^ min (attempt - 1) 20) max_ms
cap_lem attempt base_ms max_ms h k =
    rw
      (
        lt→ltb (min (attempt - 1) 20) 64 (omega arith),
        mod_small (base_ms * 2 ^ min (attempt - 1) 20) k,
      )
      refl

-- While `base_ms` doubled for each attempt after the first, at most twenty times, fits a u64, no
-- delay is above the lesser of that and `max_ms`, and every delay up to it is drawn.
pub next_delay_ms-range :
    (attempt base_ms max_ms : ℕ)
    → max_ms < 2 ^ 64
    → base_ms * 2 ^ min (attempt - 1) 20 < 2 ^ 64
    → ((n : ℕ)
        → n < 2 ^ 64
        → next_delay_ms attempt base_ms max_ms n ≤ min (base_ms * 2 ^ min (attempt - 1) 20) max_ms)
      × ((d : ℕ)
          → d ≤ min (base_ms * 2 ^ min (attempt - 1) 20) max_ms
          → next_delay_ms attempt base_ms max_ms d ≡ d)
unfolding next_delay_ms
next_delay_ms-range attempt base_ms max_ms h k =
    let e = cap_lem attempt base_ms max_ms h k in
    (
      λ n small. rw e (
          uniform_inclusive-le n (min (base_ms * 2 ^ min (attempt - 1) 20) max_ms) small
            (omega (arith, h))),
      λ d below.
          rw e (uniform_inclusive_onto d (min (base_ms * 2 ^ min (attempt - 1) 20) max_ms) below),
    )

-- ===== src/Net/Cidr.antt =====
-- CIDR blocks, and when the tests on octets and segments are membership in one.
use benchmark_rust_llms.Prelude.{
  ℕ, [], ◌∷◌, Bool, ◌≡◌, ◌<◌, ◌==◌, ◌/◌, ◌*◌, ◌+◌, ◌^◌, ◌-◌, arith, ◌&&◌, ap, ◌∙◌, ◌%◌, all,
}
use benchmark_rust_llms.Net.{clear_low, v4, IpAddr, v6}

-- An IPv4 block: its base as a number, and the length of its prefix.
pub record Block : Type 0 where
  pub base : ℕ
  pub prefix : ℕ

abbrev pub value : ℕ → ℕ → ℕ → ℕ → ℕ
value a b c d = a * 2 ^ 24 + b * 2 ^ 16 + c * 2 ^ 8 + d

-- The address and the block's base agree in the prefix.
abbrev pub in_block : ℕ → Block → Bool
in_block n k = n / 2 ^ (32 - k.prefix) == k.base / 2 ^ (32 - k.prefix)

-- a.b.c.d/length
abbrev pub block : ℕ → ℕ → ℕ → ℕ → ℕ → Block
block a b c d n = record { base = value a b c d; prefix = n }

-- The 128-bit value of an IPv6 address: its first six segments, its last two.
abbrev pub high_part : ℕ → ℕ → ℕ → ℕ → ℕ → ℕ → ℕ
high_part s0 s1 s2 s3 s4 s5 =
    s0 * 2 ^ 80 + s1 * 2 ^ 64 + s2 * 2 ^ 48 + s3 * 2 ^ 32 + s4 * 2 ^ 16 + s5

-- An IPv6 block: the value of its base and its length.
abbrev pub in_block6 : ℕ → ℕ × ℕ → Bool
in_block6 n (base, prefix) = n / 2 ^ (128 - prefix) == base / 2 ^ (128 - prefix)

-- ::ffff:0:0/96
abbrev pub mapped : ℕ × ℕ
mapped = (65535 * 2 ^ 32, 96)

abbrev pub IsAddress : IpAddr → Type 0
IsAddress (v4 a b c d) = (a < 256) × (b < 256) × (c < 256) × (d < 256)
IsAddress (v6 s0 s1 s2 s3 s4 s5 s6 s7) =
    (s0 < 2 ^ 16)
    × (s1 < 2 ^ 16)
    × (s2 < 2 ^ 16)
    × (s3 < 2 ^ 16)
    × (s4 < 2 ^ 16)
    × (s5 < 2 ^ 16)
    × (s6 < 2 ^ 16)
    × (s7 < 2 ^ 16)

pub top_bits9 : (s0 r : ℕ) → r < 2 ^ 112 → (s0 * 2 ^ 112 + r) / 2 ^ 121 ≡ s0 / 2 ^ 9
top_bits9 s0 r h = omega arith

pub top_bits6 : (s0 r : ℕ) → r < 2 ^ 112 → (s0 * 2 ^ 112 + r) / 2 ^ 118 ≡ s0 / 2 ^ 6
top_bits6 s0 r h = omega arith

pub low_part :
    (h s6 s7 : ℕ)
    → s6 < 2 ^ 16
    → s7 < 2 ^ 16
    → (h * 2 ^ 32 + s6 * 2 ^ 16 + s7) % 2 ^ 32 ≡ value (s6 / 256) (s6 % 256) (s7 / 256) (s7 % 256)
low_part h s6 s7 k6 k7 = omega arith

pub high_div :
    (h s6 s7 : ℕ) → s6 < 2 ^ 16 → s7 < 2 ^ 16 → (h * 2 ^ 32 + s6 * 2 ^ 16 + s7) / 2 ^ 32 ≡ h
high_div h s6 s7 k6 k7 = omega arith

abbrev pub value6 : ℕ → ℕ → ℕ → ℕ
value6 h s6 s7 = h * 2 ^ 32 + s6 * 2 ^ 16 + s7

pub mapped_lem :
    (s0 s1 s2 s3 s4 s5 s6 s7 : ℕ)
    → s5 < 2 ^ 16
    → s6 < 2 ^ 16
    → s7 < 2 ^ 16
    → (all (λ x. x == 0) (s0 ∷ s1 ∷ s2 ∷ s3 ∷ s4 ∷ []) && (s5 == 65535))
      ≡ in_block6 (value6 (high_part s0 s1 s2 s3 s4 s5) s6 s7) mapped
mapped_lem s0 s1 s2 s3 s4 s5 s6 s7 h5 h6 h7 =
    rw (high_div (high_part s0 s1 s2 s3 s4 s5) s6 s7 h6 h7) (ground arith)

pub high_zero_lem :
    (s0 s1 s2 s3 s4 s5 : ℕ)
    → (all (λ x. x == 0) (s0 ∷ s1 ∷ s2 ∷ s3 ∷ s4 ∷ []) && (s5 == 0))
      ≡ (high_part s0 s1 s2 s3 s4 s5 == 0)
high_zero_lem s0 s1 s2 s3 s4 s5 = ground arith

pub low_lem :
    (h s6 s7 k : ℕ)
    → k < 2 ^ 16
    → s7 < 2 ^ 16
    → ((h == 0) && (s6 == 0) && (s7 == k)) ≡ (value6 h s6 s7 / 1 == k / 1)
low_lem h s6 s7 k hk h7 = ground arith

pub small_lem :
    (s0 s1 s2 s3 s4 s5 s6 s7 k : ℕ)
    → k < 2 ^ 16
    → s7 < 2 ^ 16
    → (all (λ x. x == 0) (s0 ∷ s1 ∷ s2 ∷ s3 ∷ s4 ∷ []) && (s5 == 0) && (s6 == 0) && (s7 == k))
      ≡ in_block6 (value6 (high_part s0 s1 s2 s3 s4 s5) s6 s7) (k, 128)
small_lem s0 s1 s2 s3 s4 s5 s6 s7 k hk h7 =
    ap (λ z. z && (s6 == 0) && (s7 == k)) (high_zero_lem s0 s1 s2 s3 s4 s5)
    ∙ low_lem (high_part s0 s1 s2 s3 s4 s5) s6 s7 k hk h7

pub ula_lem :
    (s0 r : ℕ)
    → r < 2 ^ 112
    → (clear_low 9 s0 == 64512) ≡ in_block6 (s0 * 2 ^ 112 + r) (64512 * 2 ^ 112, 7)
ula_lem s0 r h = rw (top_bits9 s0 r h) (ground arith)

pub link_lem :
    (s0 r : ℕ)
    → r < 2 ^ 112
    → (clear_low 6 s0 == 65152) ≡ in_block6 (s0 * 2 ^ 112 + r) (65152 * 2 ^ 112, 10)
link_lem s0 r h = rw (top_bits6 s0 r h) (ground arith)

top_bits8 : (s0 r : ℕ) → r < 2 ^ 112 → (s0 * 2 ^ 112 + r) / 2 ^ 120 ≡ s0 / 2 ^ 8
top_bits8 s0 r h = omega arith

pub multicast_lem :
    (s0 r : ℕ)
    → r < 2 ^ 112
    → (clear_low 8 s0 == 65280) ≡ in_block6 (s0 * 2 ^ 112 + r) (65280 * 2 ^ 112, 8)
multicast_lem s0 r h = rw (top_bits8 s0 r h) (ground arith)

-- The segments below the first.
abbrev pub rest_of : ℕ → ℕ → ℕ → ℕ → ℕ → ℕ → ℕ → ℕ
rest_of s1 s2 s3 s4 s5 s6 s7 =
    s1 * 2 ^ 96 + s2 * 2 ^ 80 + s3 * 2 ^ 64 + s4 * 2 ^ 48 + s5 * 2 ^ 32 + s6 * 2 ^ 16 + s7

-- ===== src/Net/Ipv6.antt =====
-- The tests of the standard library on an `Ipv6Addr`, on its segments.
use benchmark_rust_llms.Prelude.{ℕ, Bool, ◌&&◌, ◌==◌, [], ◌∷◌, all}
use benchmark_rust_llms.Net.{clear_low}

abbrev pub high_zero : ℕ → ℕ → ℕ → ℕ → ℕ → Bool
high_zero s0 s1 s2 s3 s4 = all (λ x. x == 0) (s0 ∷ s1 ∷ s2 ∷ s3 ∷ s4 ∷ [])

-- Whether `to_ipv4_mapped` finds an address in ::ffff:0:0/96.
abbrev pub is_mapped : ℕ → ℕ → ℕ → ℕ → ℕ → ℕ → Bool
is_mapped s0 s1 s2 s3 s4 s5 = high_zero s0 s1 s2 s3 s4 && (s5 == 65535)

abbrev pub is_unspecified : ℕ → ℕ → ℕ → ℕ → ℕ → ℕ → ℕ → ℕ → Bool
is_unspecified s0 s1 s2 s3 s4 s5 s6 s7 =
    high_zero s0 s1 s2 s3 s4 && (s5 == 0) && (s6 == 0) && (s7 == 0)

abbrev pub is_loopback : ℕ → ℕ → ℕ → ℕ → ℕ → ℕ → ℕ → ℕ → Bool
is_loopback s0 s1 s2 s3 s4 s5 s6 s7 =
    high_zero s0 s1 s2 s3 s4 && (s5 == 0) && (s6 == 0) && (s7 == 1)

abbrev pub is_multicast : ℕ → Bool
is_multicast s0 = clear_low 8 s0 == 65280

abbrev pub is_unique_local : ℕ → Bool
is_unique_local s0 = clear_low 9 s0 == 64512

abbrev pub is_unicast_link_local : ℕ → Bool
is_unicast_link_local s0 = clear_low 6 s0 == 65152

-- ===== src/Net/Ipv4.antt =====
-- The tests of the standard library on an `Ipv4Addr`, on its octets.
use benchmark_rust_llms.Prelude.{ℕ, Bool, ◌&&◌, ◌||◌, leb, ◌==◌}

abbrev pub is_private : ℕ → ℕ → Bool
is_private a b = (a == 10) || (a == 172) && leb 16 b && leb b 31 || (a == 192) && (b == 168)

abbrev pub is_loopback : ℕ → Bool
is_loopback a = a == 127

abbrev pub is_link_local : ℕ → ℕ → Bool
is_link_local a b = (a == 169) && (b == 254)

abbrev pub is_multicast : ℕ → Bool
is_multicast a = leb 224 a && leb a 239

abbrev pub is_unspecified : ℕ → ℕ → ℕ → ℕ → Bool
is_unspecified a b c d = (a == 0) && (b == 0) && (c == 0) && (d == 0)

abbrev pub is_broadcast : ℕ → ℕ → ℕ → ℕ → Bool
is_broadcast a b c d = (a == 255) && (b == 255) && (c == 255) && (d == 255)

abbrev pub is_documentation : ℕ → ℕ → ℕ → Bool
is_documentation a b c =
    (a == 192) && (b == 0) && (c == 2)
    || (a == 198) && (b == 51) && (c == 100)
    || (a == 203) && (b == 0) && (c == 113)

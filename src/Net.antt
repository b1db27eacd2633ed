-- ===== src/Net.antt =====
-- IP addresses as the standard library of Rust has them, for the address guards of all services.
pub mod Ipv4
pub mod Ipv6
pub mod Cidr
pub mod Octets
pub mod Url
use benchmark_rust_llms.Prelude.{
  ℕ, List, [], ◌∷◌, Bool, true, false, ◌&&◌, ◌||◌, leb, ◌==◌, Option, none, some, if◌then◌else◌,
  all, ◌*◌, ◌/◌, ◌%◌, ◌^◌,
}

-- Four octets, or eight segments.
pub data IpAddr : Type 0 where
  v4 : ℕ → ℕ → ℕ → ℕ → IpAddr
  v6 : ℕ → ℕ → ℕ → ℕ → ℕ → ℕ → ℕ → ℕ → IpAddr

-- `x & mask` for a mask that clears the `k` low bits.
abbrev pub clear_low : ℕ → ℕ → ℕ
clear_low k s = s / 2 ^ k * 2 ^ k

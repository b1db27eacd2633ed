-- ===== src/Net/Octets.antt =====
-- The tests of the standard library on octets, as membership in CIDR blocks.
use benchmark_rust_llms.Prelude.{ℕ, leb, Bool, ◌≡◌, ◌<◌, ◌==◌, arith, ◌||◌, ◌&&◌}
use benchmark_rust_llms.Net.{clear_low}
use benchmark_rust_llms.Net.Ipv4
use benchmark_rust_llms.Net.Cidr.{value, in_block, block}

three_arms : (p q r p' q' r' : Bool) → p ≡ p' → q ≡ q' → r ≡ r' → (p || q || r) ≡ (p' || (q' || r'))
three_arms p q r p' q' r' e f g = rw (e, f, g) (ground arith)

module _ (a b c d : ℕ) (ha : a < 256) (hb : b < 256) (hc : c < 256) (hd : d < 256) where
  ten : (a == 10) ≡ in_block (value a b c d) (block 10 0 0 0 8)
  ten = ground arith

  seventeen : ((a == 172) && leb 16 b && leb b 31) ≡ in_block (value a b c d) (block 172 16 0 0 12)
  seventeen = ground arith

  nineteen : ((a == 192) && (b == 168)) ≡ in_block (value a b c d) (block 192 168 0 0 16)
  nineteen = ground arith

  pub private_lem : Ipv4.is_private a b ≡ (
      in_block (value a b c d) (block 10 0 0 0 8)
      || (in_block (value a b c d) (block 172 16 0 0 12)
          || in_block (value a b c d) (block 192 168 0 0 16)))
  private_lem = three_arms _ _ _ _ _ _ ten seventeen nineteen

  pub loopback_lem : Ipv4.is_loopback a ≡ in_block (value a b c d) (block 127 0 0 0 8)
  loopback_lem = ground arith

  pub link_local_lem : Ipv4.is_link_local a b ≡ in_block (value a b c d) (block 169 254 0 0 16)
  link_local_lem = ground arith

  pub multicast4_lem : Ipv4.is_multicast a ≡ in_block (value a b c d) (block 224 0 0 0 4)
  multicast4_lem = ground arith

  pub unspecified_lem : Ipv4.is_unspecified a b c d ≡ in_block (value a b c d) (block 0 0 0 0 32)
  unspecified_lem = ground arith

  pub broadcast_lem :
      Ipv4.is_broadcast a b c d ≡ in_block (value a b c d) (block 255 255 255 255 32)
  broadcast_lem = ground arith

  -- `octets[0] == 100 && (octets[1] & 0xc0) == 0x40`
  pub shared_lem :
      ((a == 100) && (clear_low 6 b == 64)) ≡ in_block (value a b c d) (block 100 64 0 0 10)
  shared_lem = ground arith

  test1 : ((a == 192) && (b == 0) && (c == 2)) ≡ in_block (value a b c d) (block 192 0 2 0 24)
  test1 = ground arith

  test2 : ((a == 198) && (b == 51) && (c == 100)) ≡ in_block (value a b c d) (block 198 51 100 0 24)
  test2 = ground arith

  test3 : ((a == 203) && (b == 0) && (c == 113)) ≡ in_block (value a b c d) (block 203 0 113 0 24)
  test3 = ground arith

  pub documentation_lem : Ipv4.is_documentation a b c ≡ (
      in_block (value a b c d) (block 192 0 2 0 24)
      || (in_block (value a b c d) (block 198 51 100 0 24)
          || in_block (value a b c d) (block 203 0 113 0 24)))
  documentation_lem = three_arms _ _ _ _ _ _ test1 test2 test3

  -- 192.0.0.0/24 and 198.18.0.0/15
  pub protocol_lem :
      ((a == 192) && (b == 0) && (c == 0)) ≡ in_block (value a b c d) (block 192 0 0 0 24)
  protocol_lem = ground arith

  pub benchmark_lem :
      ((a == 198) && (clear_low 1 b == 18)) ≡ in_block (value a b c d) (block 198 18 0 0 15)
  benchmark_lem = ground arith

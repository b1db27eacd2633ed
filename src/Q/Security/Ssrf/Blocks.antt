-- ===== src/Q/Security/Ssrf/Blocks.antt =====
-- The refused addresses of q/src/security/ssrf.rs, as the CIDR blocks that its comment lists.
use benchmark_rust_llms.Prelude.{
  ℕ, List, [], ◌∷◌, Bool, ◌≡◌, ◌<◌, ◌/◌, ◌*◌, ◌+◌, ◌^◌, any, arith, ◌||◌, false, ap, sym, ◌∙◌,
  if◌then◌else◌, ◌%◌,
}
use benchmark_rust_llms.Net.{IpAddr, v4, v6}
use benchmark_rust_llms.Net.Cidr.{
  Block, value, in_block, block, high_part, in_block6, mapped, IsAddress, value6, low_part,
  mapped_lem, small_lem, ula_lem, link_lem,
}
use benchmark_rust_llms.Q.Security.Ssrf.{is_blocked_ip, is_blocked_v4}

abbrev pub blocked : List Block
blocked =
    block 0 0 0 0 8
    ∷ block 10 0 0 0 8
    ∷ block 100 64 0 0 10
    ∷ block 127 0 0 0 8
    ∷ block 169 254 0 0 16
    ∷ block 172 16 0 0 12
    ∷ block 192 168 0 0 16
    ∷ block 255 0 0 0 8
    ∷ []

-- The tests on the octets are membership in the listed blocks.
pub is_blocked_v4-any :
    (a b c d : ℕ)
    → a < 256
    → b < 256
    → c < 256
    → d < 256
    → is_blocked_ip (v4 a b c d) ≡ any (in_block (value a b c d)) blocked
unfolding is_blocked_ip is_blocked_v4
is_blocked_v4-any a b c d ha hb hc hd = ground arith

-- ::/128, ::1/128, fc00::/7, fe80::/10
abbrev pub blocked6 : List (ℕ × ℕ)
blocked6 = (0, 128) ∷ (1, 128) ∷ (64512 * 2 ^ 112, 7) ∷ (65152 * 2 ^ 112, 10) ∷ []

abbrev pub is_listed : IpAddr → Bool
is_listed (v4 a b c d) = any (in_block (value a b c d)) blocked
is_listed (v6 s0 s1 s2 s3 s4 s5 s6 s7) =
    let n = high_part s0 s1 s2 s3 s4 s5 * 2 ^ 32 + s6 * 2 ^ 16 + s7 in
    if in_block6 n mapped then any (in_block (n % 2 ^ 32)) blocked else any (in_block6 n) blocked6

-- The two decisions have one shape.
same_arms :
    (b m z o u l b' m' z' o' u' l' : Bool)
    → b ≡ b'
    → m ≡ m'
    → z ≡ z'
    → o ≡ o'
    → u ≡ u'
    → l ≡ l'
    → (if b then m else z || o || u || l) ≡ (if b' then m' else z' || (o' || (u' || (l' || false))))
same_arms b m z o u l b' m' z' o' u' l' eb em ez eo eu el =
    rw (eb, em, ez, eo, eu, el) (ground arith)

-- An address is refused exactly when it lies in a block that the comment lists: for IPv6 the
-- embedded IPv4 address is looked up when there is one.
pub is_blocked_ip-is_listed : (ip : IpAddr) → IsAddress ip → is_blocked_ip ip ≡ is_listed ip
unfolding is_blocked_ip
is_blocked_ip-is_listed (v4 a b c d) (ha, hb, hc, hd) = is_blocked_v4-any a b c d ha hb hc hd
is_blocked_ip-is_listed (v6 s0 s1 s2 s3 s4 s5 s6 s7) (h0, h1, h2, h3, h4, h5, h6, h7) =
    let h = high_part s0 s1 s2 s3 s4 s5 in
    let r =
      s1 * 2 ^ 96 + s2 * 2 ^ 80 + s3 * 2 ^ 64 + s4 * 2 ^ 48 + s5 * 2 ^ 32 + s6 * 2 ^ 16 + s7 in
    let split : value6 h s6 s7 ≡ s0 * 2 ^ 112 + r = omega arith in
    let small : r < 2 ^ 112 = omega arith in
    same_arms _ _ _ _ _ _ _ _ _ _ _ _ (mapped_lem s0 s1 s2 s3 s4 s5 s6 s7 h5 h6 h7)
      (is_blocked_v4-any (s6 / 256) (s6 % 256) (s7 / 256) (s7 % 256) (omega arith) (omega arith)
          (omega arith) (omega arith)
        ∙ ap (λ n. any (in_block n) blocked) (sym (low_part h s6 s7 h6 h7)))
      (small_lem s0 s1 s2 s3 s4 s5 s6 s7 0 (omega arith) h7)
      (small_lem s0 s1 s2 s3 s4 s5 s6 s7 1 (omega arith) h7)
      (ula_lem s0 r small ∙ ap (λ n. in_block6 n (64512 * 2 ^ 112, 7)) (sym split))
      (link_lem s0 r small ∙ ap (λ n. in_block6 n (65152 * 2 ^ 112, 10)) (sym split))

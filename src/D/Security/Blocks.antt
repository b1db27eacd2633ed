-- ===== src/D/Security/Blocks.antt =====
-- `is_private_ip` of d/src/security.rs: what it refuses, and what it lets pass.
use benchmark_rust_llms.Prelude.{
  ℕ, List, [], ◌∷◌, Bool, false, ◌≡◌, ◌<◌, ◌*◌, ◌+◌, ◌^◌, any, arith, ◌||◌, ap, sym, ◌∙◌,
}
use benchmark_rust_llms.Net.{IpAddr, v4, v6}
use benchmark_rust_llms.Net.Cidr.{
  Block, value, in_block, block, high_part, in_block6, IsAddress, value6, small_lem, ula_lem,
  rest_of,
}
use benchmark_rust_llms.Net.Octets.{
  private_lem, loopback_lem, link_local_lem, multicast4_lem, unspecified_lem, broadcast_lem,
  shared_lem, protocol_lem, benchmark_lem,
}
use benchmark_rust_llms.D.Security.{is_private_ip, is_private_v4}

abbrev pub blocked : List Block
blocked =
    block 127 0 0 0 8
    ∷ block 10 0 0 0 8
    ∷ block 172 16 0 0 12
    ∷ block 192 168 0 0 16
    ∷ block 169 254 0 0 16
    ∷ block 0 0 0 0 32
    ∷ block 224 0 0 0 4
    ∷ block 255 255 255 255 32
    ∷ block 100 64 0 0 10
    ∷ block 192 0 0 0 24
    ∷ block 198 18 0 0 15
    ∷ []

-- ::1/128, ::/128, fc00::/7
abbrev pub blocked6 : List (ℕ × ℕ)
blocked6 = (1, 128) ∷ (0, 128) ∷ (64512 * 2 ^ 112, 7) ∷ []

abbrev pub is_listed : IpAddr → Bool
is_listed (v4 a b c d) = any (in_block (value a b c d)) blocked
is_listed (v6 s0 s1 s2 s3 s4 s5 s6 s7) =
    any (in_block6 (high_part s0 s1 s2 s3 s4 s5 * 2 ^ 32 + s6 * 2 ^ 16 + s7)) blocked6

same_tests :
    (l p k u m b c t n p1 p2 p3 l' k' u' m' b' c' t' n' : Bool)
    → l ≡ l'
    → p ≡ (p1 || (p2 || p3))
    → k ≡ k'
    → u ≡ u'
    → m ≡ m'
    → b ≡ b'
    → c ≡ c'
    → t ≡ t'
    → n ≡ n'
    → (l || (p || (k || (u || (m || (b || (c || (t || n)))))))) ≡ (
        l' || (p1 || (p2 || (p3 || (k' || (u' || (m' || (b' || (c' || (t' || (n' || false)))))))))))
same_tests l p k u m b c t n p1 p2 p3 l' k' u' m' b' c' t' n' el ep ek eu em eb ec et en =
    rw (el, ep, ek, eu, em, eb, ec, et, en) (ground arith)

is_private_v4-any :
    (a b c d : ℕ)
    → a < 256
    → b < 256
    → c < 256
    → d < 256
    → is_private_v4 a b c d ≡ any (in_block (value a b c d)) blocked
unfolding is_private_v4
is_private_v4-any a b c d ha hb hc hd =
    let n = value a b c d in
    same_tests _ _ _ _ _ _ _ _ _ (in_block n (block 10 0 0 0 8)) (in_block n (block 172 16 0 0 12))
      (in_block n (block 192 168 0 0 16)) _ _ _ _ _ _ _ _ (loopback_lem a b c d ha hb hc hd)
      (private_lem a b c d ha hb hc hd) (link_local_lem a b c d ha hb hc hd)
      (unspecified_lem a b c d ha hb hc hd) (multicast4_lem a b c d ha hb hc hd)
      (broadcast_lem a b c d ha hb hc hd) (shared_lem a b c d ha hb hc hd)
      (protocol_lem a b c d ha hb hc hd) (benchmark_lem a b c d ha hb hc hd)

three_arms :
    (o z u o' z' u' : Bool)
    → o ≡ o'
    → z ≡ z'
    → u ≡ u'
    → (o || (z || u)) ≡ (o' || (z' || (u' || false)))
three_arms o z u o' z' u' e f g = rw (e, f, g) (ground arith)

-- An address is refused exactly when it lies in one of eleven IPv4 blocks or of three IPv6 blocks;
-- fe80::/10 and ff00::/8 are not among these, nor is ::ffff:0:0/96.
pub is_private_ip-is_listed : (ip : IpAddr) → IsAddress ip → is_private_ip ip ≡ is_listed ip
unfolding is_private_ip
is_private_ip-is_listed (v4 a b c d) (ha, hb, hc, hd) = is_private_v4-any a b c d ha hb hc hd
is_private_ip-is_listed (v6 s0 s1 s2 s3 s4 s5 s6 s7) (h0, h1, h2, h3, h4, h5, h6, h7) =
    let h = high_part s0 s1 s2 s3 s4 s5 in
    let r = rest_of s1 s2 s3 s4 s5 s6 s7 in
    let split : value6 h s6 s7 ≡ s0 * 2 ^ 112 + r = omega arith in
    let small : r < 2 ^ 112 = omega arith in
    three_arms _ _ _ _ _ _ (small_lem s0 s1 s2 s3 s4 s5 s6 s7 1 (omega arith) h7)
      (small_lem s0 s1 s2 s3 s4 s5 s6 s7 0 (omega arith) h7)
      (ula_lem s0 r small ∙ ap (λ n. in_block6 n (64512 * 2 ^ 112, 7)) (sym split))

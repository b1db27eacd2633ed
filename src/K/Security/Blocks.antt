-- ===== src/K/Security/Blocks.antt =====
-- The refused addresses of k/webhook-delivery/src/security.rs, as the CIDR blocks of its comments.
use benchmark_rust_llms.Prelude.{
  ℕ, List, [], ◌∷◌, Bool, ◌≡◌, ◌<◌, ◌/◌, ◌*◌, ◌+◌, ◌^◌, any, arith, ◌||◌, false, ap, sym, ◌∙◌,
  if◌then◌else◌, ◌%◌,
}
use benchmark_rust_llms.Net.{IpAddr, v4, v6}
use benchmark_rust_llms.Net.Cidr.{
  Block, value, in_block, block, high_part, in_block6, mapped, IsAddress, value6, low_part,
  mapped_lem, small_lem, ula_lem, link_lem, multicast_lem, rest_of,
}
use benchmark_rust_llms.Net.Octets.{
  private_lem, loopback_lem, link_local_lem, multicast4_lem, unspecified_lem, broadcast_lem,
  shared_lem,
}
use benchmark_rust_llms.K.Security.{ip_is_blocked, ipv4_is_blocked}

abbrev pub blocked : List Block
blocked =
    block 10 0 0 0 8
    ∷ block 172 16 0 0 12
    ∷ block 192 168 0 0 16
    ∷ block 127 0 0 0 8
    ∷ block 169 254 0 0 16
    ∷ block 224 0 0 0 4
    ∷ block 0 0 0 0 32
    ∷ block 255 255 255 255 32
    ∷ block 100 64 0 0 10
    ∷ []

same_tests :
    (p l k m u b c p1 p2 p3 l' k' m' u' b' c' : Bool)
    → p ≡ (p1 || (p2 || p3))
    → l ≡ l'
    → k ≡ k'
    → m ≡ m'
    → u ≡ u'
    → b ≡ b'
    → c ≡ c'
    → (p || (l || (k || (m || (u || (b || c))))))
      ≡ (p1 || (p2 || (p3 || (l' || (k' || (m' || (u' || (b' || (c' || false)))))))))
same_tests p l k m u b c p1 p2 p3 l' k' m' u' b' c' ep el ek em eu eb ec =
    rw (ep, el, ek, em, eu, eb, ec) (ground arith)

ipv4_is_blocked-any :
    (a b c d : ℕ)
    → a < 256
    → b < 256
    → c < 256
    → d < 256
    → ipv4_is_blocked a b c d ≡ any (in_block (value a b c d)) blocked
unfolding ipv4_is_blocked
ipv4_is_blocked-any a b c d ha hb hc hd =
    let n = value a b c d in
    same_tests _ _ _ _ _ _ _ (in_block n (block 10 0 0 0 8)) (in_block n (block 172 16 0 0 12))
      (in_block n (block 192 168 0 0 16)) _ _ _ _ _ _ (private_lem a b c d ha hb hc hd)
      (loopback_lem a b c d ha hb hc hd) (link_local_lem a b c d ha hb hc hd)
      (multicast4_lem a b c d ha hb hc hd) (unspecified_lem a b c d ha hb hc hd)
      (broadcast_lem a b c d ha hb hc hd) (shared_lem a b c d ha hb hc hd)

-- ::1/128, ::/128, ff00::/8, fe80::/10, fc00::/7
abbrev pub blocked6 : List (ℕ × ℕ)
blocked6 =
    (1, 128) ∷ (0, 128) ∷ (65280 * 2 ^ 112, 8) ∷ (65152 * 2 ^ 112, 10) ∷ (64512 * 2 ^ 112, 7) ∷ []

abbrev pub is_listed : IpAddr → Bool
is_listed (v4 a b c d) = any (in_block (value a b c d)) blocked
is_listed (v6 s0 s1 s2 s3 s4 s5 s6 s7) =
    let n = high_part s0 s1 s2 s3 s4 s5 * 2 ^ 32 + s6 * 2 ^ 16 + s7 in
    if in_block6 n mapped then any (in_block (n % 2 ^ 32)) blocked else any (in_block6 n) blocked6

-- The two decisions have one shape.
same_arms :
    (b m o z k l u b' m' o' z' k' l' u' : Bool)
    → b ≡ b'
    → m ≡ m'
    → o ≡ o'
    → z ≡ z'
    → k ≡ k'
    → l ≡ l'
    → u ≡ u'
    → (if b then m else o || (z || (k || (l || u))))
      ≡ (if b' then m' else o' || (z' || (k' || (l' || (u' || false)))))
same_arms b m o z k l u b' m' o' z' k' l' u' eb em eo ez ek el eu =
    rw (eb, em, eo, ez, ek, el, eu) (ground arith)

-- An address is refused exactly when it lies in a block that the comments name: for an IPv4-mapped
-- address the embedded one is looked up.
pub ip_is_blocked-is_listed : (ip : IpAddr) → IsAddress ip → ip_is_blocked ip ≡ is_listed ip
unfolding ip_is_blocked
ip_is_blocked-is_listed (v4 a b c d) (ha, hb, hc, hd) = ipv4_is_blocked-any a b c d ha hb hc hd
ip_is_blocked-is_listed (v6 s0 s1 s2 s3 s4 s5 s6 s7) (h0, h1, h2, h3, h4, h5, h6, h7) =
    let h = high_part s0 s1 s2 s3 s4 s5 in
    let r = rest_of s1 s2 s3 s4 s5 s6 s7 in
    let split : value6 h s6 s7 ≡ s0 * 2 ^ 112 + r = omega arith in
    let small : r < 2 ^ 112 = omega arith in
    same_arms _ _ _ _ _ _ _ _ _ _ _ _ _ _ (mapped_lem s0 s1 s2 s3 s4 s5 s6 s7 h5 h6 h7)
      (ipv4_is_blocked-any (s6 / 256) (s6 % 256) (s7 / 256) (s7 % 256) (omega arith) (omega arith)
          (omega arith) (omega arith)
        ∙ ap (λ n. any (in_block n) blocked) (sym (low_part h s6 s7 h6 h7)))
      (small_lem s0 s1 s2 s3 s4 s5 s6 s7 1 (omega arith) h7)
      (small_lem s0 s1 s2 s3 s4 s5 s6 s7 0 (omega arith) h7)
      (multicast_lem s0 r small ∙ ap (λ n. in_block6 n (65280 * 2 ^ 112, 8)) (sym split))
      (link_lem s0 r small ∙ ap (λ n. in_block6 n (65152 * 2 ^ 112, 10)) (sym split))
      (ula_lem s0 r small ∙ ap (λ n. in_block6 n (64512 * 2 ^ 112, 7)) (sym split))

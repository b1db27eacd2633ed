-- ===== src/D/Security.antt =====
-- d/src/security.rs: the check of a destination's form, and the addresses that are refused. The
-- standard library's reading of an address is a parameter.
pub mod Blocks
use benchmark_rust_llms.Prelude.{
  ℕ, zero, suc, ◌+◌, Char, code, String, Option, none, some, Bool, true, false, ◌&&◌, ◌||◌, not,
  leb, ◌==◌, if◌then◌else◌, str_eq, Result, ok, err,
}
use benchmark_rust_llms.Net.{IpAddr, v4, v6, clear_low}
use benchmark_rust_llms.Net.Ipv4
use benchmark_rust_llms.Net.Ipv6

-- `u8::to_ascii_lowercase`
abbrev pub lower : ℕ → ℕ
lower c = if leb b'A' c && leb c b'Z' then c + 32 else c

-- `s.to_ascii_lowercase().starts_with(p)`, for a prefix `p` in lower case.
unfoldable pub starts_lower : String → String → Bool
starts_lower String.[] s = true
starts_lower (String.◌∷◌ c p) String.[] = false
starts_lower (String.◌∷◌ c p) (String.◌∷◌ d s) = (code c == lower (code d)) && starts_lower p s

-- `&s[n..]` where the first n characters are ASCII.
unfoldable pub slice_from : ℕ → String → String
slice_from zero s = s
slice_from (suc n) String.[] = ""
slice_from (suc n) (String.◌∷◌ c s) = slice_from n s

-- The text after the scheme, which `Parsed` calls the host.
unfoldable pub validate_destination : String → Result String String
unfolding starts_lower slice_from
validate_destination url =
    let rest = slice_from (if starts_lower "http://" url then 7 else 8) url in
    if not (starts_lower "http://" url || starts_lower "https://" url)
    then err "destination must be an http(s):// URL"
    else if str_eq rest ""
    then err "destination URL has no authority"
    else ok rest

-- `trim_start_matches` and `trim_end_matches`
unfoldable pub trim_start_matches : ℕ → String → String
trim_start_matches k String.[] = ""
trim_start_matches k (String.◌∷◌ c s) =
    if code c == k then trim_start_matches k s else String.◌∷◌ c s

abbrev pub cons_unless_last : ℕ → Char → String → String
cons_unless_last k c String.[] = if code c == k then "" else String.◌∷◌ c ""
cons_unless_last k c (String.◌∷◌ d s) = String.◌∷◌ c (String.◌∷◌ d s)

unfoldable pub trim_end_matches : ℕ → String → String
trim_end_matches k String.[] = ""
trim_end_matches k (String.◌∷◌ c s) = cons_unless_last k c (trim_end_matches k s)

unfoldable pub is_private_v4 : ℕ → ℕ → ℕ → ℕ → Bool
is_private_v4 a b c d =
    Ipv4.is_loopback a
    || (Ipv4.is_private a b
        || (Ipv4.is_link_local a b
            || (Ipv4.is_unspecified a b c d
                || (Ipv4.is_multicast a
                    || (Ipv4.is_broadcast a b c d
                        || ((a == 100) && (clear_low 6 b == 64)
                            || ((a == 192) && (b == 0) && (c == 0)
                                || (a == 198) && (clear_low 1 b == 18))))))))

unfoldable pub is_private_ip : IpAddr → Bool
unfolding is_private_v4
is_private_ip (v4 a b c d) = is_private_v4 a b c d
is_private_ip (v6 s0 s1 s2 s3 s4 s5 s6 s7) =
    Ipv6.is_loopback s0 s1 s2 s3 s4 s5 s6 s7
    || (Ipv6.is_unspecified s0 s1 s2 s3 s4 s5 s6 s7 || (clear_low 9 s0 == 64512))

abbrev pub blocked_if_read : Option IpAddr → Bool
blocked_if_read none = false
blocked_if_read (some ip) = is_private_ip ip

unfoldable pub is_blocked_literal_ip : (String → Option IpAddr) → String → Bool
unfolding trim_start_matches trim_end_matches
is_blocked_literal_ip parse_ip host =
    blocked_if_read (parse_ip (trim_end_matches b']' (trim_start_matches b'[' host)))

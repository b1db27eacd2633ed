-- ===== src/G/Security.antt =====
-- g/src/security.rs: the signature, the public addresses and the guard on destinations. The url
-- crate's parser and prints, the resolver, the HMAC and the hex crate are parameters.
pub mod Policy
use benchmark_rust_llms.Prelude.{
  ℕ, ◌/◌, ◌%◌, String, ◌<>◌, as_bytes, length, Option, none, some, List, [], ◌∷◌, ◌++◌, Bool, true,
  false, ◌&&◌, ◌||◌, not, ltb, ◌==◌, if◌then◌else◌, str_eq, Result, ok, err, ◌>>=◌, map_err, ok_or,
}
use benchmark_rust_llms.Net.{IpAddr, v4, v6, clear_low}
use benchmark_rust_llms.Net.Ipv4
use benchmark_rust_llms.Net.Ipv6
use benchmark_rust_llms.Net.Url.{Url, Host, ipv4, ipv6, domain}

unfoldable pub sign_payload :
    (List ℕ → List ℕ → List ℕ) → (List ℕ → String) → String → String → String → String
sign_payload hmac hex_encode secret timestamp body =
    "v1=" <> hex_encode (hmac (as_bytes secret) (as_bytes timestamp ++ (b'.' ∷ as_bytes body)))

unfoldable pub is_public_v4 : ℕ → ℕ → ℕ → ℕ → Bool
is_public_v4 a b c d = not (
    Ipv4.is_private a b
    || (Ipv4.is_loopback a
        || (Ipv4.is_link_local a b
            || (Ipv4.is_unspecified a b c d
                || (Ipv4.is_broadcast a b c d
                    || (Ipv4.is_multicast a
                        || (Ipv4.is_documentation a b c
                            || (a == 100) && (clear_low 6 b == 64))))))))

-- An IPv4-mapped address is judged as the IPv4 address in its last two segments.
unfoldable pub is_public_ip : IpAddr → Bool
unfolding is_public_v4
is_public_ip (v4 a b c d) = is_public_v4 a b c d
is_public_ip (v6 s0 s1 s2 s3 s4 s5 s6 s7) =
    if Ipv6.is_mapped s0 s1 s2 s3 s4 s5
    then is_public_v4 (s6 / 256) (s6 % 256) (s7 / 256) (s7 % 256)
    else not (
        Ipv6.is_loopback s0 s1 s2 s3 s4 s5 s6 s7
        || (Ipv6.is_unspecified s0 s1 s2 s3 s4 s5 s6 s7
            || (Ipv6.is_multicast s0
                || (Ipv6.is_unique_local s0 || Ipv6.is_unicast_link_local s0))))

unfoldable pub check_length : String → Result String (Unit {0})
check_length raw =
    if ltb 2048 (length (as_bytes raw)) then err "destination URL is too long" else ok tt

unfoldable pub check_scheme : String → Result String (Unit {0})
check_scheme s =
    if str_eq s "http"
    then ok tt
    else if str_eq s "https"
    then ok tt
    else err ("unsupported destination scheme '" <> (s <> "': only http and https are allowed"))

abbrev pub has_credentials : String → Option String → Bool
has_credentials username none = not (str_eq username "")
has_credentials username (some p) = true

unfoldable pub check_credentials : Url → Result String (Unit {0})
check_credentials url =
    if has_credentials url.username url.password
    then err "destination URL must not contain credentials"
    else ok tt

-- `port_or_known_default().unwrap_or(80)`, for the two schemes that are left.
abbrev pub port_of : Url → Option ℕ → ℕ
port_of url (some p) = p
port_of url none = if str_eq url.scheme "https" then 443 else 80

-- What is not under src/.
pub record Outside : Type 0 where
  pub parse_url : String → Result String Url
  pub lookup_host : String → ℕ → Result String (List IpAddr)
  pub show_host : Host → String
  pub show_ip : IpAddr → String

module _ (out : Outside) where
  open out use {parse_url, lookup_host, show_host, show_ip}

  unfoldable pub addresses : Url → Host → Result String (List IpAddr)
  addresses url (ipv4 a b c d) = ok (v4 a b c d ∷ [])
  addresses url (ipv6 s0 s1 s2 s3 s4 s5 s6 s7) = ok (v6 s0 s1 s2 s3 s4 s5 s6 s7 ∷ [])
  addresses url (domain name) =
      map_err (λ e. "DNS resolution failed for '" <> (name <> ("': " <> e)))
        (lookup_host name (port_of url url.port))

  -- The loop over the addresses: the first that is not public ends it.
  unfoldable pub check_ips : List IpAddr → Result String (Unit {0})
  unfolding is_public_ip
  check_ips [] = ok tt
  check_ips (ip ∷ ips) =
      if is_public_ip ip
      then check_ips ips
      else err ("destination host resolves to a blocked (non-public) address: " <> show_ip ip)

  unfoldable pub check_addresses : Host → List IpAddr → Result String (Unit {0})
  unfolding check_ips
  check_addresses host [] = err ("no addresses resolved for '" <> (show_host host <> "'"))
  check_addresses host (ip ∷ ips) = check_ips (ip ∷ ips)

  unfoldable pub check_network : Bool → Url → Result String (Unit {0})
  unfolding addresses check_addresses
  check_network true url = ok tt
  check_network false url = ok_or url.host "destination URL has no host" >>= λ host.
      addresses url host >>= λ ips. check_addresses host ips

  unfoldable pub validate_destination : String → Bool → Result String (Unit {0})
  unfolding check_length check_scheme check_credentials check_network
  validate_destination raw allow_private = do
    _ ← check_length raw
    url ← map_err (λ e. "invalid destination URL: " <> e) (parse_url raw)
    _ ← check_scheme url.scheme
    _ ← check_credentials url
    check_network allow_private url

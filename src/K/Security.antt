-- ===== src/K/Security.antt =====
-- k/webhook-delivery/src/security.rs: the guard on destinations, the signature and the size limit.
-- The url crate's parser, the resolver, the HMAC and the hex crate are parameters.
pub mod Blocks
pub mod Policy
use benchmark_rust_llms.Prelude.{
  ℕ, String, ◌<>◌, decimal, Option, none, some, List, [], ◌∷◌, Bool, true, false, ◌&&◌, ◌||◌, not,
  ltb, ◌==◌, if◌then◌else◌, str_eq, as_bytes, Result, ok, err, ◌>>=◌, map_err, ok_or, ◌/◌, ◌%◌,
}
use benchmark_rust_llms.Net.{IpAddr, v4, v6, clear_low}
use benchmark_rust_llms.Net.Ipv4
use benchmark_rust_llms.Net.Ipv6
use benchmark_rust_llms.Net.Url.{Url, Host, ipv4, ipv6, domain}

pub data SecurityError : Type 0 where
  invalid_url : String → SecurityError
  scheme_not_allowed : String → SecurityError
  credentials_not_allowed : SecurityError
  unresolvable_host : String → SecurityError
  private_address_blocked : IpAddr → SecurityError
  payload_too_large : ℕ → ℕ → SecurityError

-- The `#[error]` texts; `show_ip` is the standard library's print of an address.
unfoldable pub security_text : (IpAddr → String) → SecurityError → String
security_text show_ip (invalid_url e) = "destination URL is invalid: " <> e
security_text show_ip (scheme_not_allowed s) =
    "URL scheme '" <> (s <> "' is not allowed; only http and https are permitted")
security_text show_ip credentials_not_allowed =
    "destination URL must not contain credentials (userinfo)"
security_text show_ip (unresolvable_host e) = "destination host could not be resolved: " <> e
security_text show_ip (private_address_blocked ip) =
    "destination resolves to blocked address "
    <> (show_ip ip <> " (private/loopback/link-local/reserved)")
security_text show_ip (payload_too_large len max) =
    "payload size "
    <> (decimal len <> (" bytes exceeds the maximum of " <> (decimal max <> " bytes")))

-- 100.64.0.0/10
unfoldable pub is_cgnat : ℕ → ℕ → Bool
is_cgnat a b = (a == 100) && (clear_low 6 b == 64)

unfoldable pub ipv4_is_blocked : ℕ → ℕ → ℕ → ℕ → Bool
unfolding is_cgnat
ipv4_is_blocked a b c d =
    Ipv4.is_private a b
    || (Ipv4.is_loopback a
        || (Ipv4.is_link_local a b
            || (Ipv4.is_multicast a
                || (Ipv4.is_unspecified a b c d || (Ipv4.is_broadcast a b c d || is_cgnat a b)))))

-- fe80::/10
unfoldable pub is_v6_link_local : ℕ → Bool
is_v6_link_local s0 = clear_low 6 s0 == 65152

-- fc00::/7
unfoldable pub is_v6_unique_local : ℕ → Bool
is_v6_unique_local s0 = clear_low 9 s0 == 64512

unfoldable pub ipv6_is_blocked : ℕ → ℕ → ℕ → ℕ → ℕ → ℕ → ℕ → ℕ → Bool
unfolding is_v6_link_local is_v6_unique_local
ipv6_is_blocked s0 s1 s2 s3 s4 s5 s6 s7 =
    Ipv6.is_loopback s0 s1 s2 s3 s4 s5 s6 s7
    || (Ipv6.is_unspecified s0 s1 s2 s3 s4 s5 s6 s7
        || (Ipv6.is_multicast s0 || (is_v6_link_local s0 || is_v6_unique_local s0)))

-- An IPv4-mapped address is judged as the IPv4 address in its last two segments.
unfoldable pub ip_is_blocked : IpAddr → Bool
unfolding ipv4_is_blocked ipv6_is_blocked
ip_is_blocked (v4 a b c d) = ipv4_is_blocked a b c d
ip_is_blocked (v6 s0 s1 s2 s3 s4 s5 s6 s7) =
    if Ipv6.is_mapped s0 s1 s2 s3 s4 s5
    then ipv4_is_blocked (s6 / 256) (s6 % 256) (s7 / 256) (s7 % 256)
    else ipv6_is_blocked s0 s1 s2 s3 s4 s5 s6 s7

-- Checks 2, 3a and 3b.
unfoldable pub check_scheme : String → Result SecurityError (Unit {0})
check_scheme s =
    if str_eq s "http"
    then ok tt
    else if str_eq s "https"
    then ok tt
    else err (scheme_not_allowed s)

abbrev pub has_credentials : String → Option String → Bool
has_credentials username none = not (str_eq username "")
has_credentials username (some p) = true

unfoldable pub check_credentials : Url → Result SecurityError (Unit {0})
check_credentials url =
    if has_credentials url.username url.password then err credentials_not_allowed else ok tt

abbrev pub port_of : Url → Option ℕ → ℕ
port_of url (some p) = p
port_of url none = if str_eq url.scheme "https" then 443 else 80

-- The loop over the candidates: the first blocked one ends it.
unfoldable pub check_ips : List IpAddr → Result SecurityError (Unit {0})
unfolding ip_is_blocked
check_ips [] = ok tt
check_ips (ip ∷ ips) = if ip_is_blocked ip then err (private_address_blocked ip) else check_ips ips

-- `enforce_size`
unfoldable pub enforce_size : ℕ → ℕ → Result SecurityError (Unit {0})
enforce_size len max = if ltb max len then err (payload_too_large len max) else ok tt

unfoldable pub sign_body : (List ℕ → List ℕ → List ℕ) → (List ℕ → String) → String → List ℕ → String
sign_body hmac hex_encode secret body = "sha256=" <> hex_encode (hmac (as_bytes secret) body)

module _ (parse : String → Result String Url)
    (lookup_host : String → ℕ → Result String (List IpAddr)) where
  unfoldable pub candidates : Url → Host → Result SecurityError (List IpAddr)
  candidates url (ipv4 a b c d) = ok (v4 a b c d ∷ [])
  candidates url (ipv6 s0 s1 s2 s3 s4 s5 s6 s7) = ok (v6 s0 s1 s2 s3 s4 s5 s6 s7 ∷ [])
  candidates url (domain name) =
      map_err (λ e. unresolvable_host (name <> (": " <> e)))
        (lookup_host name (port_of url url.port))

  -- Checks 4 and 5, skipped when private addresses are allowed.
  unfoldable pub check_network : Bool → Url → Host → Result SecurityError (Unit {0})
  unfolding candidates check_ips
  check_network true url host = ok tt
  check_network false url host = candidates url host >>= λ ips. check_ips ips

  unfoldable pub validate_destination : String → Bool → Result SecurityError Url
  unfolding check_scheme check_credentials check_network
  validate_destination url_str allow_private = do
    url ← map_err invalid_url (parse url_str)
    _ ← check_scheme url.scheme
    host ← ok_or url.host (invalid_url "missing host")
    _ ← check_credentials url
    _ ← check_network allow_private url host
    ok url

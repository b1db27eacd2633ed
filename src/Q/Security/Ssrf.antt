-- ===== src/Q/Security/Ssrf.antt =====
-- q/src/security/ssrf.rs: the checks on a destination, and the address blocks that are refused.
-- `Url` holds what the url crate's accessors return; the resolver is a parameter.
pub mod Blocks
pub mod Policy
use benchmark_rust_llms.Prelude.{
  ℕ, String, Option, none, some, List, [], ◌∷◌, Bool, true, false, ◌&&◌, ◌||◌, not, leb, ◌==◌,
  if◌then◌else◌, str_eq, Result, ok, err, ◌>>=◌, map_err, any, all, ◌<>◌, decimal, ◌*◌, ◌/◌, ◌%◌,
  ◌^◌,
}
use benchmark_rust_llms.Net.{IpAddr, v4, v6, clear_low}

pub record Url : Type 0 where
  pub scheme : String
  pub username : String
  pub password : Option String
  pub host_str : Option String
  pub port : Option ℕ

pub data SsrfError : Type 0 where
  bad_scheme : SsrfError
  missing_host : SsrfError
  userinfo : SsrfError
  bad_port : ℕ → SsrfError
  private_ip : IpAddr → SsrfError
  resolution_failed : String → SsrfError

-- The `#[error]` texts; `show_ip` is the standard library's print of an address.
unfoldable pub ssrf_text : (IpAddr → String) → SsrfError → String
ssrf_text show_ip bad_scheme = "unsupported scheme: expected http or https"
ssrf_text show_ip missing_host = "url has no host"
ssrf_text show_ip userinfo = "url must not contain userinfo"
ssrf_text show_ip (bad_port port) = "port " <> (decimal port <> " not allowed")
ssrf_text show_ip (private_ip ip) =
    "resolved address is a blocked private/reserved IP: " <> show_ip ip
ssrf_text show_ip (resolution_failed e) = "dns resolution failed for " <> e

pub record SsrfPolicy : Type 0 where
  pub allow_private : Bool
  pub allowed_ports : List ℕ

abbrev pub default : SsrfPolicy
default = record { allow_private = false; allowed_ports = 80 ∷ 443 ∷ [] }

-- The IPv4 arm of `is_blocked_ip`.
unfoldable pub is_blocked_v4 : ℕ → ℕ → Bool
is_blocked_v4 o0 o1 =
    (o0 == 0)
    || (o0 == 10)
    || (o0 == 100) && leb 64 o1 && leb o1 127
    || (o0 == 127)
    || (o0 == 169) && (o1 == 254)
    || (o0 == 172) && leb 16 o1 && leb o1 31
    || (o0 == 192) && (o1 == 168)
    || (o0 == 255)

unfoldable pub is_blocked_ip : IpAddr → Bool
unfolding is_blocked_v4
is_blocked_ip (v4 a b c d) = is_blocked_v4 a b
is_blocked_ip (v6 s0 s1 s2 s3 s4 s5 s6 s7) =
    let high_zero = all (λ x. x == 0) (s0 ∷ s1 ∷ s2 ∷ s3 ∷ s4 ∷ []) in
    if high_zero && (s5 == 65535)
    then is_blocked_v4 (s6 / 256) (s6 % 256)
    else high_zero && (s5 == 0) && (s6 == 0) && (s7 == 0)
      || high_zero && (s5 == 0) && (s6 == 0) && (s7 == 1)
      || (clear_low 9 s0 == 64512)
      || (clear_low 6 s0 == 65152)

has_http_scheme : Url → Bool
has_http_scheme url = str_eq url.scheme "http" || str_eq url.scheme "https"

has_host : Option String → Bool
has_host none = false
has_host (some h) = not (str_eq h "")

is_some : Option String → Bool
is_some none = false
is_some (some s) = true

check_port : List ℕ → Option ℕ → Result SsrfError (Unit {0})
check_port allowed none = ok tt
check_port allowed (some port) = if any (λ p. p == port) allowed then ok tt else err (bad_port port)

unfoldable pub validate_url : SsrfPolicy → Url → Result SsrfError (Unit {0})
unfolding has_http_scheme has_host is_some check_port
validate_url policy url =
    if not (has_http_scheme url)
    then err bad_scheme
    else if not (has_host url.host_str)
    then err missing_host
    else if not (str_eq url.username "") || is_some url.password
    then err userinfo
    else check_port policy.allowed_ports url.port

-- The loop over the resolved addresses: the first blocked one ends it.
unfoldable pub check_ips : List IpAddr → Result SsrfError (Unit {0})
unfolding is_blocked_ip
check_ips [] = ok tt
check_ips (ip ∷ ips) = if is_blocked_ip ip then err (private_ip ip) else check_ips ips

abbrev pub host_or_empty : Option String → String
host_or_empty none = ""
host_or_empty (some h) = h

unfoldable pub validate :
    SsrfPolicy → Url → (String → Result String (List IpAddr)) → Result SsrfError (List IpAddr)
unfolding validate_url check_ips
validate policy url lookup = do
  _ ← validate_url policy url
  ips ← map_err resolution_failed (lookup (host_or_empty url.host_str))
  _ ← if policy.allow_private then ok tt else check_ips ips
  ok ips

is_empty : List IpAddr → Bool
is_empty [] = true
is_empty (ip ∷ ips) = false

-- `SystemResolver::lookup`; `to_socket_addrs` is the system's answer for the host.
unfoldable pub lookup :
    (String → Result String (List IpAddr)) → String → Result String (List IpAddr)
unfolding is_empty
lookup to_socket_addrs host = to_socket_addrs host >>= λ ips.
    if is_empty ips then err ("no addresses for " <> host) else ok ips

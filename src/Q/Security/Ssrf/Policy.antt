-- ===== src/Q/Security/Ssrf/Policy.antt =====
-- `SsrfPolicy::validate` of q/src/security/ssrf.rs: which destinations pass.
use benchmark_rust_llms.Prelude.{
  ℕ, String, Option, none, some, List, [], ◌∷◌, true, false, ◌≡◌, ◌≢◌, refl, ◌⊎◌, inl, inr, ◌↔◌,
  any, arith, map_err-ok, ap, ◌∙◌, str_eq, ◌||◌, if◌then◌else◌, Result, ok, All, ◌==◌, Bool-cases,
  eq_iff, map_err, succeeded,
}
use benchmark_rust_llms.Net.{IpAddr}
use benchmark_rust_llms.Q.Security.Ssrf.{
  Url, resolution_failed, SsrfPolicy, is_blocked_ip, validate_url, validate, check_ips, check_port,
  host_or_empty, has_http_scheme, has_host, is_some,
}

-- What the policy asks of the URL alone.
pub record IsAllowed (policy : SsrfPolicy) (url : Url) : Type 0 where
  pub scheme : (url.scheme ≡ "http") ⊎ (url.scheme ≡ "https")
  pub host : (h : String) × (url.host_str ≡ some h) × (h ≢ "")
  pub username : url.username ≡ ""
  pub password : url.password ≡ none
  pub port : (p : ℕ) → url.port ≡ some p → any (λ q. q == p) policy.allowed_ports ≡ true

check_ips-ok :
    (ips : List IpAddr) → check_ips ips ≡ ok tt → All (λ ip. is_blocked_ip ip ≡ false) ips
unfolding check_ips
check_ips-ok [] h = tt
check_ips-ok (ip ∷ ips) h = elim (Bool-cases (is_blocked_ip ip)) [
  | inl e ↦ absurd (ground arith)
  | inr e ↦ (e, check_ips-ok ips (ground arith))
]

ok-check_ips :
    (ips : List IpAddr) → All (λ ip. is_blocked_ip ip ≡ false) ips → check_ips ips ≡ ok tt
unfolding check_ips
ok-check_ips [] h = refl
ok-check_ips (ip ∷ ips) (h, hs) = rw h (ok-check_ips ips hs)

scheme_lem :
    (s : String) → (str_eq s "http" || str_eq s "https") ≡ true → (s ≡ "http") ⊎ (s ≡ "https")
scheme_lem s h = elim (Bool-cases (str_eq s "http")) [
  | inl e ↦ inl ((eq_iff s "http").0 e)
  | inr e ↦ inr (ground (arith, eq_iff s "https"))
]

host_lem : (o : Option String) → has_host o ≡ true → (h : String) × (o ≡ some h) × (h ≢ "")
unfolding has_host
host_lem none e = cc
host_lem (some h) e = (h, refl, λ z. ground (arith, eq_iff h ""))

password_lem : (o : Option String) → is_some o ≡ false → o ≡ none
unfolding is_some
password_lem none e = refl
password_lem (some p) e = cc

port_lem :
    (ps : List ℕ) (o : Option ℕ)
    → check_port ps o ≡ ok tt
    → (p : ℕ) → o ≡ some p
    → any (λ q. q == p) ps ≡ true
unfolding check_port
port_lem ps none h p e = cc
port_lem ps (some q) h p e = ground arith

validate_url-IsAllowed :
    (policy : SsrfPolicy) (url : Url) → validate_url policy url ≡ ok tt → IsAllowed policy url
unfolding validate_url has_http_scheme
validate_url-IsAllowed policy url h = record {
  scheme = scheme_lem url.scheme (ground arith);
  host = host_lem url.host_str (ground arith);
  username = ground (arith, eq_iff url.username "");
  password = password_lem url.password (ground arith);
  port = port_lem policy.allowed_ports url.port (ground arith);
}

lem_host : (o : Option String) → (h : String) × (o ≡ some h) × (h ≢ "") → has_host o ≡ true
unfolding has_host
lem_host none (h, e, n) = cc
lem_host (some k) (h, e, n) = ground (arith, eq_iff k "")

lem_port :
    (ps : List ℕ) (o : Option ℕ)
    → ((p : ℕ) → o ≡ some p → any (λ q. q == p) ps ≡ true)
    → check_port ps o ≡ ok tt
unfolding check_port
lem_port ps none h = refl
lem_port ps (some q) h = rw (h q refl) refl

IsAllowed-validate_url :
    (policy : SsrfPolicy) (url : Url) → IsAllowed policy url → validate_url policy url ≡ ok tt
unfolding validate_url has_http_scheme is_some
IsAllowed-validate_url policy url h = elim h.scheme [
  | inl e ↦
      rw (e, lem_host url.host_str h.host, h.username, h.password)
        (lem_port policy.allowed_ports url.port h.port)
  | inr e ↦
      rw (e, lem_host url.host_str h.host, h.username, h.password)
        (lem_port policy.allowed_ports url.port h.port)
]

module _ (lookup : String → Result String (List IpAddr)) where
  passed :
      (policy : SsrfPolicy) (ips : List IpAddr)
      → (if policy.allow_private then ok tt else check_ips ips) ≡ ok tt
      → policy.allow_private ≡ false
      → All (λ ip. is_blocked_ip ip ≡ false) ips
  passed policy ips h e = check_ips-ok ips (rw e at h)

  passing :
      (policy : SsrfPolicy) (url : Url) (ips : List IpAddr)
      → validate policy url lookup ≡ ok ips
      → IsAllowed policy url
        × (lookup (host_or_empty url.host_str) ≡ ok ips)
        × (policy.allow_private ≡ false → All (λ ip. is_blocked_ip ip ≡ false) ips)
  unfolding validate
  passing policy url ips h =
      let (_, allowed, h') = succeeded (validate_url policy url) _ h in
      let (found, resolved, h'') =
        succeeded (map_err resolution_failed (lookup (host_or_empty url.host_str))) _ h' in
      let (_, public, e) =
        succeeded (if policy.allow_private then ok tt else check_ips found) _ h'' in
      let same : found ≡ ips = cc in
      (
        validate_url-IsAllowed policy url allowed,
        map_err-ok resolution_failed (lookup (host_or_empty url.host_str)) resolved ∙ ap ok same,
        passed policy ips (rw same at public),
      )

  passes :
      (policy : SsrfPolicy) (url : Url) (ips : List IpAddr)
      → IsAllowed policy url
        × (lookup (host_or_empty url.host_str) ≡ ok ips)
        × (policy.allow_private ≡ false → All (λ ip. is_blocked_ip ip ≡ false) ips)
      → validate policy url lookup ≡ ok ips
  unfolding validate
  passes policy url ips (allowed, resolved, public) = elim (Bool-cases policy.allow_private) [
    | inl e ↦ rw (IsAllowed-validate_url policy url allowed, resolved, e) refl
    | inr e ↦
        rw (IsAllowed-validate_url policy url allowed, resolved, e, ok-check_ips ips (public e))
          refl
  ]

  -- A destination passes exactly when its URL is allowed and its host resolves to the addresses that
  -- are returned, none of them in a refused block unless private addresses are allowed.
  pub validate_iff :
      (policy : SsrfPolicy) (url : Url) (ips : List IpAddr)
      → (validate policy url lookup ≡ ok ips) ↔ (
          IsAllowed policy url
          × (lookup (host_or_empty url.host_str) ≡ ok ips)
          × (policy.allow_private ≡ false → All (λ ip. is_blocked_ip ip ≡ false) ips))
  validate_iff policy url ips = (passing policy url ips, passes policy url ips)

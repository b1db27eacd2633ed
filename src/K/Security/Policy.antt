-- ===== src/K/Security/Policy.antt =====
-- `validate_destination` of k/webhook-delivery/src/security.rs: which destinations pass.
use benchmark_rust_llms.Prelude.{
  ℕ, if◌then◌else◌, String, Option, none, some, List, [], ◌∷◌, Bool, true, false, ◌≡◌, refl, ◌⊎◌,
  inl, inr, ◌↔◌, arith, map_err-ok, str_eq, Result, ok, All, Bool-cases, eq_iff, map_err, ok_or,
  through, subst,
}
use benchmark_rust_llms.Prelude.{ap, sym, ◌∙◌, then_ok, ok_injective, ok_or-ok}
use benchmark_rust_llms.Net.{IpAddr, v4, v6}
use benchmark_rust_llms.Net.Url.{IsPort, Url, Host, ipv4, ipv6, domain}
use benchmark_rust_llms.K.Security.{
  invalid_url, ip_is_blocked, check_scheme, check_credentials, check_ips, candidates, check_network,
  validate_destination, has_credentials, port_of,
}

check_ips-ok :
    (ips : List IpAddr) → check_ips ips ≡ ok tt → All (λ ip. ip_is_blocked ip ≡ false) ips
unfolding check_ips
check_ips-ok [] h = tt
check_ips-ok (ip ∷ ips) h = elim (Bool-cases (ip_is_blocked ip)) [
  | inl e ↦ absurd (ground arith)
  | inr e ↦ (e, check_ips-ok ips (ground arith))
]

ok-check_ips :
    (ips : List IpAddr) → All (λ ip. ip_is_blocked ip ≡ false) ips → check_ips ips ≡ ok tt
unfolding check_ips
ok-check_ips [] h = refl
ok-check_ips (ip ∷ ips) (h, hs) = rw h (ok-check_ips ips hs)

scheme_lem : (s : String) → check_scheme s ≡ ok tt → (s ≡ "http") ⊎ (s ≡ "https")
unfolding check_scheme
scheme_lem s h = elim (Bool-cases (str_eq s "http")) [
  | inl e ↦ inl ((eq_iff s "http").0 e)
  | inr e ↦ inr (ground (arith, eq_iff s "https"))
]

lem_scheme : (s : String) → (s ≡ "http") ⊎ (s ≡ "https") → check_scheme s ≡ ok tt
unfolding check_scheme
lem_scheme s (inl e) = rw e refl
lem_scheme s (inr e) = rw e refl

credentials_lem :
    (username : String) (password : Option String)
    → has_credentials username password ≡ false
    → (username ≡ "") × (password ≡ none)
credentials_lem username none h = (ground (arith, eq_iff username ""), refl)
credentials_lem username (some p) h = cc

check_credentials-ok :
    (url : Url) → check_credentials url ≡ ok tt → (url.username ≡ "") × (url.password ≡ none)
unfolding check_credentials
check_credentials-ok url h = credentials_lem url.username url.password (ground arith)

ok-check_credentials :
    (url : Url) → url.username ≡ "" → url.password ≡ none → check_credentials url ≡ ok tt
unfolding check_credentials
ok-check_credentials url e f = rw (f, e) refl

port_of-IsPort :
    (url : Url) (o : Option ℕ)
    → url.port ≡ o
    → (url.scheme ≡ "http") ⊎ (url.scheme ≡ "https")
    → IsPort url (port_of url o)
port_of-IsPort url (some p) e s = inl e
port_of-IsPort url none e (inl s) =
    inr (e, inr (s, ap (λ t. if str_eq t "https" then 443 else 80) s))
port_of-IsPort url none e (inr s) =
    inr (e, inl (s, ap (λ t. if str_eq t "https" then 443 else 80) s))

IsPort-port_of : (url : Url) (port : ℕ) → IsPort url port → port_of url url.port ≡ port
IsPort-port_of url port (inl e) = rw e refl
IsPort-port_of url port (inr (e, inl (s, f))) = rw (e, s) (sym f)
IsPort-port_of url port (inr (e, inr (s, f))) = rw (e, s) (sym f)

module _ (parse : String → Result String Url)
    (lookup_host : String → ℕ → Result String (List IpAddr)) where
  -- A literal address is outside the refused blocks; a name resolves, and to such addresses only.
  abbrev pub IsPublic : Url → Host → Type 0
  IsPublic url (ipv4 a b c d) = ip_is_blocked (v4 a b c d) ≡ false
  IsPublic url (ipv6 s0 s1 s2 s3 s4 s5 s6 s7) = ip_is_blocked (v6 s0 s1 s2 s3 s4 s5 s6 s7) ≡ false
  IsPublic url (domain name) =
      (port : ℕ) × (ips : List IpAddr) × IsPort url port
      × (lookup_host name port ≡ ok ips)
      × All (λ ip. ip_is_blocked ip ≡ false) ips

  -- What the service asks of a destination.
  pub record IsDeliverable (allow_private : Bool) (url : Url) : Type 0 where
    pub scheme : (url.scheme ≡ "http") ⊎ (url.scheme ≡ "https")
    pub username : url.username ≡ ""
    pub password : url.password ≡ none
    pub host : Host
    pub has_host : url.host ≡ some host
    pub public : allow_private ≡ false → IsPublic url host

  candidates-IsPublic :
      (url : Url) (host : Host) (ips : List IpAddr)
      → (url.scheme ≡ "http") ⊎ (url.scheme ≡ "https")
      → candidates parse lookup_host url host ≡ ok ips
      → All (λ ip. ip_is_blocked ip ≡ false) ips
      → IsPublic url host
  unfolding candidates
  candidates-IsPublic url (ipv4 a b c d) ips s f p =
      (subst (All (λ ip. ip_is_blocked ip ≡ false)) (sym (ok_injective f)) p).0
  candidates-IsPublic url (ipv6 s0 s1 s2 s3 s4 s5 s6 s7) ips s f p =
      (subst (All (λ ip. ip_is_blocked ip ≡ false)) (sym (ok_injective f)) p).0
  candidates-IsPublic url (domain name) ips s f p = (
    port_of url url.port,
    ips,
    port_of-IsPort url url.port refl s,
    map_err-ok _ (lookup_host name (port_of url url.port)) f,
    p,
  )

  IsPublic-candidates :
      (url : Url) (host : Host)
      → IsPublic url host
      → (ips : List IpAddr) × (candidates parse lookup_host url host ≡ ok ips)
        × All (λ ip. ip_is_blocked ip ≡ false) ips
  unfolding candidates
  IsPublic-candidates url (ipv4 a b c d) p = (v4 a b c d ∷ [], refl, (p, tt))
  IsPublic-candidates url (ipv6 s0 s1 s2 s3 s4 s5 s6 s7) p =
      (v6 s0 s1 s2 s3 s4 s5 s6 s7 ∷ [], refl, (p, tt))
  IsPublic-candidates url (domain name) (port, ips, i, f, p) =
      (ips, rw (IsPort-port_of url port i, f) refl, p)

  check_network-ok :
      (b : Bool) (url : Url) (host : Host)
      → (url.scheme ≡ "http") ⊎ (url.scheme ≡ "https")
      → check_network parse lookup_host b url host ≡ ok tt
      → b ≡ false
      → IsPublic url host
  unfolding check_network
  check_network-ok true url host s h e = cc
  check_network-ok false url host s h e =
      through (candidates parse lookup_host url host) _ h
        λ ips f g. candidates-IsPublic url host ips s f (check_ips-ok ips g)

  ok-check_network :
      (b : Bool) (url : Url) (host : Host)
      → (b ≡ false → IsPublic url host)
      → check_network parse lookup_host b url host ≡ ok tt
  unfolding check_network
  ok-check_network true url host h = refl
  ok-check_network false url host h =
      let (ips, f, public) = IsPublic-candidates url host (h refl) in
      rw (f, ok-check_ips ips public) refl

  passing :
      (s : String) (b : Bool) (url : Url)
      → validate_destination parse lookup_host s b ≡ ok url
      → (parse s ≡ ok url) × IsDeliverable b url
  unfolding validate_destination
  passing s b url h = through (map_err invalid_url (parse s)) _ h λ u e h1.
      through (check_scheme u.scheme) _ h1 λ _ scheme h2.
        through (ok_or u.host (invalid_url "missing host")) _ h2 λ host has h3.
          through (check_credentials u) _ h3 λ _ credentials h4.
            through (check_network parse lookup_host b u host) _ h4 λ _ net h5.
              subst (λ x. (parse s ≡ ok x) × IsDeliverable b x) (ok_injective h5)
                (
                  map_err-ok invalid_url (parse s) e,
                  record {
                    scheme = scheme_lem u.scheme scheme;
                    username = (check_credentials-ok u credentials).0;
                    password = (check_credentials-ok u credentials).1;
                    host = host;
                    has_host = ok_or-ok u.host (invalid_url "missing host") has;
                    public = check_network-ok b u host (scheme_lem u.scheme scheme) net;
                  },
                )

  passes :
      (s : String) (b : Bool) (url : Url)
      → (parse s ≡ ok url) × IsDeliverable b url
      → validate_destination parse lookup_host s b ≡ ok url
  unfolding validate_destination
  passes s b url (e, d) =
      then_ok _ (ap (map_err invalid_url) e)
      ∙ then_ok _ (lem_scheme url.scheme d.scheme)
      ∙ then_ok _ (ap (λ o. ok_or o (invalid_url "missing host")) d.has_host)
      ∙ then_ok _ (ok-check_credentials url d.username d.password)
      ∙ then_ok _ (ok-check_network b url d.host d.public)

  -- A destination passes exactly when it parses to the URL that is returned, the URL is http or https,
  -- has a host and no credentials, and, unless private addresses are allowed, its host is a literal
  -- address outside the refused blocks or a name that resolves, at the URL's port, to such addresses
  -- only.
  pub validate_destination_iff :
      (s : String) (allow_private : Bool) (url : Url)
      → (validate_destination parse lookup_host s allow_private ≡ ok url)
        ↔ ((parse s ≡ ok url) × IsDeliverable allow_private url)
  validate_destination_iff s b url = (passing s b url, passes s b url)

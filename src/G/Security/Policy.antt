-- ===== src/G/Security/Policy.antt =====
-- `validate_destination` of g/src/security.rs: which destinations pass.
use benchmark_rust_llms.Prelude.{
  String, Option, none, some, List, [], ◌∷◌, Bool, true, false, ◌≡◌, refl, ◌⊎◌, inl, inr, ◌↔◌,
  arith, map_err-ok, str_eq, ok, All, Bool-cases, eq_iff, map_err, ok_or, through,
}
use benchmark_rust_llms.Prelude.{ap, ◌∙◌, then_ok, ok_or-ok}
use benchmark_rust_llms.Net.{IpAddr, v4, v6}
use benchmark_rust_llms.Net.Url.{IsPort, Url, Host, ipv4, ipv6, domain}
use benchmark_rust_llms.G.Security.{
  Outside, is_public_ip, check_length, check_scheme, check_credentials, has_credentials, addresses,
  check_ips, check_addresses, check_network, validate_destination, port_of,
}
use benchmark_rust_llms.Prelude.{ℕ, if◌then◌else◌, sym, ok_injective, length, as_bytes, ◌≤◌, ◌<>◌}

check_length-ok : (raw : String) → check_length raw ≡ ok tt → length (as_bytes raw) ≤ 2048
unfolding check_length
check_length-ok raw h = ground arith

ok-check_length : (raw : String) → length (as_bytes raw) ≤ 2048 → check_length raw ≡ ok tt
unfolding check_length
ok-check_length raw h = ground arith

check_scheme-ok : (s : String) → check_scheme s ≡ ok tt → (s ≡ "http") ⊎ (s ≡ "https")
unfolding check_scheme
check_scheme-ok s h = elim (Bool-cases (str_eq s "http")) [
  | inl e ↦ inl ((eq_iff s "http").0 e)
  | inr e ↦ inr (ground (arith, eq_iff s "https"))
]

ok-check_scheme : (s : String) → (s ≡ "http") ⊎ (s ≡ "https") → check_scheme s ≡ ok tt
unfolding check_scheme
ok-check_scheme s (inl e) = rw e refl
ok-check_scheme s (inr e) = rw e refl

no_credentials :
    (username : String) (password : Option String)
    → has_credentials username password ≡ false
    → (username ≡ "") × (password ≡ none)
no_credentials username none h = (ground (arith, eq_iff username ""), refl)
no_credentials username (some p) h = cc

check_credentials-ok :
    (url : Url) → check_credentials url ≡ ok tt → (url.username ≡ "") × (url.password ≡ none)
unfolding check_credentials
check_credentials-ok url h = no_credentials url.username url.password (ground arith)

ok-check_credentials :
    (url : Url) → url.username ≡ "" → url.password ≡ none → check_credentials url ≡ ok tt
unfolding check_credentials
ok-check_credentials url e f = rw (f, e) refl

default-IsPort :
    (url : Url) (o : Option ℕ)
    → url.port ≡ o
    → (url.scheme ≡ "http") ⊎ (url.scheme ≡ "https")
    → IsPort url (port_of url o)
default-IsPort url (some p) e s = inl e
default-IsPort url none e (inl s) =
    inr (e, inr (s, ap (λ t. if str_eq t "https" then 443 else 80) s))
default-IsPort url none e (inr s) =
    inr (e, inl (s, ap (λ t. if str_eq t "https" then 443 else 80) s))

IsPort-default : (url : Url) (port : ℕ) → IsPort url port → port_of url url.port ≡ port
IsPort-default url port (inl e) = rw e refl
IsPort-default url port (inr (e, inl (s, f))) = rw (e, s) (sym f)
IsPort-default url port (inr (e, inr (s, f))) = rw (e, s) (sym f)

module _ (out : Outside) where
  open out use {parse_url}

  check_ips-ok :
      (ips : List IpAddr) → check_ips out ips ≡ ok tt → All (λ ip. is_public_ip ip ≡ true) ips
  unfolding check_ips
  check_ips-ok [] h = tt
  check_ips-ok (ip ∷ ips) h = elim (Bool-cases (is_public_ip ip)) [
    | inl e ↦ (e, check_ips-ok ips (rw e at h))
    | inr e ↦ absurd (let k = rw e at h in cc)
  ]

  ok-check_ips :
      (ips : List IpAddr) → All (λ ip. is_public_ip ip ≡ true) ips → check_ips out ips ≡ ok tt
  unfolding check_ips
  ok-check_ips [] h = refl
  ok-check_ips (ip ∷ ips) h = rw h.0 (ok-check_ips ips h.1)

  -- The host is one literal address, or a name that resolves, at the URL's port, to the addresses.
  abbrev pub StandsFor : Url → Host → List IpAddr → Type 0
  StandsFor url (ipv4 a b c d) ips = ips ≡ v4 a b c d ∷ []
  StandsFor url (ipv6 s0 s1 s2 s3 s4 s5 s6 s7) ips = ips ≡ v6 s0 s1 s2 s3 s4 s5 s6 s7 ∷ []
  StandsFor url (domain name) ips =
      (port : ℕ) × IsPort url port × (out.lookup_host name port ≡ ok ips)

  addresses-StandsFor :
      (url : Url) (host : Host) (ips : List IpAddr)
      → (url.scheme ≡ "http") ⊎ (url.scheme ≡ "https")
      → addresses out url host ≡ ok ips
      → StandsFor url host ips
  unfolding addresses
  addresses-StandsFor url (ipv4 a b c d) ips s e = sym (ok_injective e)
  addresses-StandsFor url (ipv6 s0 s1 s2 s3 s4 s5 s6 s7) ips s e = sym (ok_injective e)
  addresses-StandsFor url (domain name) ips s e = (
    port_of url url.port,
    default-IsPort url url.port refl s,
    map_err-ok _ (out.lookup_host name (port_of url url.port)) e,
  )

  StandsFor-addresses :
      (url : Url) (host : Host) (ips : List IpAddr)
      → StandsFor url host ips
      → addresses out url host ≡ ok ips
  unfolding addresses
  StandsFor-addresses url (ipv4 a b c d) ips e = rw e refl
  StandsFor-addresses url (ipv6 s0 s1 s2 s3 s4 s5 s6 s7) ips e = rw e refl
  StandsFor-addresses url (domain name) ips (port, i, e) = rw (IsPort-default url port i, e) refl

  -- The host stands for one or more addresses, all of them public.
  pub record IsPublicHost (url : Url) : Type 0 where
    pub host : Host
    pub has_host : url.host ≡ some host
    pub first : IpAddr
    pub others : List IpAddr
    pub resolves : StandsFor url host (first ∷ others)
    pub are_public : All (λ ip. is_public_ip ip ≡ true) (first ∷ others)

  check_addresses-ok :
      (url : Url) (host : Host) (ips : List IpAddr)
      → url.host ≡ some host
      → StandsFor url host ips
      → check_addresses out host ips ≡ ok tt
      → IsPublicHost url
  unfolding check_addresses
  check_addresses-ok url host [] h r k = cc
  check_addresses-ok url host (ip ∷ ips) h r k = record {
    host = host;
    has_host = h;
    first = ip;
    others = ips;
    resolves = r;
    are_public = check_ips-ok (ip ∷ ips) k;
  }

  check_network-ok :
      (b : Bool) (url : Url)
      → (url.scheme ≡ "http") ⊎ (url.scheme ≡ "https")
      → check_network out b url ≡ ok tt
      → (b ≡ true) ⊎ IsPublicHost url
  unfolding check_network
  check_network-ok true url s h = inl refl
  check_network-ok false url s h =
      through (ok_or url.host "destination URL has no host") _ h λ host e k.
        through (addresses out url host) _ k λ ips r g. inr (
          check_addresses-ok url host ips (ok_or-ok url.host "destination URL has no host" e)
            (addresses-StandsFor url host ips s r) g)

  public-check_network : (b : Bool) (url : Url) → IsPublicHost url → check_network out b url ≡ ok tt
  unfolding check_network check_addresses
  public-check_network true url p = refl
  public-check_network false url p =
      rw (p.has_host, StandsFor-addresses url p.host _ p.resolves)
        (ok-check_ips (p.first ∷ p.others) p.are_public)

  ok-check_network :
      (b : Bool) (url : Url) → (b ≡ true) ⊎ IsPublicHost url → check_network out b url ≡ ok tt
  unfolding check_network
  ok-check_network b url (inl e) = rw e refl
  ok-check_network b url (inr p) = public-check_network b url p

  -- What the service asks of a destination.
  pub record IsDeliverable (raw : String) (allow_private : Bool) : Type 0 where
    pub short : length (as_bytes raw) ≤ 2048
    pub url : Url
    pub parses : parse_url raw ≡ ok url
    pub scheme : (url.scheme ≡ "http") ⊎ (url.scheme ≡ "https")
    pub username : url.username ≡ ""
    pub password : url.password ≡ none
    pub host : (allow_private ≡ true) ⊎ IsPublicHost url

  ok-IsDeliverable :
      (raw : String) (b : Bool) → validate_destination out raw b ≡ ok tt → IsDeliverable raw b
  unfolding validate_destination
  ok-IsDeliverable raw b h = through (check_length raw) _ h λ _ short h1.
      through (map_err (λ e. "invalid destination URL: " <> e) (parse_url raw)) _ h1
        λ url parses h2. through (check_scheme url.scheme) _ h2 λ _ scheme h3.
          through (check_credentials url) _ h3 λ _ credentials h4. record {
            short = check_length-ok raw short;
            url = url;
            parses = map_err-ok (λ e. "invalid destination URL: " <> e) (parse_url raw) parses;
            scheme = check_scheme-ok url.scheme scheme;
            username = (check_credentials-ok url credentials).0;
            password = (check_credentials-ok url credentials).1;
            host = check_network-ok b url (check_scheme-ok url.scheme scheme) h4;
          }

  IsDeliverable-ok :
      (raw : String) (b : Bool) → IsDeliverable raw b → validate_destination out raw b ≡ ok tt
  unfolding validate_destination
  IsDeliverable-ok raw b d =
      then_ok _ (ok-check_length raw d.short)
      ∙ then_ok _ (ap (map_err (λ e. "invalid destination URL: " <> e)) d.parses)
      ∙ then_ok _ (ok-check_scheme (IsDeliverable.url d).scheme d.scheme)
      ∙ then_ok _ (ok-check_credentials d.url d.username d.password)
      ∙ ok-check_network b d.url d.host

  -- A destination passes exactly when it has at most 2048 bytes, parses to an http or https URL without
  -- credentials, and, unless private destinations are allowed, has a host that stands for one or more
  -- addresses, all of them public.
  pub validate_destination_iff :
      (raw : String) (allow_private : Bool)
      → (validate_destination out raw allow_private ≡ ok tt) ↔ IsDeliverable raw allow_private
  validate_destination_iff raw b = (ok-IsDeliverable raw b, IsDeliverable-ok raw b)

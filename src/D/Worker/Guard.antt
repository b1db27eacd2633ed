-- ===== src/D/Worker/Guard.antt =====
-- `check_destination_blocked` of d/src/worker.rs: what passes it, what does not, and what a job
-- meets in each case.
use benchmark_rust_llms.Prelude.{String, Option, List, [], ◌∷◌, true, str_eq, Result, ok, err}
use benchmark_rust_llms.Net.{IpAddr}
use benchmark_rust_llms.D.Config.{is_set}
use benchmark_rust_llms.D.Security.{validate_destination, is_blocked_literal_ip, is_private_ip}
use benchmark_rust_llms.D.Worker.{check_ips, check_host, check_destination_blocked, host_from_url}
use benchmark_rust_llms.Prelude.{
  All, Some, Bool-cases, through, inl, inr, ◌≡◌, refl, ◌⊎◌, true, false,
}

check_ips-ok :
    (show_ip : IpAddr → String) (host : String) (ips : List IpAddr)
    → All (λ ip. is_private_ip ip ≡ false) ips
    → check_ips show_ip host ips ≡ ok tt
unfolding check_ips
check_ips-ok show_ip host [] h = refl
check_ips-ok show_ip host (ip ∷ ips) h = rw h.0 (check_ips-ok show_ip host ips h.1)

check_ips-All :
    (show_ip : IpAddr → String) (host : String) (ips : List IpAddr)
    → check_ips show_ip host ips ≡ ok tt
    → All (λ ip. is_private_ip ip ≡ false) ips
unfolding check_ips
check_ips-All show_ip host [] h = tt
check_ips-All show_ip host (ip ∷ ips) h = elim (Bool-cases (is_private_ip ip)) [
  | inl e ↦ absurd (let k = rw e at h in cc)
  | inr e ↦ (e, check_ips-All show_ip host ips (rw e at h))
]

pub check_ips-private :
    (show_ip : IpAddr → String) (host : String) (ips : List IpAddr)
    → Some (λ ip. is_private_ip ip ≡ true) ips
    → (e : String) × (check_ips show_ip host ips ≡ err e)
unfolding check_ips
check_ips-private show_ip host [] h = absurd h
check_ips-private show_ip host (ip ∷ ips) (inl e) = rw e (_, refl)
check_ips-private show_ip host (ip ∷ ips) (inr h) = elim (Bool-cases (is_private_ip ip)) [
  | inl e ↦ rw e (_, refl)
  | inr e ↦ rw e (check_ips-private show_ip host ips h)
]

module _ (parse_ip : String → Option IpAddr) (show_ip : IpAddr → String)
    (lookup_host : String → Result String (List IpAddr)) where
  -- The host has a name, is no refused literal, and resolves to public addresses only.
  pub record IsPublicHost (host : String) : Type 0 where
    pub named : str_eq host "" ≡ false
    pub no_literal : is_blocked_literal_ip parse_ip host ≡ false
    pub addresses : List IpAddr
    pub resolves : lookup_host host ≡ ok addresses
    pub are_public : All (λ ip. is_private_ip ip ≡ false) addresses

  pub check_host-ok :
      (host : String) → IsPublicHost host → check_host parse_ip show_ip lookup_host host ≡ ok tt
  check_host-ok host p =
      rw (p.named, p.no_literal, p.resolves) (check_ips-ok show_ip host p.addresses p.are_public)

  check_host-IsPublicHost :
      (host : String) → check_host parse_ip show_ip lookup_host host ≡ ok tt → IsPublicHost host
  check_host-IsPublicHost host h = elim (Bool-cases (str_eq host "")) [
    | inl e ↦ absurd (let k = rw e at h in cc)
    | inr e ↦ elim (Bool-cases (is_blocked_literal_ip parse_ip host)) [
      | inl b ↦ absurd (let k = rw (e, b) at h in cc)
      | inr b ↦ through (lookup_host host) (check_ips show_ip host) (rw (e, b) at h) λ ips r k.
          record {
            named = e;
            no_literal = b;
            addresses = ips;
            resolves = r;
            are_public = check_ips-All show_ip host ips k;
          }
    ]
  ]

  -- The destination is a URL, and ALLOW_PRIVATE is set or its host is public.
  pub record IsPermitted (allow_private : Option String) (destination : String) : Type 0 where
    pub rest : String
    pub valid : validate_destination destination ≡ ok rest
    pub host : (is_set allow_private ≡ true) ⊎ IsPublicHost (host_from_url rest)

  pub permitted-ok :
      (allow_private : Option String) (destination : String)
      → IsPermitted allow_private destination
      → check_destination_blocked parse_ip show_ip allow_private lookup_host destination ≡ ok tt
  unfolding check_destination_blocked
  permitted-ok allow_private destination p = rw p.valid (elim p.host [
    | inl e ↦ rw e refl
    | inr q ↦ elim (Bool-cases (is_set allow_private)) [
      | inl e ↦ rw e refl
      | inr e ↦ rw e (check_host-ok (host_from_url p.rest) q)
    ]
  ])

  pub ok-IsPermitted :
      (allow_private : Option String) (destination : String)
      → check_destination_blocked parse_ip show_ip allow_private lookup_host destination ≡ ok tt
      → IsPermitted allow_private destination
  unfolding check_destination_blocked
  ok-IsPermitted allow_private destination h =
      through (validate_destination destination) _ h λ rest v k.
        elim (Bool-cases (is_set allow_private)) [
          | inl e ↦ record { rest = rest; valid = v; host = inl e }
          | inr e ↦ record {
            rest = rest;
            valid = v;
            host = inr (check_host-IsPublicHost (host_from_url rest) (rw e at k));
          }
        ]

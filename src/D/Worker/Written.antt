-- ===== src/D/Worker/Written.antt =====
-- `check_destination_blocked` of d/src/worker.rs on destinations that are written out with a scheme, a
-- host, a port and a path.
use benchmark_rust_llms.Prelude.{
  ℕ, code, String, ◌<>◌, Option, none, some, List, true, false, ◌==◌, str_eq, inl, inr, ◌≡◌, refl,
  ◌∙◌, ap, sym, ◌⊎◌, ◌↔◌, Result, ok, All, Bool, Bool-cases, eq_iff, subst, ok_injective, Char,
}
use benchmark_rust_llms.Net.{IpAddr}
use benchmark_rust_llms.D.Config.{is_set}
use benchmark_rust_llms.D.Security.{
  validate_destination, starts_lower, slice_from, is_blocked_literal_ip, is_private_ip,
  blocked_if_read, trim_start_matches, trim_end_matches, cons_unless_last,
}
use benchmark_rust_llms.D.Worker.{check_destination_blocked, host_from_url, all_digits}
use benchmark_rust_llms.D.Worker.Host.{Lacks, host_from_url_lem, differs}
use benchmark_rust_llms.D.Worker.Guard.{IsPublicHost, permitted-ok, ok-IsPermitted}
use Prim.Native.String.append

http-append :
    (s : String)
    → "http://" <> s
      ≡ String.◌∷◌ "h" (
          String.◌∷◌ "t"
            (String.◌∷◌ "t" (String.◌∷◌ "p" (String.◌∷◌ ":" (String.◌∷◌ "/" (String.◌∷◌ "/" s))))))
http-append s =
    rw
      (
        append.cons "h" "ttp://" s,
        append.cons "t" "tp://" s,
        append.cons "t" "p://" s,
        append.cons "p" "://" s,
        append.cons ":" "//" s,
        append.cons "/" "/" s,
        append.cons "/" "" s,
        append.nil s,
      )
      refl

https-append :
    (s : String)
    → "https://" <> s
      ≡ String.◌∷◌ "h" (
          String.◌∷◌ "t" (
            String.◌∷◌ "t" (
              String.◌∷◌ "p"
                (String.◌∷◌ "s" (String.◌∷◌ ":" (String.◌∷◌ "/" (String.◌∷◌ "/" s)))))))
https-append s =
    rw
      (
        append.cons "h" "ttps://" s,
        append.cons "t" "tps://" s,
        append.cons "t" "ps://" s,
        append.cons "p" "s://" s,
        append.cons "s" "://" s,
        append.cons ":" "//" s,
        append.cons "/" "/" s,
        append.cons "/" "" s,
        append.nil s,
      )
      refl

abbrev pub IsScheme : String → Type 0
IsScheme scheme = (scheme ≡ "http://") ⊎ (scheme ≡ "https://")

valid :
    (scheme rest : String)
    → IsScheme scheme
    → str_eq rest "" ≡ false
    → validate_destination (scheme <> rest) ≡ ok rest
unfolding validate_destination starts_lower slice_from
valid scheme rest (inl e) h = rw (e, http-append rest, h) refl
valid scheme rest (inr e) h = rw (e, https-append rest, h) refl

abbrev is_empty : String → Bool
is_empty String.[] = true
is_empty (String.◌∷◌ c s) = false

cons-named : (c : Char) (s : String) → str_eq (String.◌∷◌ c s) "" ≡ false
cons-named c s = elim (Bool-cases (str_eq (String.◌∷◌ c s) "")) [
  | inl e ↦ absurd (let k : false ≡ true = ap is_empty ((eq_iff (String.◌∷◌ c s) "").0 e) in cc)
  | inr e ↦ e
]

append-named : (s t : String) → str_eq s "" ≡ false → str_eq (s <> t) "" ≡ false
append-named String.[] t h = cc
append-named (String.◌∷◌ c s) t h = rw (append.cons c s t) (cons-named c (s <> t))

trim_start-id : (k : ℕ) (s : String) → Lacks k s → trim_start_matches k s ≡ s
unfolding trim_start_matches
trim_start-id k String.[] h = refl
trim_start-id k (String.◌∷◌ c s) h = rw (differs (code c) k h.0) refl

cons-id :
    (k : ℕ) (c : Char) (s : String)
    → (code c == k) ≡ false
    → cons_unless_last k c s ≡ String.◌∷◌ c s
cons-id k c String.[] h = rw h refl
cons-id k c (String.◌∷◌ d s) h = refl

trim_end-id : (k : ℕ) (s : String) → Lacks k s → trim_end_matches k s ≡ s
unfolding trim_end_matches
trim_end-id k String.[] h = refl
trim_end-id k (String.◌∷◌ c s) h = rw (trim_end-id k s h.1) (cons-id k c s (differs (code c) k h.0))

module _ (parse_ip : String → Option IpAddr) (show_ip : IpAddr → String)
    (lookup_host : String → Result String (List IpAddr)) (allow_private : Option String) where
  literal-lem :
      (host : String)
      → Lacks b'[' host
      → Lacks b']' host
      → is_blocked_literal_ip parse_ip host ≡ blocked_if_read (parse_ip host)
  unfolding is_blocked_literal_ip
  literal-lem host h g = rw (trim_start-id b'[' host h, trim_end-id b']' host g) refl

  -- If the host is the text of an address, that is not refused, and it resolves to addresses none of
  -- which is refused.
  pub record IsReachable (host : String) : Type 0 where
    pub literal :
        (parse_ip host ≡ none)
        ⊎ ((ip : IpAddr) × (parse_ip host ≡ some ip) × (is_private_ip ip ≡ false))
    pub addresses : List IpAddr
    pub resolves : lookup_host host ≡ ok addresses
    pub are_public : All (λ ip. is_private_ip ip ≡ false) addresses

  literal_read :
      (o : Option IpAddr)
      → blocked_if_read o ≡ false
      → (o ≡ none) ⊎ ((ip : IpAddr) × (o ≡ some ip) × (is_private_ip ip ≡ false))
  literal_read none h = inl refl
  literal_read (some ip) h = inr (ip, refl, h)

  read_literal :
      (o : Option IpAddr)
      → (o ≡ none) ⊎ ((ip : IpAddr) × (o ≡ some ip) × (is_private_ip ip ≡ false))
      → blocked_if_read o ≡ false
  read_literal o (inl e) = rw e refl
  read_literal o (inr (ip, e, h)) = rw (e, h) refl

  module _ (scheme host port path : String) where
    abbrev rest : String
    rest = host <> (":" <> (port <> ("/" <> path)))

    -- A destination with an http or https scheme, a host without slashes and brackets, a port of digits
    -- and any path passes the guard exactly when ALLOW_PRIVATE is set, or the host is neither the text
    -- of a refused address nor resolves to one, and does resolve.
    pub check_destination_blocked_iff :
        IsScheme scheme
        → str_eq host "" ≡ false
        → Lacks b'/' host
        → Lacks b'[' host
        → Lacks b']' host
        → str_eq port "" ≡ false
        → all_digits port ≡ true
        → (check_destination_blocked parse_ip show_ip allow_private lookup_host
              (scheme <> (host <> (":" <> (port <> ("/" <> path)))))
            ≡ ok tt)
          ↔ ((is_set allow_private ≡ true) ⊎ IsReachable host)
    check_destination_blocked_iff s n slash left right p d =
        let v = valid scheme rest s (append-named host _ n) in
        let own : host_from_url rest ≡ host = (host_from_url_lem host port path slash).0 p d in
        (
          λ h.
              let i =
                ok-IsPermitted parse_ip show_ip lookup_host allow_private (scheme <> rest) h in
              elim i.host [
                | inl e ↦ inl e
                | inr q ↦
                    let q' : IsPublicHost parse_ip show_ip lookup_host host =
                      subst (IsPublicHost parse_ip show_ip lookup_host)
                        (ap host_from_url (ok_injective (sym i.valid ∙ v)) ∙ own) q in
                    inr (record {
                      literal =
                          literal_read (parse_ip host)
                            (sym (literal-lem host left right) ∙ q'.no_literal);
                      addresses = q'.addresses;
                      resolves = q'.resolves;
                      are_public = q'.are_public;
                    })
              ],
          λ h. permitted-ok parse_ip show_ip lookup_host allow_private (scheme <> rest) (record {
            rest = rest;
            valid = v;
            host = elim h [
              | inl e ↦ inl e
              | inr r ↦ inr (
                  subst (IsPublicHost parse_ip show_ip lookup_host) (sym own) (record {
                    named = n;
                    no_literal =
                        literal-lem host left right ∙ read_literal (parse_ip host) r.literal;
                    addresses = r.addresses;
                    resolves = r.resolves;
                    are_public = r.are_public;
                  }))
            ];
          }),
        )

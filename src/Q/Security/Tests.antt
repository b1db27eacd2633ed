-- ===== src/Q/Security/Tests.antt =====
-- Runs of q/src/security/, and its theorems at concrete addresses, destinations and uses.
use benchmark_rust_llms.Q.Security.Auth.{HeaderMap, text, authorized, check_bearer}
use benchmark_rust_llms.Q.Security.Auth.Permits.{IsPermitted, authorized_iff}
use benchmark_rust_llms.Prelude.{
  ◌↔◌, if◌then◌else◌, str_eq, strip_prefix, ℕ, none, some, List, [], ◌∷◌, true, false, ◌≡◌, ◌↔◌,
  refl, arith, ok, Result, String, All,
}
use benchmark_rust_llms.Net.{IpAddr, v4, v6}
use benchmark_rust_llms.Q.Security.Ssrf.{Url, default, validate, is_blocked_ip, host_or_empty}
use benchmark_rust_llms.Q.Security.Ssrf.Blocks.{is_listed, is_blocked_ip-is_listed}
use benchmark_rust_llms.Q.Security.Ssrf.Policy.{IsAllowed, validate_iff}
use benchmark_rust_llms.Q.Security.Ratelimit.{check, new, prune}
use benchmark_rust_llms.Q.Security.Ratelimit.Window.{Event, checks, prunes}
use benchmark_rust_llms.Q.Security.Ratelimit.Exact.{run}

-- ::ffff:10.0.0.1
abbrev embedded : IpAddr
embedded = v6 0 0 0 0 0 65535 2560 1

embedded_blocked : is_blocked_ip embedded ≡ true
unfolding is_blocked_ip
embedded_blocked = refl

is_blocked_ip-is_listed_example : is_blocked_ip embedded ≡ is_listed embedded
is_blocked_ip-is_listed_example = is_blocked_ip-is_listed embedded (
  omega arith,
  omega arith,
  omega arith,
  omega arith,
  omega arith,
  omega arith,
  omega arith,
  omega arith,
)

abbrev hook : Url
hook = record {
  scheme = "https";
  username = "";
  password = none;
  host_str = some "example.com";
  port = some 443;
}

abbrev answer : String → Result String (List IpAddr)
answer host = ok (v4 93 184 216 34 ∷ [])

hook_passes : validate default hook answer ≡ ok (v4 93 184 216 34 ∷ [])
unfolding validate
hook_passes = refl

validate_iff_example : (validate default hook answer ≡ ok (v4 93 184 216 34 ∷ [])) ↔ (
    IsAllowed default hook
    × (answer (host_or_empty hook.host_str) ≡ ok (v4 93 184 216 34 ∷ []))
    × (default.allow_private ≡ false
        → All (λ ip. is_blocked_ip ip ≡ false) (v4 93 184 216 34 ∷ [])))
validate_iff_example = validate_iff answer default hook (v4 93 184 216 34 ∷ [])

abbrev uses : List Event
uses =
    checks 10 "a" ∷ checks 20 "b" ∷ checks 30 "a" ∷ checks 40 "a" ∷ prunes 50 ∷ checks 115 "a" ∷ []

admissions : (run "a" uses (new 2 100, [])).1 ≡ 10 ∷ 30 ∷ 115 ∷ []
unfolding run check prune
admissions = refl

abbrev with_key : HeaderMap
with_key name = if str_eq name "Authorization" then some (text "bearer key-2") else none

with_key_passes : check_bearer with_key ("key-1" ∷ "key-2" ∷ []) ≡ true
unfolding check_bearer strip_prefix
with_key_passes = refl

abbrev long_mac : List ℕ → List ℕ → List ℕ
long_mac key message =
    1 ∷ 2 ∷ 3 ∷ 4 ∷ 5 ∷ 6 ∷ 7 ∷ 8 ∷ 9 ∷ 10 ∷ 11 ∷ 12 ∷ 13 ∷ 14 ∷ 15 ∷ 16 ∷ 1 ∷ 2 ∷ 3 ∷ 4 ∷ 5 ∷ 6 ∷ 7
    ∷ 8 ∷ 9 ∷ 10 ∷ 11 ∷ 12 ∷ 13 ∷ 14 ∷ 15 ∷ 16 ∷ []

authorized_iff_example :
    (authorized long_mac with_key [] (some "secret") ("key-2" ∷ []) ≡ true)
    ↔ IsPermitted long_mac with_key [] (some "secret") ("key-2" ∷ [])
authorized_iff_example =
    authorized_iff long_mac (λ key message. refl) with_key [] (some "secret") ("key-2" ∷ [])

-- ===== src/K/Routes/Tests.antt =====
-- Runs of the handlers and the guard of k/webhook-delivery/src/, and their theorems at instances.
use benchmark_rust_llms.Prelude.{
  ℕ, String, none, some, List, [], ◌∷◌, ◌≡◌, ◌↔◌, ◌⊎◌, refl, arith, pos, true, false, ok, err,
  Result,
}
use benchmark_rust_llms.Net.{IpAddr, v4, v6}
use benchmark_rust_llms.Net.Url.{Url, domain, ipv4}
use benchmark_rust_llms.Q.Samples.{stroke_text, strokes}
use benchmark_rust_llms.K.Samples.{clock_text, number_text, stored, config}
use benchmark_rust_llms.K.Security.{ip_is_blocked, validate_destination, private_address_blocked}
use benchmark_rust_llms.K.Security.Blocks.{is_listed, ip_is_blocked-is_listed}
use benchmark_rust_llms.K.Security.Policy.{IsDeliverable, validate_destination_iff}
use benchmark_rust_llms.K.Routes.{ApiError, Outside, post_webhook}
use benchmark_rust_llms.K.Routes.Accepts.{IsAcceptable, accepted_row, post_webhook_lem}

-- ::ffff:192.168.0.1
abbrev embedded : IpAddr
embedded = v6 0 0 0 0 0 65535 49320 1

embedded_blocked : ip_is_blocked embedded ≡ true
unfolding ip_is_blocked
embedded_blocked = refl

ip_is_blocked-is_listed_example : ip_is_blocked embedded ≡ is_listed embedded
ip_is_blocked-is_listed_example = ip_is_blocked-is_listed embedded (
  omega arith,
  omega arith,
  omega arith,
  omega arith,
  omega arith,
  omega arith,
  omega arith,
  omega arith,
)

abbrev hook : Url
hook = record {
  scheme = "https";
  username = "";
  password = none;
  host = some (domain "example.com");
  port = none;
}

abbrev local : Url
local = record hook { host = some (ipv4 127 0 0 1) }

abbrev parse_any : String → Result String Url
parse_any s = ok hook

abbrev parse_local : String → Result String Url
parse_local s = ok local

abbrev resolve : String → ℕ → Result String (List IpAddr)
resolve name port = ok (v4 93 184 216 34 ∷ [])

hook_passes : validate_destination parse_any resolve "https://example.com/" false ≡ ok hook
unfolding validate_destination
hook_passes = refl

local_refused :
    validate_destination parse_local resolve "https://127.0.0.1/" false
    ≡ err (private_address_blocked (v4 127 0 0 1))
unfolding validate_destination
local_refused = refl

validate_destination_iff_example :
    (validate_destination parse_any resolve "https://example.com/" false ≡ ok hook)
    ↔ ((parse_any "https://example.com/" ≡ ok hook) × IsDeliverable parse_any resolve false hook)
validate_destination_iff_example =
    validate_destination_iff parse_any resolve "https://example.com/" false hook

abbrev outside : Outside ℕ
outside = record {
  uuid = stroke_text;
  time = clock_text;
  json = number_text;
  parse_url = parse_any;
  lookup_host = resolve;
  from_slice = λ b. ok (record { content = 4; destination = "https://example.com/" });
  show_ip = λ ip. "";
}

post_webhook_lem_example :
    ((a : IsAcceptable outside none 9 config (52 ∷ []) stored) × (post_webhook outside none
          (pos 7)
          9
          config
          (52 ∷ [])
          stored
        ≡ (accepted_row outside none (pos 7) 9 config (52 ∷ []) stored a, ok (record { id = 9 }))))
    ⊎ ((e : ApiError) × (¬ IsAcceptable outside none 9 config (52 ∷ []) stored)
        × (post_webhook outside none (pos 7) 9 config (52 ∷ []) stored ≡ (stored, err e)))
post_webhook_lem_example = post_webhook_lem outside none (pos 7) 9 config (52 ∷ []) stored

stored_and_answered :
    (post_webhook outside none (pos 7) 9 config (52 ∷ []) stored).1 ≡ ok (record { id = 9 })
unfolding strokes post_webhook validate_destination
stored_and_answered = refl

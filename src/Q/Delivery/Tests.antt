-- ===== src/Q/Delivery/Tests.antt =====
-- Runs of q/src/delivery/, and its theorems at a concrete delivery.
use benchmark_rust_llms.Prelude.{
  ℕ, ◌*◌, ◌^◌, ◌≤◌, ◌<◌, min, String, none, some, [], ◌∷◌, false, ◌≡◌, refl, arith, ok, err, pos,
  select_first, decimal, Option, true, ◌-◌,
}
use benchmark_rust_llms.Q.Samples.{strokes, row_of, stroke_text, queued, queued-IsWellFormed}
use benchmark_rust_llms.Q.Model.{Delivery, pending}
use benchmark_rust_llms.Q.Db.Rows.{DeliveryRow, has_id}
use benchmark_rust_llms.Q.Db.Durable.{core}
use benchmark_rust_llms.Q.Metrics.{new}
use benchmark_rust_llms.Q.Config.{Config}
use benchmark_rust_llms.Net.{v4}
use benchmark_rust_llms.Q.Security.Ssrf.{Url, default, validate, lookup}
use benchmark_rust_llms.Q.Delivery.Backoff.{next_delay_ms, next_delay_ms-range}
use benchmark_rust_llms.Q.Delivery.Classify.{classify, retryable}
use benchmark_rust_llms.Q.Security.Auth.{authorized}
use benchmark_rust_llms.Q.Delivery.Worker.Signed.{received, request-authorized}
use benchmark_rust_llms.Q.Delivery.Worker.{request, Outside, Turn, State, send, process}
use benchmark_rust_llms.Q.Delivery.Worker.Fates.{Settles, later, process-Settles}
use benchmark_rust_llms.Q.Delivery.Worker.Exhausted.{
  Fails, KeepsFailing, take_ups, take_ups-exhausted,
}

next_delay_ms-range_example :
    ((n : ℕ) → n < 2 ^ 64 → next_delay_ms 3 5000 60000 n ≤ min (5000 * 2 ^ min (3 - 1) 20) 60000)
    × ((d : ℕ) → d ≤ min (5000 * 2 ^ min (3 - 1) 20) 60000 → next_delay_ms 3 5000 60000 d ≡ d)
next_delay_ms-range_example = next_delay_ms-range 3 5000 60000 (omega arith) (omega arith)

too_many_requests : classify 429 none ≡ retryable "HTTP 429"
unfolding classify decimal
too_many_requests = refl

abbrev silent : Option String
silent = none

abbrev unavailable : ℕ
unavailable = 503

abbrev hook : Url
hook = record {
  scheme = "http";
  username = "";
  password = none;
  host_str = some "example.com";
  port = none;
}

abbrev outside : Outside
outside = record {
  uuid = stroke_text;
  parse_url = λ s. some hook;
  show_ip = λ ip. "ip";
  hmac_sha256 = λ key message. message;
}

abbrev config : Config
config = record {
  listen_addr = "127.0.0.1:8080";
  api_keys = "k" ∷ [];
  admin_key = "a";
  hmac_secret = some "s";
  database_path = "db";
  worker_count = 1;
  poll_interval_ms = 500;
  max_attempts = 8;
  base_retry_delay_ms = 5000;
  max_retry_delay_ms = 3600000;
  request_timeout_ms = 10000;
  max_payload_bytes = 1048576;
  allow_private_destinations = false;
  rate_limit_per_min = 120;
  stale_in_flight_ms = 300000;
}

abbrev refused : Turn
refused = record {
  to_socket_addrs = λ host. ok (v4 93 184 216 34 ∷ []);
  claim_io = none;
  claim_now = pos 30;
  sent_at = 31000;
  respond = λ request. err "connection refused";
  write_io = none;
  write_io' = none;
  write_now = pos 32;
  entry_id = 9;
  retry_now = pos 33;
  next_u64 = 7;
}

abbrev first : Delivery
first = record {
  id = 1;
  idempotency_key = none;
  destination = "http://example.com/hook";
  payload = 123 ∷ 125 ∷ [];
  status = pending;
  attempts = 0;
  max_attempts = 8;
  next_retry_at = pos 20;
  last_error = none;
  created_at = pos 5;
  updated_at = pos 20;
}

abbrev idle : State
idle = record { db = queued; metrics = new }

sent : send outside config default refused first 1 ≡ retryable "connection refused"
unfolding send
sent = refl

process-Settles_example :
    (r' : DeliveryRow) × (select_first
        (has_id (strokes 1))
        (process outside config default refused first idle).db.deliveries
      ≡ some r')
    × (core r' ≡ core (row_of 1 "pending" 0 8 20))
    × Settles first
        (later outside config default refused first)
        (send outside config default refused first 1)
        0
        r'
unfolding strokes validate lookup
process-Settles_example =
    process-Settles outside config default refused first idle (row_of 1 "pending" 0 8 20) hook
      (v4 93 184 216 34 ∷ []) queued-IsWellFormed
      (record { claim = refl; write = refl; write' = refl; fresh = refl }) refl refl (omega arith)
      refl refl

request-authorized_example :
    authorized outside.hmac_sha256
      (received (request outside config default 5000 first 1).headers)
      (request outside config default 5000 first 1).body
      (some "s")
      []
    ≡ true
request-authorized_example =
    request-authorized outside config default 5000 1 first "s" [] refl
      (omega arith, (omega arith, tt))

refused-Fails : (d : Delivery) → Fails outside config default 2 refused d
unfolding send validate lookup
refused-Fails d = record {
  url = hook;
  ips = v4 93 184 216 34 ∷ [];
  parsed = refl;
  passed = refl;
  error = "connection refused";
  failed = refl;
}

keeps_failing : KeepsFailing outside config default 2 (refused ∷ []) idle
unfolding KeepsFailing
keeps_failing = (
  record { claim = refl; write = refl; write' = refl; fresh = refl },
  (λ d e. refused-Fails d),
  tt,
)

found_second :
    select_first (has_id (strokes 2)) queued.deliveries ≡ some (row_of 2 "pending" 1 2 10)
unfolding strokes
found_second = refl

take_ups-exhausted_example :
    (r' : DeliveryRow) × (select_first
        (has_id (strokes 2))
        (take_ups outside config default 2 (refused ∷ []) idle).db.deliveries
      ≡ some r')
    × (r'.status ≡ "dead_letter")
    × (core r' ≡ core (row_of 2 "pending" 1 2 10))
take_ups-exhausted_example =
    take_ups-exhausted outside config default 2 (refused ∷ []) idle (row_of 2 "pending" 1 2 10)
      queued-IsWellFormed found_second refl (omega arith) (omega arith) (omega arith) keeps_failing

-- ===== src/Q/Config/Tests.antt =====
-- An environment that q/src/config.rs accepts, and what it makes of it.
use benchmark_rust_llms.Prelude.{
  String, Option, none, some, [], ◌∷◌, false, ◌≡◌, refl, str_eq, if◌then◌else◌, Result, ok,
}
use benchmark_rust_llms.Q.Config.{Config, from_env}
use benchmark_rust_llms.Q.Config.Bounds.{IsSound, from_env-IsSound}

abbrev environment : String → Option String
environment name =
    if str_eq name "WEBHOOK_API_KEYS"
    then some "key-1, key-2,"
    else if str_eq name "WEBHOOK_ADMIN_KEY"
    then some "admin"
    else if str_eq name "MAX_ATTEMPTS"
    then some " 4294967296 "
    else none

abbrev lower : String → String
lower word = word

abbrev int_error : String → String
int_error word = "invalid digit found in string"

abbrev parse_addr : String → Result String String
parse_addr raw = ok raw

-- 2^32 attempts pass the test for 0 and are then cut to 0.
abbrev read : Config
read = record {
  listen_addr = "127.0.0.1:8080";
  api_keys = "key-1" ∷ "key-2" ∷ [];
  admin_key = "admin";
  hmac_secret = none;
  database_path = "./data/webhook.db";
  worker_count = 4;
  poll_interval_ms = 500;
  max_attempts = 0;
  base_retry_delay_ms = 5000;
  max_retry_delay_ms = 3600000;
  request_timeout_ms = 10000;
  max_payload_bytes = 1048576;
  allow_private_destinations = false;
  rate_limit_per_min = 120;
  stale_in_flight_ms = 300000;
}

accepted : from_env environment lower int_error parse_addr ≡ ok read
unfolding from_env
accepted = refl

from_env-IsSound_example : IsSound read
from_env-IsSound_example = from_env-IsSound environment lower int_error parse_addr read accepted

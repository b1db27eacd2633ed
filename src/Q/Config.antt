-- ===== src/Q/Config.antt =====
-- q/src/config.rs: the configuration, and its reading from the environment.
pub mod Bounds
mod Tests
use benchmark_rust_llms.Prelude.{
  ℕ, ◌+◌, ◌-◌, ◌*◌, ◌%◌, ◌^◌, String, ◌<>◌, code, List, [], ◌∷◌, Option, none, some, Bool, true,
  false, ◌&&◌, ltb, leb, ◌==◌, if◌then◌else◌, str_eq, Result, ok, err, ◌>>=◌, map_err, trim, split,
  read_u64,
}

pub record Config : Type 0 where
  pub listen_addr : String
  pub api_keys : List String
  pub admin_key : String
  pub hmac_secret : Option String
  pub database_path : String
  pub worker_count : ℕ
  pub poll_interval_ms : ℕ
  pub max_attempts : ℕ
  pub base_retry_delay_ms : ℕ
  pub max_retry_delay_ms : ℕ
  pub request_timeout_ms : ℕ
  pub max_payload_bytes : ℕ
  pub allow_private_destinations : Bool
  pub rate_limit_per_min : ℕ
  pub stale_in_flight_ms : ℕ

pub data ConfigError : Type 0 where
  missing : String → ConfigError
  blank : String → ConfigError
  invalid : String → String → String → ConfigError

abbrev pub or_text : String → Option String → String
or_text d none = d
or_text d (some v) = v

abbrev pub non_empty_value : Option String → Option String
non_empty_value none = none
non_empty_value (some v) = if str_eq v "" then none else some v

abbrev pub is_blank : String → Bool
unfolding trim
is_blank v = str_eq (trim v) ""

-- `x as u32`
abbrev pub as_u32 : ℕ → ℕ
as_u32 n = n % 2 ^ 32

-- The non-empty parts of a comma-separated text, trimmed.
unfoldable pub key_parts : List String → List String
unfolding trim
key_parts [] = []
key_parts (s ∷ ss) = if str_eq (trim s) "" then key_parts ss else trim s ∷ key_parts ss

-- The texts of the standard library's parse errors, its lower case and its reading of a socket
-- address are parameters; the environment is a function of the variable's name.
module _ (env : String → Option String) (to_lowercase : String → String)
    (int_error : String → String) (parse_socket_addr : String → Result String String) where
  unfoldable pub required_value : String → Option String → Result ConfigError String
  unfolding is_blank
  required_value var none = err (missing var)
  required_value var (some v) = if is_blank v then err (blank var) else ok v

  unfoldable pub required : String → Result ConfigError String
  unfolding required_value
  required var = required_value var (env var)

  unfoldable pub optional : String → Option String
  optional var = non_empty_value (env var)

  unfoldable pub parse_listen_addr : String → Result ConfigError String
  parse_listen_addr var =
      let raw = or_text "127.0.0.1:8080" (env var) in
      map_err (λ e. invalid var raw ("not a valid socket address (" <> (e <> ")")))
        (parse_socket_addr raw)

  unfoldable pub keys_or_blank : String → List String → Result ConfigError (List String)
  keys_or_blank var [] = err (blank var)
  keys_or_blank var (k ∷ ks) = ok (k ∷ ks)

  unfoldable pub keys_of : String → Option String → Result ConfigError (List String)
  unfolding keys_or_blank key_parts split
  keys_of var none = err (missing var)
  keys_of var (some raw) = keys_or_blank var (key_parts (split b',' raw))

  unfoldable pub parse_api_keys : String → Result ConfigError (List String)
  unfolding keys_of
  parse_api_keys var = keys_of var (env var)

  unfoldable pub positive : String → String → Option ℕ → Result ConfigError ℕ
  positive var v none =
      err (invalid var v ("not a valid unsigned integer (" <> (int_error (trim v) <> ")")))
  positive var v (some n) = if n == 0 then err (invalid var v "must be greater than 0") else ok n

  unfoldable pub number_of : String → ℕ → Option String → Result ConfigError ℕ
  unfolding positive read_u64 is_blank
  number_of var n none = ok n
  number_of var n (some v) = if is_blank v then ok n else positive var v (read_u64 (trim v))

  unfoldable pub parse_u64 : String → ℕ → Result ConfigError ℕ
  unfolding number_of
  parse_u64 var n = number_of var n (env var)

  unfoldable pub bool_of : String → Bool → Option String → Result ConfigError Bool
  unfolding is_blank
  bool_of var b none = ok b
  bool_of var b (some v) =
      let word = to_lowercase (trim v) in
      if is_blank v
      then ok b
      else if str_eq word "true"
      then ok true
      else if str_eq word "false"
      then ok false
      else err (invalid var v ("expected 'true' or 'false', got '" <> (word <> "'")))

  unfoldable pub parse_bool : String → Bool → Result ConfigError Bool
  unfolding bool_of
  parse_bool var b = bool_of var b (env var)

  unfoldable pub from_env : Result ConfigError Config
  unfolding parse_listen_addr parse_api_keys required optional parse_u64 parse_bool
  from_env = do
    listen_addr ← parse_listen_addr "LISTEN_ADDR"
    api_keys ← parse_api_keys "WEBHOOK_API_KEYS"
    admin_key ← required "WEBHOOK_ADMIN_KEY"
    worker_count ← parse_u64 "WORKER_COUNT" 4
    poll_interval_ms ← parse_u64 "POLL_INTERVAL_MS" 500
    max_attempts ← parse_u64 "MAX_ATTEMPTS" 8
    base_retry_delay_ms ← parse_u64 "BASE_RETRY_DELAY_MS" 5000
    max_retry_delay_ms ← parse_u64 "MAX_RETRY_DELAY_MS" 3600000
    request_timeout_ms ← parse_u64 "REQUEST_TIMEOUT_MS" 10000
    max_payload_bytes ← parse_u64 "MAX_PAYLOAD_BYTES" 1048576
    allow_private_destinations ← parse_bool "ALLOW_PRIVATE_DESTINATIONS" false
    rate_limit_per_min ← parse_u64 "RATE_LIMIT_PER_MIN" 120
    stale_in_flight_ms ← parse_u64 "STALE_IN_FLIGHT_MS" 300000
    ok (record {
      listen_addr = listen_addr;
      api_keys = api_keys;
      admin_key = admin_key;
      hmac_secret = optional "HMAC_SECRET";
      database_path = or_text "./data/webhook.db" (env "DATABASE_PATH");
      worker_count = worker_count;
      poll_interval_ms = poll_interval_ms;
      max_attempts = as_u32 max_attempts;
      base_retry_delay_ms = base_retry_delay_ms;
      max_retry_delay_ms = max_retry_delay_ms;
      request_timeout_ms = request_timeout_ms;
      max_payload_bytes = max_payload_bytes;
      allow_private_destinations = allow_private_destinations;
      rate_limit_per_min = as_u32 rate_limit_per_min;
      stale_in_flight_ms = stale_in_flight_ms;
    })

-- ===== src/K/Config.antt =====
-- k/webhook-delivery/src/config.rs: the configuration, and its reading from the environment.
use benchmark_rust_llms.Prelude.{
  read_i64, ℕ, String, ◌<>◌, Option, none, some, Bool, false, ◌||◌, str_eq, ℤ, pos, Result, ok,
  ◌>>=◌, ok_or, read_u64,
}

pub record Config : Type 0 where
  pub database_url : String
  pub bind_addr : String
  pub max_attempts : ℤ
  pub base_delay_ms : ℕ
  pub max_delay_ms : ℕ
  pub request_timeout_secs : ℕ
  pub max_payload_bytes : ℕ
  pub hmac_secret : String
  pub allow_private_destinations : Bool
  pub worker_poll_ms : ℕ
  pub worker_concurrency : ℕ

abbrev pub default_hmac_secret : String
default_hmac_secret = "dev-insecure-secret"

abbrev pub text_or : String → Option String → String
text_or d none = d
text_or d (some v) = v

abbrev pub flag_or : Bool → Option String → Bool
flag_or d none = d
flag_or d (some raw) = str_eq raw "true" || str_eq raw "1"

-- The environment is a function of the variable's name; usize has 64 bits. `int_error` is the text of
-- the standard library's parse error.
module _ (env : String → Option String) (int_error : String → String) where
  unfoldable pub env_or : String → String → String
  env_or key d = text_or d (env key)

  abbrev pub parsed {ℓ} :
      {A : Type ℓ} → (String → Option A) → String → A → Option String → Result String A
  parsed read key d none = ok d
  parsed read key d (some raw) =
      ok_or (read raw) ("invalid value for " <> (key <> (": " <> int_error raw)))

  unfoldable pub env_parse {ℓ} : {A : Type ℓ} → (String → Option A) → String → A → Result String A
  env_parse read key d = parsed read key d (env key)

  unfoldable pub env_bool : String → Bool → Bool
  env_bool key d = flag_or d (env key)

  unfoldable pub from_env : Result String Config
  unfolding env_or env_parse env_bool
  from_env = do
    max_attempts ← env_parse read_i64 "MAX_ATTEMPTS" (pos 8)
    base_delay_ms ← env_parse read_u64 "BASE_DELAY_MS" 1000
    max_delay_ms ← env_parse read_u64 "MAX_DELAY_MS" 300000
    request_timeout_secs ← env_parse read_u64 "REQUEST_TIMEOUT_SECS" 10
    max_payload_bytes ← env_parse read_u64 "MAX_PAYLOAD_BYTES" 262144
    worker_poll_ms ← env_parse read_u64 "WORKER_POLL_MS" 500
    worker_concurrency ← env_parse read_u64 "WORKER_CONCURRENCY" 4
    ok (record {
      database_url = env_or "DATABASE_URL" "sqlite://webhook.db?mode=rwc";
      bind_addr = env_or "BIND_ADDR" "0.0.0.0:3000";
      max_attempts = max_attempts;
      base_delay_ms = base_delay_ms;
      max_delay_ms = max_delay_ms;
      request_timeout_secs = request_timeout_secs;
      max_payload_bytes = max_payload_bytes;
      hmac_secret = env_or "HMAC_SECRET" default_hmac_secret;
      allow_private_destinations = env_bool "ALLOW_PRIVATE_DESTINATIONS" false;
      worker_poll_ms = worker_poll_ms;
      worker_concurrency = worker_concurrency;
    })

-- ===== src/G/Config.antt =====
-- g/src/config.rs: the configuration, its defaults, and its reading from the environment.
use benchmark_rust_llms.Prelude.{
  ℕ, String, Option, none, some, Bool, false, ◌||◌, str_eq, ℤ, pos, if◌then◌else◌, read_u64,
  read_i64, read_u32,
}

pub record Config : Type 0 where
  pub database_url : String
  pub bind_addr : String
  pub signing_secret : String
  pub api_token : Option String
  pub max_payload_bytes : ℕ
  pub max_attempts : ℤ
  pub retry_base_ms : ℤ
  pub retry_max_ms : ℤ
  pub poll_interval_ms : ℕ
  pub batch_size : ℤ
  pub visibility_timeout_secs : ℤ
  pub delivery_timeout_secs : ℕ
  pub max_concurrent_deliveries : ℕ
  pub db_max_connections : ℕ
  pub allow_private_destinations : Bool

-- `Config::default`; a socket address is its text.
unfoldable pub default : Config
default = record {
  database_url = "sqlite://webhooks.db?mode=rwc";
  bind_addr = "0.0.0.0:8080";
  signing_secret = "";
  api_token = none;
  max_payload_bytes = 262144;
  max_attempts = pos 10;
  retry_base_ms = pos 1000;
  retry_max_ms = pos 300000;
  poll_interval_ms = 200;
  batch_size = pos 50;
  visibility_timeout_secs = pos 60;
  delivery_timeout_secs = 10;
  max_concurrent_deliveries = 64;
  db_max_connections = 8;
  allow_private_destinations = false;
}

abbrev pub value_or {ℓ} : {A : Type ℓ} → A → Option A → A
value_or d none = d
value_or d (some a) = a

abbrev pub parsed_or {ℓ} : {A : Type ℓ} → (String → Option A) → A → Option String → A
parsed_or read d none = d
parsed_or read d (some v) = value_or d (read v)

abbrev pub word_or : (String → String) → Bool → Option String → Bool
word_or lower d none = d
word_or lower d (some v) =
    str_eq (lower v) "1"
    || (str_eq (lower v) "true" || (str_eq (lower v) "yes" || str_eq (lower v) "on"))

abbrev pub non_empty : Option String → Option String
non_empty none = none
non_empty (some s) = if str_eq s "" then none else some s

-- The environment is a function of the variable's name; the reading of a socket address and
-- `to_ascii_lowercase` are parameters, and usize has 64 bits.
module _ (env : String → Option String) (parse_socket_addr : String → Option String)
    (to_ascii_lowercase : String → String) where
  unfoldable pub env_str : String → String → String
  env_str key d = value_or d (env key)

  unfoldable pub env_parse {ℓ} : {A : Type ℓ} → (String → Option A) → String → A → A
  env_parse read key d = parsed_or read d (env key)

  unfoldable pub env_bool : String → Bool → Bool
  env_bool key d = word_or to_ascii_lowercase d (env key)

  -- `ephemeral` is the hex text of the random bytes.
  unfoldable pub from_env : String → Config
  unfolding env_str env_parse env_bool default
  from_env ephemeral = record {
    database_url = env_str "DATABASE_URL" default.database_url;
    bind_addr = env_parse parse_socket_addr "BIND_ADDR" default.bind_addr;
    signing_secret = env_str "WEBHOOK_SIGNING_SECRET" ephemeral;
    api_token = non_empty (env "API_TOKEN");
    max_payload_bytes = env_parse read_u64 "MAX_PAYLOAD_BYTES" default.max_payload_bytes;
    max_attempts = env_parse read_i64 "MAX_ATTEMPTS" default.max_attempts;
    retry_base_ms = env_parse read_i64 "RETRY_BASE_MS" default.retry_base_ms;
    retry_max_ms = env_parse read_i64 "RETRY_MAX_MS" default.retry_max_ms;
    poll_interval_ms = env_parse read_u64 "POLL_INTERVAL_MS" default.poll_interval_ms;
    batch_size = env_parse read_i64 "BATCH_SIZE" default.batch_size;
    visibility_timeout_secs =
        env_parse read_i64 "VISIBILITY_TIMEOUT_SECS" default.visibility_timeout_secs;
    delivery_timeout_secs =
        env_parse read_u64 "DELIVERY_TIMEOUT_SECS" default.delivery_timeout_secs;
    max_concurrent_deliveries =
        env_parse read_u64 "MAX_CONCURRENT_DELIVERIES" default.max_concurrent_deliveries;
    db_max_connections = env_parse read_u32 "DB_MAX_CONNECTIONS" default.db_max_connections;
    allow_private_destinations = env_bool "ALLOW_PRIVATE_DESTINATIONS" false;
  }

-- ===== src/D/Config.antt =====
-- d/src/config.rs: the configuration, and its reading from the environment. A Duration is its count
-- of milliseconds, which all durations here are multiples of.
use benchmark_rust_llms.Prelude.{
  read_u32, ℕ, ◌*◌, String, Option, none, some, Bool, false, ◌||◌, str_eq, read_u64,
}

pub record Config : Type 0 where
  pub bind_addr : String
  pub api_key : String
  pub db_path : String
  pub max_attempts : ℕ
  pub retry_base : ℕ
  pub retry_max : ℕ
  pub poll_interval : ℕ
  pub allow_private : Bool

abbrev pub text_or : String → Option String → String
text_or d none = d
text_or d (some v) = v

abbrev pub number_or : ℕ → Option ℕ → ℕ
number_or d none = d
number_or d (some n) = n

-- `.ok().and_then(|v| v.parse().ok()).unwrap_or(d)`
abbrev pub parsed_or : (String → Option ℕ) → ℕ → Option String → ℕ
parsed_or read d none = d
parsed_or read d (some v) = number_or d (read v)

-- `.map(|v| v == "true" || v == "1").unwrap_or(false)`
abbrev pub is_set : Option String → Bool
is_set none = false
is_set (some v) = str_eq v "true" || str_eq v "1"

abbrev pub with_addr : Option String → (String → Config) → Option Config
with_addr none f = none
with_addr (some a) f = some (f a)

-- The environment is a function of the variable's name; the reading of a socket address is a
-- parameter, and `none` is the panic of `expect`.
unfoldable pub from_env : (String → Option String) → (String → Option String) → Option Config
unfolding read_u32
from_env env parse_socket_addr =
    with_addr (parse_socket_addr (text_or "0.0.0.0:8080" (env "BIND_ADDR"))) λ bind_addr. record {
      bind_addr = bind_addr;
      api_key = text_or "dev-secret" (env "API_KEY");
      db_path = text_or "webhook.db" (env "DB_PATH");
      max_attempts = parsed_or read_u32 5 (env "MAX_ATTEMPTS");
      retry_base = parsed_or read_u64 1 (env "RETRY_BASE_SECS") * 1000;
      retry_max = parsed_or read_u64 300 (env "RETRY_MAX_SECS") * 1000;
      poll_interval = parsed_or read_u64 500 (env "POLL_INTERVAL_MS");
      allow_private = is_set (env "ALLOW_PRIVATE");
    }

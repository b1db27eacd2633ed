-- ===== src/Q/Config/Bounds.antt =====
-- What q/src/config.rs guarantees of a configuration that it accepts.
use benchmark_rust_llms.Prelude.{
  through, split, subst, ℕ, ◌^◌, ◌<◌, String, Option, none, some, List, [], ◌∷◌, false, ◌≡◌, ◌≢◌,
  refl, inl, inr, arith, str_eq, eq_iff, All, Result, ok, Bool-cases, trim, split, subst, read_u64,
  read_u64-lt,
}
use benchmark_rust_llms.Q.Config.{
  parse_api_keys, parse_listen_addr, parse_bool, required, from_env, keys_of, Config, ConfigError,
  key_parts, required, required_value, keys_or_blank, keys_of, parse_api_keys, positive, number_of,
  parse_u64, from_env, is_blank, parse_listen_addr, parse_bool,
}

key_parts-All : (ss : List String) → All (λ k. k ≢ "") (key_parts ss)
unfolding key_parts
key_parts-All [] = tt
key_parts-All (s ∷ ss) = elim (Bool-cases (str_eq (trim s) "")) [
  | inl t ↦ rw t (key_parts-All ss)
  | inr t ↦ rw t ((λ h. ground (arith, eq_iff (trim s) "")), key_parts-All ss)
]

ok-injective : {a b : Config} → ◌≡◌ {A = Result ConfigError Config} (ok a) (ok b) → a ≡ b
ok-injective h = cc

-- A u64 setting is positive.
abbrev pub IsSetting : ℕ → Type 0
IsSetting n = (0 < n) × (n < 2 ^ 64)

-- What holds of an accepted configuration.
pub record IsSound (cfg : Config) : Type 0 where
  pub some_key : cfg.api_keys ≢ []
  pub keys : All (λ k. k ≢ "") cfg.api_keys
  pub admin_key : is_blank cfg.admin_key ≡ false
  pub worker_count : IsSetting cfg.worker_count
  pub poll_interval_ms : IsSetting cfg.poll_interval_ms
  pub max_attempts : cfg.max_attempts < 2 ^ 32
  pub base_retry_delay_ms : IsSetting cfg.base_retry_delay_ms
  pub max_retry_delay_ms : IsSetting cfg.max_retry_delay_ms
  pub request_timeout_ms : IsSetting cfg.request_timeout_ms
  pub max_payload_bytes : IsSetting cfg.max_payload_bytes
  pub rate_limit_per_min : cfg.rate_limit_per_min < 2 ^ 32
  pub stale_in_flight_ms : IsSetting cfg.stale_in_flight_ms

module _ (env : String → Option String) (to_lowercase : String → String)
    (int_error : String → String) (parse_socket_addr : String → Result String String) where
  positive-IsSetting :
      (var v : String) (o : Option ℕ) {m : ℕ}
      → ((k : ℕ) → o ≡ some k → k < 2 ^ 64)
      → positive env to_lowercase int_error parse_socket_addr var v o ≡ ok m
      → IsSetting m
  unfolding positive
  positive-IsSetting var v none h e = cc
  positive-IsSetting var v (some n) {m} h e = let small = h n refl in ground (arith, small)

  number-IsSetting :
      (var : String) (n : ℕ) (o : Option String) {m : ℕ}
      → IsSetting n
      → number_of env to_lowercase int_error parse_socket_addr var n o ≡ ok m
      → IsSetting m
  unfolding number_of
  number-IsSetting var n none {m} h e = ground arith
  number-IsSetting var n (some v) {m} h e = elim (Bool-cases (is_blank v)) [
    | inl t ↦ let e' = rw t at e in ground arith
    | inr t ↦
        positive-IsSetting var v (read_u64 (trim v)) (λ k. read_u64-lt (trim v) {m = k}) (rw t at e)
  ]

  setting :
      (var : String) (n : ℕ) {m : ℕ}
      → IsSetting n
      → parse_u64 env to_lowercase int_error parse_socket_addr var n ≡ ok m
      → IsSetting m
  unfolding parse_u64
  setting var n h e = number-IsSetting var n (env var) h e

  keys-lem :
      (var : String) (ks : List String) {ks' : List String}
      → keys_or_blank env to_lowercase int_error parse_socket_addr var ks ≡ ok ks'
      → (ks' ≢ []) × (ks ≡ ks')
  unfolding keys_or_blank
  keys-lem var [] e = cc
  keys-lem var (k ∷ ks) {ks'} e = (λ z. cc, cc)

  admin-lem :
      (var : String) (o : Option String) {k : String}
      → required_value env to_lowercase int_error parse_socket_addr var o ≡ ok k
      → is_blank k ≡ false
  unfolding required_value
  admin-lem var none e = cc
  admin-lem var (some v) {k} e = elim (Bool-cases (is_blank v)) [
    | inl t ↦ absurd (let e' = rw t at e in cc)
    | inr t ↦ let e' = rw t at e in let same : v ≡ k = cc in subst (λ z. is_blank z ≡ false) same t
  ]

  keys-IsSound :
      (var : String) (o : Option String) {ks : List String}
      → keys_of env to_lowercase int_error parse_socket_addr var o ≡ ok ks
      → (ks ≢ []) × All (λ k. k ≢ "") ks
  unfolding keys_of
  keys-IsSound var none e = cc
  keys-IsSound var (some raw) {ks} e =
      let (some_key, same) = keys-lem var (key_parts (split b',' raw)) e in
      (some_key, subst (All (λ k. k ≢ "")) same (key_parts-All (split b',' raw)))

  abbrev u64_of : String → ℕ → Result ConfigError ℕ
  u64_of var n = parse_u64 env to_lowercase int_error parse_socket_addr var n

  -- A configuration that is accepted has at least one key, none of them empty, an administrator's key
  -- that is not blank, and settings that are positive u64 values, but for the two that are cut to 32
  -- bits.
  pub from_env-IsSound :
      (cfg : Config) → from_env env to_lowercase int_error parse_socket_addr ≡ ok cfg → IsSound cfg
  unfolding from_env parse_api_keys required
  from_env-IsSound cfg h0 =
      through (parse_listen_addr env to_lowercase int_error parse_socket_addr "LISTEN_ADDR") _ h0
        (λ addr e0 h1.
          through (parse_api_keys env to_lowercase int_error parse_socket_addr "WEBHOOK_API_KEYS") _
            h1
            (λ keys e1 h2.
              through (required env to_lowercase int_error parse_socket_addr "WEBHOOK_ADMIN_KEY") _
                h2
                (λ admin e2 h3. through (u64_of "WORKER_COUNT" 4) _ h3 (λ workers e3 h4.
                  through (u64_of "POLL_INTERVAL_MS" 500) _ h4 (λ poll e4 h5.
                    through (u64_of "MAX_ATTEMPTS" 8) _ h5 (λ attempts e5 h6.
                      through (u64_of "BASE_RETRY_DELAY_MS" 5000) _ h6 (λ base e6 h7.
                        through (u64_of "MAX_RETRY_DELAY_MS" 3600000) _ h7 (λ most e7 h8.
                          through (u64_of "REQUEST_TIMEOUT_MS" 10000) _ h8 (λ timeout e8 h9.
                            through (u64_of "MAX_PAYLOAD_BYTES" 1048576) _ h9 (λ payload e9 h10.
                              through
                                (parse_bool env to_lowercase int_error parse_socket_addr
                                  "ALLOW_PRIVATE_DESTINATIONS" false)
                                _ h10
                                (λ private e10 h11.
                                  through (u64_of "RATE_LIMIT_PER_MIN" 120) _ h11 (λ rate e11 h12.
                                    through (u64_of "STALE_IN_FLIGHT_MS" 300000) _ h12
                                      (λ stale e12 h13. subst IsSound (ok-injective h13) (record {
                                        some_key =
                                            (keys-IsSound "WEBHOOK_API_KEYS"
                                              (env "WEBHOOK_API_KEYS") e1).0;
                                        keys =
                                            (keys-IsSound "WEBHOOK_API_KEYS"
                                              (env "WEBHOOK_API_KEYS") e1).1;
                                        admin_key =
                                            admin-lem "WEBHOOK_ADMIN_KEY" (env "WEBHOOK_ADMIN_KEY")
                                              e2;
                                        worker_count =
                                            setting "WORKER_COUNT" 4 (omega arith, omega arith) e3;
                                        poll_interval_ms =
                                            setting "POLL_INTERVAL_MS" 500
                                              (omega arith, omega arith) e4;
                                        max_attempts = omega arith;
                                        base_retry_delay_ms =
                                            setting "BASE_RETRY_DELAY_MS" 5000
                                              (omega arith, omega arith) e6;
                                        max_retry_delay_ms =
                                            setting "MAX_RETRY_DELAY_MS" 3600000
                                              (omega arith, omega arith) e7;
                                        request_timeout_ms =
                                            setting "REQUEST_TIMEOUT_MS" 10000
                                              (omega arith, omega arith) e8;
                                        max_payload_bytes =
                                            setting "MAX_PAYLOAD_BYTES" 1048576
                                              (omega arith, omega arith) e9;
                                        rate_limit_per_min = omega arith;
                                        stale_in_flight_ms =
                                            setting "STALE_IN_FLIGHT_MS" 300000
                                              (omega arith, omega arith) e12;
                                      }))))))))))))))

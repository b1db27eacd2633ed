-- ===== src/Net/Url.antt =====
-- What the url crate's accessors return for a parsed URL, and the port that it is reached at.
use benchmark_rust_llms.Prelude.{ℕ, String, Option, ◌≡◌, some, ◌⊎◌, none}

pub data Host : Type 0 where
  ipv4 : ℕ → ℕ → ℕ → ℕ → Host
  ipv6 : ℕ → ℕ → ℕ → ℕ → ℕ → ℕ → ℕ → ℕ → Host
  domain : String → Host

pub record Url : Type 0 where
  pub scheme : String
  pub username : String
  pub password : Option String
  pub host : Option Host
  pub port : Option ℕ

-- The port that is connected to: the URL's own, or the default of its scheme.
abbrev pub IsPort : Url → ℕ → Type 0
IsPort url port =
    (url.port ≡ some port)
    ⊎ ((url.port ≡ none)
        × (((url.scheme ≡ "https") × (port ≡ 443)) ⊎ ((url.scheme ≡ "http") × (port ≡ 80))))

-- ===== src/Q/Api.antt =====
-- q/src/api/mod.rs: the shared state, the errors and the answers of the HTTP handlers.
pub mod Webhook
pub mod Admin
pub mod Health
mod Tests
use benchmark_rust_llms.Prelude.{ℕ, String, List, [], ◌∷◌, Bool}
use benchmark_rust_llms.Q.Db.Rows.{Db}
use benchmark_rust_llms.Q.Metrics.{Metrics}
use benchmark_rust_llms.Q.Security.Ratelimit.{RateLimiter}

-- What the handlers share and change; the configuration and the policy are parameters.
pub record AppState : Type 0 where
  pub db : Db
  pub metrics : Metrics
  pub limiter : RateLimiter

pub record ApiError : Type 0 where
  pub status : ℕ
  pub message : String

abbrev pub bad_request : String → ApiError
bad_request message = record { status = 400; message = message }

abbrev pub unauthorized : ApiError
unauthorized = record { status = 401; message = "unauthorized" }

abbrev pub too_many_requests : ApiError
too_many_requests = record { status = 429; message = "rate limit exceeded" }

abbrev pub forbidden : String → ApiError
forbidden message = record { status = 403; message = message }

abbrev pub not_found : String → ApiError
not_found message = record { status = 404; message = message }

abbrev pub internal : String → ApiError
internal message = record { status = 500; message = message }

-- The JSON values of the answers written with `json!`.
pub data Json : Type 0 where
  string : String → Json
  boolean : Bool → Json

pub record Reply : Type 0 where
  pub status : ℕ
  pub body : List (String × Json)

abbrev pub error_body : ApiError → Reply
error_body e = record { status = e.status; body = ("error", string e.message) ∷ [] }

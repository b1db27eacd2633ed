-- ===== src/G/Deliver.antt =====
-- g/src/deliver.rs: one attempt of a delivery, and the delay before the next.
use benchmark_rust_llms.Prelude.{
  ℕ, zero, suc, ◌-◌, ◌*◌, ◌^◌, min, max, String, ◌<>◌, List, [], ◌∷◌, ◌&&◌, leb, ltb, if◌then◌else◌,
  ℤ, pos, negsuc, Result, ok, err, ◌>>=◌, map_err,
}
use benchmark_rust_llms.G.Model.{ClaimedJob}
use benchmark_rust_llms.G.Config.{Config}
use benchmark_rust_llms.G.Security.{Outside, sign_payload, validate_destination}

-- `(attempt.max(1) - 1).clamp(0, 16)`
abbrev pub exponent : ℤ → ℕ
exponent (pos n) = min (max n 1 - 1) 16
exponent (negsuc n) = 0

-- `.max(1)`
abbrev pub at_least_one : ℤ → ℕ
at_least_one (pos n) = max n 1
at_least_one (negsuc n) = 1

-- The f64 values are these numbers while the configured times are below 2^53.
unfoldable pub capped_ms : Config → ℤ → ℕ
capped_ms cfg attempt =
    min (at_least_one cfg.retry_base_ms * 2 ^ exponent attempt) (at_least_one cfg.retry_max_ms)

-- `draw` is what the generator and the cast to i64 make of the range up to the capped delay.
unfoldable pub backoff_ms : (ℕ → ℕ) → Config → ℤ → ℤ
unfolding capped_ms
backoff_ms draw cfg attempt = pos (draw (capped_ms cfg attempt))

-- At most `max` characters.
unfoldable pub truncate : String → ℕ → String
truncate s zero = ""
truncate String.[] (suc n) = ""
truncate (String.◌∷◌ c s) (suc n) = String.◌∷◌ c (truncate s n)

-- What is sent.
pub record Request : Type 0 where
  pub url : String
  pub headers : List (String × String)
  pub body : String

-- The print of a status, the HMAC and the hex crate are parameters; `timestamp` is the clock's time in
-- seconds, in digits, and `network` answers with a status and the text of the body.
module _ (out : Outside) (hmac : List ℕ → List ℕ → List ℕ) (hex_encode : List ℕ → String)
    (show_status : ℕ → String) where
  unfoldable pub request : Config → String → ClaimedJob → Request
  unfolding sign_payload
  request cfg timestamp job = record {
    url = job.destination;
    headers =
        ("content-type", "application/json")
        ∷ ("X-Webhook-Id", job.id)
        ∷ ("X-Webhook-Timestamp", timestamp)
        ∷ (
          "X-Webhook-Signature",
          sign_payload hmac hex_encode cfg.signing_secret timestamp job.payload,
        )
        ∷ [];
    body = job.payload;
  }

  unfoldable pub answered : Result String (ℕ × String) → Result String (Unit {0})
  unfolding truncate
  answered (err e) = err ("request failed: " <> e)
  answered (ok (status, body)) =
      if leb 200 status && ltb status 300
      then ok tt
      else err (
          "destination responded with HTTP " <> (show_status status <> (": " <> truncate body 200)))

  unfoldable pub deliver_once :
      Config
      → String
      → (Request → Result String (ℕ × String))
      → ClaimedJob
      → Result String (Unit {0})
  unfolding request answered validate_destination
  deliver_once cfg timestamp network job =
      map_err (λ reason. "destination rejected: " <> reason)
        (validate_destination out job.destination cfg.allow_private_destinations)
      >>= λ _. answered (network (request cfg timestamp job))

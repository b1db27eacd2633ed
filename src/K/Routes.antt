-- ===== src/K/Routes.antt =====
-- k/webhook-delivery/src/routes.rs and error.rs: the handlers, over the table of jobs and the
-- configuration. What serde_json reads of a body is a parameter; the router is axum's.
pub mod Accepts
mod Tests
use benchmark_rust_llms.Prelude.{
  ℕ, String, ◌<>◌, Option, none, some, List, [], ◌∷◌, ◌++◌, map, Bool, true, false, length, ℤ, pos,
  Result, ok, err, ◌>>=◌, map_err,
}
use benchmark_rust_llms.Net.{IpAddr}
use benchmark_rust_llms.Net.Url.{Url}
use benchmark_rust_llms.Q.Model.{Uuid, UuidText}
use benchmark_rust_llms.K.Model.{AnyError, TimeText, JsonText, DlqEntry, dlq_entry_from}
use benchmark_rust_llms.K.Config.{Config}
use benchmark_rust_llms.K.Db.{Table, Io, insert_job, list_dead, requeue_dead}
use benchmark_rust_llms.K.Security.{
  SecurityError, security_text, enforce_size, validate_destination,
}

pub data ApiError : Type 0 where
  validation : String → ApiError
  payload_too_large : ApiError
  internal : AnyError → ApiError

-- The JSON values of the answers written with `json!`.
pub data Json : Type 0 where
  string : String → Json
  boolean : Bool → Json

pub record Reply : Type 0 where
  pub status : ℕ
  pub body : List (String × Json)

abbrev pub error_reply : ℕ → String → Reply
error_reply status message = record { status = status; body = ("error", string message) ∷ [] }

-- `IntoResponse` of ApiError
unfoldable pub into_response : ApiError → Reply
into_response (validation msg) = error_reply 400 msg
into_response payload_too_large = error_reply 413 "payload too large"
into_response (internal e) = error_reply 500 "internal server error"

unfoldable pub security_error_to_api : (IpAddr → String) → SecurityError → ApiError
security_error_to_api show_ip (SecurityError.payload_too_large len max) = payload_too_large
security_error_to_api show_ip (SecurityError.invalid_url e) =
    validation (security_text show_ip (SecurityError.invalid_url e))
security_error_to_api show_ip (SecurityError.scheme_not_allowed s) =
    validation (security_text show_ip (SecurityError.scheme_not_allowed s))
security_error_to_api show_ip SecurityError.credentials_not_allowed =
    validation (security_text show_ip SecurityError.credentials_not_allowed)
security_error_to_api show_ip (SecurityError.unresolvable_host e) =
    validation (security_text show_ip (SecurityError.unresolvable_host e))
security_error_to_api show_ip (SecurityError.private_address_blocked ip) =
    validation (security_text show_ip (SecurityError.private_address_blocked ip))

pub record WebhookRequest (Value : Type 0) : Type 0 where
  pub content : Value
  pub destination : String

-- The body of a 202.
pub record WebhookAccepted : Type 0 where
  pub id : Uuid

-- What is not under src/: the url crate's parser, the resolver, serde_json, the prints.
pub record Outside (Value : Type 0) : Type 0 where
  pub uuid : UuidText
  pub time : TimeText
  pub json : JsonText Value
  pub parse_url : String → Result String Url
  pub lookup_host : String → ℕ → Result String (List IpAddr)
  pub from_slice : List ℕ → Result String (WebhookRequest Value)
  pub show_ip : IpAddr → String

module _ {Value : Type 0} (out : Outside Value) where
  open out use {uuid, time, json, parse_url, lookup_host, from_slice, show_ip}
  open uuid use {to_string}

  -- The checks in their order: the size, the JSON, the destination.
  unfoldable pub checked : Config → List ℕ → Result ApiError (WebhookRequest Value)
  unfolding enforce_size security_error_to_api
  checked config body = do
    _ ← map_err (λ _. payload_too_large) (enforce_size (length body) config.max_payload_bytes)
    req ← map_err (λ e. validation ("invalid JSON body: " <> e)) (from_slice body)
    _ ← map_err (security_error_to_api show_ip) (
        validate_destination parse_url lookup_host req.destination
          config.allow_private_destinations)
    ok req

  abbrev pub answer :
      Uuid → Table × Result AnyError (Unit {0}) → Table × Result ApiError WebhookAccepted
  answer id (db, ok u) = (db, ok (record { id = id }))
  answer id (db, err e) = (db, err (internal e))

  unfoldable pub stored :
      Io
      → ℤ
      → Uuid
      → Config
      → Table
      → Result ApiError (WebhookRequest Value)
      → Table × Result ApiError WebhookAccepted
  unfolding insert_job
  stored io now id config db (err e) = (db, err e)
  stored io now id config db (ok req) =
      answer id
        (insert_job uuid time json io now id req.destination req.content config.max_attempts db)

  -- `now` and `id` are the clock's time and the fresh id; a success is answered 202.
  unfoldable pub post_webhook :
      Io → ℤ → Uuid → Config → List ℕ → Table → Table × Result ApiError WebhookAccepted
  unfolding checked stored
  post_webhook io now id config body db = stored io now id config db (checked config body)

  -- `GET /health`
  abbrev pub health : Reply
  health = record { status = 200; body = ("status", string "ok") ∷ [] }

  unfoldable pub list_dlq : Io → Table → Result ApiError (List DlqEntry)
  list_dlq io db = map_err internal (list_dead uuid time json io (pos 100) db) >>= λ dead.
      ok (map dlq_entry_from dead)

  abbrev pub retried : Uuid → Table × Result AnyError Bool → Table × Result ApiError Reply
  retried id (db, ok true) =
      (db, ok (record { status = 200; body = ("requeued", boolean true) ∷ [] }))
  retried id (db, ok false) = (db, ok (error_reply 404 ("no dead job with id " <> to_string id)))
  retried id (db, err e) = (db, err (internal e))

  unfoldable pub retry_dlq : Io → ℤ → Uuid → Table → Table × Result ApiError Reply
  retry_dlq io now id db = retried id (requeue_dead uuid time json io now id db)

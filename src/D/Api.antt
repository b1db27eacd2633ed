-- ===== src/D/Api.antt =====
-- d/src/webhook.rs, dlq.rs, error.rs and auth.rs: the handlers and the check of the API key. The
-- router and the limit on a body's size are axum's and tower's.
use benchmark_rust_llms.Prelude.{
  ℕ, String, Option, none, some, List, [], ◌∷◌, map, Bool, false, str_eq, ℤ, Result, ok, err, ◌>>=◌,
  map_err,
}
use benchmark_rust_llms.Q.Model.{Uuid, UuidText}
use benchmark_rust_llms.D.Model.{TimeText, JsonText, WebhookRequest, WebhookJob, DqlEntry, new}
use benchmark_rust_llms.D.Config.{Config}
use benchmark_rust_llms.D.Security.{validate_destination}
use benchmark_rust_llms.D.Db.{Db, Io, SqliteError, DbResult, enqueue, redeliver, list_dlq}

pub data AppError : Type 0 where
  bad_request : String → AppError
  unauthorized : AppError
  internal : String → AppError
  destination_not_allowed : AppError

-- The JSON values of the answers written with `json!`; `payload` is one of serde_json's.
pub data Json (Value : Type 0) : Type 0 where
  string : String → Json Value
  number : ℕ → Json Value
  payload : Value → Json Value

pub record Reply (Value : Type 0) : Type 0 where
  pub status : ℕ
  pub body : List (String × Json Value)

-- `IntoResponse` of AppError
unfoldable pub into_response : {Value : Type 0} → AppError → Reply Value
into_response (bad_request m) = record { status = 400; body = ("error", string m) ∷ [] }
into_response unauthorized = record { status = 401; body = ("error", string "unauthorized") ∷ [] }
into_response (internal m) = record { status = 500; body = ("error", string m) ∷ [] }
into_response destination_not_allowed = record {
  status = 422;
  body = ("error", string "destination host not allowed") ∷ [];
}

-- The key is the empty text before `set_api_key`; a header that is no text counts as absent.
abbrev pub expected_key : Option String → String
expected_key none = ""
expected_key (some k) = k

abbrev pub key_matches : String → Option String → Bool
key_matches expected none = false
key_matches expected (some k) = str_eq k expected

-- Whether the request goes on to its handler; if not, the answer is 401.
unfoldable pub require_api_key : Option String → Option String → Bool
require_api_key api_key provided = key_matches (expected_key api_key) provided

-- `show_error` is rusqlite's text of an error.
module _ (uuid : UuidText) (time : TimeText) {Value : Type 0} (json : JsonText Value)
    (show_error : SqliteError → String) (config : Config) where
  open uuid use {to_string}
  open time use {to_rfc3339}

  abbrev pub queued :
      WebhookJob Value → Db × DbResult (Unit {0}) → Db × Result AppError (Reply Value)
  queued job (db, err e) = (db, err (internal (show_error e)))
  queued job (db, ok u) = (
    db,
    ok (record {
      status = 202;
      body = ("id", string (to_string job.id)) ∷ ("status", string "queued") ∷ [];
    }),
  )

  abbrev pub enqueued :
      Io → WebhookJob Value → Db → Result String String → Db × Result AppError (Reply Value)
  enqueued io job db (err e) = (db, err (bad_request e))
  enqueued io job db (ok parsed) = queued job (enqueue uuid time json io job db)

  -- `now` and `id` are the clock's time and the fresh id.
  unfoldable pub create_webhook :
      Io → ℤ → Uuid → WebhookRequest Value → Db → Db × Result AppError (Reply Value)
  unfolding new
  create_webhook io now id req db =
      enqueued io (new now id req config.max_attempts) db (validate_destination req.destination)

  abbrev pub item : DqlEntry Value → List (String × Json Value)
  item e =
      ("id", string (to_string e.id))
      ∷ ("job_id", string (to_string e.job_id))
      ∷ ("payload", payload e.payload)
      ∷ ("destination", string e.destination)
      ∷ ("attempts", number e.attempts)
      ∷ ("last_error", string e.last_error)
      ∷ ("moved_at", string (to_rfc3339 e.moved_at))
      ∷ []

  -- The entries, whose number is the answer's count.
  unfoldable pub list_dead_letters : Io → Db → Result AppError (List (List (String × Json Value)))
  list_dead_letters io db =
      map_err (λ e. internal (show_error e)) (list_dlq uuid time json io db) >>= λ entries.
      ok (map item entries)

  abbrev pub requeued :
      Db × DbResult (Option (WebhookJob Value)) → Db × Result AppError (Reply Value)
  requeued (db, err e) = (db, err (internal (show_error e)))
  requeued (db, ok none) = (db, err (bad_request "dead letter entry not found"))
  requeued (db, ok (some job)) = (
    db,
    ok (record {
      status = 202;
      body = ("status", string "requeued") ∷ ("job_id", string (to_string job.id)) ∷ [];
    }),
  )

  unfoldable pub redeliver_entry :
      Io → Io → Io → ℤ → Uuid → Uuid → Db → Db × Result AppError (Reply Value)
  redeliver_entry io0 io io' now id entry_id db =
      requeued (redeliver uuid time json io0 io io' now id entry_id config.max_attempts db)

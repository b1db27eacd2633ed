-- ===== src/Q/Api/Webhook.antt =====
-- q/src/api/webhook.rs: the ingestion of a webhook.
-- What serde_json reads from the body is a parameter; the answers of the engine, the clock, the
-- resolver and the id generator during one request are an `Arrival`.
pub mod Accepts
use benchmark_rust_llms.Prelude.{
  ℕ, String, ◌<>◌, decimal, Option, none, some, List, [], ◌∷◌, Bool, true, false, if◌then◌else◌,
  str_eq, ℤ, Result, ok, err,
}
use benchmark_rust_llms.Q.Model.{Uuid, NewDelivery, Delivery, as_str}
use benchmark_rust_llms.Q.Db.Rows.{Db, Io, DbError, sqlite, idempotency_conflict, DbResult}
use benchmark_rust_llms.Q.Db.Writes.{insert}
use benchmark_rust_llms.Q.Db.Reads.{find}
use benchmark_rust_llms.Q.Metrics.{inc_submitted}
use benchmark_rust_llms.Q.Config.{Config}
use benchmark_rust_llms.Net.{IpAddr}
use benchmark_rust_llms.Q.Security.Ssrf.{
  Url, SsrfError, SsrfPolicy, validate, lookup, bad_scheme, missing_host, userinfo, bad_port,
  private_ip, resolution_failed,
}
use benchmark_rust_llms.Q.Security.Ratelimit.{RateLimiter, check}
use benchmark_rust_llms.Q.Security.Auth.{
  HeaderMap, HeaderValue, header_text, bearer_token, authorized,
}
use benchmark_rust_llms.Q.Delivery.Worker.{Outside}
use benchmark_rust_llms.Q.Api.{
  AppState, ApiError, bad_request, unauthorized, too_many_requests, forbidden, internal, string,
  boolean, Reply,
}

pub record IngestRequest : Type 0 where
  pub raw : List ℕ
  pub destination : String

pub data IngestOutcome : Type 0 where
  created : IngestOutcome
  duplicate : Uuid → String → IngestOutcome

-- `panicked` holds the tables as the blocking task left them when it did not finish.
pub record Arrival : Type 0 where
  pub instant : ℕ
  pub id : Uuid
  pub to_socket_addrs : String → Result String (List IpAddr)
  pub insert_io : Io
  pub insert_io' : Io
  pub insert_now : ℤ
  pub find_io : Io
  pub panicked : Option Db

abbrev key_or_anonymous : Option String → String
key_or_anonymous none = "anonymous"
key_or_anonymous (some token) = token

abbrev pub non_empty : Option String → Option String
non_empty none = none
non_empty (some s) = if str_eq s "" then none else some s

abbrev pub status_of : DbResult (Option Delivery) → String
unfolding as_str
status_of (ok (some d)) = as_str d.status
status_of (ok none) = "unknown"
status_of (err e) = "unknown"

module _ (out : Outside) (parse_body : List ℕ → Option IngestRequest)
    (show_error : DbError → String) where
  open out use {uuid, parse_url, show_ip, hmac_sha256}

  unfoldable pub ssrf_error : SsrfError → ApiError
  ssrf_error bad_scheme = bad_request "destination scheme must be http or https"
  ssrf_error missing_host = bad_request "destination has no host"
  ssrf_error userinfo = forbidden "destination must not contain userinfo"
  ssrf_error (bad_port port) = forbidden ("destination port " <> (decimal port <> " not allowed"))
  ssrf_error (private_ip ip) = forbidden ("destination resolves to blocked IP " <> show_ip ip)
  ssrf_error (resolution_failed e) = forbidden ("destination resolution failed: " <> e)

  -- The answer to the INSERT.
  unfoldable pub stored : Arrival → Db × DbResult (Unit {0}) → Db × Result ApiError IngestOutcome
  stored a (db, ok tt) = (db, ok created)
  stored a (db, err (idempotency_conflict existing)) =
      (db, ok (duplicate existing (status_of (find uuid a.find_io existing db))))
  stored a (db, err (sqlite e)) =
      (db, err (internal ("db insert failed: " <> show_error (sqlite e))))

  unfoldable pub checked :
      Arrival
      → NewDelivery
      → Db
      → Result SsrfError (List IpAddr)
      → Db × Result ApiError IngestOutcome
  unfolding ssrf_error stored
  checked a d db (err e) = (db, err (ssrf_error e))
  checked a d db (ok ips) = stored a (insert uuid a.insert_io a.insert_io' a.insert_now d db)

  unfoldable pub ingest_sync :
      SsrfPolicy → Arrival → Url → NewDelivery → Db → Db × Result ApiError IngestOutcome
  unfolding checked
  ingest_sync ssrf a url d db = checked a d db (validate ssrf url (lookup a.to_socket_addrs))

  abbrev pub accepted : Uuid → Reply
  accepted id = record {
    status = 202;
    body = ("id", string (uuid.to_string id)) ∷ ("status", string "pending") ∷ [];
  }

  unfoldable pub answer :
      Uuid → AppState → Db × Result ApiError IngestOutcome → AppState × Result ApiError Reply
  answer id app (db, ok created) =
      (record app { db = db; metrics = inc_submitted app.metrics }, ok (accepted id))
  answer id app (db, ok (duplicate existing status)) = (
    record app { db = db },
    ok (record {
      status = 200;
      body =
          ("id", string (uuid.to_string existing))
          ∷ ("status", string status)
          ∷ ("duplicate", boolean true)
          ∷ [];
    }),
  )
  answer id app (db, err e) = (record app { db = db }, err e)

  -- `spawn_blocking(...).await`
  unfoldable pub joined :
      Uuid
      → AppState
      → Option Db
      → Db × Result ApiError IngestOutcome
      → AppState × Result ApiError Reply
  unfolding answer
  joined id app none r = answer id app r
  joined id app (some db) r = (record app { db = db }, err (internal "internal error"))

  module _ (cfg : Config) (ssrf : SsrfPolicy) where
    abbrev pub new_delivery : Arrival → HeaderMap → IngestRequest → NewDelivery
    new_delivery a headers req = record {
      id = a.id;
      idempotency_key = non_empty (header_text (headers "Idempotency-Key"));
      destination = req.destination;
      payload = req.raw;
      max_attempts = cfg.max_attempts;
    }

    unfoldable pub with_url :
        Arrival
        → HeaderMap
        → IngestRequest
        → AppState
        → Option Url
        → AppState × Result ApiError Reply
    unfolding joined ingest_sync
    with_url a headers req app none = (app, err (bad_request "invalid destination url"))
    with_url a headers req app (some url) =
        joined a.id app a.panicked (ingest_sync ssrf a url (new_delivery a headers req) app.db)

    unfoldable pub with_request :
        Arrival → HeaderMap → AppState → Option IngestRequest → AppState × Result ApiError Reply
    unfolding with_url
    with_request a headers app none = (app, err (bad_request "malformed JSON body"))
    with_request a headers app (some req) = with_url a headers req app (parse_url req.destination)

    unfoldable pub limited :
        Arrival
        → HeaderMap
        → List ℕ
        → AppState
        → RateLimiter × Bool
        → AppState × Result ApiError Reply
    unfolding with_request
    limited a headers body app (l, admitted) =
        if admitted
        then with_request a headers (record app { limiter = l }) (parse_body body)
        else (record app { limiter = l }, err too_many_requests)

    unfoldable pub webhook_handler :
        Arrival → HeaderMap → List ℕ → AppState → AppState × Result ApiError Reply
    unfolding limited
    webhook_handler a headers body app =
        if authorized hmac_sha256 headers body cfg.hmac_secret cfg.api_keys
        then limited a headers body app
            (check a.instant (key_or_anonymous (bearer_token headers)) app.limiter)
        else (app, err unauthorized)

-- ===== src/Q/Api/Tests.antt =====
-- Requests to the handlers of q/src/api/, and the theorems about them at those requests.
use benchmark_rust_llms.Prelude.{
  ℕ, String, Option, none, some, List, [], ◌∷◌, false, ◌≡◌, ◌⊎◌, refl, ok, pos, if◌then◌else◌,
  str_eq, strip_prefix, true,
}
use benchmark_rust_llms.Q.Db.Calls.{step, dead_letters}
use benchmark_rust_llms.Q.Db.Writes.{dead_letter, replay_dead_letter}
use benchmark_rust_llms.Q.Api.{string, boolean, Db}
use benchmark_rust_llms.Q.Db.Invariant.Histories.{step-IsWellFormed}
use benchmark_rust_llms.Q.Model.{DlqEntry, Uuid}
use benchmark_rust_llms.Q.Security.Auth.{admin_authorized}
use benchmark_rust_llms.Q.Db.Reads.{find_dlq_entry}
use benchmark_rust_llms.Q.Api.Admin.{replay}
use benchmark_rust_llms.Q.Api.Admin.Replay.{Requeues, Refuses, replay_lem}
use benchmark_rust_llms.Q.Samples.{count_strokes, strokes, stroke_text, queued, queued-IsWellFormed}
use benchmark_rust_llms.Q.Db.Rows.{DbError}
use benchmark_rust_llms.Q.Metrics
use benchmark_rust_llms.Q.Db.Writes.{insert}
use benchmark_rust_llms.Q.Config.{Config}
use benchmark_rust_llms.Net.{v4}
use benchmark_rust_llms.Q.Security.Ssrf.{Url, default, validate, lookup}
use benchmark_rust_llms.Q.Security.Ratelimit
use benchmark_rust_llms.Q.Security.Ratelimit.{check}
use benchmark_rust_llms.Q.Security.Auth.{HeaderMap, text, authorized, bearer_token}
use benchmark_rust_llms.Q.Delivery.Worker.{Outside}
use benchmark_rust_llms.Q.Api.{AppState}
use benchmark_rust_llms.Q.Api.Webhook.{
  IngestRequest, Arrival, webhook_handler, accepted, new_delivery,
}
use benchmark_rust_llms.Q.Api.Webhook.Accepts.{IsAdmitted, Untouched, webhook_handler_lem}
use benchmark_rust_llms.Q.Db.Conflicts.{with_new}

abbrev hook : Url
hook = record {
  scheme = "http";
  username = "";
  password = none;
  host_str = some "example.com";
  port = none;
}

abbrev outside : Outside
outside = record {
  uuid = stroke_text;
  parse_url = λ s. some hook;
  show_ip = λ ip. "ip";
  hmac_sha256 = λ key message. message;
}

abbrev read_body : List ℕ → Option IngestRequest
read_body body = some (record { raw = body; destination = "http://example.com" })

abbrev show_error : DbError → String
show_error e = "error"

abbrev config : Config
config = record {
  listen_addr = "127.0.0.1:8080";
  api_keys = "key-1" ∷ [];
  admin_key = "admin";
  hmac_secret = none;
  database_path = "db";
  worker_count = 1;
  poll_interval_ms = 500;
  max_attempts = 8;
  base_retry_delay_ms = 5000;
  max_retry_delay_ms = 3600000;
  request_timeout_ms = 10000;
  max_payload_bytes = 1048576;
  allow_private_destinations = false;
  rate_limit_per_min = 120;
  stale_in_flight_ms = 300000;
}

abbrev arrival : Arrival
arrival = record {
  instant = 100;
  id = 5;
  to_socket_addrs = λ host. ok (v4 93 184 216 34 ∷ []);
  insert_io = none;
  insert_io' = none;
  insert_now = pos 60;
  find_io = none;
  panicked = none;
}

abbrev headers : HeaderMap
headers name = if str_eq name "Authorization" then some (text "Bearer key-1") else none

abbrev app : AppState
app = record { db = queued; metrics = Metrics.new; limiter = Ratelimit.new 120 60000 }

accepts :
    (webhook_handler outside read_body show_error config default arrival headers (49 ∷ []) app).1
    ≡ ok (accepted outside read_body show_error 5)
unfolding webhook_handler authorized check bearer_token strip_prefix validate strokes lookup insert
accepts = refl

webhook_handler_lem_example :
    ((req : IngestRequest) × IsAdmitted outside read_body show_error config default arrival headers
        (49 ∷ [])
        app
        req
      × ((webhook_handler outside read_body show_error config default arrival headers
            (49 ∷ [])
            app).0.db
          ≡ with_new stroke_text
              (pos 60)
              (new_delivery outside read_body show_error config default arrival headers req)
              queued)
      × ((webhook_handler outside read_body show_error config default arrival headers
            (49 ∷ [])
            app).1
          ≡ ok (accepted outside read_body show_error 5)))
    ⊎ Untouched outside read_body show_error config default arrival headers
        (49 ∷ [])
        app
        (webhook_handler outside read_body show_error config default arrival headers (49 ∷ []) app)
webhook_handler_lem_example =
    webhook_handler_lem outside read_body show_error config default arrival headers (49 ∷ []) app
      refl

abbrev admin_headers : HeaderMap
admin_headers name = if str_eq name "Authorization" then some (text "Bearer admin") else none

-- The first delivery has been dead-lettered.
abbrev letters : Db
letters = step stroke_text queued (dead_letters none none (pos 30) 7 1 "HTTP 404")

requeues :
    (replay stroke_text show_error config none none (pos 70) admin_headers 7 letters).1
    ≡ ok (record {
      status = 202;
      body = ("requeued", boolean true) ∷ ("delivery_id", string "x") ∷ [];
    })
unfolding step dead_letter replay replay_dead_letter strokes count_strokes find_dlq_entry
    admin_authorized bearer_token strip_prefix
requeues = refl

replay_lem_example :
    ((entry : DlqEntry) × (delivery : Uuid) × (admin_authorized admin_headers "admin" ≡ true)
      × (find_dlq_entry stroke_text none 7 letters ≡ ok (some entry))
      × (count_strokes entry.delivery_id ≡ some delivery)
      × Requeues stroke_text show_error config none none
          (pos 70)
          admin_headers
          7
          letters
          delivery
          (replay stroke_text show_error config none none (pos 70) admin_headers 7 letters))
    ⊎ Refuses stroke_text show_error config none none
        (pos 70)
        admin_headers
        7
        letters
        (replay stroke_text show_error config none none (pos 70) admin_headers 7 letters)
replay_lem_example =
    replay_lem stroke_text show_error config none none (pos 70) admin_headers 7 letters (
      step-IsWellFormed stroke_text queued (dead_letters none none (pos 30) 7 1 "HTTP 404")
        queued-IsWellFormed)

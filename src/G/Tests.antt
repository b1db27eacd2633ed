-- ===== src/G/Tests.antt =====
-- Runs of g/src/, and its theorems at concrete tables and requests.
use benchmark_rust_llms.Prelude.{
  ◌==◌, ℕ, String, Option, none, some, List, [], ◌∷◌, ◌++◌, Bool, true, ◌≡◌, refl, ◌⊎◌, All, pos,
  ok, err, update, order_by, as_bytes,
}
use benchmark_rust_llms.Net.{v4}
use benchmark_rust_llms.Net.Url.{Url, domain}
use benchmark_rust_llms.Q.Samples.{strokes}
use benchmark_rust_llms.G.Model.{DeliveryRow, ClaimedJob, TimeText, status_pending}
use benchmark_rust_llms.G.Config.{default}
use benchmark_rust_llms.G.Security as Security
use benchmark_rust_llms.G.Db.{Table, SqlxError, has_id}
use benchmark_rust_llms.G.Worker.{World, claim, process_job}
use benchmark_rust_llms.G.Worker.Claims.{claims-ShareNone, ShareNone}
use benchmark_rust_llms.G.Worker.Outcomes.{process_job-Settled, IsSettled}
use benchmark_rust_llms.G.Routes.{
  Outside, ApiError, WebhookRequest, create_webhook, requeue_from_dlq, new_row, set_requeued,
}
use benchmark_rust_llms.G.Routes.Accepts.{create_webhook_lem, IsAcceptable}
use benchmark_rust_llms.G.Routes.Requeue.{requeue_from_dlq_lem, IsDeadLetter}
use benchmark_rust_llms.G.Service.{Event, creates, ticks, finishes, requeues, restarts, run}
use benchmark_rust_llms.G.Service.Rows.{IsWellFormed, Holds}
use benchmark_rust_llms.G.Service.Kept.{accepted_delivery_kept}
use benchmark_rust_llms.G.Routes.{checked, insert, stored, check_not_null, check_size}

abbrev url : Url
url = record {
  scheme = "https";
  username = "";
  password = none;
  host = some (domain "hook.example");
  port = none;
}

abbrev guard : Security.Outside
guard = record {
  parse_url = λ s. ok url;
  lookup_host = λ name port. ok (v4 8 8 8 8 ∷ []);
  show_host = λ h. "hook.example";
  show_ip = λ ip. "an address";
}

abbrev time : TimeText
time = record { rfc3339_of_millis = λ ms. none; to_string = λ ms. "a time" }

-- A payload is a number; 0 is null.
abbrev is_zero : ℕ → Bool
is_zero n = n == 0

abbrev out : Outside ℕ
out = record {
  security = guard;
  time = time;
  is_null = is_zero;
  to_text = λ n. ok (strokes n);
  show_error = λ e. "an error";
}

abbrev row : String → String → ℕ → DeliveryRow
row id status due = record {
  id = id;
  destination = "https://hook.example/in";
  payload = "{}";
  status = status;
  attempts = pos 3;
  max_attempts = pos 4;
  next_attempt_at = pos due;
  created_at = pos 0;
  updated_at = pos 1;
  delivered_at = none;
  last_error = none;
}

abbrev table : Table
table =
    row "a" "pending" 2
    ∷ row "b" "dead_lettered" 1
    ∷ row "c" "pending" 1
    ∷ row "d" "delivered" 0
    ∷ []

abbrev job : String → ClaimedJob
job id = record {
  id = id;
  destination = "https://hook.example/in";
  payload = "{}";
  attempts = pos 3;
  max_attempts = pos 4;
}

-- The destination answers 503.
abbrev unavailable : World
unavailable = record {
  timestamp = "1";
  network = λ r. ok (503, "busy");
  now = pos 9;
  draw = λ n. n;
  store = none;
}

abbrev hmac : List ℕ → List ℕ → List ℕ
hmac key body = body

abbrev hex : List ℕ → String
hex bs = "00"

abbrev show_status : ℕ → String
show_status n = "503 Service Unavailable"

-- The job that is due first is claimed first.
claims_one : (claim none (pos 5) (pos 1) table).1 ≡ ok (job "c" ∷ [])
unfolding claim order_by
claims_one = refl

claims-ShareNone_example : ShareNone (job "c" ∷ []) (job "a" ∷ [])
unfolding claim order_by
claims-ShareNone_example = claims-ShareNone (pos 5) (pos 6) (pos 1) (pos 10) table refl refl

-- A late failure of a delivery that has been recorded as delivered.
process_job-Settled_example :
    All
      (λ r.
        has_id "d" r ≡ true → IsSettled guard hmac hex show_status default unavailable (job "d") r)
      (process_job guard hmac hex show_status default unavailable (job "d") table).0
process_job-Settled_example =
    process_job-Settled guard hmac hex show_status default unavailable (job "d") table refl

abbrev request : WebhookRequest ℕ
request = record { content = 4; destination = "https://hook.example/in" }

create_webhook_lem_example :
    ((a : IsAcceptable out none "e" default (ok request) table) × (create_webhook out none
          (pos 5)
          "e"
          default
          (ok request)
          table
        ≡ (
          table ++ new_row out default (pos 5) "e" (IsAcceptable.req a) a.body ∷ [],
          ok (record { id = "e"; status = status_pending }),
        )))
    ⊎ ((e : ApiError) × (¬ IsAcceptable out none "e" default (ok request) table)
        × (create_webhook out none (pos 5) "e" default (ok request) table ≡ (table, err e)))
create_webhook_lem_example = create_webhook_lem out none (pos 5) "e" default (ok request) table

requeue_from_dlq_lem_example :
    (IsDeadLetter out none "b" table
      × (◌≡◌ {A = Option SqlxError} none none)
      × (requeue_from_dlq out none none (pos 5) "b" table table ≡ (
        update (has_id "b") (set_requeued out (pos 5)) table,
        ok (record { id = "b"; status = status_pending }),
      )))
    ⊎ ((e : ApiError) × (IsDeadLetter out none "b" table → ¬ (◌≡◌ {A = Option SqlxError} none none))
        × (requeue_from_dlq out none none (pos 5) "b" table table ≡ (table, err e)))
requeue_from_dlq_lem_example = requeue_from_dlq_lem out none none (pos 5) "b" table table

table-IsWellFormed : IsWellFormed table
table-IsWellFormed = record {
  unique = ((refl, (refl, (refl, tt))), ((refl, (refl, tt)), ((refl, tt), (tt, tt))));
  statuses = (refl, (refl, (refl, (refl, tt))));
}

-- A claim of everything that is due, a late failure of the new webhook's delivery, and a requeue.
abbrev events : List (Event ℕ)
events =
    ticks none none (pos 6)
    ∷ finishes unavailable (job "e")
    ∷ requeues none none (pos 7) "b" table
    ∷ restarts none (pos 8)
    ∷ []

accepted_delivery_kept_example :
    (body : String) × (out.to_text 4 ≡ ok body)
    × Holds "e" "https://hook.example/in" body (
        run out hmac hex show_status default table (creates none (pos 5) "e" (ok request) ∷ events))
unfolding create_webhook checked insert stored Security.validate_destination Security.check_length
    Security.check_scheme Security.check_credentials Security.check_network Security.addresses
    Security.check_addresses Security.check_ips Security.is_public_ip check_not_null check_size
    as_bytes strokes default
accepted_delivery_kept_example =
    accepted_delivery_kept out hmac hex show_status default none (pos 5) "e" request table events
      {reply = record { id = "e"; status = "pending" }} table-IsWellFormed refl

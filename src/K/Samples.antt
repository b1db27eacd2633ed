-- ===== src/K/Samples.antt =====
-- Concrete texts, rows, jobs and answers for the tests and instances of the k/ modules.
use mathlib.Core.Option
use benchmark_rust_llms.Prelude.{ℕ, String, none, some, List, [], ◌∷◌, ℤ, pos, negsuc, false, ok}
use benchmark_rust_llms.Q.Samples.{strokes, count_strokes}
use benchmark_rust_llms.K.Model.{TimeText, JsonText, Job, in_flight}
use benchmark_rust_llms.K.Config.{Config}
use benchmark_rust_llms.K.Db.{JobRow, Table, ClaimIo}
use benchmark_rust_llms.K.Worker.{World}

abbrev pub stroke_of : ℤ → String
stroke_of (pos n) = strokes n
stroke_of (negsuc n) = ""

abbrev pub clock_text : TimeText
clock_text = record {
  fmt_ts = stroke_of;
  parse_from_rfc3339 = λ s. Option.map pos (count_strokes s);
}

abbrev pub number_text : JsonText ℕ
number_text = record { to_text = λ n. ok (strokes n); from_text = count_strokes }

abbrev pub calm : ClaimIo
calm = record { begins = none; selects = none; updates = λ i. none; commits = none }

abbrev pub job_row : ℕ → String → ℕ → JobRow
job_row n status due = record {
  id = strokes n;
  destination = "https://example.com/hook";
  payload = strokes 4;
  status = status;
  attempts = 1;
  max_attempts = pos 8;
  next_attempt_at = strokes due;
  last_error = some "boom";
  created_at = "";
  updated_at = strokes 1;
}

abbrev pub stored : Table
stored = job_row 1 "pending" 3 ∷ job_row 2 "in_flight" 1 ∷ job_row 3 "pending" 2 ∷ []

abbrev pub signer : List ℕ → List ℕ → List ℕ
signer key body = body

abbrev pub hex_one : List ℕ → String
hex_one bs = "00"

abbrev pub config : Config
config = record {
  database_url = "sqlite::memory:";
  bind_addr = "127.0.0.1:3000";
  max_attempts = pos 8;
  base_delay_ms = 100;
  max_delay_ms = 60000;
  request_timeout_secs = 10;
  max_payload_bytes = 16;
  hmac_secret = "secret";
  allow_private_destinations = false;
  worker_poll_ms = 500;
  worker_concurrency = 4;
}

-- The destination answers 503.
abbrev pub unavailable : World
unavailable = record {
  network = λ r. ok 503;
  now = pos 5;
  wrote_at = pos 6;
  jitter = λ n. n;
  plus = λ t d. some (pos 9);
  store = none;
}

abbrev pub job_two : Job ℕ
job_two = record {
  id = 2;
  destination = "https://example.com/hook";
  payload = 4;
  status = in_flight;
  attempts = 1;
  max_attempts = pos 8;
  next_attempt_at = pos 1;
  last_error = some "boom";
  created_at = pos 0;
  updated_at = pos 1;
}

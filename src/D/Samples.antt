-- ===== src/D/Samples.antt =====
-- Concrete texts, tables and answers for the tests and instances of the d/ modules.
use mathlib.Core.Option
use benchmark_rust_llms.Prelude.{
  ℕ, String, none, some, Option, List, [], ◌∷◌, ℤ, pos, negsuc, false, true, ok, refl,
}
use benchmark_rust_llms.Net.{IpAddr}
use benchmark_rust_llms.Q.Samples.{strokes, count_strokes, stroke_text}
use benchmark_rust_llms.D.Model.{TimeText, JsonText, WebhookJob, WebhookRequest, pending}
use benchmark_rust_llms.D.Config.{Config}
use benchmark_rust_llms.D.Db.{JobRow, DlqRow, Db, SqliteError}
use benchmark_rust_llms.D.Worker.{World}
use benchmark_rust_llms.D.System.{System, Outside}
use benchmark_rust_llms.D.System.Sound.{IsSound}

abbrev pub stroke_of : ℤ → String
stroke_of (pos n) = strokes n
stroke_of (negsuc n) = ""

abbrev pub clock_text : TimeText
clock_text = record {
  to_rfc3339 = stroke_of;
  parse_from_rfc3339 = λ s. Option.map pos (count_strokes s);
}

abbrev pub number_text : JsonText ℕ
number_text = record { print = strokes; read = count_strokes }

abbrev pub config : Config
config = record {
  bind_addr = "0.0.0.0:8080";
  api_key = "dev-secret";
  db_path = "webhook.db";
  max_attempts = 5;
  retry_base = 1000;
  retry_max = 300000;
  poll_interval = 500;
  allow_private = false;
}

abbrev pub no_literals : String → Option IpAddr
no_literals s = none

abbrev pub show_ip : IpAddr → String
show_ip ip = "an address"

abbrev pub show_error : SqliteError → String
show_error e = "an error"

abbrev pub out : Outside ℕ
out = record {
  uuid = stroke_text;
  time = clock_text;
  json = number_text;
  parse_ip = no_literals;
  show_ip = show_ip;
  show_error = show_error;
  config = config;
}

abbrev pub job_one : WebhookJob ℕ
job_one = record {
  id = 1;
  payload = 4;
  destination = "http://hook.example:80/in";
  attempts = 4;
  max_attempts = 5;
  next_attempt_at = pos 2;
  created_at = pos 0;
  status = pending;
}

abbrev pub row_one : JobRow
row_one = record {
  id = strokes 1;
  payload = strokes 4;
  destination = "http://hook.example:80/in";
  attempts = 4;
  max_attempts = 5;
  next_attempt_at = strokes 2;
  created_at = strokes 0;
  status = "Pending";
}

abbrev pub letter_two : DlqRow
letter_two = record {
  id = strokes 2;
  job_id = strokes 9;
  payload = strokes 6;
  destination = "http://other.example/";
  attempts = 5;
  last_error = "HTTP status 500";
  moved_at = strokes 1;
}

abbrev pub tables : Db
tables = record { jobs = row_one ∷ []; dead_letters = letter_two ∷ [] }

abbrev pub start : System ℕ
start = record { db = tables; fetched = []; read = []; alive = true }

pub start-IsSound : IsSound out start
unfolding count_strokes strokes
start-IsSound = record {
  tables = record {
    unique = (tt, tt);
    unique_entries = (tt, tt);
    jobs = (((1, refl), (4, refl, refl)), tt);
    entries = ((6, refl, refl), tt);
  };
  jobs = record { present = tt; unique = tt };
  entries = tt;
}

-- Every host has the given addresses, and every destination answers 500.
abbrev pub failing : List IpAddr → World ℕ
failing ips = record {
  allow_private = none;
  lookup_host = λ host. ok ips;
  network = λ destination payload. ok 500;
  now = pos 5;
  entry_id = 3;
  jitter = λ n. n;
  plus = λ t d. some (pos 9);
  store = none;
  store' = none;
}

abbrev pub request : WebhookRequest ℕ
request = record { content = 8; destination = "https://new.example/hook" }

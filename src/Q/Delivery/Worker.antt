-- ===== src/Q/Delivery/Worker.antt =====
-- q/src/delivery/worker.rs: one worker's handling of a delivery, and its polling loop.
-- The url crate, the system's resolver, the HMAC and the destinations are parameters; what the
-- engine, the clock and the generator answer during one call of `process` is a `Turn`.
pub mod Fates
pub mod Rounds
pub mod Signed
pub mod Exhausted
use benchmark_rust_llms.Prelude.{
  ℕ, ◌+◌, ◌/◌, String, ◌<>◌, decimal, Option, none, some, List, [], ◌∷◌, ◌++◌, Bool, true, false,
  leb, if◌then◌else◌, ℤ, ◌+ℤ◌, wrap_i64, as_i64, Result, ok, err, unwrap_or, hex_text, as_bytes,
}
use benchmark_rust_llms.Q.Model.{Uuid, UuidText, Delivery}
use benchmark_rust_llms.Q.Db.Rows.{Db, Io, DbResult}
use benchmark_rust_llms.Q.Db.Writes.{claim, mark_delivered, schedule_retry, reset_stale_in_flight}
use benchmark_rust_llms.Q.Db.Writes
use benchmark_rust_llms.Q.Db.Reads.{list_due}
use benchmark_rust_llms.Q.Metrics.{
  Metrics, inc_delivered, inc_dead_lettered, inc_permanent_failures, inc_retryable_failures,
}
use benchmark_rust_llms.Q.Config.{Config}
use benchmark_rust_llms.Net.{IpAddr}
use benchmark_rust_llms.Q.Security.Ssrf.{Url, SsrfError, SsrfPolicy, validate, lookup, ssrf_text}
use benchmark_rust_llms.Q.Delivery.Backoff.{next_delay_ms}
use benchmark_rust_llms.Q.Delivery.Classify.{Outcome, delivered, retryable, permanent, classify}

-- A POST as it leaves the program.
pub record Request : Type 0 where
  pub url : String
  pub headers : List (String × String)
  pub body : List ℕ

-- The code that the worker calls.
pub record Outside : Type 0 where
  pub uuid : UuidText
  pub parse_url : String → Option Url
  pub show_ip : IpAddr → String
  pub hmac_sha256 : List ℕ → List ℕ → List ℕ

-- The answers during one call of `process`: the claim's, the last write's (two statements), the
-- clock at each, the id of a new dead-letter entry, the generator's value, the resolver, and the
-- destination: a status or the text of a transport error.
pub record Turn : Type 0 where
  pub to_socket_addrs : String → Result String (List IpAddr)
  pub claim_io : Io
  pub claim_now : ℤ
  pub sent_at : ℕ
  pub respond : Request → Result String ℕ
  pub write_io : Io
  pub write_io' : Io
  pub write_now : ℤ
  pub entry_id : Uuid
  pub retry_now : ℤ
  pub next_u64 : ℕ

pub record State : Type 0 where
  pub db : Db
  pub metrics : Metrics

module _ (out : Outside) (cfg : Config) (ssrf : SsrfPolicy) where
  open out use {uuid, parse_url, show_ip, hmac_sha256}

  unfoldable pub signature_header : Option String → List ℕ → List (String × String)
  signature_header none payload = []
  signature_header (some secret) payload =
      ("X-Webhook-Signature", "sha256=" <> hex_text (hmac_sha256 (as_bytes secret) payload)) ∷ []

  unfoldable pub request : ℕ → Delivery → ℕ → Request
  unfolding signature_header
  request sent_at d attempt = record {
    url = d.destination;
    headers =
        (("Content-Type", "application/json")
          ∷ ("X-Webhook-Id", uuid.to_string d.id)
          ∷ ("X-Webhook-Attempt", decimal attempt)
          ∷ ("X-Webhook-Timestamp", decimal (sent_at / 1000))
          ∷ [])
        ++ signature_header cfg.hmac_secret d.payload;
    body = d.payload;
  }

  abbrev pub classify_answer : Result String ℕ → Outcome
  unfolding classify
  classify_answer (ok status) = classify status none
  classify_answer (err e) = classify 0 (some e)

  unfoldable pub send : Turn → Delivery → ℕ → Outcome
  unfolding request classify_answer
  send t d attempt = classify_answer (t.respond (request t.sent_at d attempt))

  -- The error of `dead_letter` is dropped.
  unfoldable pub dead_letter : Turn → Delivery → String → State → State
  dead_letter t d e s = record {
    db = (Writes.dead_letter uuid t.write_io t.write_io' t.write_now t.entry_id d.id e s.db).0;
    metrics = inc_dead_lettered s.metrics;
  }

  -- `d.attempts` was read as an i32, so the sum fits a u32.
  abbrev pub attempt_of : Delivery → ℕ
  attempt_of d = d.attempts + 1

  abbrev pub delay_of : Turn → Delivery → ℕ
  unfolding next_delay_ms
  delay_of t d =
      next_delay_ms (attempt_of d) cfg.base_retry_delay_ms cfg.max_retry_delay_ms t.next_u64

  unfoldable pub retry : Turn → Delivery → String → State → State
  unfolding delay_of
  retry t d e s = record {
    db =
        (schedule_retry uuid t.write_io t.write_now d.id
          (wrap_i64 (t.retry_now +ℤ as_i64 (delay_of t d))) e s.db).0;
    metrics = inc_retryable_failures s.metrics;
  }

  unfoldable pub finish : Turn → Delivery → Outcome → State → State
  unfolding dead_letter retry
  finish t d delivered s = record {
    db = (mark_delivered uuid t.write_io t.write_now d.id s.db).0;
    metrics = inc_delivered s.metrics;
  }
  finish t d (retryable e) s =
      if leb d.max_attempts (attempt_of d) then dead_letter t d e s else retry t d e s
  finish t d (permanent e) s =
      dead_letter t d e (record s { metrics = inc_permanent_failures s.metrics })

  -- From the claim on: a lost race ends it.
  unfoldable pub attempt_claimed : Turn → Delivery → State → Db × DbResult Bool → State
  unfolding finish send
  attempt_claimed t d s (db, won) =
      if unwrap_or false won
      then finish t d (send t d (attempt_of d)) (record s { db = db })
      else record s { db = db }

  unfoldable pub process_checked : Turn → Delivery → State → Result SsrfError (List IpAddr) → State
  unfolding attempt_claimed dead_letter
  process_checked t d s (err e) = dead_letter t d ("ssrf: " <> ssrf_text show_ip e) s
  process_checked t d s (ok ips) =
      attempt_claimed t d s (claim uuid t.claim_io t.claim_now d.id s.db)

  unfoldable pub process_parsed : Turn → Delivery → State → Option Url → State
  unfolding process_checked dead_letter
  process_parsed t d s none = dead_letter t d "ssrf: invalid destination url" s
  process_parsed t d s (some url) =
      process_checked t d s (validate ssrf url (lookup t.to_socket_addrs))

  unfoldable pub process : Turn → Delivery → State → State
  unfolding process_parsed
  process t d s = process_parsed t d s (parse_url d.destination)

  unfoldable pub process_all : (Uuid → Turn) → List Delivery → State → State
  unfolding process
  process_all turns [] s = s
  process_all turns (d ∷ ds) s = process_all turns ds (process (turns d.id) d s)

  -- One round of the loop: what `list_due` answers, at what time, and the turns of the batch.
  pub record Poll : Type 0 where
    pub io : Io
    pub now : ℤ
    pub turns : Uuid → Turn

  unfoldable pub poll : Poll → State → State
  unfolding process_all
  poll p s = process_all p.turns (unwrap_or [] (list_due uuid p.io p.now 20 s.db)) s

  unfoldable pub polls : List Poll → State → State
  unfolding poll
  polls [] s = s
  polls (p ∷ ps) s = polls ps (poll p s)

  -- `run`, for the rounds until the shutdown is seen.
  unfoldable pub run : Io → ℤ → List Poll → State → State
  unfolding polls
  run io now ps s =
      polls ps
        (record s { db = (reset_stale_in_flight io now (as_i64 cfg.stale_in_flight_ms) s.db).0 })

-- ===== src/D/System.antt =====
-- The service of d/src/ as a state machine: the loop of d/src/worker.rs, one job at a time, with
-- the handlers of the API between its steps. The mutex of `Db` makes each method one step, but for
-- `redeliver`, which lets go of it after it has read the entry: a redelivery is two steps.
pub mod Tables
pub mod Moves
pub mod Redelivery
pub mod Fetched
pub mod Others
pub mod Processed
pub mod Handlers
pub mod Sound
pub mod Kept
pub mod Promises
use benchmark_rust_llms.Prelude.{
  ℕ, String, Option, none, some, List, [], ◌∷◌, Bool, true, false, ℤ, pos, Result, ok, err,
}
use benchmark_rust_llms.Net.{IpAddr}
use benchmark_rust_llms.Q.Model.{Uuid, UuidText}
use benchmark_rust_llms.D.Model.{TimeText, JsonText, WebhookRequest, WebhookJob}
use benchmark_rust_llms.D.Config.{Config}
use benchmark_rust_llms.D.Db.{Db, Io, SqliteError, DbResult, fetch_due}
use benchmark_rust_llms.D.Worker.{World, Ending, finished, panicked, process_job}
use benchmark_rust_llms.D.Api.{create_webhook}
use benchmark_rust_llms.D.Db.{redeliver_entry, get_dlq}
use benchmark_rust_llms.D.Model.{DqlEntry}
use benchmark_rust_llms.Prelude.{zero, suc, ◌++◌}

-- The tables, the jobs that the worker has still to process, the entries that redeliveries have read
-- and not yet moved, and whether the worker runs.
pub record System (Value : Type 0) : Type 0 where
  pub db : Db
  pub fetched : List (WebhookJob Value)
  pub read : List (Uuid × DqlEntry Value)
  pub alive : Bool

pub data Event (Value : Type 0) : Type 0 where
  fetches : Io → ℤ → Event Value
  processes : World Value → Event Value
  creates : Io → ℤ → Uuid → WebhookRequest Value → Event Value
  reads : Io → Uuid → Event Value
  redelivers : ℕ → Io → Io → ℤ → Uuid → Event Value

-- What is not under d/src/, and the configuration.
pub record Outside (Value : Type 0) : Type 0 where
  pub uuid : UuidText
  pub time : TimeText
  pub json : JsonText Value
  pub parse_ip : String → Option IpAddr
  pub show_ip : IpAddr → String
  pub show_error : SqliteError → String
  pub config : Config

abbrev pub nth {ℓ} : {A : Type ℓ} → ℕ → List A → Option A
nth k [] = none
nth zero (x ∷ xs) = some x
nth (suc k) (x ∷ xs) = nth k xs

abbrev pub without {ℓ} : {A : Type ℓ} → ℕ → List A → List A
without k [] = []
without zero (x ∷ xs) = xs
without (suc k) (x ∷ xs) = x ∷ without k xs

module _ {Value : Type 0} (out : Outside Value) where
  open out use {uuid, time, json, parse_ip, show_ip, show_error, config}

  -- An error of the fetch is logged, and nothing is fetched.
  abbrev pub fetched_jobs : DbResult (List (WebhookJob Value)) → List (WebhookJob Value)
  fetched_jobs (ok jobs) = jobs
  fetched_jobs (err e) = []

  abbrev pub after :
      List (WebhookJob Value) → List (Uuid × DqlEntry Value) → Db × Ending → System Value
  after jobs read (db, finished) = record { db = db; fetched = jobs; read = read; alive = true }
  after jobs read (db, panicked) = record { db = db; fetched = []; read = read; alive = false }

  -- The worker fetches when nothing is left to process.
  abbrev pub fetch : Io → ℤ → Db → Bool → List (WebhookJob Value) → List (WebhookJob Value)
  fetch io now db true [] = fetched_jobs (fetch_due uuid time json io now (pos 10) db)
  fetch io now db true (job ∷ jobs) = job ∷ jobs
  fetch io now db false jobs = jobs

  abbrev pub process_next :
      World Value
      → Db
      → List (Uuid × DqlEntry Value)
      → Bool
      → List (WebhookJob Value)
      → System Value
  process_next w db read true (job ∷ jobs) =
      after jobs read (process_job parse_ip show_ip uuid time json config w job db)
  process_next w db read true [] = record { db = db; fetched = []; read = read; alive = true }
  process_next w db read false jobs = record { db = db; fetched = jobs; read = read; alive = false }

  -- A redelivery whose entry is not found, or cannot be read, ends there.
  abbrev pub read_entry : Uuid → DbResult (Option (DqlEntry Value)) → List (Uuid × DqlEntry Value)
  read_entry entry_id (err e) = []
  read_entry entry_id (ok none) = []
  read_entry entry_id (ok (some e)) = (entry_id, e) ∷ []

  abbrev pub redeliver_read : Io → Io → ℤ → Uuid → Db → Option (Uuid × DqlEntry Value) → Db
  redeliver_read io io' now id db none = db
  redeliver_read io io' now id db (some (entry_id, e)) =
      (redeliver_entry uuid time json io io' now id entry_id config.max_attempts (ok (some e)) db).0

  -- A redelivery goes on with the k-th of the entries that were read.
  unfoldable pub step : System Value → Event Value → System Value
  step s (fetches io now) = record s { fetched = fetch io now s.db s.alive s.fetched }
  step s (processes w) = process_next w s.db s.read s.alive s.fetched
  step s (creates io now id req) = record s {
    db = (create_webhook uuid time json show_error config io now id req s.db).0;
  }
  step s (reads io entry_id) = record s {
    read = s.read ++ read_entry entry_id (get_dlq uuid time json io entry_id s.db);
  }
  step s (redelivers k io io' now id) = record s {
    db = redeliver_read io io' now id s.db (nth k s.read);
    read = without k s.read;
  }

  unfoldable pub run : System Value → List (Event Value) → System Value
  unfolding step
  run s [] = s
  run s (e ∷ es) = run (step s e) es

-- ===== src/D/System/Sound.antt =====
-- The invariant of the running service of d/src/, and what a fetch and a delivery leave of the jobs
-- and of the entries that are at work.
use benchmark_rust_llms.Prelude.{String, List, [], ◌∷◌, Bool, true, false, ℤ, pos, ok, err}
use benchmark_rust_llms.D.Model.{WebhookJob, JsonText}
use benchmark_rust_llms.D.Db.{Db, Io, DbResult, fetch_due}
use benchmark_rust_llms.D.System.{
  System, Outside, fetched_jobs, fetch, step, Event, fetches, processes, creates, redelivers, Uuid,
  some,
}
use benchmark_rust_llms.D.System.Fetched.{AreFetched, job_key, fetch_due-AreFetched}
use benchmark_rust_llms.D.System.Tables.{IsWellFormed, IsPresent, Holds}
use benchmark_rust_llms.D.System.Others.{IsProcessed}
use benchmark_rust_llms.D.Db.{JobRow}
use benchmark_rust_llms.Prelude.{All, has_key_of, ◌≡◌, refl}
use benchmark_rust_llms.D.System.Tables.{Agrees}
use benchmark_rust_llms.D.System.{reads}
use benchmark_rust_llms.D.Model.{DqlEntry}
use benchmark_rust_llms.Prelude.{str_eq}

module _ {Value : Type 0} (out : Outside Value) where
  open out use {uuid, time, json, parse_ip, show_ip, show_error, config}
  open uuid use {to_string}

  -- What redeliveries have read is what the dead letters with those ids still have.
  abbrev pub AreRead : Db → List (Uuid × DqlEntry Value) → Type 0
  AreRead db read = All (λ (i, e). Agrees uuid time json db.dead_letters (i, e)) read

  -- The tables are well formed, the jobs still to be processed have rows of their own, and what
  -- redeliveries have read is still right.
  pub record IsSound (s : System Value) : Type 0 where
    pub tables : IsWellFormed uuid time json s.db
    pub jobs : AreFetched uuid time json s.db.jobs s.fetched
    pub entries : AreRead s.db s.read

  pub record IsKeptBy (s s' : System Value) : Type 0 where
    pub sound : IsSound s'
    pub held :
        (v : Value) (d : String) → Holds uuid time json v d s.db → Holds uuid time json v d s'.db

  -- The id that a delivery may give to a new dead letter is none that a redelivery has read, and the
  -- content of a new webhook is a value that its text is read as, which serde_json promises of any
  -- without floats.
  abbrev pub IsFresh : System Value → Event Value → Type 0
  IsFresh s (processes w) =
      All (λ (i, e). str_eq (to_string w.entry_id) (to_string i) ≡ false) s.read
  IsFresh s (fetches io now) = Unit
  IsFresh s (creates io now id req) =
      JsonText.read json (JsonText.print json req.content) ≡ some req.content
  IsFresh s (reads io entry_id) = Unit
  IsFresh s (redelivers k io io' now id) = Unit

  abbrev pub AreFresh : System Value → List (Event Value) → Type 0
  AreFresh s [] = Unit
  AreFresh s (e ∷ es) = IsFresh s e × AreFresh (step out s e) es

  pub none_fetched : (rows : List JobRow) → AreFetched uuid time json rows []
  none_fetched rows = record { present = tt; unique = tt }

  fetched-AreFetched :
      (io : Io) (now : ℤ) (db : Db) (r : DbResult (List (WebhookJob Value)))
      → IsWellFormed uuid time json db
      → fetch_due uuid time json io now (pos 10) db ≡ r
      → AreFetched uuid time json db.jobs (fetched_jobs out r)
  fetched-AreFetched io now db (ok jobs) w h =
      fetch_due-AreFetched uuid time json io now (pos 10) db w h
  fetched-AreFetched io now db (err e) w h = none_fetched db.jobs

  pub fetch-AreFetched :
      (io : Io) (now : ℤ) (db : Db) (alive : Bool) (jobs : List (WebhookJob Value))
      → IsWellFormed uuid time json db
      → AreFetched uuid time json db.jobs jobs
      → AreFetched uuid time json db.jobs (fetch out io now db alive jobs)
  fetch-AreFetched io now db true [] w a = fetched-AreFetched io now db _ w refl
  fetch-AreFetched io now db true (job ∷ jobs) w a = a
  fetch-AreFetched io now db false jobs w a = a

  -- After the processing of a job, the others have their rows.
  pub rest-IsPresent :
      (job : WebhookJob Value) (entry_id : Uuid) (db db' : Db) (jobs : List (WebhookJob Value))
      → IsProcessed uuid time json job.id entry_id db db'
      → All (λ j. has_key_of (job_key uuid time json) (job_key uuid time json job) j ≡ false) jobs
      → All (IsPresent uuid time json db.jobs) jobs
      → All (IsPresent uuid time json db'.jobs) jobs
  rest-IsPresent job entry_id db db' [] k u h = tt
  rest-IsPresent job entry_id db db' (j ∷ jobs) k u h =
      (k.others j u.0 h.0, rest-IsPresent job entry_id db db' jobs k u.1 h.1)

  pub processed-AreRead :
      (id entry_id : Uuid) (db db' : Db) (read : List (Uuid × DqlEntry Value))
      → IsProcessed uuid time json id entry_id db db'
      → All (λ (i, e). str_eq (to_string entry_id) (to_string i) ≡ false) read
      → AreRead db read
      → AreRead db' read
  processed-AreRead id entry_id db db' [] k f h = tt
  processed-AreRead id entry_id db db' ((i, e) ∷ read) k f h =
      (k.letters i e f.0 h.0, processed-AreRead id entry_id db db' read k f.1 h.1)

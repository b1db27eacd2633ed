-- ===== src/D/System/Kept.antt =====
-- No event of d/src/ loses a webhook: the invariant of the running service.
use benchmark_rust_llms.Prelude.{List, [], ◌∷◌, Bool, true, false, ℤ, ok, err, refl}
use benchmark_rust_llms.D.Model.{WebhookJob}
use benchmark_rust_llms.D.Db.{Db, Io, DbResult}
use benchmark_rust_llms.D.Worker.{World, Ending, finished, panicked}
use benchmark_rust_llms.D.System.{
  System, Outside, after, process_next, run, step, Event, fetches, processes, creates, redelivers,
  Uuid,
}
use benchmark_rust_llms.D.System.Fetched.{AreFetched}
use benchmark_rust_llms.D.System.Tables.{IsWellFormed}
use benchmark_rust_llms.D.System.Others.{IsProcessed}
use benchmark_rust_llms.D.System.Processed.{process_job-IsProcessed}
use benchmark_rust_llms.Prelude.{All, ◌≡◌}
use benchmark_rust_llms.Prelude.{All-map}
use benchmark_rust_llms.D.System.Handlers.{
  IsExtended, create_webhook-IsExtended, redelivery-IsExtended, unextended,
}
use benchmark_rust_llms.D.System.Tables.{Agrees}
use benchmark_rust_llms.D.System.Redelivery.{ReadAgrees, get_dlq-ReadAgrees}
use benchmark_rust_llms.D.System.{reads, read_entry, redeliver_read, nth, without}
use benchmark_rust_llms.D.Model.{DqlEntry}
use benchmark_rust_llms.Prelude.{zero, suc, none, some, ℕ, Option, All-append, str_eq}
use benchmark_rust_llms.D.System.Sound.{
  AreRead, IsSound, IsKeptBy, IsFresh, AreFresh, none_fetched, fetch-AreFetched, rest-IsPresent,
  processed-AreRead,
}

module _ {Value : Type 0} (out : Outside Value) where
  open out use {uuid, time, json, parse_ip, show_ip, show_error, config}
  open uuid use {to_string}

  after_kept :
      (job : WebhookJob Value) (entry_id : Uuid) (db : Db) (jobs : List (WebhookJob Value))
      (read : List (Uuid × DqlEntry Value)) (p : Db × Ending)
      → IsProcessed uuid time json job.id entry_id db p.0
      → AreFetched uuid time json db.jobs (job ∷ jobs)
      → All (λ (i, e). str_eq (to_string entry_id) (to_string i) ≡ false) read
      → AreRead out db read
      → IsKeptBy out
          (record { db = db; fetched = job ∷ jobs; read = read; alive = true })
          (after out jobs read p)
  after_kept job entry_id db jobs read (db', finished) k a f r = record {
    sound = record {
      tables = k.kept.well_formed;
      jobs = record {
        present = rest-IsPresent out job entry_id db db' jobs k a.unique.0 a.present.1;
        unique = a.unique.1;
      };
      entries = processed-AreRead out job.id entry_id db db' read k f r;
    };
    held = k.kept.held;
  }
  after_kept job entry_id db jobs read (db', panicked) k a f r = record {
    sound = record {
      tables = k.kept.well_formed;
      jobs = none_fetched out db'.jobs;
      entries = processed-AreRead out job.id entry_id db db' read k f r;
    };
    held = k.kept.held;
  }

  process_kept :
      (w : World Value) (db : Db) (read : List (Uuid × DqlEntry Value)) (alive : Bool)
      (jobs : List (WebhookJob Value))
      → All (λ (i, e). str_eq (to_string w.entry_id) (to_string i) ≡ false) read
      → IsSound out (record { db = db; fetched = jobs; read = read; alive = alive })
      → IsKeptBy out
          (record { db = db; fetched = jobs; read = read; alive = alive })
          (process_next out w db read alive jobs)
  process_kept w db read true (job ∷ jobs) f i =
      after_kept job w.entry_id db jobs read _
        (process_job-IsProcessed uuid time json parse_ip show_ip config w job db i.tables
          i.jobs.present.0)
        i.jobs f i.entries
  process_kept w db read true [] f i = record {
    sound = record { tables = i.tables; jobs = i.jobs; entries = i.entries };
    held = λ v d h. h;
  }
  process_kept w db read false jobs f i = record {
    sound = record { tables = i.tables; jobs = i.jobs; entries = i.entries };
    held = λ v d h. h;
  }

  extended-AreRead :
      (db db' : Db) (read : List (Uuid × DqlEntry Value))
      → IsExtended out db db'
      → AreRead out db read
      → AreRead out db' read
  extended-AreRead db db' [] k h = tt
  extended-AreRead db db' ((i, e) ∷ read) k h =
      (k.letters i e h.0, extended-AreRead db db' read k h.1)

  without-All :
      {A : Type 0} (P : A → Type 0) (k : ℕ) (xs : List A) → All P xs → All P (without k xs)
  without-All P k [] h = tt
  without-All P zero (x ∷ xs) h = h.1
  without-All P (suc k) (x ∷ xs) h = (h.0, without-All P k xs h.1)

  extended_kept :
      (s : System Value) (db : Db) (read : List (Uuid × DqlEntry Value))
      → IsSound out s
      → IsExtended out s.db db
      → AreRead out s.db read
      → IsKeptBy out s (record s { db = db; read = read })
  extended_kept s db read i k r = record {
    sound = record {
      tables = k.kept.well_formed;
      jobs = record {
        present = All-map (λ j h. k.rows _ h) s.fetched i.jobs.present;
        unique = i.jobs.unique;
      };
      entries = extended-AreRead s.db db read k r;
    };
    held = k.kept.held;
  }

  redeliver_read-IsExtended :
      (k : ℕ) (io io' : Io) (now : ℤ) (id : Uuid) (db : Db) (read : List (Uuid × DqlEntry Value))
      → IsWellFormed uuid time json db
      → AreRead out db read
      → IsExtended out db (redeliver_read out io io' now id db (nth k read))
  redeliver_read-IsExtended k io io' now id db [] w r = unextended out db w
  redeliver_read-IsExtended zero io io' now id db ((entry_id, e) ∷ read) w r =
      redelivery-IsExtended out io io' now id entry_id config.max_attempts e db w r.0
  redeliver_read-IsExtended (suc k) io io' now id db (x ∷ read) w r =
      redeliver_read-IsExtended k io io' now id db read w r.1

  entry-AreRead :
      (db : Db) (entry_id : Uuid) (r : DbResult (Option (DqlEntry Value)))
      → ReadAgrees uuid time json db.dead_letters entry_id r
      → AreRead out db (read_entry out entry_id r)
  entry-AreRead db entry_id (err e) h = tt
  entry-AreRead db entry_id (ok none) h = tt
  entry-AreRead db entry_id (ok (some e)) h = (h, tt)

  pub step_kept :
      (s : System Value) (e : Event Value)
      → IsFresh out s e
      → IsSound out s
      → IsKeptBy out s (step out s e)
  unfolding step
  step_kept s (fetches io now) f i = record {
    sound = record {
      tables = i.tables;
      jobs = fetch-AreFetched out io now s.db s.alive s.fetched i.tables i.jobs;
      entries = i.entries;
    };
    held = λ v d h. h;
  }
  step_kept s (processes w) f i = process_kept w s.db s.read s.alive s.fetched f i
  step_kept s (creates io now id req) f i =
      extended_kept s _ s.read i
        (create_webhook-IsExtended out io now id req s.db (req.content, refl, f) i.tables) i.entries
  step_kept s (reads io entry_id) f i = record {
    sound = record {
      tables = i.tables;
      jobs = i.jobs;
      entries =
          All-append (λ (j, e). Agrees uuid time json s.db.dead_letters (j, e)) s.read _ i.entries
            (entry-AreRead s.db entry_id _
              (get_dlq-ReadAgrees uuid time json io entry_id s.db i.tables));
    };
    held = λ v d h. h;
  }
  step_kept s (redelivers k io io' now id) f i =
      extended_kept s _ (without k s.read) i
        (redeliver_read-IsExtended k io io' now id s.db s.read i.tables i.entries)
        (without-All (λ (j, e). Agrees uuid time json s.db.dead_letters (j, e)) k s.read i.entries)

  pub run-IsKeptBy :
      (es : List (Event Value)) (s : System Value)
      → AreFresh out s es
      → IsSound out s
      → IsKeptBy out s (run out s es)
  unfolding run
  run-IsKeptBy [] s f i = record { sound = i; held = λ v d h. h }
  run-IsKeptBy (e ∷ es) s f i =
      let k = step_kept s e f.0 i in
      let r = run-IsKeptBy es (step out s e) f.1 k.sound in
      record { sound = r.sound; held = λ v d h. r.held v d (k.held v d h) }

-- ===== src/D/System/Processed.antt =====
-- The processing of one job, by d/src/worker.rs: what it keeps of the tables, and of the rows of the
-- other jobs.
use benchmark_rust_llms.Prelude.{
  String, none, some, inl, inr, ℤ, ok, Bool-cases, Option, err, ℕ, ◌<>◌,
}
use benchmark_rust_llms.Q.Model.{Uuid, UuidText}
use benchmark_rust_llms.D.Model.{TimeText, JsonText, WebhookJob}
use benchmark_rust_llms.D.Db.{Db, Io, move_to_dlq}
use benchmark_rust_llms.D.System.Tables.{IsWellFormed, IsPresent, same}
use benchmark_rust_llms.D.System.Moves.{move_to_dlq-IsKept}
use benchmark_rust_llms.D.System.Tables.{record_attempt-IsKept, mark_delivered-IsKept}
use benchmark_rust_llms.D.Config.{Config}
use benchmark_rust_llms.D.Worker.{
  World, retried, next_attempt, handle_failure, answered, checked, process_job,
  check_destination_blocked,
}
use benchmark_rust_llms.D.Db.{mark_delivered}
use benchmark_rust_llms.Net.{IpAddr}
use benchmark_rust_llms.Prelude.{Result, leb, ltb, ◌&&◌}
use benchmark_rust_llms.D.System.Others.{
  IsProcessed, record_attempt-others, mark_delivered-others, move_to_dlq-others,
  record_attempt-letters, mark_delivered-letters, move_to_dlq-letters,
}

module _ (uuid : UuidText) (time : TimeText) {Value : Type 0} (json : JsonText Value) where
  open uuid use {to_string}
  open json use {print}

  unchanged :
      (id entry_id : Uuid) (db : Db)
      → IsWellFormed uuid time json db
      → IsProcessed uuid time json id entry_id db db
  unchanged id entry_id db w = record {
    kept = same uuid time json db w;
    others = λ j n s. s;
    letters = λ i e n h. h;
  }

  moved :
      (io io' : Io) (now : ℤ) (entry_id : Uuid) (job : WebhookJob Value) (error : String) (db : Db)
      → IsWellFormed uuid time json db
      → IsPresent uuid time json db.jobs job
      → IsProcessed uuid time json job.id entry_id db
          (move_to_dlq uuid time json io io' now entry_id job error db).0
  moved io io' now entry_id job error db w s = record {
    kept = move_to_dlq-IsKept uuid time json io io' now entry_id job error db w s;
    others = λ j n p. move_to_dlq-others uuid time json io io' now entry_id job error db j n p;
    letters =
        λ i e n h. move_to_dlq-letters uuid time json io io' now entry_id job error db i e n h;
  }

  delivered :
      (io : Io) (id entry_id : Uuid) (db : Db)
      → IsWellFormed uuid time json db
      → IsProcessed uuid time json id entry_id db (mark_delivered uuid time json io id db).0
  delivered io id entry_id db w = record {
    kept = mark_delivered-IsKept uuid time json io id db w;
    others = λ j n p. mark_delivered-others uuid time json io id db j p;
    letters = λ i e n h. rw (mark_delivered-letters uuid time json io id db) h;
  }

  module _ (parse_ip : String → Option IpAddr) (show_ip : IpAddr → String) (config : Config)
      (w : World Value) (job : WebhookJob Value) (db : Db) (sound : IsWellFormed uuid time json db)
      (present : IsPresent uuid time json db.jobs job) where
    retried-IsProcessed :
        (n : ℕ) (next : Option ℤ)
        → IsProcessed uuid time json job.id w.entry_id db
            (retried parse_ip show_ip uuid time json config w job n next db).0
    retried-IsProcessed n none = unchanged job.id w.entry_id db sound
    retried-IsProcessed n (some t) = record {
      kept = record_attempt-IsKept uuid time json w.store job.id n (some t) db sound;
      others = λ j k p. record_attempt-others uuid time json w.store job.id n (some t) db j p;
      letters =
          λ i e k h. rw (record_attempt-letters uuid time json w.store job.id n (some t) db) h;
    }

    handle_failure-IsProcessed :
        (error : String)
        → IsProcessed uuid time json job.id w.entry_id db
            (handle_failure parse_ip show_ip uuid time json config w job error db).0
    unfolding handle_failure
    handle_failure-IsProcessed error =
        elim (Bool-cases
          (leb job.max_attempts (next_attempt parse_ip show_ip uuid time json config job))) [
            | inl e ↦ rw e (
                moved w.store w.store' w.now w.entry_id
                  (record job {
                    attempts = next_attempt parse_ip show_ip uuid time json config job;
                  })
                  error db sound present)
            | inr e ↦
                rw e
                  (retried-IsProcessed (next_attempt parse_ip show_ip uuid time json config job) _)
          ]

    answered-IsProcessed :
        (r : Result String ℕ)
        → IsProcessed uuid time json job.id w.entry_id db
            (answered parse_ip show_ip uuid time json config w job r db).0
    unfolding answered
    answered-IsProcessed (err e) = handle_failure-IsProcessed e
    answered-IsProcessed (ok status) = elim (Bool-cases (leb 200 status && ltb status 300)) [
      | inl e ↦ rw e (delivered w.store job.id w.entry_id db sound)
      | inr e ↦ rw e (handle_failure-IsProcessed _)
    ]

    checked-IsProcessed :
        (r : Result String (Unit {0}))
        → IsProcessed uuid time json job.id w.entry_id db
            (checked parse_ip show_ip uuid time json config w job r db).0
    unfolding checked
    checked-IsProcessed (err e) =
        moved w.store w.store' w.now w.entry_id job ("blocked: " <> e) db sound present
    checked-IsProcessed (ok u) = answered-IsProcessed (w.network job.destination job.payload)

    pub process_job-IsProcessed :
        IsProcessed uuid time json job.id w.entry_id db
          (process_job parse_ip show_ip uuid time json config w job db).0
    unfolding process_job
    process_job-IsProcessed =
        checked-IsProcessed
          (check_destination_blocked parse_ip show_ip w.allow_private w.lookup_host job.destination)

-- ===== src/D/System/Handlers.antt =====
-- The handlers of the API of d/src/ that change the tables: what they keep.
use benchmark_rust_llms.Prelude.{String, ℤ, ok, err}
use benchmark_rust_llms.D.Model.{WebhookJob, WebhookRequest}
use benchmark_rust_llms.D.Db.{Db, Io, DbResult}
use benchmark_rust_llms.D.System.{Outside, Result, Uuid, UuidText, some, ℕ}
use benchmark_rust_llms.D.System.Tables.{IsWellFormed, IsPrinted}
use benchmark_rust_llms.D.Db.{JobRow}
use benchmark_rust_llms.Prelude.{◌≡◌, refl}
use benchmark_rust_llms.D.Db.{insert_job, enqueue, has_id, delete_entry, redelivered}
use benchmark_rust_llms.D.Api.{queued, enqueued, create_webhook}
use benchmark_rust_llms.D.Security.{validate_destination}
use benchmark_rust_llms.D.Model.{DqlEntry, new}
use benchmark_rust_llms.D.System.Tables.{IsKept, same, insert_job-IsKept}
use benchmark_rust_llms.D.System.Redelivery.{redeliver_entry-IsKept}
use benchmark_rust_llms.Prelude.{Some, Some-append, any, Bool-cases, inl, inr}
use benchmark_rust_llms.Prelude.{none}
use benchmark_rust_llms.D.Db.{redeliver_entry, has_entry_id}
use benchmark_rust_llms.D.System.Tables.{Agrees}
use benchmark_rust_llms.Prelude.{delete-All, true}

module _ {Value : Type 0} (out : Outside Value) where
  open out use {uuid, time, json, show_error, config}
  open json use {print}

  -- The tables that a handler leaves: every row of `jobs`, and what was read of any dead letter.
  pub record IsExtended (db db' : Db) : Type 1 where
    pub kept : IsKept uuid time json db db'
    pub rows : (R : JobRow → Type 0) → Some R db.jobs → Some R db'.jobs
    pub letters :
        (i : Uuid) (e : DqlEntry Value)
        → Agrees uuid time json db.dead_letters (i, e)
        → Agrees uuid time json db'.dead_letters (i, e)

  pub unextended : (db : Db) → IsWellFormed uuid time json db → IsExtended db db
  unextended db w = record {
    kept = same uuid time json db w;
    rows = λ R s. s;
    letters = λ i e h. h;
  }

  insert_job-rows :
      (io : Io) (job : WebhookJob Value) (db : Db) (R : JobRow → Type 0)
      → Some R db.jobs
      → Some R (insert_job uuid time json io job db).0.jobs
  unfolding insert_job
  insert_job-rows none job db R s =
      elim (Bool-cases (any (has_id (UuidText.to_string uuid job.id)) db.jobs)) [
        | inl e ↦ rw e s
        | inr e ↦ rw e (Some-append R db.jobs _ s)
      ]
  insert_job-rows (some x) job db R s =
      elim (Bool-cases (any (has_id (UuidText.to_string uuid job.id)) db.jobs)) [
        | inl e ↦ rw e s
        | inr e ↦ rw e s
      ]

  insert_job-letters :
      (io : Io) (job : WebhookJob Value) (db : Db)
      → (insert_job uuid time json io job db).0.dead_letters ≡ db.dead_letters
  unfolding insert_job
  insert_job-letters none job db =
      elim (Bool-cases (any (has_id (UuidText.to_string uuid job.id)) db.jobs)) [
        | inl e ↦ rw e refl
        | inr e ↦ rw e refl
      ]
  insert_job-letters (some x) job db =
      elim (Bool-cases (any (has_id (UuidText.to_string uuid job.id)) db.jobs)) [
        | inl e ↦ rw e refl
        | inr e ↦ rw e refl
      ]

  pub queued-tables :
      (job : WebhookJob Value) (r : Db × DbResult (Unit {0}))
      → (queued uuid time json show_error config job r).0 ≡ r.0
  queued-tables job (db, ok u) = refl
  queued-tables job (db, err e) = refl

  enqueued-IsExtended :
      (io : Io) (job : WebhookJob Value) (db : Db) (r : Result String String)
      → IsPrinted uuid time json (print job.payload)
      → IsWellFormed uuid time json db
      → IsExtended db (enqueued uuid time json show_error config io job db r).0
  unfolding enqueue
  enqueued-IsExtended io job db (err e) q w = unextended db w
  enqueued-IsExtended io job db (ok p) q w =
      rw (queued-tables job (insert_job uuid time json io job db)) (record {
        kept = insert_job-IsKept uuid time json io job db q w;
        rows = insert_job-rows io job db;
        letters = λ i e h. rw (insert_job-letters io job db) h;
      })

  pub create_webhook-IsExtended :
      (io : Io) (now : ℤ) (id : Uuid) (req : WebhookRequest Value) (db : Db)
      → IsPrinted uuid time json (print req.content)
      → IsWellFormed uuid time json db
      → IsExtended db (create_webhook uuid time json show_error config io now id req db).0
  unfolding create_webhook
  create_webhook-IsExtended io now id req db q w =
      enqueued-IsExtended io (new now id req config.max_attempts) db
        (validate_destination req.destination) q w

  delete_entry-jobs :
      (io : Io) (entry_id : Uuid) (job : WebhookJob Value) (r : Db × DbResult (Unit {0}))
      → (delete_entry uuid time json io entry_id job r).0.jobs ≡ r.0.jobs
  delete_entry-jobs io entry_id job (db, err e) = refl
  delete_entry-jobs none entry_id job (db, ok u) = refl
  delete_entry-jobs (some e) entry_id job (db, ok u) = refl

  delete_entry-letters :
      (io : Io) (entry_id : Uuid) (job : WebhookJob Value) (r : Db × DbResult (Unit {0})) (i : Uuid)
      (e : DqlEntry Value)
      → Agrees uuid time json r.0.dead_letters (i, e)
      → Agrees uuid time json (delete_entry uuid time json io entry_id job r).0.dead_letters (i, e)
  delete_entry-letters io entry_id job (db, err x) i e h = h
  delete_entry-letters (some x) entry_id job (db, ok u) i e h = h
  delete_entry-letters none entry_id job (db, ok u) i e h = (
    h.0,
    delete-All
        (λ y.
          has_entry_id (UuidText.to_string uuid i) y ≡ true
          → (y.payload ≡ print e.payload) × (y.destination ≡ e.destination))
        (has_entry_id (UuidText.to_string uuid entry_id)) db.dead_letters h.1,
  )

  pub redelivery-IsExtended :
      (io io' : Io) (now : ℤ) (id entry_id : Uuid) (n : ℕ) (e : DqlEntry Value) (db : Db)
      → IsWellFormed uuid time json db
      → Agrees uuid time json db.dead_letters (entry_id, e)
      → IsExtended db (redeliver_entry uuid time json io io' now id entry_id n (ok (some e)) db).0
  unfolding redeliver_entry
  redelivery-IsExtended io io' now id entry_id n e db w a =
      let job = redelivered uuid time json now id n e in
      record {
        kept = redeliver_entry-IsKept uuid time json io io' now id entry_id n e db w a;
        rows = λ R s.
            rw (delete_entry-jobs io' entry_id job (insert_job uuid time json io job db))
              (insert_job-rows io job db R s);
        letters = λ i x h.
            delete_entry-letters io' entry_id job (insert_job uuid time json io job db) i x
              (rw (insert_job-letters io job db) h);
      }

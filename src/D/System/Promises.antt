-- ===== src/D/System/Promises.antt =====
-- What the running service of d/src/ makes of accepted webhooks and of overlapping redeliveries.
use benchmark_rust_llms.Prelude.{String, ℤ, ok, err}
use benchmark_rust_llms.D.Model.{WebhookJob, WebhookRequest}
use benchmark_rust_llms.D.Db.{Db, Io, DbResult}
use benchmark_rust_llms.D.System.{Outside, Result, Uuid, UuidText, some, ◌∷◌}
use benchmark_rust_llms.Prelude.{◌≡◌, refl}
use benchmark_rust_llms.D.Db.{insert_job, enqueue, has_id}
use benchmark_rust_llms.D.Api.{queued, enqueued, create_webhook}
use benchmark_rust_llms.D.Security.{validate_destination}
use benchmark_rust_llms.D.Model.{new}
use benchmark_rust_llms.Prelude.{any, Bool-cases, inl, inr}
use benchmark_rust_llms.Prelude.{none}
use benchmark_rust_llms.D.System.Handlers.{queued-tables}
use benchmark_rust_llms.D.System.Sound.{IsSound}
use benchmark_rust_llms.D.System.Kept.{step_kept, run-IsKeptBy}
use benchmark_rust_llms.D.System.{System, Event, step, run, creates}
use benchmark_rust_llms.D.System.Tables.{Holds, IsJobOf}
use benchmark_rust_llms.D.Api.{Reply}
use benchmark_rust_llms.Prelude.{List, [], Some-append_right, false, String}
use benchmark_rust_llms.D.System.Sound.{AreFresh}
use benchmark_rust_llms.D.System.{reads, redelivers}
use benchmark_rust_llms.D.Model.{DqlEntry}
use benchmark_rust_llms.D.Db.{job_row, redelivered, redeliver_entry, get_dlq, has_id}
use benchmark_rust_llms.Prelude.{any, ◌++◌, ◌∙◌, ap, none, some}
use benchmark_rust_llms.D.Api as Api
use benchmark_rust_llms.D.Api.{requeued}
use benchmark_rust_llms.D.System.{redeliver_read, read_entry, nth}
use benchmark_rust_llms.D.Db.{redeliver, DbResult}
use benchmark_rust_llms.Prelude.{sym, Option}

module _ {Value : Type 0} (out : Outside Value) where
  open out use {parse_ip, show_ip, uuid, time, json, show_error, config}

  -- In a sound state, a webhook that the tables hold, as a job or as a dead letter, they hold after
  -- any events: fetches, deliveries, new webhooks, and redeliveries whose two steps stand apart,
  -- whichever statements fail. The ids of new dead letters differ from those that redeliveries in
  -- progress have read, and every new content is a value that its text is read as.
  pub run_keeps_webhooks :
      (s : System Value) (es : List (Event Value)) (v : Value) (d : String)
      → IsSound out s
      → AreFresh out s es
      → Holds uuid time json v d s.db
      → Holds uuid time json v d (run out s es).db
  run_keeps_webhooks s es v d i f h = (run-IsKeptBy out es s f i).held v d h

  queued-ok :
      (job : WebhookJob Value) (r : Db × DbResult (Unit {0})) {reply : Reply Value}
      → (queued uuid time json show_error config job r).1 ≡ ok reply
      → r.1 ≡ ok tt
  queued-ok job (db, ok u) h = refl
  queued-ok job (db, err e) h = cc

  insert_job-Holds :
      (io : Io) (job : WebhookJob Value) (db : Db)
      → (insert_job uuid time json io job db).1 ≡ ok tt
      → Holds uuid time json job.payload job.destination (insert_job uuid time json io job db).0
  unfolding insert_job
  insert_job-Holds none job db h =
      elim (Bool-cases (any (has_id (UuidText.to_string uuid job.id)) db.jobs)) [
        | inl e ↦ absurd (let k = rw e at h in cc)
        | inr e ↦ rw e (
            inl (
              Some-append_right (IsJobOf uuid time json job.payload job.destination) db.jobs _
                (inl (refl, refl))))
      ]
  insert_job-Holds (some x) job db h =
      elim (Bool-cases (any (has_id (UuidText.to_string uuid job.id)) db.jobs)) [
        | inl e ↦ absurd (let k = rw e at h in cc)
        | inr e ↦ absurd (let k = rw e at h in cc)
      ]

  enqueued-Holds :
      (io : Io) (job : WebhookJob Value) (db : Db) (r : Result String String) {reply : Reply Value}
      → (enqueued uuid time json show_error config io job db r).1 ≡ ok reply
      → Holds uuid time json job.payload job.destination
          (enqueued uuid time json show_error config io job db r).0
  unfolding enqueue
  enqueued-Holds io job db (err e) h = cc
  enqueued-Holds io job db (ok p) h =
      rw (queued-tables out job (insert_job uuid time json io job db))
        (insert_job-Holds io job db (queued-ok job (insert_job uuid time json io job db) h))

  -- A webhook that the API answered with success in a sound state is held by the tables after any
  -- events that follow. The ids of new dead letters differ from those that redeliveries in progress
  -- have read. The payloads in the tables and the contents of the webhooks that arrive, this one
  -- included, are values that their texts are read as.
  pub accepted_webhook_kept :
      (s : System Value) (io : Io) (now : ℤ) (id : Uuid) (req : WebhookRequest Value)
      (es : List (Event Value)) {reply : Reply Value}
      → IsSound out s
      → AreFresh out s (creates io now id req ∷ es)
      → (create_webhook uuid time json show_error config io now id req s.db).1 ≡ ok reply
      → Holds uuid time json req.content req.destination (run out s (creates io now id req ∷ es)).db
  unfolding run step create_webhook new
  accepted_webhook_kept s io now id req es i f h =
      run_keeps_webhooks (step out s (creates io now id req)) es req.content req.destination
        (step_kept out s (creates io now id req) f.0 i).sound f.1
        (enqueued-Holds io (new now id req config.max_attempts) s.db
          (validate_destination req.destination) h)

  -- A redelivery whose statements succeed adds the entry's job, whether or not the entry is still there.
  redelivery-jobs :
      (now : ℤ) (id entry_id : Uuid) (e : DqlEntry Value) (db : Db)
      → any (has_id (UuidText.to_string uuid id)) db.jobs ≡ false
      → (redeliver_entry uuid time json none none now id entry_id config.max_attempts
          (ok (some e))
          db).0.jobs
        ≡ db.jobs
          ++ job_row uuid time json (redelivered uuid time json now id config.max_attempts e) ∷ []
  unfolding redeliver_entry insert_job
  redelivery-jobs now id entry_id e db h = rw h refl

  -- Two redeliveries of one entry that both read it before either writes, while no other is in progress,
  -- with ids that are not in use and no failing statement, add two jobs, each with the entry's payload and destination.
  pub redelivered_twice :
      (s : System Value) (entry_id id id' : Uuid) (now : ℤ) (e : DqlEntry Value)
      → s.read ≡ []
      → get_dlq uuid time json none entry_id s.db ≡ ok (some e)
      → any (has_id (UuidText.to_string uuid id)) s.db.jobs ≡ false
      → any (has_id (UuidText.to_string uuid id')) (
          s.db.jobs
          ++ job_row uuid time json (redelivered uuid time json now id config.max_attempts e) ∷ [])
        ≡ false
      → (run out s (
          reads none entry_id
          ∷ reads none entry_id
          ∷ redelivers 0 none none now id
          ∷ redelivers 0 none none now id'
          ∷ [])).db.jobs
        ≡ (s.db.jobs
            ++ job_row uuid time json (redelivered uuid time json now id config.max_attempts e)
              ∷ [])
          ++ job_row uuid time json (redelivered uuid time json now id' config.max_attempts e) ∷ []
  unfolding run step
  redelivered_twice s entry_id id id' now e r g h h' =
      rw (r, g)
        (let first = redelivery-jobs now id entry_id e s.db h in
          redelivery-jobs now id' entry_id e
            (redeliver_entry uuid time json none none now id entry_id config.max_attempts
              (ok (some e)) s.db).0
            (rw first h')
          ∙ ap
              (λ rows.
                rows
                ++ job_row uuid time json (redelivered uuid time json now id' config.max_attempts e)
                  ∷ [])
              first)

  redelivery-steps :
      (io io' : Io) (now : ℤ) (id entry_id : Uuid) (r : DbResult (Option (DqlEntry Value)))
      (db : Db)
      → redeliver_read out io io' now id db (nth 0 (read_entry out entry_id r))
        ≡ (redeliver_entry uuid time json io io' now id entry_id config.max_attempts r db).0
  unfolding redeliver_entry
  redelivery-steps io io' now id entry_id (err e) db = refl
  redelivery-steps io io' now id entry_id (ok none) db = refl
  redelivery-steps io io' now id entry_id (ok (some e)) db = refl

  requeued-tables :
      (r : Db × DbResult (Option (WebhookJob Value)))
      → (requeued uuid time json show_error config r).0 ≡ r.0
  requeued-tables (db, err e) = refl
  requeued-tables (db, ok none) = refl
  requeued-tables (db, ok (some job)) = refl

  -- The two steps of a redelivery, with nothing between them, leave the tables that the handler leaves.
  redeliver_entry-steps :
      (s : System Value) (io0 io io' : Io) (now : ℤ) (id entry_id : Uuid)
      → s.read ≡ []
      → (run out s (reads io0 entry_id ∷ redelivers 0 io io' now id ∷ [])).db
        ≡ (Api.redeliver_entry uuid time json show_error config io0 io io' now id entry_id s.db).0
  unfolding run step redeliver Api.redeliver_entry
  redeliver_entry-steps s io0 io io' now id entry_id e = rw e (
      redelivery-steps io io' now id entry_id (get_dlq uuid time json io0 entry_id s.db) s.db
      ∙ sym (
          requeued-tables
            (redeliver uuid time json io0 io io' now id entry_id config.max_attempts s.db)))

-- ===== src/D/Db/Letters.antt =====
-- Dead letters in d/src/db.rs: the way of a job to them and back.
use benchmark_rust_llms.Prelude.{
  String, none, some, [], ◌∷◌, ◌++◌, true, false, ◌≡◌, refl, ℤ, ok, delete, any, eq_iff,
  delete-last, select_first-last,
}
use benchmark_rust_llms.Q.Model.{Uuid, UuidText}
use benchmark_rust_llms.D.Model.{TimeText, JsonText, WebhookJob, DqlEntry}
use benchmark_rust_llms.D.Db.{
  Db, has_id, has_entry_id, row_to_dlq, dlq_row, move_to_dlq, ℕ, get_dlq, job_row, redeliver,
  redeliver_entry, redelivered, insert_job,
}
use benchmark_rust_llms.D.Model.{pending}
use benchmark_rust_llms.D.Db.{as_u32}
use benchmark_rust_llms.Prelude.{delete, any, none, some, true, false}

module _ (uuid : UuidText) (time : TimeText) {Value : Type 0} (json : JsonText Value) where
  open uuid use {to_string, parse_str, parse_str-to_string}
  open time use {to_rfc3339, parse_from_rfc3339}
  open json use {print, read}

  -- The entry that a dead letter is read as.
  abbrev pub letter : ℤ → Uuid → WebhookJob Value → String → DqlEntry Value
  letter now entry_id job error = record {
    id = entry_id;
    job_id = job.id;
    payload = job.payload;
    destination = job.destination;
    attempts = as_u32 job.attempts;
    last_error = error;
    moved_at = now;
  }

  row_to_dlq-dlq_row :
      (now : ℤ) (entry_id : Uuid) (job : WebhookJob Value) (error : String)
      → parse_from_rfc3339 (to_rfc3339 now) ≡ some now
      → read (print job.payload) ≡ some job.payload
      → row_to_dlq uuid time json (dlq_row uuid time json now entry_id job error)
        ≡ ok (letter now entry_id job error)
  unfolding row_to_dlq
  row_to_dlq-dlq_row now entry_id job error t v =
      rw (parse_str-to_string entry_id, parse_str-to_string job.id, v, t) refl

  -- The tables after both moves.
  abbrev pub returned : ℤ → Uuid → ℕ → WebhookJob Value → Db → Db
  returned now id max_attempts job db = record db {
    jobs =
        delete (has_id (to_string job.id)) db.jobs
        ++ job_row uuid time json
            (redelivered uuid time json now id max_attempts (letter now id job ""))
          ∷ [];
  }

  module _ (job : WebhookJob Value) (error : String) (moved now : ℤ) (entry_id id : Uuid)
      (max_attempts : ℕ) (db : Db) where
    abbrev with_letter : Db
    with_letter = record db {
      jobs = delete (has_id (to_string job.id)) db.jobs;
      dead_letters = db.dead_letters ++ dlq_row uuid time json moved entry_id job error ∷ [];
    }

    move_to_dlq-ok :
        any (has_entry_id (to_string entry_id)) db.dead_letters ≡ false
        → move_to_dlq uuid time json none none moved entry_id job error db ≡ (with_letter, ok tt)
    unfolding move_to_dlq
    move_to_dlq-ok fresh = rw fresh refl

    own_letter :
        has_entry_id (to_string entry_id) (dlq_row uuid time json moved entry_id job error) ≡ true
    own_letter = (eq_iff (to_string entry_id) (to_string entry_id)).1 refl

    get_dlq-letter :
        any (has_entry_id (to_string entry_id)) db.dead_letters ≡ false
        → parse_from_rfc3339 (to_rfc3339 moved) ≡ some moved
        → read (print job.payload) ≡ some job.payload
        → get_dlq uuid time json none entry_id with_letter
          ≡ ok (some (letter moved entry_id job error))
    unfolding get_dlq
    get_dlq-letter fresh t v =
        rw
          (
            select_first-last (has_entry_id (to_string entry_id)) db.dead_letters
                (dlq_row uuid time json moved entry_id job error) fresh own_letter,
            row_to_dlq-dlq_row moved entry_id job error t v,
          )
          refl

    redeliver-letter :
        any (has_entry_id (to_string entry_id)) db.dead_letters ≡ false
        → any (has_id (to_string id)) (delete (has_id (to_string job.id)) db.jobs) ≡ false
        → parse_from_rfc3339 (to_rfc3339 moved) ≡ some moved
        → read (print job.payload) ≡ some job.payload
        → redeliver uuid time json none none none now id entry_id max_attempts with_letter ≡ (
          returned now id max_attempts job db,
          ok (
              some
                (redelivered uuid time json now id max_attempts (letter moved entry_id job error))),
        )
    unfolding redeliver redeliver_entry insert_job
    redeliver-letter fresh free t v =
        rw
          (
            get_dlq-letter fresh t v,
            free,
            delete-last (has_entry_id (to_string entry_id)) db.dead_letters
                (dlq_row uuid time json moved entry_id job error) fresh own_letter,
          )
          refl

    -- A job that is moved to the dead letters and redelivered, with fresh ids and no failing statement,
    -- leaves the dead letters as they were, and in place of its row one with its payload and
    -- destination, no attempts, and due at once. The time of the move and the payload
    -- have to be what their texts are read as.
    pub redeliver-move_to_dlq :
        any (has_entry_id (to_string entry_id)) db.dead_letters ≡ false
        → any (has_id (to_string id)) (delete (has_id (to_string job.id)) db.jobs) ≡ false
        → parse_from_rfc3339 (to_rfc3339 moved) ≡ some moved
        → read (print job.payload) ≡ some job.payload
        → redeliver uuid time json none none none now id entry_id max_attempts
            (move_to_dlq uuid time json none none moved entry_id job error db).0
          ≡ (
            returned now id max_attempts job db,
            ok (
                some (record {
                  id = id;
                  payload = job.payload;
                  destination = job.destination;
                  attempts = 0;
                  max_attempts = max_attempts;
                  next_attempt_at = now;
                  created_at = now;
                  status = pending;
                })),
          )
    redeliver-move_to_dlq fresh free t v =
        rw (move_to_dlq-ok fresh) (redeliver-letter fresh free t v)

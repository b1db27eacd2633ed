-- ===== src/D/Db.antt =====
-- d/src/db.rs: the two tables and the methods of `Db`.
-- A table is the list of its rows; a method takes what the engine answers to each statement, and a
-- statement that fails leaves the tables as they were. Rows that ORDER BY leaves tied keep their order
-- of insertion. No statement writes a negative counter.
pub mod Letters
use benchmark_rust_llms.Prelude.{
  limited, ℕ, ◌%◌, ◌^◌, String, Option, none, some, List, [], ◌∷◌, ◌++◌, Bool, ◌&&◌, str_eq,
  if◌then◌else◌, ℤ, as_bytes, bytes_leb, Result, ok, err, ◌>>=◌, ok_or, map_rows, select,
  select_first, count_if, update, delete, any, take, order_by, pos, negsuc,
}
use benchmark_rust_llms.Q.Model.{Uuid, UuidText}
use benchmark_rust_llms.D.Model.{
  pending, status_str, parse_status, TimeText, JsonText, WebhookJob, DqlEntry,
}
pub use benchmark_rust_llms.D.Rows.{
  JobRow, DlqRow, Db, SqliteError, Io, DbResult, execute, query, as_u32, text_leb, has_id,
  has_entry_id, is_due, due_before, newer, due_rows, set_attempts, set_delivered, engine_failure,
  constraint_violation, conversion_failure,
}

module _ (uuid : UuidText) (time : TimeText) {Value : Type 0} (json : JsonText Value) where
  open uuid use {to_string, parse_str}
  open time use {to_rfc3339, parse_from_rfc3339}
  open json use {print, read}

  unfoldable pub row_to_job : JobRow → Result SqliteError (WebhookJob Value)
  unfolding parse_status
  row_to_job r = do
    id ← ok_or (parse_str r.id) conversion_failure
    payload ← ok_or (read r.payload) conversion_failure
    next_attempt_at ← ok_or (parse_from_rfc3339 r.next_attempt_at) conversion_failure
    created_at ← ok_or (parse_from_rfc3339 r.created_at) conversion_failure
    ok (record {
      id = id;
      payload = payload;
      destination = r.destination;
      attempts = as_u32 r.attempts;
      max_attempts = as_u32 r.max_attempts;
      next_attempt_at = next_attempt_at;
      created_at = created_at;
      status = parse_status r.status;
    })

  unfoldable pub row_to_dlq : DlqRow → Result SqliteError (DqlEntry Value)
  row_to_dlq r = do
    id ← ok_or (parse_str r.id) conversion_failure
    job_id ← ok_or (parse_str r.job_id) conversion_failure
    payload ← ok_or (read r.payload) conversion_failure
    moved_at ← ok_or (parse_from_rfc3339 r.moved_at) conversion_failure
    ok (record {
      id = id;
      job_id = job_id;
      payload = payload;
      destination = r.destination;
      attempts = as_u32 r.attempts;
      last_error = r.last_error;
      moved_at = moved_at;
    })

  -- The row that a job is stored as.
  abbrev pub job_row : WebhookJob Value → JobRow
  job_row job = record {
    id = to_string job.id;
    payload = print job.payload;
    destination = job.destination;
    attempts = job.attempts;
    max_attempts = job.max_attempts;
    next_attempt_at = to_rfc3339 job.next_attempt_at;
    created_at = to_rfc3339 job.created_at;
    status = status_str job.status;
  }

  -- The INSERT into `jobs`, whose id is the PRIMARY KEY.
  unfoldable pub insert_job : Io → WebhookJob Value → Db → Db × DbResult (Unit {0})
  insert_job io job db =
      if any (has_id (to_string job.id)) db.jobs
      then (db, err constraint_violation)
      else execute io db (record db { jobs = db.jobs ++ job_row job ∷ [] }, tt)

  unfoldable pub enqueue : Io → WebhookJob Value → Db → Db × DbResult (Unit {0})
  unfolding insert_job
  enqueue io job db = insert_job io job db

  unfoldable pub fetch_due : Io → ℤ → ℤ → Db → DbResult (List (WebhookJob Value))
  fetch_due io now limit db = query io (map_rows row_to_job (due_rows (to_rfc3339 now) limit db))

  abbrev pub text_of : Option ℤ → Option String
  text_of none = none
  text_of (some t) = some (to_rfc3339 t)

  unfoldable pub record_attempt : Io → Uuid → ℕ → Option ℤ → Db → Db × DbResult (Unit {0})
  record_attempt io id attempts next_retry_at db = execute io db (
    record db {
      jobs = update (has_id (to_string id)) (set_attempts attempts (text_of next_retry_at)) db.jobs;
    },
    tt,
  )

  unfoldable pub mark_delivered : Io → Uuid → Db → Db × DbResult (Unit {0})
  mark_delivered io id db =
      execute io db (record db { jobs = update (has_id (to_string id)) set_delivered db.jobs }, tt)

  -- The row that `move_to_dlq` adds; `entry_id` is fresh, `now` the clock's time.
  abbrev pub dlq_row : ℤ → Uuid → WebhookJob Value → String → DlqRow
  dlq_row now entry_id job error = record {
    id = to_string entry_id;
    job_id = to_string job.id;
    payload = print job.payload;
    destination = job.destination;
    attempts = job.attempts;
    last_error = error;
    moved_at = to_rfc3339 now;
  }

  abbrev pub delete_job : Io → Uuid → Db → Db × DbResult (Unit {0})
  delete_job io id db =
      execute io db (record db { jobs = delete (has_id (to_string id)) db.jobs }, tt)

  -- The two statements stand in no transaction: `io` answers the INSERT, `io'` the DELETE.
  unfoldable pub move_to_dlq :
      Io → Io → ℤ → Uuid → WebhookJob Value → String → Db → Db × DbResult (Unit {0})
  move_to_dlq (some e) io' now entry_id job error db = (db, err e)
  move_to_dlq none io' now entry_id job error db =
      if any (has_entry_id (to_string entry_id)) db.dead_letters
      then (db, err constraint_violation)
      else delete_job io' job.id
          (record db { dead_letters = db.dead_letters ++ dlq_row now entry_id job error ∷ [] })

  unfoldable pub list_dlq : Io → Db → DbResult (List (DqlEntry Value))
  list_dlq io db = query io (map_rows row_to_dlq (order_by newer db.dead_letters))

  -- `query_row(...).optional()`
  abbrev pub optional : Option DlqRow → DbResult (Option (DqlEntry Value))
  optional none = ok none
  optional (some r) = row_to_dlq r >>= λ e. ok (some e)

  unfoldable pub get_dlq : Io → Uuid → Db → DbResult (Option (DqlEntry Value))
  unfolding row_to_dlq
  get_dlq io entry_id db =
      query io (optional (select_first (has_entry_id (to_string entry_id)) db.dead_letters))

  -- The job that a dead-letter entry becomes.
  abbrev pub redelivered : ℤ → Uuid → ℕ → DqlEntry Value → WebhookJob Value
  redelivered now id max_attempts e = record {
    id = id;
    payload = e.payload;
    destination = e.destination;
    attempts = 0;
    max_attempts = max_attempts;
    next_attempt_at = now;
    created_at = now;
    status = pending;
  }

  abbrev pub delete_entry :
      Io
      → Uuid
      → WebhookJob Value
      → Db × DbResult (Unit {0})
      → Db × DbResult (Option (WebhookJob Value))
  delete_entry io entry_id job (db, err e) = (db, err e)
  delete_entry io entry_id job (db, ok u) = execute io db (
    record db { dead_letters = delete (has_entry_id (to_string entry_id)) db.dead_letters },
    some job,
  )

  unfoldable pub redeliver_entry :
      Io
      → Io
      → ℤ
      → Uuid
      → Uuid
      → ℕ
      → DbResult (Option (DqlEntry Value))
      → Db
      → Db × DbResult (Option (WebhookJob Value))
  unfolding insert_job
  redeliver_entry io io' now id entry_id max_attempts (err e) db = (db, err e)
  redeliver_entry io io' now id entry_id max_attempts (ok none) db = (db, ok none)
  redeliver_entry io io' now id entry_id max_attempts (ok (some e)) db =
      let job = redelivered now id max_attempts e in
      delete_entry io' entry_id job (insert_job io job db)

  -- `io0`, `io` and `io'` answer the SELECT, the INSERT and the DELETE.
  unfoldable pub redeliver :
      Io → Io → Io → ℤ → Uuid → Uuid → ℕ → Db → Db × DbResult (Option (WebhookJob Value))
  unfolding get_dlq redeliver_entry
  redeliver io0 io io' now id entry_id max_attempts db =
      redeliver_entry io io' now id entry_id max_attempts (get_dlq io0 entry_id db) db

unfoldable pub pending_count : Io → Db → DbResult ℕ
pending_count io db = query io (ok (count_if (λ r. str_eq (JobRow.status r) "Pending") db.jobs))

-- ===== src/K/Db.antt =====
-- k/webhook-delivery/src/db.rs over the table of migrations/.
-- The table is the list of its rows; a method takes what the engine answers to each statement, and a
-- statement that fails leaves the table as it was. Rows that ORDER BY leaves tied keep their order of
-- insertion. No statement writes a negative `attempts`.
use benchmark_rust_llms.Prelude.{
  limited, String, Bool, true, false, none, some, ℕ, ◌+◌, ◌-◌, ◌^◌, Option, List, [], ◌∷◌, ◌++◌,
  ◌&&◌, ◌||◌, ok, err, Result, ℤ, pos, negsuc, map_rows, select, select_first, count_if, update,
  any, map, take, length, order_by, ltb, str_eq, if◌then◌else◌, as_bytes, bytes_leb, ok_or, ◌>>=◌,
}
use benchmark_rust_llms.Q.Model.{Uuid, UuidText}
use benchmark_rust_llms.K.Model.{
  AnyError, engine, row_not_found, decode_failure, json_failure, from_str, TimeText, JsonText, Job,
}
pub mod Claims
pub mod Calls
pub mod Durable
pub mod Requeue

-- A row of `jobs`, in the columns' own types.
pub record JobRow : Type 0 where
  pub id : String
  pub destination : String
  pub payload : String
  pub status : String
  pub attempts : ℕ
  pub max_attempts : ℤ
  pub next_attempt_at : String
  pub last_error : Option String
  pub created_at : String
  pub updated_at : String

-- The engine's answer to a statement.
abbrev pub Io : Type 0
Io = Option AnyError

abbrev pub Table : Type 0
Table = List JobRow

abbrev pub execute {ℓ} : {A : Type ℓ} → Io → Table → Table × A → Table × Result AnyError A
execute none db (db', a) = (db', ok a)
execute (some e) db r = (db, err e)

abbrev pub query {ℓ} : {A : Type ℓ} → Io → Result AnyError A → Result AnyError A
query none r = r
query (some e) r = err e

-- `try_get` of an i64: a sum past i64::MAX is stored as a REAL, which is an error.
abbrev pub get_i64 : ℕ → Result AnyError ℕ
get_i64 n = if ltb n (2 ^ 63) then ok n else err decode_failure

-- Texts compare by their bytes.
abbrev pub text_leb : String → String → Bool
text_leb s t = bytes_leb (as_bytes s) (as_bytes t)

abbrev pub has_id : String → JobRow → Bool
has_id i r = str_eq r.id i

abbrev pub has_status : String → JobRow → Bool
has_status s r = str_eq r.status s

-- WHERE id = ? AND status = 'dead'
abbrev pub is_dead : String → JobRow → Bool
is_dead i r = has_id i r && has_status "dead" r

-- WHERE status = 'pending' AND next_attempt_at <= ?
abbrev pub is_due : String → JobRow → Bool
is_due now r = has_status "pending" r && text_leb r.next_attempt_at now

-- ORDER BY next_attempt_at
abbrev pub due_before : JobRow → JobRow → Bool
due_before a b = text_leb a.next_attempt_at b.next_attempt_at

-- ORDER BY updated_at DESC
abbrev pub newer : JobRow → JobRow → Bool
newer a b = text_leb b.updated_at a.updated_at

-- The SET of `claim_due_jobs`.
abbrev pub set_in_flight : String → JobRow → JobRow
set_in_flight now r = record r { status = "in_flight"; attempts = r.attempts + 1; updated_at = now }

abbrev pub set_delivered : String → JobRow → JobRow
set_delivered now r = record r { status = "delivered"; last_error = none; updated_at = now }

abbrev pub set_rescheduled : String → String → String → JobRow → JobRow
set_rescheduled now next e r = record r {
  status = "pending";
  next_attempt_at = next;
  last_error = some e;
  updated_at = now;
}

abbrev pub set_dead : String → String → JobRow → JobRow
set_dead now e r = record r { status = "dead"; last_error = some e; updated_at = now }

abbrev pub set_requeued : String → JobRow → JobRow
set_requeued now r = record r {
  status = "pending";
  attempts = 0;
  next_attempt_at = now;
  last_error = none;
  updated_at = now;
}

-- The ids that the SELECT of `claim_due_jobs` returns.
abbrev pub due_ids : String → ℤ → Table → List String
due_ids now limit db =
    map (λ r. JobRow.id r) (limited limit (order_by due_before (select (is_due now) db)))

-- What the engine answers in `claim_due_jobs`: to BEGIN, the SELECT, the UPDATE of an id, COMMIT.
pub record ClaimIo : Type 0 where
  pub begins : Io
  pub selects : Io
  pub updates : String → Io
  pub commits : Io

module _ (uuid : UuidText) (time : TimeText) {Value : Type 0} (json : JsonText Value) where
  open uuid use {to_string, parse_str}
  open time use {fmt_ts, parse_from_rfc3339}
  open json use {to_text, from_text}

  abbrev pub parse_ts : String → Result AnyError ℤ
  parse_ts s = ok_or (parse_from_rfc3339 s) decode_failure

  unfoldable pub row_to_job : JobRow → Result AnyError (Job Value)
  row_to_job r = do
    attempts ← get_i64 r.attempts
    id ← ok_or (parse_str r.id) decode_failure
    payload ← ok_or (from_text r.payload) json_failure
    status ← from_str r.status
    next_attempt_at ← parse_ts r.next_attempt_at
    created_at ← parse_ts r.created_at
    updated_at ← parse_ts r.updated_at
    ok (record {
      id = id;
      destination = r.destination;
      payload = payload;
      status = status;
      attempts = attempts;
      max_attempts = r.max_attempts;
      next_attempt_at = next_attempt_at;
      last_error = r.last_error;
      created_at = created_at;
      updated_at = updated_at;
    })

  -- The row that `insert_job` writes.
  abbrev pub new_row : String → Uuid → String → String → ℤ → JobRow
  new_row now id destination payload max_attempts = record {
    id = to_string id;
    destination = destination;
    payload = payload;
    status = "pending";
    attempts = 0;
    max_attempts = max_attempts;
    next_attempt_at = now;
    last_error = none;
    created_at = now;
    updated_at = now;
  }

  -- The INSERT of a payload's text; the id is the PRIMARY KEY.
  unfoldable pub insert_text :
      Io → ℤ → Uuid → String → ℤ → Table → Result String String → Table × Result AnyError (Unit {0})
  insert_text io now id destination max_attempts db (err e) = (db, err json_failure)
  insert_text io now id destination max_attempts db (ok text) =
      if any (has_id (to_string id)) db
      then (db, err (engine "UNIQUE constraint failed: jobs.id"))
      else execute io db (db ++ new_row (fmt_ts now) id destination text max_attempts ∷ [], tt)

  -- `now` is the clock's time.
  unfoldable pub insert_job :
      Io → ℤ → Uuid → String → Value → ℤ → Table → Table × Result AnyError (Unit {0})
  unfolding insert_text
  insert_job io now id destination payload max_attempts db =
      insert_text io now id destination max_attempts db (to_text payload)

  -- `fetch_one` of the UPDATE ... RETURNING: the row as written.
  abbrev pub returned : Io → Option JobRow → Result AnyError (Job Value)
  returned (some e) row = err e
  returned none none = err row_not_found
  returned none (some r) = row_to_job r

  -- The loop over the selected ids, inside the transaction.
  unfoldable pub claim_each :
      (String → Io) → String → List String → Table → Result AnyError (Table × List (Job Value))
  claim_each io now [] db = ok (db, [])
  claim_each io now (id ∷ ids) db =
      let db' = update (has_id id) (set_in_flight now) db in
      returned (io id) (select_first (has_id id) db') >>= λ job.
      claim_each io now ids db' >>= λ r. ok (r.0, job ∷ r.1)

  -- The transaction's end: an error before it, or of it, rolls the table back.
  abbrev pub committed :
      Io
      → Table
      → Result AnyError (Table × List (Job Value))
      → Table × Result AnyError (List (Job Value))
  committed io db (err e) = (db, err e)
  committed io db (ok r) = execute io db r

  abbrev pub begun : Io → Result AnyError (List String) → Result AnyError (List String)
  begun none r = r
  begun (some e) r = err e

  unfoldable pub claim_due_jobs :
      ClaimIo → ℤ → ℤ → Table → Table × Result AnyError (List (Job Value))
  unfolding claim_each
  claim_due_jobs io now limit db = committed io.commits db (
      begun io.begins (query io.selects (ok (due_ids (fmt_ts now) limit db))) >>= λ ids.
      claim_each io.updates (fmt_ts now) ids db)

  unfoldable pub mark_delivered : Io → ℤ → Uuid → Table → Table × Result AnyError (Unit {0})
  mark_delivered io now id db =
      execute io db (update (has_id (to_string id)) (set_delivered (fmt_ts now)) db, tt)

  unfoldable pub reschedule_job :
      Io → ℤ → Uuid → ℤ → String → Table → Table × Result AnyError (Unit {0})
  reschedule_job io now id next e db =
      execute io db
        (update (has_id (to_string id)) (set_rescheduled (fmt_ts now) (fmt_ts next) e) db, tt)

  unfoldable pub mark_dead : Io → ℤ → Uuid → String → Table → Table × Result AnyError (Unit {0})
  mark_dead io now id e db =
      execute io db (update (has_id (to_string id)) (set_dead (fmt_ts now) e) db, tt)

  unfoldable pub list_dead : Io → ℤ → Table → Result AnyError (List (Job Value))
  list_dead io limit db =
      query io
        (map_rows row_to_job (limited limit (order_by newer (select (has_status "dead") db))))

  unfoldable pub requeue_dead : Io → ℤ → Uuid → Table → Table × Result AnyError Bool
  requeue_dead io now id db =
      let p = is_dead (to_string id) in
      execute io db (update p (set_requeued (fmt_ts now)) db, ltb 0 (count_if p db))

-- ===== src/Q/Db/Rows.antt =====
-- q/src/db.rs: the tables of the DDL, the errors, the WHERE clauses, and the conversion of rows.
-- Rows that ORDER BY leaves tied keep their order of insertion.
use benchmark_rust_llms.Prelude.{
  ℕ, ◌-◌, ◌^◌, String, Option, none, some, List, [], Bool, true, false, ◌&&◌, ltb, if◌then◌else◌,
  str_eq, ℤ, leb_ℤ, Result, ok, err, ◌>>=◌, ok_or, as_bytes, bytes_leb,
}
use benchmark_rust_llms.Q.Model.{Uuid, UuidText, Delivery, DlqEntry, parse}

-- A row of `deliveries`, in the columns' own types. No statement writes a negative counter.
pub record DeliveryRow : Type 0 where
  pub id : String
  pub idempotency_key : Option String
  pub destination : String
  pub payload : List ℕ
  pub status : String
  pub attempts : ℕ
  pub max_attempts : ℕ
  pub next_retry_at : ℤ
  pub last_error : Option String
  pub created_at : ℤ
  pub updated_at : ℤ

pub record DlqRow : Type 0 where
  pub id : String
  pub delivery_id : String
  pub destination : String
  pub payload : List ℕ
  pub attempts : ℕ
  pub last_error : Option String
  pub dead_lettered_at : ℤ

pub record Db : Type 0 where
  pub deliveries : List DeliveryRow
  pub dead_letters : List DlqRow

-- What the engine, or the conversion of a row, reports.
pub data SqliteError : Type 0 where
  constraint_violation : SqliteError
  conversion_failure : SqliteError
  engine_failure : String → SqliteError

abbrev pub is_constraint_error : SqliteError → Bool
is_constraint_error constraint_violation = true
is_constraint_error _ = false

pub data DbError : Type 0 where
  sqlite : SqliteError → DbError
  idempotency_conflict : Uuid → DbError

abbrev pub DbResult : Type 0 → Type 0
DbResult A = Result DbError A

-- The engine's answer to a statement.
abbrev pub Io : Type 0
Io = Option SqliteError

-- `conn.execute(...)?`: a failed statement changes nothing and is passed on.
abbrev pub execute {ℓ} : {A : Type ℓ} → Io → Db → Db × A → Db × Result DbError A
execute none db (db', a) = (db', ok a)
execute (some e) db r = (db, err (sqlite e))

-- A query leaves the tables alone.
abbrev pub query {ℓ} : {A : Type ℓ} → Io → Result SqliteError A → Result DbError A
query none (ok a) = ok a
query none (err e) = err (sqlite e)
query (some e) r = err (sqlite e)

-- `query_row(...).optional()`
abbrev pub optional {ℓ κ} :
    {A : Type ℓ} {B : Type κ}
    → (A → Result SqliteError B)
    → Option A
    → Result SqliteError (Option B)
optional f none = ok none
optional f (some a) = f a >>= λ b. ok (some b)

-- `r.get::<_, i32>`: a value that an i32 cannot hold is an error.
unfoldable pub get_i32 : ℕ → Result SqliteError ℕ
get_i32 n = if ltb n (2 ^ 31) then ok n else err conversion_failure

-- `i64::try_from(n).unwrap_or(i64::MAX)`
abbrev pub clamp_i64 : ℕ → ℕ
clamp_i64 n = if ltb n (2 ^ 63) then n else 2 ^ 63 - 1

-- `i64::try_from(n).unwrap_or(0)`
abbrev pub offset_i64 : ℕ → ℕ
offset_i64 n = if ltb n (2 ^ 63) then n else 0

-- ORDER BY next_retry_at ASC
abbrev pub due_before : DeliveryRow → DeliveryRow → Bool
due_before a b = leb_ℤ a.next_retry_at b.next_retry_at

-- ORDER BY dead_lettered_at ASC, id ASC
abbrev pub listed_before : DlqRow → DlqRow → Bool
listed_before a b =
    if leb_ℤ b.dead_lettered_at a.dead_lettered_at
    then leb_ℤ a.dead_lettered_at b.dead_lettered_at && bytes_leb (as_bytes a.id) (as_bytes b.id)
    else true

-- WHERE status = ?
abbrev pub has_status : String → DeliveryRow → Bool
has_status s r = str_eq r.status s

-- WHERE id = ?
abbrev pub has_id : String → DeliveryRow → Bool
has_id i r = str_eq r.id i

abbrev pub has_entry_id : String → DlqRow → Bool
has_entry_id i q = str_eq q.id i

-- WHERE id = ? AND status = ?
abbrev pub has_id_status : String → String → DeliveryRow → Bool
has_id_status i s r = has_id i r && has_status s r

-- WHERE idempotency_key = ?: NULL equals nothing.
abbrev pub key_is : Option String → Option String → Bool
key_is (some k) (some j) = str_eq j k
key_is (some k) none = false
key_is none j = false

abbrev pub has_key : Option String → DeliveryRow → Bool
has_key k r = key_is k r.idempotency_key

-- WHERE status = 'pending' AND next_retry_at <= ?
abbrev pub is_due : ℤ → DeliveryRow → Bool
is_due now r = has_status "pending" r && leb_ℤ r.next_retry_at now

-- The tables after `Db::new` on a new file.
abbrev pub empty : Db
empty = record { deliveries = []; dead_letters = [] }

module _ (uuid : UuidText) where
  open uuid use {to_string, parse_str}

  unfoldable pub parse_uuid : String → Result SqliteError Uuid
  parse_uuid s = ok_or (parse_str s) conversion_failure

  unfoldable pub map_delivery : DeliveryRow → Result SqliteError Delivery
  unfolding parse_uuid
  map_delivery r = do
    status ← ok_or (parse r.status) conversion_failure
    id ← parse_uuid r.id
    attempts ← get_i32 r.attempts
    max_attempts ← get_i32 r.max_attempts
    ok (record {
      id = id;
      idempotency_key = r.idempotency_key;
      destination = r.destination;
      payload = r.payload;
      status = status;
      attempts = attempts;
      max_attempts = max_attempts;
      next_retry_at = r.next_retry_at;
      last_error = r.last_error;
      created_at = r.created_at;
      updated_at = r.updated_at;
    })

  -- The row conversion that `list_dead_letters` and `find_dlq_entry` share.
  unfoldable pub map_dlq : DlqRow → Result SqliteError DlqEntry
  unfolding parse_uuid
  map_dlq r = do
    id ← parse_uuid r.id
    attempts ← get_i32 r.attempts
    ok (record {
      id = id;
      delivery_id = r.delivery_id;
      destination = r.destination;
      payload = r.payload;
      attempts = attempts;
      last_error = r.last_error;
      dead_lettered_at = r.dead_lettered_at;
    })

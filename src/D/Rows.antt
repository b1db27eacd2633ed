-- ===== src/D/Rows.antt =====
-- The rows of the two tables of d/src/db.rs, the engine's answers, and the tests and assignments of
-- the statements.
use benchmark_rust_llms.Prelude.{
  limited, ℕ, ◌%◌, ◌^◌, String, Option, none, some, List, Bool, ◌&&◌, str_eq, ℤ, as_bytes,
  bytes_leb, Result, ok, err, select, order_by,
}

-- A row of `jobs`, in the columns' own types.
pub record JobRow : Type 0 where
  pub id : String
  pub payload : String
  pub destination : String
  pub attempts : ℕ
  pub max_attempts : ℕ
  pub next_attempt_at : String
  pub created_at : String
  pub status : String

pub record DlqRow : Type 0 where
  pub id : String
  pub job_id : String
  pub payload : String
  pub destination : String
  pub attempts : ℕ
  pub last_error : String
  pub moved_at : String

pub record Db : Type 0 where
  pub jobs : List JobRow
  pub dead_letters : List DlqRow

-- What the engine, or the conversion of a row, reports.
pub data SqliteError : Type 0 where
  engine_failure : String → SqliteError
  constraint_violation conversion_failure : SqliteError

-- The engine's answer to a statement.
abbrev pub Io : Type 0
Io = Option SqliteError

abbrev pub DbResult : Type 0 → Type 0
DbResult A = Result SqliteError A

abbrev pub execute {ℓ} : {A : Type ℓ} → Io → Db → Db × A → Db × Result SqliteError A
execute none db (db', a) = (db', ok a)
execute (some e) db r = (db, err e)

abbrev pub query {ℓ} : {A : Type ℓ} → Io → Result SqliteError A → Result SqliteError A
query none r = r
query (some e) r = err e

-- `x as u32` of an i64
abbrev pub as_u32 : ℕ → ℕ
as_u32 n = n % 2 ^ 32

-- Texts compare by their bytes.
abbrev pub text_leb : String → String → Bool
text_leb s t = bytes_leb (as_bytes s) (as_bytes t)

abbrev pub has_id : String → JobRow → Bool
has_id i r = str_eq r.id i

abbrev pub has_entry_id : String → DlqRow → Bool
has_entry_id i q = str_eq q.id i

-- WHERE status='Pending' AND next_attempt_at <= ?
abbrev pub is_due : String → JobRow → Bool
is_due now r = str_eq r.status "Pending" && text_leb r.next_attempt_at now

-- ORDER BY next_attempt_at
abbrev pub due_before : JobRow → JobRow → Bool
due_before a b = text_leb a.next_attempt_at b.next_attempt_at

-- ORDER BY moved_at DESC
abbrev pub newer : DlqRow → DlqRow → Bool
newer a b = text_leb b.moved_at a.moved_at

-- The rows that the SELECT of `fetch_due` returns.
abbrev pub due_rows : String → ℤ → Db → List JobRow
due_rows now limit db = limited limit (order_by due_before (select (is_due now) db.jobs))

abbrev pub set_attempts : ℕ → Option String → JobRow → JobRow
set_attempts attempts none r = record r { attempts = attempts }
set_attempts attempts (some next) r = record r { attempts = attempts; next_attempt_at = next }

abbrev pub set_delivered : JobRow → JobRow
set_delivered r = record r { status = "Delivered" }

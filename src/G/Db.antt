-- ===== src/G/Db.antt =====
-- The statements on the table of g/src/db.rs, and `reset_processing`.
-- The table is the list of its rows; a function takes what the engine answers to each statement, and
-- a statement that fails leaves the table as it was. Rows that ORDER BY leaves tied keep their order
-- of insertion, and RETURNING lists rows in the order of the table.
use benchmark_rust_llms.Prelude.{
  ℕ, String, Option, none, some, List, Bool, str_eq, ℤ, Result, ok, err, update, count_if,
}
use benchmark_rust_llms.G.Model.{DeliveryRow, status_processing, status_pending}

pub data SqlxError : Type 0 where
  engine_failure : String → SqlxError
  constraint_violation : SqlxError

-- The engine's answer to a statement.
abbrev pub Io : Type 0
Io = Option SqlxError

abbrev pub Table : Type 0
Table = List DeliveryRow

abbrev pub execute {ℓ} : {A : Type ℓ} → Io → Table → Table × A → Table × Result SqlxError A
execute none db (db', a) = (db', ok a)
execute (some e) db r = (db, err e)

abbrev pub query {ℓ} : {A : Type ℓ} → Io → A → Result SqlxError A
query none a = ok a
query (some e) a = err e

abbrev pub has_id : String → DeliveryRow → Bool
has_id i r = str_eq r.id i

abbrev pub has_status : String → DeliveryRow → Bool
has_status s r = str_eq r.status s

abbrev pub set_pending : ℤ → DeliveryRow → DeliveryRow
set_pending now r = record r { status = status_pending; updated_at = now }

-- `now` is the clock's time; the answer is the count of rows.
unfoldable pub reset_processing : Io → ℤ → Table → Table × Result SqlxError ℕ
reset_processing io now db =
    let p = has_status status_processing in
    execute io db (update p (set_pending now) db, count_if p db)

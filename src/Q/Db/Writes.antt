-- ===== src/Q/Db/Writes.antt =====
-- q/src/db.rs: the methods of `Db` that write.
-- A method takes `io`, what the engine answers to its statement: nothing, or an error that leaves
-- the tables as they were. The clock and fresh ids are arguments.
use benchmark_rust_llms.Prelude.{
  ℕ, ◌+◌, String, Option, none, some, [], ◌∷◌, ◌++◌, Bool, ◌&&◌, ◌||◌, ◌==◌, if◌then◌else◌, ℤ,
  leb_ℤ, ◌-ℤ◌, ok, err, select_first, update, count_if, any,
}
use benchmark_rust_llms.Q.Model.{Uuid, UuidText, NewDelivery, DlqEntry}
use benchmark_rust_llms.Q.Db.Rows.{
  DeliveryRow, DlqRow, Db, SqliteError, constraint_violation, is_constraint_error, DbError, sqlite,
  idempotency_conflict, DbResult, Io, execute, get_i32, has_status, has_id, has_entry_id,
  has_id_status, has_key, parse_uuid,
}

abbrev pub set_in_flight : ℤ → DeliveryRow → DeliveryRow
set_in_flight now r = record r { status = "in_flight"; updated_at = now }

abbrev pub set_delivered : ℤ → DeliveryRow → DeliveryRow
set_delivered now r = record r {
  status = "delivered";
  attempts = r.attempts + 1;
  last_error = none;
  updated_at = now;
}

abbrev pub set_retry : ℤ → ℤ → String → DeliveryRow → DeliveryRow
set_retry now next_ms e r = record r {
  status = "pending";
  attempts = r.attempts + 1;
  next_retry_at = next_ms;
  last_error = some e;
  updated_at = now;
}

abbrev pub set_dead_letter : ℤ → String → DeliveryRow → DeliveryRow
set_dead_letter now e r = record r { status = "dead_letter"; last_error = some e; updated_at = now }

abbrev pub set_replayed : ℤ → DeliveryRow → DeliveryRow
set_replayed now r = record r {
  status = "pending";
  attempts = 0;
  next_retry_at = now;
  last_error = none;
  updated_at = now;
}

abbrev pub set_requeued : ℤ → DeliveryRow → DeliveryRow
set_requeued now r = record r { status = "pending"; next_retry_at = now; updated_at = now }

abbrev pub set_for_test : ℤ → DeliveryRow → DeliveryRow
set_for_test at r = record r { status = "in_flight"; updated_at = at; attempts = 1 }

-- WHERE status = 'in_flight' AND updated_at <= now - stale
abbrev pub is_stale : ℤ → ℤ → DeliveryRow → Bool
is_stale now stale r = has_status "in_flight" r && leb_ℤ r.updated_at (now -ℤ stale)

module _ (uuid : UuidText) where
  open uuid use {to_string}

  -- The row that `insert` writes.
  abbrev pub new_row : ℤ → NewDelivery → DeliveryRow
  new_row now d = record {
    id = to_string d.id;
    idempotency_key = d.idempotency_key;
    destination = d.destination;
    payload = d.payload;
    status = "pending";
    attempts = 0;
    max_attempts = d.max_attempts;
    next_retry_at = now;
    last_error = none;
    created_at = now;
    updated_at = now;
  }

  -- PRIMARY KEY on id, UNIQUE on idempotency_key.
  abbrev pub violates : NewDelivery → DeliveryRow → Bool
  violates d r = has_id (to_string d.id) r || has_key d.idempotency_key r

  -- The answer to a violated constraint: look for the delivery that has the key.
  unfoldable pub conflict : Io → SqliteError → Option DeliveryRow → DbError
  unfolding parse_uuid
  conflict (some e') e found = sqlite e'
  conflict none e none = sqlite e
  conflict none e (some r) = elim (parse_uuid uuid r.id) [
    | ok id ↦ idempotency_conflict id
    | err e' ↦ sqlite e'
  ]

  -- What the engine answers to the INSERT.
  abbrev pub insert_answer : Io → NewDelivery → Db → Io
  insert_answer (some e) d db = some e
  insert_answer none d db =
      if any (violates d) db.deliveries then some constraint_violation else none

  unfoldable pub inserted : Io → Io → ℤ → NewDelivery → Db → Db × DbResult (Unit {0})
  unfolding conflict
  inserted none io' now d db =
      (record db { deliveries = db.deliveries ++ new_row now d ∷ [] }, ok tt)
  inserted (some e) io' now d db =
      if is_constraint_error e
      then (db, err (conflict io' e (select_first (has_key d.idempotency_key) db.deliveries)))
      else (db, err (sqlite e))

  -- `io` answers the INSERT, `io'` the SELECT after a conflict.
  unfoldable pub insert : Io → Io → ℤ → NewDelivery → Db → Db × DbResult (Unit {0})
  unfolding inserted
  insert io io' now d db = inserted (insert_answer io d db) io' now d db

  unfoldable pub claim : Io → ℤ → Uuid → Db → Db × DbResult Bool
  claim io now id db =
      let p = has_id_status (to_string id) "pending" in
      execute io db (
        record db { deliveries = update p (set_in_flight now) db.deliveries },
        count_if p db.deliveries == 1,
      )

  unfoldable pub mark_delivered : Io → ℤ → Uuid → Db → Db × DbResult (Unit {0})
  mark_delivered io now id db = execute io db (
    record db { deliveries = update (has_id (to_string id)) (set_delivered now) db.deliveries },
    tt,
  )

  unfoldable pub schedule_retry : Io → ℤ → Uuid → ℤ → String → Db → Db × DbResult (Unit {0})
  schedule_retry io now id next_ms e db = execute io db (
    record db {
      deliveries = update (has_id (to_string id)) (set_retry now next_ms e) db.deliveries;
    },
    tt,
  )

  -- The row that the transaction adds to `dead_letters`.
  abbrev pub dlq_row : ℤ → Uuid → Uuid → String → DeliveryRow → DlqRow
  dlq_row now entry_id id e r = record {
    id = to_string entry_id;
    delivery_id = to_string id;
    destination = r.destination;
    payload = r.payload;
    attempts = r.attempts;
    last_error = some e;
    dead_lettered_at = now;
  }

  -- The entry that `dead_letter` returns.
  abbrev pub dlq_entry : ℤ → Uuid → Uuid → String → DeliveryRow → DlqEntry
  dlq_entry now entry_id id e r = record {
    id = entry_id;
    delivery_id = to_string id;
    destination = r.destination;
    payload = r.payload;
    attempts = r.attempts;
    last_error = some e;
    dead_lettered_at = now;
  }

  -- The transaction: the UPDATE and the INSERT together, or neither.
  unfoldable pub move_to_dlq :
      Io → ℤ → Uuid → Uuid → String → DeliveryRow → Db → Db × DbResult (Option DlqEntry)
  move_to_dlq io now entry_id id e r db =
      if any (has_entry_id (to_string entry_id)) db.dead_letters
      then (db, err (sqlite constraint_violation))
      else execute io db (
        record {
          deliveries = update (has_id (to_string id)) (set_dead_letter now e) db.deliveries;
          dead_letters = db.dead_letters ++ dlq_row now entry_id id e r ∷ [];
        },
        some (dlq_entry now entry_id id e r),
      )

  unfoldable pub dead_letter_row :
      Io → ℤ → Uuid → Uuid → String → Option DeliveryRow → Db → Db × DbResult (Option DlqEntry)
  unfolding move_to_dlq get_i32
  dead_letter_row io now entry_id id e none db = (db, ok none)
  dead_letter_row io now entry_id id e (some r) db = elim (get_i32 r.attempts) [
    | err e' ↦ (db, err (sqlite e'))
    | ok n ↦ move_to_dlq io now entry_id id e r db
  ]

  -- `io` answers the SELECT, `io'` the transaction.
  unfoldable pub dead_letter :
      Io → Io → ℤ → Uuid → Uuid → String → Db → Db × DbResult (Option DlqEntry)
  unfolding dead_letter_row
  dead_letter (some e') io' now entry_id id e db = (db, err (sqlite e'))
  dead_letter none io' now entry_id id e db =
      dead_letter_row io' now entry_id id e (select_first (has_id (to_string id)) db.deliveries) db

  unfoldable pub replay_dead_letter : Io → ℤ → Uuid → Db → Db × DbResult Bool
  replay_dead_letter io now id db =
      let p = has_id_status (to_string id) "dead_letter" in
      execute io db (
        record db { deliveries = update p (set_replayed now) db.deliveries },
        count_if p db.deliveries == 1,
      )

  unfoldable pub set_in_flight_stale_for_test : Io → Uuid → ℤ → Db → Db × DbResult (Unit {0})
  set_in_flight_stale_for_test io id at db = execute io db (
    record db { deliveries = update (has_id (to_string id)) (set_for_test at) db.deliveries },
    tt,
  )

unfoldable pub reset_stale_in_flight : Io → ℤ → ℤ → Db → Db × DbResult ℕ
reset_stale_in_flight io now stale db = execute io db (
  record db { deliveries = update (is_stale now stale) (set_requeued now) db.deliveries },
  count_if (is_stale now stale) db.deliveries,
)

-- ===== src/Q/Db/Reads.antt =====
-- q/src/db.rs: the methods of `Db` that read. `io` is the engine's answer, as in Q/Db/Writes.antt.
use benchmark_rust_llms.Prelude.{
  Bool, true, false, none, some, ℕ, Option, List, ok, ℤ, map_rows, select, select_first, count_if,
  take, drop, length, order_by,
}
use benchmark_rust_llms.Q.Model.{Uuid, UuidText, Delivery, DlqEntry, Stats}
use benchmark_rust_llms.Q.Db.Rows.{
  DeliveryRow, DlqRow, Db, DbResult, Io, query, optional, clamp_i64, offset_i64, due_before,
  listed_before, has_status, has_id, has_entry_id, is_due, map_delivery, map_dlq,
}

-- The rows that the SELECT of `list_due` returns.
abbrev pub due_rows : ℤ → ℕ → Db → List DeliveryRow
due_rows now limit db =
    take (clamp_i64 limit) (order_by due_before (select (is_due now) db.deliveries))

-- The rows that the SELECT of `list_dead_letters` returns.
abbrev pub listed_rows : ℕ → ℕ → Db → List DlqRow
listed_rows limit offset db =
    take (clamp_i64 limit) (drop (offset_i64 offset) (order_by listed_before db.dead_letters))

module _ (uuid : UuidText) where
  open uuid use {to_string}

  unfoldable pub find : Io → Uuid → Db → DbResult (Option Delivery)
  unfolding map_delivery
  find io id db =
      query io (optional (map_delivery uuid) (select_first (has_id (to_string id)) db.deliveries))

  unfoldable pub list_due : Io → ℤ → ℕ → Db → DbResult (List Delivery)
  list_due io now limit db = query io (map_rows (map_delivery uuid) (due_rows now limit db))

  unfoldable pub list_dead_letters : Io → ℕ → ℕ → Db → DbResult (List DlqEntry)
  list_dead_letters io limit offset db =
      query io (map_rows (map_dlq uuid) (listed_rows limit offset db))

  unfoldable pub find_dlq_entry : Io → Uuid → Db → DbResult (Option DlqEntry)
  unfolding map_dlq
  find_dlq_entry io id db =
      query io
        (optional (map_dlq uuid) (select_first (has_entry_id (to_string id)) db.dead_letters))

unfoldable pub stats : Io → Db → DbResult Stats
stats io db = query io (
    ok (record {
      submitted = length db.deliveries;
      delivered = count_if (has_status "delivered") db.deliveries;
      dead_lettered = count_if (has_status "dead_letter") db.deliveries;
      pending = count_if (has_status "pending") db.deliveries;
      in_flight = count_if (has_status "in_flight") db.deliveries;
      dead_letters = length db.dead_letters;
    }))

-- `SELECT 1`
unfoldable pub ping : Io → Bool
ping none = true
ping (some e) = false

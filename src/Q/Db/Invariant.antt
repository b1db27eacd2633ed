-- ===== src/Q/Db/Invariant.antt =====
-- The invariant of the two tables of q/src/db.rs, and what an UPDATE must leave alone.
pub mod Updates
pub mod Inserts
pub mod Histories
use benchmark_rust_llms.Prelude.{
  String, List, [], ◌∷◌, Bool, false, ◌||◌, ◌≡◌, sym, subst, inl, inr, All, Some, All-map, update,
  update-All, arith, Bool-cases, Option, any, select_first, str_eq, ℤ, ◌++◌, All-append, eq_iff,
  some, none, refl, Result-cases,
}
use benchmark_rust_llms.Q.Model.{
  Uuid, UuidText, DeliveryStatus, as_str, NewDelivery, pending, delivered, in_flight,
}
use benchmark_rust_llms.Q.Db.Rows.{
  DeliveryRow, DlqRow, Db, has_id, has_key, has_entry_id, Io, execute, key_is, empty, get_i32,
}
use benchmark_rust_llms.Q.Db.Writes.{
  insert, inserted, insert_answer, violates, new_row, move_to_dlq, set_dead_letter, set_delivered,
  set_for_test, set_in_flight, set_replayed, set_requeued, set_retry, dead_letter, dlq_row,
  dead_letter_row, claim, mark_delivered, schedule_retry, replay_dead_letter, reset_stale_in_flight,
  set_in_flight_stale_for_test,
}
use benchmark_rust_llms.Q.Db.Calls.{
  Call, inserts, claims, marks_delivered, schedules_retry, dead_letters, replays, resets_stale,
  ages_for_test, step, run,
}

-- Two rows that the PRIMARY KEY or the UNIQUE column would not let stand together.
abbrev pub clash : DeliveryRow → DeliveryRow → Bool
clash a b = has_id a.id b || has_key a.idempotency_key b

abbrev pub IsUnique : List DeliveryRow → Type 0
IsUnique [] = Unit
IsUnique (r ∷ rs) = All (λ s. clash r s ≡ false) rs × IsUnique rs

abbrev pub HasUniqueIds : List DlqRow → Type 0
HasUniqueIds [] = Unit
HasUniqueIds (q ∷ qs) = All (λ s. has_entry_id q.id s ≡ false) qs × HasUniqueIds qs

-- The status column holds one of the four words.
abbrev pub IsStatus : String → Type 0
IsStatus t = (s : DeliveryStatus) × (as_str s ≡ t)

module _ (uuid : UuidText) where
  open uuid use {to_string}

  abbrev pub IsId : String → Type 0
  IsId t = (u : Uuid) × (to_string u ≡ t)

  abbrev pub IsRow : DeliveryRow → Type 0
  IsRow r = IsId r.id × IsStatus r.status

  -- The entry names a delivery that is in the table.
  abbrev pub IsEntry : List DeliveryRow → DlqRow → Type 0
  IsEntry rs q = IsId q.id × IsId q.delivery_id × Some (λ r. r.id ≡ q.delivery_id) rs

  pub record IsWellFormed (db : Db) : Type 0 where
    pub rows : All IsRow db.deliveries
    pub unique : IsUnique db.deliveries
    pub entries : All (IsEntry db.deliveries) db.dead_letters
    pub unique_entries : HasUniqueIds db.dead_letters

-- An assignment that leaves the key columns alone and writes one of the four words.
pub record Keeps (f : DeliveryRow → DeliveryRow) : Type 0 where
  pub id : (r : DeliveryRow) → (f r).id ≡ r.id
  pub key : (r : DeliveryRow) → (f r).idempotency_key ≡ r.idempotency_key
  pub status : (r : DeliveryRow) → IsStatus (f r).status

-- ===== src/Q/Db/Cases.antt =====
-- Case rules for the writing methods of q/src/db.rs: what holds of both outcomes holds after the call.
use benchmark_rust_llms.Prelude.{
  String, Option, none, some, [], ◌∷◌, ◌++◌, false, ◌≡◌, refl, inl, inr, any, update, Bool-cases,
  Result-cases, ℤ, select_first,
}
use benchmark_rust_llms.Q.Model.{Uuid, UuidText, NewDelivery}
use benchmark_rust_llms.Q.Db.Rows.{
  DeliveryRow, Db, Io, execute, get_i32, has_entry_id, is_constraint_error, has_id,
}
use benchmark_rust_llms.Q.Db.Writes.{
  insert, inserted, violates, new_row, dead_letter, dead_letter_row, move_to_dlq, set_dead_letter,
  dlq_row,
}

-- A statement that fails leaves the tables as they were.
pub execute_cases {ℓ κ} :
    {A : Type ℓ} (P : Db → Type κ) (io : Io) (db db' : Db) (a : A)
    → P db
    → P db'
    → P (execute io db (db', a)).0
execute_cases P none db db' a h h' = h'
execute_cases P (some e) db db' a h h' = h

module _ (uuid : UuidText) where
  open uuid use {to_string}

  pub insert_cases {κ} :
      (P : Db → Type κ) (io io' : Io) (now : ℤ) (d : NewDelivery) (db : Db)
      → P db
      → (any (violates uuid d) db.deliveries ≡ false
          → P (record db { deliveries = db.deliveries ++ new_row uuid now d ∷ [] }))
      → P (insert uuid io io' now d db).0
  unfolding insert inserted
  insert_cases P (some e) io' now d db h h' = elim (Bool-cases (is_constraint_error e)) [
    | inl t ↦ rw t h
    | inr t ↦ rw t h
  ]
  insert_cases P none io' now d db h h' = elim (Bool-cases (any (violates uuid d) db.deliveries)) [
    | inl t ↦ rw t h
    | inr t ↦ rw t (h' t)
  ]

  -- The tables after the transaction of `dead_letter`.
  abbrev pub moved : ℤ → Uuid → Uuid → String → DeliveryRow → Db → Db
  moved now entry id e r db = record {
    deliveries = update (has_id (to_string id)) (set_dead_letter now e) db.deliveries;
    dead_letters = db.dead_letters ++ dlq_row uuid now entry id e r ∷ [];
  }

  dead_letter_row_cases {κ} :
      (P : Db → Type κ) (io : Io) (now : ℤ) (entry id : Uuid) (e : String) (o : Option DeliveryRow)
      (db : Db)
      → P db
      → ((r : DeliveryRow)
          → o ≡ some r
          → any (has_entry_id (to_string entry)) db.dead_letters ≡ false
          → P (moved now entry id e r db))
      → P (dead_letter_row uuid io now entry id e o db).0
  unfolding dead_letter_row move_to_dlq
  dead_letter_row_cases P io now entry id e none db h h' = h
  dead_letter_row_cases P io now entry id e (some r) db h h' =
      elim (Result-cases (get_i32 r.attempts)) [
        | inr (x, bad) ↦ rw (bad, dead_letter_row) h
        | inl (n, good) ↦
            rw (good, dead_letter_row)
              (elim (Bool-cases (any (has_entry_id (to_string entry)) db.dead_letters)) [
                | inl t ↦ rw t h
                | inr t ↦ rw t (execute_cases P io db _ _ h (h' r refl t))
              ])
      ]

  pub dead_letter_cases {κ} :
      (P : Db → Type κ) (io io' : Io) (now : ℤ) (entry id : Uuid) (e : String) (db : Db)
      → P db
      → ((r : DeliveryRow)
          → select_first (has_id (to_string id)) db.deliveries ≡ some r
          → any (has_entry_id (to_string entry)) db.dead_letters ≡ false
          → P (moved now entry id e r db))
      → P (dead_letter uuid io io' now entry id e db).0
  unfolding dead_letter
  dead_letter_cases P (some x) io' now entry id e db h h' = h
  dead_letter_cases P none io' now entry id e db h h' =
      dead_letter_row_cases P io' now entry id e
        (select_first (has_id (to_string id)) db.deliveries) db h h'

-- ===== src/Q/Db/Conflicts.antt =====
-- `insert` of q/src/db.rs: a delivery is added, or the table stays as it was and the error says why.
use benchmark_rust_llms.Prelude.{
  String, Option, none, some, [], ◌∷◌, ◌++◌, true, ◌≡◌, refl, sym, ◌⊎◌, inl, inr, ok, err,
  Bool-cases, Option-cases, Result-cases, any, ℤ, subst, Some, select_first, eq_iff, arith,
  select_first-Some, Some-imp, ok_or-ok, select_first-holds,
}
use benchmark_rust_llms.Q.Model.{Uuid, UuidText, NewDelivery}
use benchmark_rust_llms.Q.Db.Rows.{
  SqliteError, Db, Io, DbError, sqlite, idempotency_conflict, is_constraint_error, has_key, key_is,
  parse_uuid, DeliveryRow, constraint_violation, conversion_failure,
}
use benchmark_rust_llms.Q.Db.Writes.{insert, inserted, violates, new_row, conflict}

key_is_lem : (o j : Option String) → key_is o j ≡ true → (k : String) × (o ≡ some k) × (j ≡ some k)
key_is_lem none j h = cc
key_is_lem (some k) none h = cc
key_is_lem (some k) (some j) h = (k, refl, ground (arith, eq_iff j k))

module _ (uuid : UuidText) where
  open uuid use {parse_str}

  -- The tables with a new pending row behind the others.
  abbrev pub with_new : ℤ → NewDelivery → Db → Db
  with_new now d db = record db { deliveries = db.deliveries ++ new_row uuid now d ∷ [] }

  -- The key is given, and the delivery with the id was stored with it before.
  abbrev pub IsTaken : Option String → Uuid → Db → Type 0
  IsTaken o id db =
      (k : String) × (o ≡ some k)
      × Some (λ r. (r.idempotency_key ≡ some k) × (parse_str r.id ≡ some id)) db.deliveries

  -- A conflict is with a delivery that has the key.
  abbrev pub Explained : Option String → DbError → Db → Type 0
  Explained o (sqlite e) db = Unit {0}
  Explained o (idempotency_conflict id) db = IsTaken o id db

  found-IsTaken :
      (o : Option String) (id : Uuid) (db : Db) (r : DeliveryRow)
      → select_first (has_key o) db.deliveries ≡ some r
      → parse_uuid uuid r.id ≡ ok id
      → IsTaken o id db
  unfolding parse_uuid
  found-IsTaken o id db r f p =
      let (k, e, held) =
        key_is_lem o r.idempotency_key (select_first-holds (has_key o) db.deliveries f) in
      (
        k,
        e,
        Some-imp (λ y. (y ≡ r) × (has_key o y ≡ true))
            (λ r. (r.idempotency_key ≡ some k) × (parse_str r.id ≡ some id))
            (λ x h.
              subst (λ y. (y.idempotency_key ≡ some k) × (parse_str y.id ≡ some id)) (sym h.0)
                (held, ok_or-ok (parse_str r.id) conversion_failure p))
            db.deliveries (select_first-Some (has_key o) db.deliveries f),
      )

  conflict-Explained :
      (io' : Io) (e : SqliteError) (o : Option String) (db : Db)
      → Explained o (conflict uuid io' e (select_first (has_key o) db.deliveries)) db
  unfolding conflict
  conflict-Explained (some e') e o db = tt
  conflict-Explained none e o db = elim (Option-cases (select_first (has_key o) db.deliveries)) [
    | inl n ↦ rw n tt
    | inr (r, f) ↦ elim (Result-cases (parse_uuid uuid r.id)) [
      | inl (id, p) ↦ rw (f, p, conflict) (found-IsTaken o id db r f p)
      | inr (x, p) ↦ rw (f, p, conflict) tt
    ]
  ]

  insert_fails :
      (io io' : Io) (e : SqliteError) (now : ℤ) (d : NewDelivery) (db : Db)
      → (x : DbError) × (inserted uuid (some e) io' now d db ≡ (db, err x))
        × Explained d.idempotency_key x db
  unfolding inserted
  insert_fails io io' e now d db = elim (Bool-cases (is_constraint_error e)) [
    | inl c ↦ rw c (_, refl, conflict-Explained io' e d.idempotency_key db)
    | inr c ↦ rw c (_, refl, tt)
  ]

  -- An INSERT adds its row, or reports an error and adds nothing; it reports a conflict only for a key
  -- that was stored before.
  pub insert_lem :
      (io io' : Io) (now : ℤ) (d : NewDelivery) (db : Db)
      → (insert uuid io io' now d db ≡ (with_new now d db, ok tt))
        ⊎ ((x : DbError) × (insert uuid io io' now d db ≡ (db, err x))
            × Explained d.idempotency_key x db)
  unfolding insert
  insert_lem (some e) io' now d db = inr (insert_fails (some e) io' e now d db)
  insert_lem none io' now d db = elim (Bool-cases (any (violates uuid d) db.deliveries)) [
    | inl c ↦ inr (rw c (insert_fails none io' constraint_violation now d db))
    | inr c ↦ inl (rw (c, inserted) refl)
  ]

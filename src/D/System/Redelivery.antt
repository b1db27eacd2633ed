-- ===== src/D/System/Redelivery.antt =====
-- `redeliver` of d/src/db.rs: the tables it leaves hold what the tables before it held.
use benchmark_rust_llms.Prelude.{
  String, none, some, [], ◌∷◌, ◌++◌, true, false, ◌≡◌, refl, inl, inr, ℤ, ok, Some, Some-append,
  Some-append_right, Some-delete, select_first, delete, delete-All, any, delete-HasUnique,
  Bool-cases, Option, ℕ, err, ◌>>=◌, List, sym, ◌∙◌,
}
use benchmark_rust_llms.Q.Model.{Uuid, UuidText}
use benchmark_rust_llms.D.Model.{TimeText, JsonText, WebhookJob, DqlEntry}
use benchmark_rust_llms.D.Db.{
  DlqRow, Db, Io, has_id, has_entry_id, row_to_dlq, DbResult, get_dlq, redeliver_entry,
  delete_entry, insert_job, job_row, optional, query, redelivered, execute,
}
use benchmark_rust_llms.D.System.Tables.{
  IsEntryRow, IsWellFormed, IsJobOf, IsEntryOf, IsKept, same, IsJobOf, IsEntryOf, inserted-IsKept,
}
use benchmark_rust_llms.D.System.Moves.{found_rows}
use benchmark_rust_llms.D.System.Tables.{Agrees}
use benchmark_rust_llms.Prelude.{Some-All}

module _ (uuid : UuidText) (time : TimeText) {Value : Type 0} (json : JsonText Value) where
  open uuid use {to_string}
  open json use {print}

  -- What was read of the entry with an id, or that nothing was.
  abbrev pub ReadAgrees : List DlqRow → Uuid → DbResult (Option (DqlEntry Value)) → Type 0
  ReadAgrees letters entry_id (err e) = Unit
  ReadAgrees letters entry_id (ok none) = Unit
  ReadAgrees letters entry_id (ok (some e)) = Agrees uuid time json letters (entry_id, e)

  found_Agrees :
      (entry_id : Uuid) (db : Db) (q : DlqRow) (r : DbResult (DqlEntry Value))
      → IsWellFormed uuid time json db
      → select_first (has_entry_id (to_string entry_id)) db.dead_letters ≡ some q
      → row_to_dlq uuid time json q ≡ r
      → ReadAgrees db.dead_letters entry_id (r >>= λ e. ok (some e))
  found_Agrees entry_id db q (ok e) w f h =
      found_rows uuid time json (to_string entry_id) db q e w f h
  found_Agrees entry_id db q (err x) w f h = tt

  optional-ReadAgrees :
      (entry_id : Uuid) (db : Db) (o : Option DlqRow)
      → IsWellFormed uuid time json db
      → select_first (has_entry_id (to_string entry_id)) db.dead_letters ≡ o
      → ReadAgrees db.dead_letters entry_id (optional uuid time json o)
  optional-ReadAgrees entry_id db none w h = tt
  optional-ReadAgrees entry_id db (some q) w h =
      found_Agrees entry_id db q (row_to_dlq uuid time json q) w h refl

  query-ReadAgrees :
      (io : Io) (letters : List DlqRow) (entry_id : Uuid) (r : DbResult (Option (DqlEntry Value)))
      → ReadAgrees letters entry_id r
      → ReadAgrees letters entry_id (query io r)
  query-ReadAgrees none letters entry_id r h = h
  query-ReadAgrees (some e) letters entry_id r h = tt

  pub get_dlq-ReadAgrees :
      (io : Io) (entry_id : Uuid) (db : Db)
      → IsWellFormed uuid time json db
      → ReadAgrees db.dead_letters entry_id (get_dlq uuid time json io entry_id db)
  unfolding get_dlq
  get_dlq-ReadAgrees io entry_id db w = query-ReadAgrees io db.dead_letters entry_id _ (
      optional-ReadAgrees entry_id db
        (select_first (has_entry_id (to_string entry_id)) db.dead_letters) w refl)

  -- The DELETE of an entry whose job the table has.
  module _ (now : ℤ) (id entry_id : Uuid) (n : ℕ) (db : Db) (e : DqlEntry Value)
      (w : IsWellFormed uuid time json db)
      (f : Agrees uuid time json db.dead_letters (entry_id, e)) where
    abbrev job : WebhookJob Value
    job = redelivered uuid time json now id n e

    abbrev with_job : Db
    with_job = record db { jobs = db.jobs ++ job_row uuid time json job ∷ [] }

    entry_lost :
        (v : Value) (d : String)
        → Some
            (λ r. IsEntryOf uuid time json v d r × (has_entry_id (to_string entry_id) r ≡ true))
            db.dead_letters
        → IsJobOf uuid time json v d (job_row uuid time json job)
    entry_lost v d lost =
        let (q, i, own) =
          Some-All
            (λ r. IsEntryOf uuid time json v d r × (has_entry_id (to_string entry_id) r ≡ true)) _
            db.dead_letters lost f.1 in
        let a = own i.1 in (sym a.0 ∙ i.0.0, sym a.1 ∙ i.0.1)

    entry_taken-IsKept :
        any (has_id (to_string id)) db.jobs ≡ false
        → IsKept uuid time json db (record with_job {
          dead_letters = delete (has_entry_id (to_string entry_id)) db.dead_letters;
        })
    entry_taken-IsKept fresh =
        let k = inserted-IsKept uuid time json job db fresh f.0 w in
        record {
          well_formed = record {
            unique = k.well_formed.unique;
            unique_entries =
                delete-HasUnique DlqRow.id (has_entry_id (to_string entry_id)) db.dead_letters
                  w.unique_entries;
            jobs = k.well_formed.jobs;
            entries =
                delete-All (IsEntryRow uuid time json) (has_entry_id (to_string entry_id))
                  db.dead_letters w.entries;
          };
          held = λ v d h. elim h [
            | inl s ↦ inl (Some-append (IsJobOf uuid time json v d) db.jobs _ s)
            | inr s ↦
                elim (Some-delete (IsEntryOf uuid time json v d) (has_entry_id (to_string entry_id))
                  db.dead_letters s) [
                    | inl left ↦ inr left
                    | inr lost ↦ inl (
                        Some-append_right (IsJobOf uuid time json v d) db.jobs _
                          (inl (entry_lost v d lost)))
                  ]
          ];
        }

    written-IsKept :
        (io io' : Io)
        → any (has_id (to_string id)) db.jobs ≡ false
        → IsKept uuid time json db
            (delete_entry uuid time json io' entry_id job (execute io db (with_job, tt))).0
    written-IsKept (some x) io' fresh = same uuid time json db w
    written-IsKept none (some x) fresh = inserted-IsKept uuid time json job db fresh f.0 w
    written-IsKept none none fresh = entry_taken-IsKept fresh

    entry_redelivered-IsKept :
        (io io' : Io)
        → IsKept uuid time json db
            (delete_entry uuid time json io' entry_id job (insert_job uuid time json io job db)).0
    unfolding insert_job
    entry_redelivered-IsKept io io' = elim (Bool-cases (any (has_id (to_string id)) db.jobs)) [
      | inl x ↦ rw x (same uuid time json db w)
      | inr x ↦ rw x (written-IsKept io io' x)
    ]

  pub redeliver_entry-IsKept :
      (io io' : Io) (now : ℤ) (id entry_id : Uuid) (n : ℕ) (e : DqlEntry Value) (db : Db)
      → IsWellFormed uuid time json db
      → Agrees uuid time json db.dead_letters (entry_id, e)
      → IsKept uuid time json db
          (redeliver_entry uuid time json io io' now id entry_id n (ok (some e)) db).0
  unfolding redeliver_entry
  redeliver_entry-IsKept io io' now id entry_id n e db w f =
      entry_redelivered-IsKept now id entry_id n db e w f io io'

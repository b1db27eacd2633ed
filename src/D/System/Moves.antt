-- ===== src/D/System/Moves.antt =====
-- `move_to_dlq` and `redeliver` of d/src/db.rs: two statements each, in no transaction, in an order
-- that never leaves a webhook in neither table.
use benchmark_rust_llms.Prelude.{
  String, none, some, [], ◌∷◌, ◌++◌, true, false, ◌≡◌, refl, sym, ap, ◌∙◌, inl, inr, ℤ, ok, ok_or,
  ok_or-ok, All-append, Some, Some-append, Some-append_right, Some-All, Some-delete, select_first,
  select_first-Some, delete, delete-All, any, str_eq, eq_iff, append-HasUnique, delete-HasUnique,
  unique_pair, Bool-cases, through, ok_injective, subst,
}
use benchmark_rust_llms.Prelude.{some_injective, unique_same, has_key_of, All, All-map}
use benchmark_rust_llms.Q.Model.{Uuid, UuidText}
use benchmark_rust_llms.D.Model.{TimeText, JsonText, WebhookJob, DqlEntry}
use benchmark_rust_llms.D.Db.{
  JobRow, DlqRow, Db, Io, conversion_failure, has_id, has_entry_id, row_to_dlq, dlq_row, delete_job,
  move_to_dlq,
}
use benchmark_rust_llms.D.System.Tables.{
  IsPrinted, IsJobRow, IsEntryRow, IsWellFormed, IsJobOf, IsEntryOf, IsPresent, IsKept, same,
}

same_text : (s t u : String) → s ≡ t → u ≡ t → str_eq u s ≡ true
same_text s t u e f = (eq_iff u s).1 (f ∙ sym e)

module _ (uuid : UuidText) (time : TimeText) {Value : Type 0} (json : JsonText Value) where
  open uuid use {to_string, parse_str}
  open json use {print, read}

  -- The table after the INSERT of a dead letter, and after the DELETE of its job.
  abbrev pub with_entry : ℤ → Uuid → WebhookJob Value → String → Db → Db
  with_entry now entry_id job error db = record db {
    dead_letters = db.dead_letters ++ dlq_row uuid time json now entry_id job error ∷ [];
  }

  entry-IsKept :
      (now : ℤ) (entry_id : Uuid) (job : WebhookJob Value) (error : String) (db : Db)
      → any (has_entry_id (to_string entry_id)) db.dead_letters ≡ false
      → IsPrinted uuid time json (print job.payload)
      → IsWellFormed uuid time json db
      → IsKept uuid time json db (with_entry now entry_id job error db)
  entry-IsKept now entry_id job error db fresh p w = record {
    well_formed = record {
      unique = w.unique;
      unique_entries =
          append-HasUnique DlqRow.id db.dead_letters (dlq_row uuid time json now entry_id job error)
            fresh w.unique_entries;
      jobs = w.jobs;
      entries = All-append (IsEntryRow uuid time json) db.dead_letters _ w.entries (p, tt);
    };
    held = λ v d h. elim h [
      | inl s ↦ inl s
      | inr s ↦ inr (Some-append (IsEntryOf uuid time json v d) db.dead_letters _ s)
    ];
  }

  -- The payload of a job that the table has reads back.
  present-IsPrinted :
      (job : WebhookJob Value) (db : Db)
      → IsWellFormed uuid time json db
      → IsPresent uuid time json db.jobs job
      → IsPrinted uuid time json (print job.payload)
  present-IsPrinted job db w present =
      let (r, is, canonical) =
        Some-All
          (λ r.
            (r.id ≡ to_string job.id)
            × (r.payload ≡ print job.payload)
            × (r.destination ≡ job.destination))
          (IsJobRow uuid time json) db.jobs present w.jobs in
      subst (IsPrinted uuid time json) is.1 canonical.1

  -- The row that the DELETE takes is the job's, and the dead letter has what it carried.
  taken :
      (now : ℤ) (entry_id : Uuid) (job : WebhookJob Value) (error : String) (db : Db) (v : Value)
      (d : String)
      → IsWellFormed uuid time json db
      → IsPresent uuid time json db.jobs job
      → Some (λ r. IsJobOf uuid time json v d r × (has_id (to_string job.id) r ≡ true)) db.jobs
      → IsEntryOf uuid time json v d (dlq_row uuid time json now entry_id job error)
  taken now entry_id job error db v d w present lost =
      let (r, is, own) =
        unique_pair JobRow.id
          (λ r. IsJobOf uuid time json v d r × (has_id (to_string job.id) r ≡ true))
          (λ r.
            (r.id ≡ to_string job.id)
            × (r.payload ≡ print job.payload)
            × (r.destination ≡ job.destination))
          (λ x y p q.
            same_text x.id (to_string job.id) y.id ((eq_iff x.id (to_string job.id)).0 p.1) q.0)
          db.jobs w.unique lost present in
      (sym own.1 ∙ is.0.0, sym own.2 ∙ is.0.1)

  deleted-IsKept :
      (now : ℤ) (entry_id : Uuid) (job : WebhookJob Value) (error : String) (db : Db)
      → any (has_entry_id (to_string entry_id)) db.dead_letters ≡ false
      → IsWellFormed uuid time json db
      → IsPresent uuid time json db.jobs job
      → IsKept uuid time json db (record (with_entry now entry_id job error db) {
        jobs = delete (has_id (to_string job.id)) db.jobs;
      })
  deleted-IsKept now entry_id job error db fresh w present =
      let k = entry-IsKept now entry_id job error db fresh (present-IsPrinted job db w present) w in
      record {
        well_formed = record {
          unique = delete-HasUnique JobRow.id (has_id (to_string job.id)) db.jobs w.unique;
          unique_entries = k.well_formed.unique_entries;
          jobs = delete-All (IsJobRow uuid time json) (has_id (to_string job.id)) db.jobs w.jobs;
          entries = k.well_formed.entries;
        };
        held = λ v d h. elim h [
          | inr s ↦ inr (Some-append (IsEntryOf uuid time json v d) db.dead_letters _ s)
          | inl s ↦
              elim (Some-delete (IsJobOf uuid time json v d) (has_id (to_string job.id)) db.jobs
                s) [
                  | inl left ↦ inl left
                  | inr lost ↦ inr (
                      Some-append_right (IsEntryOf uuid time json v d) db.dead_letters _
                        (inl (taken now entry_id job error db v d w present lost)))
                ]
        ];
      }

  delete_job-IsKept :
      (io : Io) (now : ℤ) (entry_id : Uuid) (job : WebhookJob Value) (error : String) (db : Db)
      → any (has_entry_id (to_string entry_id)) db.dead_letters ≡ false
      → IsWellFormed uuid time json db
      → IsPresent uuid time json db.jobs job
      → IsKept uuid time json db
          (delete_job uuid time json io job.id (with_entry now entry_id job error db)).0
  delete_job-IsKept none now entry_id job error db e w present =
      deleted-IsKept now entry_id job error db e w present
  delete_job-IsKept (some x) now entry_id job error db e w present =
      entry-IsKept now entry_id job error db e (present-IsPrinted job db w present) w

  -- Moving a job that the table has to the dead letters keeps every webhook, whichever of the two
  -- statements fails.
  pub move_to_dlq-IsKept :
      (io io' : Io) (now : ℤ) (entry_id : Uuid) (job : WebhookJob Value) (error : String) (db : Db)
      → IsWellFormed uuid time json db
      → IsPresent uuid time json db.jobs job
      → IsKept uuid time json db (move_to_dlq uuid time json io io' now entry_id job error db).0
  unfolding move_to_dlq
  move_to_dlq-IsKept (some e) io' now entry_id job error db w present = same uuid time json db w
  move_to_dlq-IsKept none io' now entry_id job error db w present =
      elim (Bool-cases (any (has_entry_id (to_string entry_id)) db.dead_letters)) [
        | inl e ↦ rw e (same uuid time json db w)
        | inr e ↦ rw e (delete_job-IsKept io' now entry_id job error db e w present)
      ]

  row_to_dlq-parts :
      (q : DlqRow) {e : DqlEntry Value}
      → row_to_dlq uuid time json q ≡ ok e
      → (read q.payload ≡ some e.payload) × (q.destination ≡ e.destination)
  unfolding row_to_dlq
  row_to_dlq-parts q {e} h = through (ok_or (parse_str q.id) conversion_failure) _ h λ id _ h1.
      through (ok_or (parse_str q.job_id) conversion_failure) _ h1 λ job_id _ h2.
        through (ok_or (read q.payload) conversion_failure) _ h2 λ payload p h3.
          through (ok_or (TimeText.parse_from_rfc3339 time q.moved_at) conversion_failure) _ h3
            λ moved _ h4.
              subst
                (λ x.
                  (read q.payload ≡ some (DqlEntry.payload x)) × (q.destination ≡ x.destination))
                (ok_injective h4) (ok_or-ok (read q.payload) conversion_failure p, refl)

  pub printed :
      (t : String) (v : Value) → IsPrinted uuid time json t → read t ≡ some v → t ≡ print v
  printed t v (u, e, k) h = sym e ∙ ap print (some_injective (sym k ∙ h))

  -- The entry that was found reads back, and has what every row with its id has.
  pub found_rows :
      (t : String) (db : Db) (q : DlqRow) (e : DqlEntry Value)
      → IsWellFormed uuid time json db
      → select_first (has_entry_id t) db.dead_letters ≡ some q
      → row_to_dlq uuid time json q ≡ ok e
      → IsPrinted uuid time json (print e.payload)
        × All
            (λ y.
              has_entry_id t y ≡ true
              → (y.payload ≡ print e.payload) × (y.destination ≡ e.destination))
            db.dead_letters
  found_rows t db q e w found read_as =
      let there = select_first-Some (has_entry_id t) db.dead_letters found in
      let (x, is, canonical) =
        Some-All (λ y. (y ≡ q) × (has_entry_id t y ≡ true)) (IsEntryRow uuid time json)
          db.dead_letters there w.entries in
      let (z, own, alone) =
        Some-All (λ y. (y ≡ q) × (has_entry_id t y ≡ true))
          (λ x. All (λ y. has_key_of DlqRow.id x.id y ≡ true → y ≡ x) db.dead_letters)
          db.dead_letters there (unique_same DlqRow.id db.dead_letters w.unique_entries) in
      let parts = row_to_dlq-parts q read_as in
      let text : q.payload ≡ print e.payload =
        printed q.payload e.payload (subst (IsEntryRow uuid time json) is.0 canonical) parts.0 in
      (
        (e.payload, refl, ap read (sym text) ∙ parts.0),
        All-map
            (λ y same m.
              let eq : y ≡ q =
                same (same_text z.id t y.id ((eq_iff z.id t).0 own.1) ((eq_iff y.id t).0 m))
                ∙ own.0 in
              (ap DlqRow.payload eq ∙ text, ap DlqRow.destination eq ∙ parts.1))
            db.dead_letters alone,
      )

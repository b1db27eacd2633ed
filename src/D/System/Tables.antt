-- ===== src/D/System/Tables.antt =====
-- The invariant of the two tables of d/src/db.rs, and what every method of `Db` keeps: the invariant,
-- and each webhook that the tables hold.
use benchmark_rust_llms.Prelude.{
  ℕ, String, Option, none, some, List, [], ◌∷◌, ◌++◌, Bool, false, ◌≡◌, refl, sym, ap, ◌∙◌, ◌⊎◌,
  inl, inr, ℤ, All, All-append, Some, Some-append, Some-update, update, update-All, any, HasUnique,
  append-HasUnique, update-HasUnique, Bool-cases,
}
use benchmark_rust_llms.Q.Model.{Uuid, UuidText}
use benchmark_rust_llms.D.Model.{TimeText, JsonText, WebhookJob}
use benchmark_rust_llms.D.Db.{
  JobRow, DlqRow, Db, Io, execute, has_id, set_attempts, set_delivered, job_row, insert_job,
  text_of, record_attempt, mark_delivered,
}
use benchmark_rust_llms.D.Db.{has_entry_id}
use benchmark_rust_llms.D.Model.{DqlEntry}
use benchmark_rust_llms.Prelude.{true}

module _ (uuid : UuidText) (time : TimeText) {Value : Type 0} (json : JsonText Value) where
  open uuid use {to_string, parse_str}
  open json use {print, read}

  -- The text is that of a value, and reading it gives that value.
  abbrev pub IsPrinted : String → Type 0
  IsPrinted t = (v : Value) × (print v ≡ t) × (read t ≡ some v)

  -- The id and the payload are texts that the service printed, and the payload reads back.
  abbrev pub IsJobRow : JobRow → Type 0
  IsJobRow r = ((u : Uuid) × (to_string u ≡ r.id)) × IsPrinted r.payload

  abbrev pub IsEntryRow : DlqRow → Type 0
  IsEntryRow q = IsPrinted q.payload

  pub record IsWellFormed (db : Db) : Type 0 where
    pub unique : HasUnique JobRow.id db.jobs
    pub unique_entries : HasUnique DlqRow.id db.dead_letters
    pub jobs : All IsJobRow db.jobs
    pub entries : All IsEntryRow db.dead_letters

  abbrev pub IsJobOf : Value → String → JobRow → Type 0
  IsJobOf v destination r = (r.payload ≡ print v) × (r.destination ≡ destination)

  abbrev pub IsEntryOf : Value → String → DlqRow → Type 0
  IsEntryOf v destination q = (q.payload ≡ print v) × (q.destination ≡ destination)

  -- A job or a dead letter carries the payload to the destination.
  abbrev pub Holds : Value → String → Db → Type 0
  Holds v destination db =
      Some (IsJobOf v destination) db.jobs ⊎ Some (IsEntryOf v destination) db.dead_letters

  -- The table has the row that the job was read from.
  abbrev pub IsPresent : List JobRow → WebhookJob Value → Type 0
  IsPresent rows job =
      Some
        (λ r.
          (r.id ≡ to_string job.id)
          × (r.payload ≡ print job.payload)
          × (r.destination ≡ job.destination))
        rows

  -- The entry's payload reads back, and the dead letter with the entry's id, if there is one, has what
  -- the entry has.
  abbrev pub Agrees : List DlqRow → Uuid × DqlEntry Value → Type 0
  Agrees letters (entry_id, e) =
      IsPrinted (print e.payload)
      × All
          (λ q.
            has_entry_id (to_string entry_id) q ≡ true
            → (q.payload ≡ print e.payload) × (q.destination ≡ e.destination))
          letters

  -- The second tables keep what the first guarantee and hold.
  pub record IsKept (db db' : Db) : Type 0 where
    pub well_formed : IsWellFormed db'
    pub held : (v : Value) (destination : String) → Holds v destination db → Holds v destination db'

  pub same : (db : Db) → IsWellFormed db → IsKept db db
  same db w = record { well_formed = w; held = λ v d h. h }

  execute-IsKept {ℓ} :
      {A : Type ℓ} (io : Io) (db db' : Db) (a : A)
      → IsWellFormed db
      → IsKept db db'
      → IsKept db (execute io db (db', a)).0
  execute-IsKept none db db' a w k = k
  execute-IsKept (some e) db db' a w k = same db w

  -- An assignment that leaves the id, the payload and the destination alone.
  pub record KeepsJob (f : JobRow → JobRow) : Type 0 where
    pub id : (r : JobRow) → (f r).id ≡ r.id
    pub payload : (r : JobRow) → (f r).payload ≡ r.payload
    pub destination : (r : JobRow) → (f r).destination ≡ r.destination

  update-IsKept :
      (p : JobRow → Bool) (f : JobRow → JobRow) (db : Db)
      → KeepsJob f
      → IsWellFormed db
      → IsKept db (record db { jobs = update p f db.jobs })
  update-IsKept p f db k w = record {
    well_formed = record {
      unique = update-HasUnique JobRow.id p f k.id db.jobs w.unique;
      unique_entries = w.unique_entries;
      jobs =
          update-All IsJobRow p f
            (λ r _ h. (
              (h.0.0, h.0.1 ∙ sym (k.id r)),
              (h.1.0, h.1.1 ∙ sym (k.payload r), ap read (k.payload r) ∙ h.1.2),
            ))
            db.jobs w.jobs;
      entries = w.entries;
    };
    held = λ v d h. elim h [
      | inl s ↦ inl (
          Some-update (IsJobOf v d) p f (λ r i. (k.payload r ∙ i.0, k.destination r ∙ i.1)) db.jobs
            s)
      | inr s ↦ inr s
    ];
  }

  pub attempts-KeepsJob : (n : ℕ) (t : Option String) → KeepsJob (set_attempts n t)
  attempts-KeepsJob n none = record { id = λ r. refl; payload = λ r. refl; destination = λ r. refl }
  attempts-KeepsJob n (some t) = record {
    id = λ r. refl;
    payload = λ r. refl;
    destination = λ r. refl;
  }

  pub delivered-KeepsJob : KeepsJob set_delivered
  delivered-KeepsJob = record { id = λ r. refl; payload = λ r. refl; destination = λ r. refl }

  pub record_attempt-IsKept :
      (io : Io) (id : Uuid) (n : ℕ) (t : Option ℤ) (db : Db)
      → IsWellFormed db
      → IsKept db (record_attempt uuid time json io id n t db).0
  unfolding record_attempt
  record_attempt-IsKept io id n t db w = execute-IsKept io db _ tt w (
      update-IsKept (has_id (to_string id)) (set_attempts n (text_of uuid time json t)) db
        (attempts-KeepsJob n (text_of uuid time json t)) w)

  pub mark_delivered-IsKept :
      (io : Io) (id : Uuid) (db : Db)
      → IsWellFormed db
      → IsKept db (mark_delivered uuid time json io id db).0
  unfolding mark_delivered
  mark_delivered-IsKept io id db w =
      execute-IsKept io db _ tt w
        (update-IsKept (has_id (to_string id)) set_delivered db delivered-KeepsJob w)

  pub inserted-IsKept :
      (job : WebhookJob Value) (db : Db)
      → any (has_id (to_string job.id)) db.jobs ≡ false
      → IsPrinted (print job.payload)
      → IsWellFormed db
      → IsKept db (record db { jobs = db.jobs ++ job_row uuid time json job ∷ [] })
  inserted-IsKept job db fresh p w = record {
    well_formed = record {
      unique = append-HasUnique JobRow.id db.jobs (job_row uuid time json job) fresh w.unique;
      unique_entries = w.unique_entries;
      jobs =
          All-append IsJobRow db.jobs (job_row uuid time json job ∷ []) w.jobs
            (((job.id, refl), p), tt);
      entries = w.entries;
    };
    held = λ v d h. elim h [ inl s ↦ inl (Some-append (IsJobOf v d) db.jobs _ s) | inr s ↦ inr s ];
  }

  pub insert_job-IsKept :
      (io : Io) (job : WebhookJob Value) (db : Db)
      → IsPrinted (print job.payload)
      → IsWellFormed db
      → IsKept db (insert_job uuid time json io job db).0
  unfolding insert_job
  insert_job-IsKept io job db p w = elim (Bool-cases (any (has_id (to_string job.id)) db.jobs)) [
    | inl e ↦ rw e (same db w)
    | inr e ↦ rw e (execute-IsKept io db _ tt w (inserted-IsKept job db e p w))
  ]

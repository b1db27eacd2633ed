-- ===== src/D/System/Fetched.antt =====
-- `fetch_due` of d/src/db.rs: each job that it returns is read from a row of its own.
use benchmark_rust_llms.Prelude.{
  String, none, some, [], ◌∷◌, false, ◌≡◌, refl, sym, ap, ◌∙◌, ℤ, ok, ok_or, ok_or-ok, Some,
  through, ok_injective, subst, List,
}
use benchmark_rust_llms.Prelude.{some_injective}
use benchmark_rust_llms.Q.Model.{Uuid, UuidText}
use benchmark_rust_llms.D.Model.{TimeText, JsonText, WebhookJob}
use benchmark_rust_llms.D.Db.{JobRow, Db, Io, conversion_failure}
use benchmark_rust_llms.D.System.Tables.{IsJobRow, IsWellFormed, IsPresent}
use benchmark_rust_llms.D.Db.{row_to_job, fetch_due, due_rows, due_before, is_due}
use benchmark_rust_llms.Prelude.{limited}
use benchmark_rust_llms.D.System.Moves.{printed}
use benchmark_rust_llms.Prelude.{
  HasUnique, has_key_of, All, All-take, Some-imp, all_in, map_rows, order_by-All, select-All_of,
  order_by-HasUnique, select-HasUnique, take-HasUnique, pos, negsuc,
}

module _ (uuid : UuidText) (time : TimeText) {Value : Type 0} (json : JsonText Value) where
  open uuid use {to_string, parse_str, parse_str-to_string}
  open time use {parse_from_rfc3339}
  open json use {print, read}

  -- The row that a job was read from.
  abbrev pub IsRowOf : WebhookJob Value → JobRow → Type 0
  IsRowOf job r =
      (r.id ≡ to_string job.id)
      × (r.payload ≡ print job.payload)
      × (r.destination ≡ job.destination)

  row_to_job-parts :
      (r : JobRow) {job : WebhookJob Value}
      → row_to_job uuid time json r ≡ ok job
      → (parse_str r.id ≡ some job.id)
        × (read r.payload ≡ some job.payload)
        × (r.destination ≡ job.destination)
  unfolding row_to_job
  row_to_job-parts r {job} h = through (ok_or (parse_str r.id) conversion_failure) _ h λ id i h1.
      through (ok_or (read r.payload) conversion_failure) _ h1 λ payload p h2.
        through (ok_or (parse_from_rfc3339 r.next_attempt_at) conversion_failure) _ h2 λ next _ h3.
          through (ok_or (parse_from_rfc3339 r.created_at) conversion_failure) _ h3 λ created _ h4.
            subst
              (λ x.
                (parse_str r.id ≡ some (WebhookJob.id x))
                × (read r.payload ≡ some (WebhookJob.payload x))
                × (r.destination ≡ x.destination))
              (ok_injective h4)
              (
                ok_or-ok (parse_str r.id) conversion_failure i,
                ok_or-ok (read r.payload) conversion_failure p,
                refl,
              )

  printed_id :
      (t : String) (id : Uuid)
      → (u : Uuid) × (to_string u ≡ t)
      → parse_str t ≡ some id
      → t ≡ to_string id
  printed_id t id (u, e) h =
      sym e ∙ ap to_string (some_injective (sym (parse_str-to_string u) ∙ ap parse_str e ∙ h))

  row_to_job-IsRowOf :
      (r : JobRow) {job : WebhookJob Value}
      → IsJobRow uuid time json r
      → row_to_job uuid time json r ≡ ok job
      → IsRowOf job r
  row_to_job-IsRowOf r {job} (id, payload) h =
      let parts = row_to_job-parts r h in
      (
        printed_id r.id job.id id parts.0,
        printed uuid time json r.payload job.payload payload parts.1,
        parts.2,
      )

  abbrev pub job_key : WebhookJob Value → String
  job_key job = to_string job.id

  -- Jobs and the rows they were read from, in the same order.
  abbrev pub AreRowsOf : List (WebhookJob Value) → List JobRow → Type 0
  AreRowsOf [] [] = Unit
  AreRowsOf [] (r ∷ rows) = ⊥
  AreRowsOf (job ∷ jobs) [] = ⊥
  AreRowsOf (job ∷ jobs) (r ∷ rows) = IsRowOf job r × AreRowsOf jobs rows

  map_rows-AreRowsOf :
      (rows : List JobRow) {jobs : List (WebhookJob Value)}
      → All (IsJobRow uuid time json) rows
      → map_rows (row_to_job uuid time json) rows ≡ ok jobs
      → AreRowsOf jobs rows
  unfolding map_rows
  map_rows-AreRowsOf [] {jobs} w h = subst (λ js. AreRowsOf js []) (ok_injective h) tt
  map_rows-AreRowsOf (r ∷ rows) {jobs} w h = through (row_to_job uuid time json r) _ h λ job e h1.
      through (map_rows (row_to_job uuid time json) rows) _ h1 λ js k h2.
        subst (λ js. AreRowsOf js (r ∷ rows)) (ok_injective h2)
          (row_to_job-IsRowOf r w.0 e, map_rows-AreRowsOf rows w.1 k)

  keys_differ :
      (job : WebhookJob Value) (r : JobRow) (jobs : List (WebhookJob Value)) (rows : List JobRow)
      → IsRowOf job r
      → AreRowsOf jobs rows
      → All (λ y. has_key_of JobRow.id r.id y ≡ false) rows
      → All (λ j. has_key_of job_key (job_key job) j ≡ false) jobs
  keys_differ job r [] [] i a u = tt
  keys_differ job r [] (x ∷ rows) i a u = absurd a
  keys_differ job r (j ∷ jobs) [] i a u = absurd a
  keys_differ job r (j ∷ jobs) (x ∷ rows) i a u =
      (rw (← a.0.0, ← i.0) u.0, keys_differ job r jobs rows i a.1 u.1)

  AreRowsOf-HasUnique :
      (jobs : List (WebhookJob Value)) (rows : List JobRow)
      → AreRowsOf jobs rows
      → HasUnique JobRow.id rows
      → HasUnique job_key jobs
  AreRowsOf-HasUnique [] [] a u = tt
  AreRowsOf-HasUnique [] (x ∷ rows) a u = absurd a
  AreRowsOf-HasUnique (j ∷ jobs) [] a u = absurd a
  AreRowsOf-HasUnique (j ∷ jobs) (r ∷ rows) a u =
      (keys_differ j r jobs rows a.0 a.1 u.0, AreRowsOf-HasUnique jobs rows a.1 u.1)

  AreRowsOf-IsPresent :
      (table : List JobRow) (jobs : List (WebhookJob Value)) (rows : List JobRow)
      → AreRowsOf jobs rows
      → All (λ x. Some (λ y. y ≡ x) table) rows
      → All (IsPresent uuid time json table) jobs
  AreRowsOf-IsPresent table [] [] a h = tt
  AreRowsOf-IsPresent table [] (x ∷ rows) a h = absurd a
  AreRowsOf-IsPresent table (j ∷ jobs) [] a h = absurd a
  AreRowsOf-IsPresent table (j ∷ jobs) (r ∷ rows) a h = (
    Some-imp (λ y. y ≡ r) (IsRowOf j)
        (λ y e.
          (ap JobRow.id e ∙ a.0.0, ap JobRow.payload e ∙ a.0.1, ap JobRow.destination e ∙ a.0.2))
        table h.0,
    AreRowsOf-IsPresent table jobs rows a.1 h.1,
  )

  limited-All :
      (P : JobRow → Type 0) (limit : ℤ) (rows : List JobRow)
      → All P rows
      → All P (limited limit rows)
  limited-All P (pos n) rows h = All-take P n rows h
  limited-All P (negsuc n) rows h = h

  limited-HasUnique :
      (limit : ℤ) (rows : List JobRow)
      → HasUnique JobRow.id rows
      → HasUnique JobRow.id (limited limit rows)
  limited-HasUnique (pos n) rows h = take-HasUnique JobRow.id n rows h
  limited-HasUnique (negsuc n) rows h = h

  due_rows-All :
      (P : JobRow → Type 0) (now : String) (limit : ℤ) (db : Db)
      → All P db.jobs
      → All P (due_rows now limit db)
  due_rows-All P now limit db h =
      limited-All P limit _ (order_by-All due_before P _ (select-All_of P (is_due now) db.jobs h))

  due_rows-HasUnique :
      (now : String) (limit : ℤ) (db : Db)
      → HasUnique JobRow.id db.jobs
      → HasUnique JobRow.id (due_rows now limit db)
  due_rows-HasUnique now limit db h = limited-HasUnique limit _ (
      order_by-HasUnique JobRow.id due_before _ (select-HasUnique JobRow.id (is_due now) db.jobs h))

  -- The jobs that are to be processed have rows, and no two of them have one id.
  pub record AreFetched (rows : List JobRow) (jobs : List (WebhookJob Value)) : Type 0 where
    pub present : All (IsPresent uuid time json rows) jobs
    pub unique : HasUnique job_key jobs

  read_rows :
      (now : String) (limit : ℤ) (db : Db) {jobs : List (WebhookJob Value)}
      → IsWellFormed uuid time json db
      → map_rows (row_to_job uuid time json) (due_rows now limit db) ≡ ok jobs
      → AreFetched db.jobs jobs
  read_rows now limit db {jobs} w h =
      let a =
        map_rows-AreRowsOf (due_rows now limit db)
          (due_rows-All (IsJobRow uuid time json) now limit db w.jobs) h in
      record {
        present =
            AreRowsOf-IsPresent db.jobs jobs (due_rows now limit db) a
              (due_rows-All (λ x. Some (λ y. y ≡ x) db.jobs) now limit db (all_in db.jobs));
        unique =
            AreRowsOf-HasUnique jobs (due_rows now limit db) a
              (due_rows-HasUnique now limit db w.unique);
      }

  pub fetch_due-AreFetched :
      (io : Io) (now : ℤ) (limit : ℤ) (db : Db) {jobs : List (WebhookJob Value)}
      → IsWellFormed uuid time json db
      → fetch_due uuid time json io now limit db ≡ ok jobs
      → AreFetched db.jobs jobs
  unfolding fetch_due
  fetch_due-AreFetched none now limit db w h = read_rows (TimeText.to_rfc3339 time now) limit db w h
  fetch_due-AreFetched (some e) now limit db w h = cc

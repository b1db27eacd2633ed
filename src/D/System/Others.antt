-- ===== src/D/System/Others.antt =====
-- What each method of d/src/db.rs that the worker calls leaves of the rows of other jobs and of the
-- dead letters.
use benchmark_rust_llms.Prelude.{
  String, none, some, true, false, ◌≡◌, ◌∙◌, inl, inr, ℤ, Some-delete, delete, any, str_eq,
  Bool-cases, Bool, List, Option, ℕ, ◌++◌, ◌∷◌, [],
}
use benchmark_rust_llms.Q.Model.{Uuid, UuidText}
use benchmark_rust_llms.D.Model.{TimeText, JsonText, WebhookJob}
use benchmark_rust_llms.D.Db.{JobRow, Db, Io, has_id, has_entry_id, move_to_dlq}
use benchmark_rust_llms.D.System.Tables.{IsPresent, IsKept}
use benchmark_rust_llms.D.System.Fetched.{IsRowOf}
use benchmark_rust_llms.D.System.Tables.{KeepsJob, attempts-KeepsJob, delivered-KeepsJob}
use benchmark_rust_llms.D.Db.{record_attempt, mark_delivered, set_attempts, set_delivered, text_of}
use benchmark_rust_llms.Prelude.{Some-update, Some-witness, update}
use benchmark_rust_llms.D.System.Moves.{with_entry}
use benchmark_rust_llms.D.System.Tables.{Agrees}
use benchmark_rust_llms.Prelude.{All-append, refl}
use benchmark_rust_llms.D.Model.{DqlEntry}
use benchmark_rust_llms.D.Db.{delete_job, DlqRow, dlq_row}

module _ (uuid : UuidText) (time : TimeText) {Value : Type 0} (json : JsonText Value) where
  open uuid use {to_string}
  open json use {print}

  -- The second tables keep what the first hold, the row of every job with another id, and what was
  -- read of every dead letter with another id than the one that may be new.
  pub record IsProcessed (id entry_id : Uuid) (db db' : Db) : Type 0 where
    pub kept : IsKept uuid time json db db'
    pub others :
        (j : WebhookJob Value)
        → str_eq (to_string j.id) (to_string id) ≡ false
        → IsPresent uuid time json db.jobs j
        → IsPresent uuid time json db'.jobs j
    pub letters :
        (i : Uuid) (e : DqlEntry Value)
        → str_eq (to_string entry_id) (to_string i) ≡ false
        → Agrees uuid time json db.dead_letters (i, e)
        → Agrees uuid time json db'.dead_letters (i, e)

  update-IsPresent :
      (p : JobRow → Bool) (f : JobRow → JobRow) (rows : List JobRow) (j : WebhookJob Value)
      → KeepsJob uuid time json f
      → IsPresent uuid time json rows j
      → IsPresent uuid time json (update p f rows) j
  update-IsPresent p f rows j k s =
      Some-update (IsRowOf uuid time json j) p f
        (λ r i. (k.id r ∙ i.0, k.payload r ∙ i.1, k.destination r ∙ i.2)) rows s

  other_row :
      (id : Uuid) (j : WebhookJob Value) (r : JobRow)
      → str_eq (to_string j.id) (to_string id) ≡ false
      → r.id ≡ to_string j.id
      → ¬ (has_id (to_string id) r ≡ true)
  other_row id j r n e h = let h' : str_eq (to_string j.id) (to_string id) ≡ true = rw (← e) h in cc

  delete-IsPresent :
      (id : Uuid) (rows : List JobRow) (j : WebhookJob Value)
      → str_eq (to_string j.id) (to_string id) ≡ false
      → IsPresent uuid time json rows j
      → IsPresent uuid time json (delete (has_id (to_string id)) rows) j
  delete-IsPresent id rows j n s =
      elim (Some-delete (IsRowOf uuid time json j) (has_id (to_string id)) rows s) [
        | inl k ↦ k
        | inr lost ↦
            let (r, it) =
              Some-witness (λ x. IsRowOf uuid time json j x × (has_id (to_string id) x ≡ true)) rows
                lost in
            absurd (other_row id j r n it.0.0 it.1)
      ]

  pub record_attempt-others :
      (io : Io) (id : Uuid) (n : ℕ) (t : Option ℤ) (db : Db) (j : WebhookJob Value)
      → IsPresent uuid time json db.jobs j
      → IsPresent uuid time json (record_attempt uuid time json io id n t db).0.jobs j
  unfolding record_attempt
  record_attempt-others none id n t db j s =
      update-IsPresent (has_id (to_string id)) (set_attempts n (text_of uuid time json t)) db.jobs j
        (attempts-KeepsJob uuid time json n (text_of uuid time json t)) s
  record_attempt-others (some e) id n t db j s = s

  pub mark_delivered-others :
      (io : Io) (id : Uuid) (db : Db) (j : WebhookJob Value)
      → IsPresent uuid time json db.jobs j
      → IsPresent uuid time json (mark_delivered uuid time json io id db).0.jobs j
  unfolding mark_delivered
  mark_delivered-others none id db j s =
      update-IsPresent (has_id (to_string id)) set_delivered db.jobs j
        (delivered-KeepsJob uuid time json) s
  mark_delivered-others (some e) id db j s = s

  pub move_to_dlq-others :
      (io io' : Io) (now : ℤ) (entry_id : Uuid) (job : WebhookJob Value) (error : String) (db : Db)
      (j : WebhookJob Value)
      → str_eq (to_string j.id) (to_string job.id) ≡ false
      → IsPresent uuid time json db.jobs j
      → IsPresent uuid time json
          (move_to_dlq uuid time json io io' now entry_id job error db).0.jobs
          j
  unfolding move_to_dlq
  move_to_dlq-others (some e) io' now entry_id job error db j n s = s
  move_to_dlq-others none (some e) now entry_id job error db j n s =
      elim (Bool-cases (any (has_entry_id (to_string entry_id)) db.dead_letters)) [
        | inl x ↦ rw x s
        | inr x ↦ rw x s
      ]
  move_to_dlq-others none none now entry_id job error db j n s =
      elim (Bool-cases (any (has_entry_id (to_string entry_id)) db.dead_letters)) [
        | inl x ↦ rw x s
        | inr x ↦ rw x (delete-IsPresent job.id db.jobs j n s)
      ]

  pub record_attempt-letters :
      (io : Io) (id : Uuid) (n : ℕ) (t : Option ℤ) (db : Db)
      → (record_attempt uuid time json io id n t db).0.dead_letters ≡ db.dead_letters
  unfolding record_attempt
  record_attempt-letters none id n t db = refl
  record_attempt-letters (some e) id n t db = refl

  pub mark_delivered-letters :
      (io : Io) (id : Uuid) (db : Db)
      → (mark_delivered uuid time json io id db).0.dead_letters ≡ db.dead_letters
  unfolding mark_delivered
  mark_delivered-letters none id db = refl
  mark_delivered-letters (some e) id db = refl

  delete_job-letters :
      (io : Io) (id : Uuid) (db : Db)
      → (delete_job uuid time json io id db).0.dead_letters ≡ db.dead_letters
  delete_job-letters none id db = refl
  delete_job-letters (some e) id db = refl

  new_letter :
      (letters : List DlqRow) (q : DlqRow) (i : Uuid) (e : DqlEntry Value)
      → str_eq q.id (to_string i) ≡ false
      → Agrees uuid time json letters (i, e)
      → Agrees uuid time json (letters ++ q ∷ []) (i, e)
  new_letter letters q i e n h = (
    h.0,
    All-append
        (λ y.
          has_entry_id (to_string i) y ≡ true
          → (y.payload ≡ print e.payload) × (y.destination ≡ e.destination))
        letters (q ∷ []) h.1
        ((λ m. absurd (let k : str_eq q.id (to_string i) ≡ true = m in cc)), tt),
  )

  pub move_to_dlq-letters :
      (io io' : Io) (now : ℤ) (entry_id : Uuid) (job : WebhookJob Value) (error : String) (db : Db)
      (i : Uuid) (e : DqlEntry Value)
      → str_eq (to_string entry_id) (to_string i) ≡ false
      → Agrees uuid time json db.dead_letters (i, e)
      → Agrees uuid time json
          (move_to_dlq uuid time json io io' now entry_id job error db).0.dead_letters
          (i, e)
  unfolding move_to_dlq
  move_to_dlq-letters (some x) io' now entry_id job error db i e n h = h
  move_to_dlq-letters none io' now entry_id job error db i e n h =
      elim (Bool-cases (any (has_entry_id (to_string entry_id)) db.dead_letters)) [
        | inl x ↦ rw x h
        | inr x ↦
            rw
              (
                x,
                delete_job-letters io' job.id (with_entry uuid time json now entry_id job error db),
              )
              (new_letter db.dead_letters (dlq_row uuid time json now entry_id job error) i e n h)
      ]

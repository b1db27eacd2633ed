-- ===== src/K/Worker/Outcomes.antt =====
-- `handle_one` of k/webhook-delivery/src/worker.rs: when a job is tried again.
use benchmark_rust_llms.Prelude.{
  ℕ, ◌≤◌, String, List, [], ◌∷◌, true, false, ◌≡◌, refl, inl, inr, arith, Bool-cases, pos, leb_ℤ,
  ok, err, Result, update, Option-cases, select_first,
}
use benchmark_rust_llms.Q.Model.{UuidText}
use benchmark_rust_llms.K.Model.{TimeText, JsonText, Job}
use benchmark_rust_llms.K.Db.{
  JobRow, Table, has_id, set_delivered, set_dead, set_rescheduled, mark_delivered, mark_dead,
  reschedule_job,
}
use benchmark_rust_llms.K.Db.Claims.{is_pending, claimable}
use benchmark_rust_llms.K.Worker.{
  DeliveryError, Config, World, handle_one, recorded, deliver, error_text, some, ℤ, none, delay_of,
  backoff,
}

-- An UPDATE of the rows of an id that leaves none of them pending.
module _ (t : String) (f : JobRow → JobRow)
    (leaves : (r : JobRow) → is_pending t (f r) ≡ false) where
  update-settled : (db : Table) → claimable t (update (has_id t) f db) ≡ 0
  update-settled [] = refl
  update-settled (r ∷ db) = elim (Bool-cases (has_id t r)) [
    | inl e ↦ rw (e, leaves r) (update-settled db)
    | inr e ↦ rw (e, e) (update-settled db)
  ]

delivered_no : (t now : String) (r : JobRow) → is_pending t (set_delivered now r) ≡ false
delivered_no t now r = ground arith

dead_no : (t now e : String) (r : JobRow) → is_pending t (set_dead now e r) ≡ false
dead_no t now e r = ground arith

pending_again :
    (t now next e : String) (r : JobRow)
    → has_id t r ≡ true
    → is_pending t (set_rescheduled now next e r) ≡ true
pending_again t now next e r h = ground arith

count-again :
    (t now next e : String) (db : Table) {r : JobRow}
    → select_first (has_id t) db ≡ some r
    → 1 ≤ claimable t (update (has_id t) (set_rescheduled now next e) db)
count-again t now next e [] h = cc
count-again t now next e (x ∷ db) {r} h = elim (Bool-cases (has_id t x)) [
  | inl i ↦ rw (i, pending_again t now next e x i) (omega arith)
  | inr i ↦ rw (i, i) (count-again t now next e db {r = r} (ground arith))
]

module _ (hmac : List ℕ → List ℕ → List ℕ) (hex_encode : List ℕ → String) (uuid : UuidText)
    (time : TimeText) {Value : Type 0} (json : JsonText Value) where
  open uuid use {to_string}

  delivered-settled :
      (w : World) (job : Job Value) (db : Table)
      → claimable (to_string job.id) db ≡ 0
      → claimable (to_string job.id) (mark_delivered uuid time json w.store w.wrote_at job.id db).0
        ≡ 0
  unfolding mark_delivered
  delivered-settled w job db z =
      let t = to_string job.id in
      let n = TimeText.fmt_ts time w.wrote_at in
      elim (Option-cases w.store) [
        | inl i ↦ rw i (update-settled t (set_delivered n) (delivered_no t n) db)
        | inr (x, i) ↦ rw i z
      ]

  dead-settled :
      (w : World) (job : Job Value) (e : String) (db : Table)
      → claimable (to_string job.id) db ≡ 0
      → claimable (to_string job.id) (mark_dead uuid time json w.store w.wrote_at job.id e db).0 ≡ 0
  unfolding mark_dead
  dead-settled w job e db z =
      let t = to_string job.id in
      let n = TimeText.fmt_ts time w.wrote_at in
      elim (Option-cases w.store) [
        | inl i ↦ rw i (update-settled t (set_dead n e) (dead_no t n e) db)
        | inr (x, i) ↦ rw i z
      ]

  recorded_lem :
      (w : World) (config : Config) (job : Job Value) (d : Result DeliveryError (Unit {0}))
      (db : Table)
      → claimable (to_string job.id) db ≡ 0
      → 1
        ≤ claimable (to_string job.id) (recorded hmac hex_encode uuid time json w config job d db).0
      → (e : DeliveryError) × (d ≡ err e) × (leb_ℤ job.max_attempts (pos job.attempts) ≡ false)
  unfolding recorded
  recorded_lem w config job (ok u) db z h = absurd (omega (arith, h, delivered-settled w job db z))
  recorded_lem w config job (err e) db z h =
      elim (Bool-cases (leb_ℤ job.max_attempts (pos job.attempts))) [
        | inl t ↦ absurd (
            let none_left : claimable (to_string job.id)
                  (recorded hmac hex_encode uuid time json w config job (err e) db).0
                ≡ 0 =
              rw t (dead-settled w job (error_text e) db z) in
            omega (arith, h, none_left))
        | inr t ↦ (e, refl, t)
      ]

  -- A claimed job, none of whose rows is pending, is pending after `handle_one` only if its delivery
  -- failed and attempts were left; this holds whatever the engine answers, and after a panic.
  pub handle_one_lem :
      (w : World) (config : Config) (job : Job Value) (db : Table)
      → claimable (to_string job.id) db ≡ 0
      → 1
        ≤ claimable (to_string job.id) (handle_one hmac hex_encode uuid time json w config job db).0
      → (e : DeliveryError) × (deliver hmac hex_encode uuid time json w.network config job ≡ err e)
        × (leb_ℤ job.max_attempts (pos job.attempts) ≡ false)
  unfolding handle_one
  handle_one_lem w config job db z h =
      recorded_lem w config job (deliver hmac hex_encode uuid time json w.network config job) db z h

  recorded-pending :
      (w : World) (config : Config) (job : Job Value) (db : Table) (next : ℤ) (e : DeliveryError)
      (r : JobRow)
      → select_first (has_id (to_string job.id)) db ≡ some r
      → w.store ≡ none
      → w.plus w.now (
          delay_of
            (backoff w.jitter job.attempts config.base_delay_ms config.max_delay_ms)
            config.max_delay_ms)
        ≡ some next
      → leb_ℤ job.max_attempts (pos job.attempts) ≡ false
      → 1
        ≤ claimable
            (to_string job.id)
            (recorded hmac hex_encode uuid time json w config job (err e) db).0
  unfolding recorded reschedule_job
  recorded-pending w config job db next e r found calm sum left =
      rw (left, sum, calm)
        (count-again (to_string job.id) (TimeText.fmt_ts time w.wrote_at)
          (TimeText.fmt_ts time next) (error_text e) db {r = r} found)

  -- A stored job whose delivery failed with attempts left is pending after `handle_one`, if the engine
  -- writes the row and the time of the next attempt is in chrono's range.
  pub handle_one-reschedule_job :
      (w : World) (config : Config) (job : Job Value) (db : Table) (next : ℤ) (e : DeliveryError)
      (r : JobRow)
      → select_first (has_id (to_string job.id)) db ≡ some r
      → w.store ≡ none
      → w.plus w.now (
          delay_of
            (backoff w.jitter job.attempts config.base_delay_ms config.max_delay_ms)
            config.max_delay_ms)
        ≡ some next
      → leb_ℤ job.max_attempts (pos job.attempts) ≡ false
      → deliver hmac hex_encode uuid time json w.network config job ≡ err e
      → 1
        ≤ claimable (to_string job.id) (handle_one hmac hex_encode uuid time json w config job db).0
  unfolding handle_one
  handle_one-reschedule_job w config job db next e r found calm sum left failed =
      rw failed (recorded-pending w config job db next e r found calm sum left)

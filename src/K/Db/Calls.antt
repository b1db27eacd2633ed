-- ===== src/K/Db/Calls.antt =====
-- The writing methods of k/webhook-delivery/src/db.rs as data: a history, or an interleaving of
-- workers and handlers, is a list of calls.
use benchmark_rust_llms.Prelude.{ℤ, String, List, [], ◌∷◌}
use benchmark_rust_llms.Q.Model.{Uuid, UuidText}
use benchmark_rust_llms.K.Model.{TimeText, JsonText}
use benchmark_rust_llms.K.Db.{
  Table, Io, ClaimIo, insert_job, claim_due_jobs, mark_delivered, reschedule_job, mark_dead,
  requeue_dead,
}

pub data Call (Value : Type 0) : Type 0 where
  inserts : Io → ℤ → Uuid → String → Value → ℤ → Call Value
  claims : ClaimIo → ℤ → ℤ → Call Value
  marks_delivered : Io → ℤ → Uuid → Call Value
  reschedules : Io → ℤ → Uuid → ℤ → String → Call Value
  marks_dead : Io → ℤ → Uuid → String → Call Value
  requeues : Io → ℤ → Uuid → Call Value

module _ (uuid : UuidText) (time : TimeText) {Value : Type 0} (json : JsonText Value) where
  unfoldable pub step : Table → Call Value → Table
  step db (inserts io now id destination v n) =
      (insert_job uuid time json io now id destination v n db).0
  step db (claims io now limit) = (claim_due_jobs uuid time json io now limit db).0
  step db (marks_delivered io now id) = (mark_delivered uuid time json io now id db).0
  step db (reschedules io now id next e) = (reschedule_job uuid time json io now id next e db).0
  step db (marks_dead io now id e) = (mark_dead uuid time json io now id e db).0
  step db (requeues io now id) = (requeue_dead uuid time json io now id db).0

  unfoldable pub run : Table → List (Call Value) → Table
  unfolding step
  run db [] = db
  run db (c ∷ cs) = run (step db c) cs

-- ===== src/Q/Db/Calls.antt =====
-- The calls that write to the tables, as data: the workers and the HTTP handlers reach the tables
-- only through `Db`, whose mutex makes each method one step, so an interleaving of theirs is a list.
use benchmark_rust_llms.Prelude.{String, List, [], ◌∷◌, ℤ}
use benchmark_rust_llms.Q.Model.{Uuid, UuidText, NewDelivery}
use benchmark_rust_llms.Q.Db.Rows.{Db, Io}
use benchmark_rust_llms.Q.Db.Writes.{
  insert, claim, mark_delivered, schedule_retry, dead_letter, replay_dead_letter,
  set_in_flight_stale_for_test, reset_stale_in_flight,
}

pub data Call : Type 0 where
  inserts : Io → Io → ℤ → NewDelivery → Call
  claims : Io → ℤ → Uuid → Call
  marks_delivered : Io → ℤ → Uuid → Call
  schedules_retry : Io → ℤ → Uuid → ℤ → String → Call
  dead_letters : Io → Io → ℤ → Uuid → Uuid → String → Call
  replays : Io → ℤ → Uuid → Call
  resets_stale : Io → ℤ → ℤ → Call
  ages_for_test : Io → Uuid → ℤ → Call

module _ (uuid : UuidText) where
  unfoldable pub step : Db → Call → Db
  step db (inserts io io' now d) = (insert uuid io io' now d db).0
  step db (claims io now id) = (claim uuid io now id db).0
  step db (marks_delivered io now id) = (mark_delivered uuid io now id db).0
  step db (schedules_retry io now id next e) = (schedule_retry uuid io now id next e db).0
  step db (dead_letters io io' now entry id e) = (dead_letter uuid io io' now entry id e db).0
  step db (replays io now id) = (replay_dead_letter uuid io now id db).0
  step db (resets_stale io now stale) = (reset_stale_in_flight io now stale db).0
  step db (ages_for_test io id at) = (set_in_flight_stale_for_test uuid io id at db).0

  unfoldable pub run : Db → List Call → Db
  unfolding step
  run db [] = db
  run db (c ∷ cs) = run (step db c) cs

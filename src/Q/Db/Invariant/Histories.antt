-- ===== src/Q/Db/Invariant/Histories.antt =====
-- The invariant of q/src/db.rs over every history of calls.
use benchmark_rust_llms.Prelude.{List, [], ◌∷◌}
use benchmark_rust_llms.Q.Model.{UuidText}
use benchmark_rust_llms.Q.Db.Rows.{Db, empty}
use benchmark_rust_llms.Q.Db.Writes.{
  claim, mark_delivered, schedule_retry, replay_dead_letter, reset_stale_in_flight,
  set_in_flight_stale_for_test,
}
use benchmark_rust_llms.Q.Db.Calls.{
  Call, inserts, claims, marks_delivered, schedules_retry, dead_letters, replays, resets_stale,
  ages_for_test, step, run,
}
use benchmark_rust_llms.Q.Db.Invariant.{IsWellFormed}
use benchmark_rust_llms.Q.Db.Invariant.Updates.{
  update-IsWellFormed, set_in_flight-Keeps, set_delivered-Keeps, set_retry-Keeps,
  set_replayed-Keeps, set_requeued-Keeps, set_for_test-Keeps,
}
use benchmark_rust_llms.Q.Db.Invariant.Inserts.{insert-IsWellFormed, dead_letter-IsWellFormed}
use benchmark_rust_llms.Q.Db.Cases.{execute_cases}

module _ (uuid : UuidText) where
  -- Every call that writes keeps the tables well-formed, whatever the engine answers.
  pub step-IsWellFormed :
      (db : Db) (c : Call) → IsWellFormed uuid db → IsWellFormed uuid (step uuid db c)
  unfolding step claim mark_delivered schedule_retry replay_dead_letter reset_stale_in_flight
      set_in_flight_stale_for_test
  step-IsWellFormed db (inserts io io' now d) w = insert-IsWellFormed uuid io io' now d db w
  step-IsWellFormed db (claims io now id) w =
      execute_cases (IsWellFormed uuid) io db _ _ w
        (update-IsWellFormed _ _ (set_in_flight-Keeps now) uuid db w)
  step-IsWellFormed db (marks_delivered io now id) w =
      execute_cases (IsWellFormed uuid) io db _ _ w
        (update-IsWellFormed _ _ (set_delivered-Keeps now) uuid db w)
  step-IsWellFormed db (schedules_retry io now id next e) w =
      execute_cases (IsWellFormed uuid) io db _ _ w
        (update-IsWellFormed _ _ (set_retry-Keeps now next e) uuid db w)
  step-IsWellFormed db (dead_letters io io' now entry id e) w =
      dead_letter-IsWellFormed uuid io io' now entry id e db w
  step-IsWellFormed db (replays io now id) w =
      execute_cases (IsWellFormed uuid) io db _ _ w
        (update-IsWellFormed _ _ (set_replayed-Keeps now) uuid db w)
  step-IsWellFormed db (resets_stale io now stale) w =
      execute_cases (IsWellFormed uuid) io db _ _ w
        (update-IsWellFormed _ _ (set_requeued-Keeps now) uuid db w)
  step-IsWellFormed db (ages_for_test io id at) w =
      execute_cases (IsWellFormed uuid) io db _ _ w
        (update-IsWellFormed _ _ (set_for_test-Keeps at) uuid db w)

  pub empty-IsWellFormed : IsWellFormed uuid empty
  empty-IsWellFormed = record { rows = tt; unique = tt; entries = tt; unique_entries = tt }

  -- Every history of writing calls, whatever the engine answers, keeps the tables well-formed: ids
  -- and keys are unique, every row has an id and a status that the program reads back, and every
  -- dead-letter entry has a readable id of its own and names a delivery that is in the table.
  pub run-IsWellFormed :
      (db : Db) (cs : List Call) → IsWellFormed uuid db → IsWellFormed uuid (run uuid db cs)
  unfolding run
  run-IsWellFormed db [] w = w
  run-IsWellFormed db (c ∷ cs) w = run-IsWellFormed (step uuid db c) cs (step-IsWellFormed db c w)

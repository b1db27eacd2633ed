-- ===== src/Q/Db/Claims.antt =====
-- `claim` of q/src/db.rs: of all workers that race for a delivery, one wins.
use benchmark_rust_llms.Prelude.{
  ℕ, ◌≤◌, String, none, some, List, [], ◌∷◌, Bool, true, ◌≡◌, ◌≢◌, refl, update, count_if, arith,
  Bool-cases, inl, inr, false, All, ℤ, ok, ◌==◌, ◌++◌, str_eq, eq_iff,
}
use benchmark_rust_llms.Q.Model.{Uuid, UuidText}
use benchmark_rust_llms.Q.Db.Rows.{DeliveryRow, Db, Io, has_id_status, has_id}
use benchmark_rust_llms.Q.Db.Writes.{
  claim, mark_delivered, set_in_flight, set_delivered, set_dead_letter, set_retry, set_replayed,
  set_for_test, new_row, schedule_retry, replay_dead_letter, set_in_flight_stale_for_test,
}
use benchmark_rust_llms.Q.Db.Cases.{execute_cases, dead_letter_cases, insert_cases}
use benchmark_rust_llms.Q.Db.Calls.{
  Call, inserts, claims, marks_delivered, schedules_retry, dead_letters, replays, resets_stale,
  ages_for_test, step, run,
}

-- How many rows a claim of the id would take.
abbrev claimable : String → Db → ℕ
claimable t db = count_if (has_id_status t "pending") db.deliveries

-- An UPDATE that leaves no row of the id pending makes none claimable.
module _ (p : DeliveryRow → Bool) (f : DeliveryRow → DeliveryRow) (t : String)
    (leaves : (r : DeliveryRow) → p r ≡ true → has_id_status t "pending" (f r) ≡ false) where
  update-claimable :
      (rs : List DeliveryRow)
      → count_if (has_id_status t "pending") (update p f rs)
        ≤ count_if (has_id_status t "pending") rs
  update-claimable [] = omega arith
  update-claimable (r ∷ rs) = elim (Bool-cases (p r)) [
    | inl e ↦ rw (e, leaves r e) (ground (arith, update-claimable rs))
    | inr e ↦ rw e (ground (arith, update-claimable rs))
  ]

-- Another row at the end adds nothing.
append-claimable :
    (t : String) (r : DeliveryRow) (rs : List DeliveryRow)
    → has_id t r ≡ false
    → count_if (has_id_status t "pending") (rs ++ r ∷ []) ≤ count_if (has_id_status t "pending") rs
append-claimable t r [] h = rw h (omega arith)
append-claimable t r (x ∷ rs) h = ground (arith, append-claimable t r rs h)

-- A row of another id is not claimable as this one.
other_id :
    (i t s : String) (r : DeliveryRow)
    → str_eq i t ≡ false
    → has_id i r ≡ true
    → has_id_status t s r ≡ false
other_id i t s r h e = rw ((eq_iff r.id i).0 e, h) refl

claimed :
    (t : String) (now : ℤ) (r : DeliveryRow)
    → has_id_status t "pending" (set_in_flight now r) ≡ false
claimed t now r = ground arith

done :
    (t : String) (now : ℤ) (r : DeliveryRow)
    → has_id_status t "pending" (set_delivered now r) ≡ false
done t now r = ground arith

dead :
    (t : String) (now : ℤ) (e : String) (r : DeliveryRow)
    → has_id_status t "pending" (set_dead_letter now e r) ≡ false
dead t now e r = ground arith

aged :
    (t : String) (at : ℤ) (r : DeliveryRow) → has_id_status t "pending" (set_for_test at r) ≡ false
aged t at r = ground arith

-- After the claim's UPDATE no row of the id is pending.
claim-claimable :
    (t : String) (now : ℤ) (rs : List DeliveryRow)
    → count_if
        (has_id_status t "pending")
        (update (has_id_status t "pending") (set_in_flight now) rs)
      ≡ 0
claim-claimable t now [] = refl
claim-claimable t now (r ∷ rs) = elim (Bool-cases (has_id_status t "pending" r)) [
  | inl e ↦ rw (e, claimed t now r) (claim-claimable t now rs)
  | inr e ↦ rw (e, e) (claim-claimable t now rs)
]

module _ (uuid : UuidText) where
  open uuid use {to_string}

  -- Calls that do not put the delivery back: its own retry and replay do, and so may the reset of
  -- stale deliveries.
  abbrev pub IsQuiet : String → Call → Type 0
  IsQuiet t (inserts io io' now d) = str_eq (to_string d.id) t ≡ false
  IsQuiet t (schedules_retry io now id next e) = str_eq (to_string id) t ≡ false
  IsQuiet t (replays io now id) = str_eq (to_string id) t ≡ false
  IsQuiet t (resets_stale io now stale) = ⊥
  IsQuiet t _ = Unit

  step-claimable :
      (t : String) (db : Db) (c : Call)
      → IsQuiet t c
      → claimable t (step uuid db c) ≤ claimable t db
  unfolding step claim mark_delivered schedule_retry replay_dead_letter set_in_flight_stale_for_test
  step-claimable t db (claims io now id) q =
      let p = has_id_status (to_string id) "pending" in
      execute_cases (λ d. claimable t d ≤ claimable t db) io db
        (record db { deliveries = update p (set_in_flight now) db.deliveries })
        (count_if p db.deliveries == 1) (omega arith)
        (update-claimable p (set_in_flight now) t (λ r _. claimed t now r) db.deliveries)
  step-claimable t db (marks_delivered io now id) q =
      let p = has_id (to_string id) in
      execute_cases (λ d. claimable t d ≤ claimable t db) io db
        (record db { deliveries = update p (set_delivered now) db.deliveries }) tt (omega arith)
        (update-claimable p (set_delivered now) t (λ r _. done t now r) db.deliveries)
  step-claimable t db (dead_letters io io' now entry id e) q =
      dead_letter_cases uuid (λ d. claimable t d ≤ claimable t db) io io' now entry id e db
        (omega arith)
        (λ r _ _.
          update-claimable (has_id (to_string id)) (set_dead_letter now e) t (λ r _. dead t now e r)
            db.deliveries)
  step-claimable t db (inserts io io' now d) q =
      insert_cases uuid (λ x. claimable t x ≤ claimable t db) io io' now d db (omega arith)
        (λ _. append-claimable t (new_row uuid now d) db.deliveries q)
  step-claimable t db (schedules_retry io now id next e) q =
      let p = has_id (to_string id) in
      execute_cases (λ d. claimable t d ≤ claimable t db) io db
        (record db { deliveries = update p (set_retry now next e) db.deliveries }) tt (omega arith)
        (update-claimable p (set_retry now next e) t
          (λ r. other_id (to_string id) t "pending" (set_retry now next e r) q) db.deliveries)
  step-claimable t db (replays io now id) q =
      let p = has_id_status (to_string id) "dead_letter" in
      execute_cases (λ d. claimable t d ≤ claimable t db) io db
        (record db { deliveries = update p (set_replayed now) db.deliveries })
        (count_if p db.deliveries == 1) (omega arith)
        (update-claimable p (set_replayed now) t
          (λ r h. other_id (to_string id) t "pending" (set_replayed now r) q (ground arith))
          db.deliveries)
  step-claimable t db (resets_stale io now stale) q = absurd q
  step-claimable t db (ages_for_test io id at) q =
      let p = has_id (to_string id) in
      execute_cases (λ d. claimable t d ≤ claimable t db) io db
        (record db { deliveries = update p (set_for_test at) db.deliveries }) tt (omega arith)
        (update-claimable p (set_for_test at) t (λ r _. aged t at r) db.deliveries)

  run-claimable :
      (t : String) (db : Db) (cs : List Call)
      → All (IsQuiet t) cs
      → claimable t (run uuid db cs) ≤ claimable t db
  unfolding run
  run-claimable t db [] h = omega arith
  run-claimable t db (c ∷ cs) h =
      omega (arith, step-claimable t db c h.0, run-claimable t (step uuid db c) cs h.1)

  won :
      (io : Io) (now : ℤ) (id : Uuid) (db : Db)
      → (claim uuid io now id db).1 ≡ ok true
      → claimable (to_string id) (claim uuid io now id db).0 ≡ 0
  unfolding claim
  won none now id db h = claim-claimable (to_string id) now db.deliveries
  won (some e) now id db h = cc

  lost :
      (io : Io) (now : ℤ) (id : Uuid) (db : Db)
      → claimable (to_string id) db ≡ 0
      → (claim uuid io now id db).1 ≢ ok true
  unfolding claim
  lost none now id db z h = ground arith
  lost (some e) now id db z h = cc

  -- Once a worker has claimed a delivery, no later claim of it succeeds, by whichever worker and
  -- whatever the engine answers, as long as the delivery is not put back: the calls between may be
  -- any but a retry or a replay of the same delivery, an insert of the same id, and a reset of stale
  -- deliveries.
  pub claim_once :
      (io io' : Io) (now now' : ℤ) (id : Uuid) (db : Db) (cs : List Call)
      → All (IsQuiet (to_string id)) cs
      → (claim uuid io now id db).1 ≡ ok true
      → (claim uuid io' now' id (run uuid (claim uuid io now id db).0 cs)).1 ≢ ok true
  claim_once io io' now now' id db cs quiet h = lost io' now' id _ (
      omega (
        arith,
        won io now id db h,
        run-claimable (to_string id) (claim uuid io now id db).0 cs quiet,
      ))

-- ===== src/G/Worker.antt =====
-- g/src/worker.rs: a tick of the loop, which reclaims and claims, and the processing of a claimed job.
-- An i64 that leaves its range wraps, as in a release build.
pub mod Claims
pub mod Outcomes
use benchmark_rust_llms.Prelude.{
  ℕ, ◌+◌, ◌-◌, ◌*◌, String, Option, none, some, List, [], ◌∷◌, map, Bool, any, ◌&&◌, if◌then◌else◌,
  str_eq, ℤ, pos, negsuc, ◌+ℤ◌, ◌-ℤ◌, leb_ℤ, not, wrap_i64, Result, ok, err, select, update,
  count_if, order_by, limited,
}
use benchmark_rust_llms.G.Model.{
  DeliveryRow, ClaimedJob, status_pending, status_processing, status_delivered,
  status_dead_lettered,
}
use benchmark_rust_llms.G.Config.{Config}
use benchmark_rust_llms.G.Security.{Outside}
use benchmark_rust_llms.G.Db.{Table, Io, SqlxError, execute, has_id, has_status, set_pending}
use benchmark_rust_llms.G.Deliver.{Request, backoff_ms, deliver_once}

-- `secs * 1000`
abbrev pub in_millis : ℤ → ℤ
in_millis (pos n) = wrap_i64 (pos (n * 1000))
in_millis (negsuc n) = wrap_i64 (negsuc ((n + 1) * 1000 - 1))

-- WHERE status = 'processing' AND updated_at < ?
abbrev pub is_stale : ℤ → DeliveryRow → Bool
is_stale cutoff r = has_status status_processing r && not (leb_ℤ cutoff r.updated_at)

-- WHERE status = 'pending' AND next_attempt_at <= ?
abbrev pub is_due : ℤ → DeliveryRow → Bool
is_due now r = has_status status_pending r && leb_ℤ r.next_attempt_at now

-- ORDER BY next_attempt_at
abbrev pub due_before : DeliveryRow → DeliveryRow → Bool
due_before a b = leb_ℤ a.next_attempt_at b.next_attempt_at

-- The ids of the inner SELECT.
abbrev pub due_ids : ℤ → ℤ → Table → List String
due_ids now batch db =
    map (λ r. DeliveryRow.id r) (limited batch (order_by due_before (select (is_due now) db)))

-- WHERE id IN (...)
abbrev pub is_in : List String → DeliveryRow → Bool
is_in ids r = any (λ i. str_eq i r.id) ids

abbrev pub set_processing : ℤ → DeliveryRow → DeliveryRow
set_processing now r = record r { status = status_processing; updated_at = now }

-- The columns that RETURNING lists.
abbrev pub claimed_job : DeliveryRow → ClaimedJob
claimed_job r = record {
  id = r.id;
  destination = r.destination;
  payload = r.payload;
  attempts = r.attempts;
  max_attempts = r.max_attempts;
}

unfoldable pub reclaim : Io → ℤ → ℤ → Table → Table × Result SqlxError ℕ
reclaim io now cutoff db =
    execute io db (update (is_stale cutoff) (set_pending now) db, count_if (is_stale cutoff) db)

unfoldable pub claim : Io → ℤ → ℤ → Table → Table × Result SqlxError (List ClaimedJob)
claim io now batch db =
    let p = is_in (due_ids now batch db) in
    execute io db (update p (set_processing now) db, map claimed_job (select p db))

abbrev pub then_claim :
    Io → ℤ → ℤ → Table × Result SqlxError ℕ → Table × Result SqlxError (List ClaimedJob)
then_claim io now batch (db, err e) = (db, err e)
then_claim io now batch (db, ok n) = claim io now batch db

-- The jobs of a tick are then processed, each in a task of its own; `io` and `io'` answer its two
-- statements.
unfoldable pub tick : Io → Io → ℤ → Config → Table → Table × Result SqlxError (List ClaimedJob)
unfolding reclaim claim
tick io io' now cfg db =
    then_claim io' now cfg.batch_size
      (reclaim io now (wrap_i64 (now -ℤ in_millis cfg.visibility_timeout_secs)) db)

abbrev pub set_delivered : ℤ → ℤ → DeliveryRow → DeliveryRow
set_delivered attempts now r = record r {
  status = status_delivered;
  attempts = attempts;
  delivered_at = some now;
  updated_at = now;
  last_error = none;
}

abbrev pub set_dead_lettered : ℤ → String → ℤ → DeliveryRow → DeliveryRow
set_dead_lettered attempts e now r = record r {
  status = status_dead_lettered;
  attempts = attempts;
  last_error = some e;
  updated_at = now;
  delivered_at = none;
}

abbrev pub set_retry : ℤ → String → ℤ → ℤ → DeliveryRow → DeliveryRow
set_retry attempts e next now r = record r {
  status = status_pending;
  attempts = attempts;
  last_error = some e;
  next_attempt_at = next;
  updated_at = now;
}

-- What the processing of one job meets.
pub record World : Type 0 where
  pub timestamp : String
  pub network : Request → Result String (ℕ × String)
  pub now : ℤ
  pub draw : ℕ → ℕ
  pub store : Io

module _ (out : Outside) (hmac : List ℕ → List ℕ → List ℕ) (hex_encode : List ℕ → String)
    (show_status : ℕ → String) (cfg : Config) where
  -- `job.attempts + 1`
  abbrev pub next_attempt : ClaimedJob → ℤ
  next_attempt job = wrap_i64 (job.attempts +ℤ pos 1)

  -- The row that the UPDATE makes of the job's row.
  unfoldable pub outcome : World → ClaimedJob → Result String (Unit {0}) → DeliveryRow → DeliveryRow
  unfolding backoff_ms
  outcome w job (ok u) r = set_delivered (next_attempt job) w.now r
  outcome w job (err e) r =
      if leb_ℤ job.max_attempts (next_attempt job)
      then set_dead_lettered (next_attempt job) e w.now r
      else set_retry (next_attempt job) e
          (wrap_i64 (w.now +ℤ backoff_ms w.draw cfg (next_attempt job))) w.now r

  unfoldable pub process_job : World → ClaimedJob → Table → Table × Result SqlxError (Unit {0})
  unfolding outcome deliver_once
  process_job w job db = execute w.store db (
    update (has_id job.id)
        (outcome w job (deliver_once out hmac hex_encode show_status cfg w.timestamp w.network job))
        db,
    tt,
  )

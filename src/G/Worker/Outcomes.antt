-- ===== src/G/Worker/Outcomes.antt =====
-- `process_job` of g/src/worker.rs: what it makes of the row of its job.
use benchmark_rust_llms.Prelude.{
  ℕ, String, none, some, List, [], ◌∷◌, leb_ℤ, Result, ok, err, update,
}
use benchmark_rust_llms.G.Model.{
  DeliveryRow, ClaimedJob, status_pending, status_delivered, status_dead_lettered,
}
use benchmark_rust_llms.G.Config.{Config}
use benchmark_rust_llms.G.Security.{Outside, validate_destination}
use benchmark_rust_llms.G.Security.Policy.{IsDeliverable, validate_destination_iff}
use benchmark_rust_llms.Prelude.{
  ℤ, pos, wrap_i64, ◌+ℤ◌, ◌<>◌, ◌≤◌, ◌<◌, leb, ltb, ◌&&◌, arith, map_err, ◌>>=◌,
}
use benchmark_rust_llms.G.Db.{Table, has_id}
use benchmark_rust_llms.G.Deliver.{deliver_once, request, answered, truncate}
use benchmark_rust_llms.G.Worker.{World, outcome, process_job}
use benchmark_rust_llms.Prelude.{All, Bool-cases, inl, inr, ◌≡◌, refl, true, false, ◌⊎◌}

-- The rows that an UPDATE of one id has met.
update-met :
    (i : String) (f : DeliveryRow → DeliveryRow) (P : DeliveryRow → Type 0)
    → ((r : DeliveryRow) → P (f r))
    → (db : Table) → All (λ r. has_id i r ≡ true → P r) (update (has_id i) f db)
update-met i f P h [] = tt
update-met i f P h (r ∷ db) = elim (Bool-cases (has_id i r)) [
  | inl e ↦ rw e ((λ _. h r), update-met i f P h db)
  | inr e ↦ rw e ((λ k. absurd (let k' : has_id i r ≡ true = k in cc)), update-met i f P h db)
]

module _ (out : Outside) (hmac : List ℕ → List ℕ → List ℕ) (hex_encode : List ℕ → String)
    (show_status : ℕ → String) (cfg : Config) (w : World) (job : ClaimedJob) where
  abbrev pub IsAllowed : Type 0
  IsAllowed = IsDeliverable out job.destination cfg.allow_private_destinations

  abbrev pub answer : Result String (ℕ × String)
  answer = w.network (request out hmac hex_encode show_status cfg w.timestamp job)

  -- The destination may be delivered to, and answered the request with a status from 200 to 299.
  abbrev pub IsDelivered : Type 0
  IsDelivered =
      IsAllowed
      × (status : ℕ) × (body : String) × (answer ≡ ok (status, body))
      × (200 ≤ status)
      × (status < 300)

  -- The destination is refused, the request failed, or it was answered with another status.
  abbrev pub IsFailed : String → Type 0
  IsFailed e =
      ((reason : String) × (¬ IsAllowed) × (e ≡ "destination rejected: " <> reason))
      ⊎ ((text : String) × IsAllowed × (answer ≡ err text) × (e ≡ "request failed: " <> text))
      ⊎ ((status : ℕ) × (body : String) × IsAllowed
          × (answer ≡ ok (status, body))
          × ((status < 200) ⊎ (300 ≤ status))
          × (e
              ≡ "destination responded with HTTP "
                <> (show_status status <> (": " <> truncate body 200))))

  -- The attempt that has ended, on an i64.
  abbrev pub attempt : ℤ
  attempt = wrap_i64 (job.attempts +ℤ pos 1)

  -- What the row of the job is to be.
  abbrev pub IsSettled : DeliveryRow → Type 0
  IsSettled r =
      (IsDelivered × (r.status ≡ status_delivered) × (r.attempts ≡ attempt) × (r.last_error ≡ none))
      ⊎ ((e : String) × IsFailed e
          × (r.attempts ≡ attempt)
          × (r.last_error ≡ some e)
          × (((leb_ℤ job.max_attempts attempt ≡ true) × (r.status ≡ status_dead_lettered))
              ⊎ ((leb_ℤ job.max_attempts attempt ≡ false) × (r.status ≡ status_pending))))

  -- What an attempt that gave this result has met.
  abbrev Met : Result String (Unit {0}) → Type 0
  Met (ok u) = IsDelivered
  Met (err e) = IsFailed e

  answered-Met :
      (a : Result String (ℕ × String))
      → answer ≡ a
      → IsAllowed
      → Met (answered out hmac hex_encode show_status a)
  unfolding answered
  answered-Met (err e) h i = inr (inl (e, i, h, refl))
  answered-Met (ok (status, body)) h i = elim (Bool-cases (leb 200 status && ltb status 300)) [
    | inl t ↦ rw t (i, status, body, h, ground arith, ground arith)
    | inr t ↦ rw t (inr (inr (status, body, i, h, ground arith, refl)))
  ]

  checked-Met :
      (c : Result String (Unit {0}))
      → validate_destination out job.destination cfg.allow_private_destinations ≡ c
      → Met (
          map_err (λ reason. "destination rejected: " <> reason) c >>= λ _.
          answered out hmac hex_encode show_status answer)
  checked-Met (ok tt) h =
      answered-Met answer refl
        ((validate_destination_iff out job.destination cfg.allow_private_destinations).0 h)
  checked-Met (err reason) h = inl (
    reason,
    λ i.
        let k = (validate_destination_iff out job.destination cfg.allow_private_destinations).1 i in
        cc,
    refl,
  )

  outcome-IsSettled :
      (d : Result String (Unit {0})) (r : DeliveryRow)
      → Met d
      → IsSettled (outcome out hmac hex_encode show_status cfg w job d r)
  unfolding outcome
  outcome-IsSettled (ok u) r m = inl (m, refl, refl, refl)
  outcome-IsSettled (err e) r m = elim (Bool-cases (leb_ℤ job.max_attempts attempt)) [
    | inl t ↦ rw t (inr (e, m, refl, refl, inl (refl, refl)))
    | inr t ↦ rw t (inr (e, m, refl, refl, inr (refl, refl)))
  ]

  -- Whatever status the row of the job has by then, delivered included, the end of a delivery counts
  -- the attempt and settles the row: delivered without an error after an allowed destination answered
  -- with a status from 200 to 299; otherwise, with the text of the failure, dead-lettered if no
  -- attempts are left and pending if some are. A destination that may not be delivered to, a failed
  -- request and an answer with another status are failures.
  pub process_job-Settled :
      (db : Table)
      → w.store ≡ none
      → All
          (λ r. has_id job.id r ≡ true → IsSettled r)
          (process_job out hmac hex_encode show_status cfg w job db).0
  unfolding process_job deliver_once
  process_job-Settled db s = rw s (
      update-met job.id _ IsSettled
        (λ r. outcome-IsSettled _ r (
          checked-Met (validate_destination out job.destination cfg.allow_private_destinations)
            refl))
        db)

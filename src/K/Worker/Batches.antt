-- ===== src/K/Worker/Batches.antt =====
-- The loop over a batch in k/webhook-delivery/src/worker.rs: what becomes of every claimed job.
use benchmark_rust_llms.Prelude.{
  ℕ, ◌+◌, ◌≤◌, ◌<◌, String, none, some, List, [], ◌∷◌, true, false, ◌&&◌, leb, ltb, ◌≡◌, refl, sym,
  ap, ◌∙◌, ◌⊎◌, inl, inr, arith, Bool-cases, Result-cases, All, ℤ, pos, leb_ℤ, str_eq, eq_iff,
  Result, ok, err, update, as_bytes, HasUnique, has_key_of,
}
use benchmark_rust_llms.Q.Model.{UuidText}
use benchmark_rust_llms.K.Model.{TimeText, JsonText, Job}
use benchmark_rust_llms.K.Config.{Config}
use benchmark_rust_llms.K.Db.{
  JobRow, Table, has_id, set_delivered, set_dead, set_rescheduled, mark_delivered, mark_dead,
  reschedule_job,
}
use benchmark_rust_llms.K.Worker.{
  DeliveryError, World, finished, Ending, error_text, request, answered, deliver, recorded,
  handle_one, handle_all, delay_of, backoff,
}

-- The rows that an UPDATE of one id has met, and the rows of another id.
update-met :
    (i : String) (f : JobRow → JobRow) (P : JobRow → Type 0)
    → ((r : JobRow) → P (f r))
    → (db : Table) → All (λ r. has_id i r ≡ true → P r) (update (has_id i) f db)
update-met i f P h [] = tt
update-met i f P h (r ∷ db) = elim (Bool-cases (has_id i r)) [
  | inl e ↦ rw e ((λ _. h r), update-met i f P h db)
  | inr e ↦ rw e ((λ k. absurd (let k' : has_id i r ≡ true = k in cc)), update-met i f P h db)
]

not_both :
    (i t : String) (r : JobRow) → str_eq i t ≡ false → has_id i r ≡ true → has_id t r ≡ true → ⊥
not_both i t r n e h =
    let k : str_eq i t ≡ true = ap (λ s. str_eq s t) (sym ((eq_iff r.id i).0 e)) ∙ h in cc

update-unmet :
    (i t : String) (f : JobRow → JobRow) (P : JobRow → Type 0)
    → str_eq i t ≡ false
    → ((r : JobRow) → (f r).id ≡ r.id)
    → (db : Table) → All (λ r. has_id t r ≡ true → P r) db
    → All (λ r. has_id t r ≡ true → P r) (update (has_id i) f db)
update-unmet i t f P n k [] h = tt
update-unmet i t f P n k (r ∷ db) h = elim (Bool-cases (has_id i r)) [
  | inl e ↦ rw e (
    (λ m. absurd (not_both i t r n e (ap (λ s. str_eq s t) (sym (k r)) ∙ m))),
    update-unmet i t f P n k db h.1,
  )
  | inr e ↦ rw e (h.0, update-unmet i t f P n k db h.1)
]

module _ (hmac : List ℕ → List ℕ → List ℕ) (hex_encode : List ℕ → String) (uuid : UuidText)
    (time : TimeText) {Value : Type 0} (json : JsonText Value) (config : Config) where
  open uuid use {to_string}
  open json use {to_text}

  -- The payload has a text, and the destination answered the signed request with a status from 200 to
  -- 299.
  abbrev pub IsDelivered : World → Job Value → Type 0
  IsDelivered w job =
      (text : String) × (status : ℕ) × (to_text job.payload ≡ ok text)
      × (w.network (request hmac hex_encode uuid time json config job (as_bytes text)) ≡ ok status)
      × (200 ≤ status)
      × (status < 300)

  -- What the job's row is to be: delivered; or dead after the last attempt, and else pending.
  abbrev pub IsHandled : World → Job Value → JobRow → Type 0
  IsHandled w job r =
      (IsDelivered w job × (r.status ≡ "delivered"))
      ⊎ ((¬ IsDelivered w job)
          × (((leb_ℤ job.max_attempts (pos job.attempts) ≡ true) × (r.status ≡ "dead"))
              ⊎ ((leb_ℤ job.max_attempts (pos job.attempts) ≡ false) × (r.status ≡ "pending"))))

  answered-ok :
      (a : Result String ℕ)
      → answered hmac hex_encode uuid time json a ≡ ok tt
      → (status : ℕ) × (a ≡ ok status) × (200 ≤ status) × (status < 300)
  answered-ok (err e) h = cc
  answered-ok (ok status) h = elim (Bool-cases (leb 200 status && ltb status 300)) [
    | inl e ↦ (status, refl, ground arith, ground arith)
    | inr e ↦ absurd (let k = rw e at h in cc)
  ]

  deliver-IsDelivered :
      (w : World) (job : Job Value)
      → deliver hmac hex_encode uuid time json w.network config job ≡ ok tt
      → IsDelivered w job
  unfolding deliver
  deliver-IsDelivered w job h = elim (Result-cases (to_text job.payload)) [
    | inr (e, f) ↦ absurd (let k = rw (f, deliver) at h in cc)
    | inl (text, f) ↦
        let (status, n, lo, hi) =
          answered-ok
            (w.network (request hmac hex_encode uuid time json config job (as_bytes text)))
            (rw (f, deliver) at h) in
        (text, status, f, n, lo, hi)
  ]

  IsDelivered-deliver :
      (w : World) (job : Job Value)
      → IsDelivered w job
      → deliver hmac hex_encode uuid time json w.network config job ≡ ok tt
  unfolding deliver
  IsDelivered-deliver w job (text, status, f, n, lo, hi) = rw (f, n, deliver) (ground arith)

  -- The engine writes, and no time is out of chrono's range.
  pub record IsCalm (w : World) : Type 0 where
    pub store : w.store ≡ none
    pub plus : (t d : ℤ) → (next : ℤ) × (w.plus t d ≡ some next)

  -- What `handle_one` makes of the table.
  pub record Handles (w : World) (job : Job Value) (db : Table) (r : Table × Ending) : Type 0 where
    pub set : JobRow → JobRow
    pub result : r ≡ (update (has_id (to_string job.id)) set db, finished)
    pub handled : (x : JobRow) → IsHandled w job (set x)
    pub id : (x : JobRow) → (set x).id ≡ x.id

  recorded-Handles :
      (w : World) (job : Job Value) (db : Table) (d : Result DeliveryError (Unit {0}))
      → IsCalm w
      → deliver hmac hex_encode uuid time json w.network config job ≡ d
      → Handles w job db (recorded hmac hex_encode uuid time json w config job d db)
  unfolding recorded mark_delivered mark_dead reschedule_job
  recorded-Handles w job db (ok tt) c h = record {
    set = set_delivered (TimeText.fmt_ts time w.wrote_at);
    result = rw (c.store) refl;
    handled = λ x. inl (deliver-IsDelivered w job h, refl);
    id = λ x. refl;
  }
  recorded-Handles w job db (err e) c h =
      let failed : ¬ IsDelivered w job = λ i. let k = IsDelivered-deliver w job i in cc in
      elim (Bool-cases (leb_ℤ job.max_attempts (pos job.attempts))) [
        | inl t ↦ record {
          set = set_dead (TimeText.fmt_ts time w.wrote_at) (error_text e);
          result = rw (t, c.store) refl;
          handled = λ x. inr (failed, inl (t, refl));
          id = λ x. refl;
        }
        | inr t ↦
            let (next, sum) = c.plus w.now (
              delay_of (backoff w.jitter job.attempts config.base_delay_ms config.max_delay_ms)
                config.max_delay_ms) in
            record {
              set =
                  set_rescheduled (TimeText.fmt_ts time w.wrote_at) (TimeText.fmt_ts time next)
                    (error_text e);
              result = rw (t, sum, c.store) refl;
              handled = λ x. inr (failed, inr (t, refl));
              id = λ x. refl;
            }
      ]

  handle_one-Handles :
      (w : World) (job : Job Value) (db : Table)
      → IsCalm w
      → Handles w job db (handle_one hmac hex_encode uuid time json w config job db)
  unfolding handle_one
  handle_one-Handles w job db c = recorded-Handles w job db _ c refl

  abbrev job_key : Job Value → String
  job_key job = to_string job.id

  module _ (worlds : ℕ → World) (calm : (n : ℕ) → IsCalm (worlds n)) where
    handle_all-others :
        (n : ℕ) (jobs : List (Job Value)) (t : String) (P : JobRow → Type 0) (db : Table)
        → All (λ j. has_key_of job_key t j ≡ false) jobs
        → All (λ r. has_id t r ≡ true → P r) db
        → All
            (λ r. has_id t r ≡ true → P r)
            (handle_all hmac hex_encode uuid time json worlds config n jobs db).0
    unfolding handle_all
    handle_all-others n [] t P db u h = h
    handle_all-others n (job ∷ jobs) t P db u h =
        let one = handle_one-Handles (worlds n) job db (calm n) in
        rw one.result (
          handle_all-others (n + 1) jobs t P _ u.1
            (update-unmet (to_string job.id) t one.set P u.0 one.id db h))

    -- The n-th job has been handled in the n-th world, the next one in the next.
    abbrev pub AreHandled : ℕ → List (Job Value) → Table → Type 0
    AreHandled n [] db = Unit
    AreHandled n (job ∷ jobs) db =
        All (λ r. has_id (to_string job.id) r ≡ true → IsHandled (worlds n) job r) db
        × AreHandled (n + 1) jobs db

    -- After a batch of jobs with different ids, when the engine writes and no time is out of range, the
    -- row of every job is delivered if its payload has a text and its destination answered from 200 to
    -- 299; if not, it is dead when the job had no attempts left, and pending when it had.
    pub handle_all-AreHandled :
        (n : ℕ) (jobs : List (Job Value)) (db : Table)
        → HasUnique job_key jobs
        → AreHandled n jobs (handle_all hmac hex_encode uuid time json worlds config n jobs db).0
    unfolding handle_all
    handle_all-AreHandled n [] db u = tt
    handle_all-AreHandled n (job ∷ jobs) db u =
        let one = handle_one-Handles (worlds n) job db (calm n) in
        rw one.result (
          handle_all-others (n + 1) jobs (to_string job.id) (IsHandled (worlds n) job) _ u.0
              (update-met (to_string job.id) one.set (IsHandled (worlds n) job) one.handled db),
          handle_all-AreHandled (n + 1) jobs _ u.1,
        )

-- ===== src/K/Worker.antt =====
-- k/webhook-delivery/src/worker.rs: one delivery of a claimed job, and the loop of a worker.
-- The HMAC, the hex crate and the network are parameters. An overflow wraps, as in a release build.
use benchmark_rust_llms.Prelude.{
  ℕ, ◌+◌, ◌-◌, ◌*◌, ◌^◌, ◌%◌, ◌≤◌, min, max, String, ◌<>◌, decimal, Option, none, some, List, [],
  ◌∷◌, List, Bool, true, false, ◌&&◌, ltb, leb, if◌then◌else◌, ℤ, pos, leb_ℤ, as_i64, as_bytes,
  Result, ok, err,
}
use benchmark_rust_llms.Q.Model.{Uuid, UuidText}
use benchmark_rust_llms.K.Model.{AnyError, TimeText, JsonText, Job}
use benchmark_rust_llms.K.Security.{sign_body}
use benchmark_rust_llms.K.Config.{Config}
use benchmark_rust_llms.K.Db.{
  ClaimIo, claim_due_jobs, Table, Io, mark_delivered, reschedule_job, mark_dead,
}
pub mod Outcomes
pub mod Batches
mod Tests
pub mod Backoff

pub data DeliveryError : Type 0 where
  http : ℕ → DeliveryError
  transport : String → DeliveryError

-- `Display` of DeliveryError
unfoldable pub error_text : DeliveryError → String
error_text (http n) = "destination returned HTTP status " <> decimal n
error_text (transport e) = "transport error: " <> e

pub record Request : Type 0 where
  pub url : String
  pub content_type : String
  pub webhook_id : String
  pub signature : String
  pub body : List ℕ

-- `shift`: the cast to u32 keeps the low bits.
abbrev pub shift : ℕ → ℕ
shift attempts = min ((max attempts 1 % 2 ^ 32 + 2 ^ 32 - 1) % 2 ^ 32) 20

-- `base_ms.saturating_mul(1u64 << shift)`, capped.
unfoldable pub capped_ms : ℕ → ℕ → ℕ → ℕ
capped_ms attempts base_ms max_ms = min (min (base_ms * 2 ^ shift attempts) (2 ^ 64 - 1)) max_ms

-- `jitter` is what the f64 product and its cast to u64 make of the capped delay.
unfoldable pub backoff : (ℕ → ℕ) → ℕ → ℕ → ℕ → ℕ
unfolding capped_ms
backoff jitter attempts base_ms max_ms = jitter (capped_ms attempts base_ms max_ms)

-- `chrono::Duration::from_std`, in milliseconds, or the fallback.
unfoldable pub delay_of : ℕ → ℕ → ℤ
delay_of delay max_ms = if ltb delay (2 ^ 63) then pos delay else as_i64 max_ms

-- What a call of `handle_one` meets: the destination's answer, the clock, the jitter, the sum of a
-- time and a delay in milliseconds, if chrono can hold it, and the engine's answer to the update.
pub record World : Type 0 where
  pub network : Request → Result String ℕ
  pub now : ℤ
  pub wrote_at : ℤ
  pub jitter : ℕ → ℕ
  pub plus : ℤ → ℤ → Option ℤ
  pub store : Io

-- How a call ends; a sum out of range is a panic, which ends the worker.
pub data Ending : Type 0 where
  finished panicked : Ending

-- One turn of a worker's loop: its claim, and what its jobs meet.
pub record Round : Type 0 where
  pub claim : ClaimIo
  pub claim_now : ℤ
  pub worlds : ℕ → World

module _ (hmac : List ℕ → List ℕ → List ℕ) (hex_encode : List ℕ → String) where
  module _ (uuid : UuidText) (time : TimeText) {Value : Type 0} (json : JsonText Value) where
    open uuid use {to_string}
    open json use {to_text}

    abbrev pub request : Config → Job Value → List ℕ → Request
    request config job body = record {
      url = job.destination;
      content_type = "application/json";
      webhook_id = to_string job.id;
      signature = sign_body hmac hex_encode config.hmac_secret body;
      body = body;
    }

    -- From 200 to 299 is a success.
    abbrev pub answered : Result String ℕ → Result DeliveryError (Unit {0})
    answered (err e) = err (transport e)
    answered (ok status) = if leb 200 status && ltb status 300 then ok tt else err (http status)

    unfoldable pub deliver :
        (Request → Result String ℕ) → Config → Job Value → Result DeliveryError (Unit {0})
    deliver network config job = elim (to_text job.payload) [
      | err e ↦ err (transport ("payload serialization failed: " <> e))
      | ok text ↦ answered (network (request config job (as_bytes text)))
    ]

    abbrev pub rescheduled : World → Job Value → String → Option ℤ → Table → Table × Ending
    rescheduled w job e none db = (db, panicked)
    rescheduled w job e (some next) db =
        ((reschedule_job uuid time json w.store w.wrote_at job.id next e db).0, finished)

    -- A failed update is only logged.
    unfoldable pub recorded :
        World → Config → Job Value → Result DeliveryError (Unit {0}) → Table → Table × Ending
    unfolding error_text backoff delay_of
    recorded w config job (ok u) db =
        ((mark_delivered uuid time json w.store w.wrote_at job.id db).0, finished)
    recorded w config job (err e) db =
        if leb_ℤ job.max_attempts (pos job.attempts)
        then ((mark_dead uuid time json w.store w.wrote_at job.id (error_text e) db).0, finished)
        else rescheduled w job (error_text e)
            (w.plus w.now (
              delay_of (backoff w.jitter job.attempts config.base_delay_ms config.max_delay_ms)
                config.max_delay_ms))
            db

    unfoldable pub handle_one : World → Config → Job Value → Table → Table × Ending
    unfolding recorded deliver
    handle_one w config job db = recorded w config job (deliver w.network config job) db

    abbrev pub continued : (Table → Table × Ending) → Table × Ending → Table × Ending
    continued rest (db, finished) = rest db
    continued rest (db, panicked) = (db, panicked)

    -- The jobs of a batch, one after the other; the n-th meets the n-th world.
    unfoldable pub handle_all : (ℕ → World) → Config → ℕ → List (Job Value) → Table → Table × Ending
    unfolding handle_one
    handle_all worlds config n [] db = (db, finished)
    handle_all worlds config n (job ∷ jobs) db =
        continued (λ db'. handle_all worlds config (n + 1) jobs db')
          (handle_one (worlds n) config job db)

    -- An error of the claim is logged, and the batch is empty.
    abbrev pub batch : Result AnyError (List (Job Value)) → List (Job Value)
    batch (ok jobs) = jobs
    batch (err e) = []

    unfoldable pub round_of : Config → Round → Table → Table × Ending
    unfolding handle_all claim_due_jobs
    round_of config r db =
        let claimed = claim_due_jobs uuid time json r.claim r.claim_now (pos 8) db in
        handle_all r.worlds config 0 (batch claimed.1) claimed.0

    -- The rounds before the shutdown.
    unfoldable pub worker_loop : Config → List Round → Table → Table × Ending
    unfolding round_of
    worker_loop config [] db = (db, finished)
    worker_loop config (r ∷ rs) db =
        continued (λ db'. worker_loop config rs db') (round_of config r db)

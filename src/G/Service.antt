-- ===== src/G/Service.antt =====
-- The service of g/src/ as a history: its handlers, the ticks of its worker and the ends of its
-- deliveries, in any order. A delivery may end long after its claim, and a requeue may have read
-- another table than it writes to.
pub mod Rows
pub mod Kept
use benchmark_rust_llms.Prelude.{ℕ, String, List, [], ◌∷◌, ℤ, Result}
use benchmark_rust_llms.G.Model.{ClaimedJob}
use benchmark_rust_llms.G.Config.{Config}
use benchmark_rust_llms.G.Db.{Table, Io, reset_processing}
use benchmark_rust_llms.G.Worker.{World, tick, process_job}
use benchmark_rust_llms.G.Routes.{
  Outside, JsonRejection, WebhookRequest, create_webhook, requeue_from_dlq,
}

pub data Event (Value : Type 0) : Type 0 where
  creates : Io → ℤ → String → Result JsonRejection (WebhookRequest Value) → Event Value
  ticks : Io → Io → ℤ → Event Value
  finishes : World → ClaimedJob → Event Value
  requeues : Io → Io → ℤ → String → Table → Event Value
  restarts : Io → ℤ → Event Value

module _ {Value : Type 0} (out : Outside Value) (hmac : List ℕ → List ℕ → List ℕ)
    (hex_encode : List ℕ → String) (show_status : ℕ → String) (cfg : Config) where
  open out use {security}

  unfoldable pub step : Table → Event Value → Table
  step db (creates io now id payload) = (create_webhook out io now id cfg payload db).0
  step db (ticks io io' now) = (tick io io' now cfg db).0
  step db (finishes w job) = (process_job security hmac hex_encode show_status cfg w job db).0
  step db (requeues io io' now id before) = (requeue_from_dlq out io io' now id before db).0
  step db (restarts io now) = (reset_processing io now db).0

  unfoldable pub run : Table → List (Event Value) → Table
  unfolding step
  run db [] = db
  run db (e ∷ es) = run (step db e) es

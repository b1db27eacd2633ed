-- ===== src/D/Model.antt =====
-- d/src/models.rs, and the texts of timestamps and JSON values in the tables.
-- A DateTime<Utc> is its count of nanoseconds since the epoch; chrono's RFC 3339 text is a parameter,
-- as are the values of serde_json and their compact text.
-- Reading the text of a value need not give it back: serde_json reads floats inexactly.
use benchmark_rust_llms.Prelude.{String, Option, ℕ, ℤ, str_eq, if◌then◌else◌}
use benchmark_rust_llms.Q.Model.{Uuid}

pub data DeliveryStatus : Type 0 where
  pending delivered dead : DeliveryStatus

unfoldable pub status_str : DeliveryStatus → String
status_str pending = "Pending"
status_str delivered = "Delivered"
status_str dead = "Dead"

-- Any other word is read as pending.
unfoldable pub parse_status : String → DeliveryStatus
parse_status s =
    if str_eq s "Delivered" then delivered else if str_eq s "Dead" then dead else pending

pub record TimeText : Type 0 where
  pub to_rfc3339 : ℤ → String
  pub parse_from_rfc3339 : String → Option ℤ

pub record JsonText (Value : Type 0) : Type 0 where
  pub print : Value → String
  pub read : String → Option Value

pub record WebhookRequest (Value : Type 0) : Type 0 where
  pub content : Value
  pub destination : String

pub record WebhookJob (Value : Type 0) : Type 0 where
  pub id : Uuid
  pub payload : Value
  pub destination : String
  pub attempts : ℕ
  pub max_attempts : ℕ
  pub next_attempt_at : ℤ
  pub created_at : ℤ
  pub status : DeliveryStatus

-- `WebhookJob::new`: the clock's time and the fresh id are arguments.
unfoldable pub new : {Value : Type 0} → ℤ → Uuid → WebhookRequest Value → ℕ → WebhookJob Value
new now id req max_attempts = record {
  id = id;
  payload = req.content;
  destination = req.destination;
  attempts = 0;
  max_attempts = max_attempts;
  next_attempt_at = now;
  created_at = now;
  status = pending;
}

pub record DqlEntry (Value : Type 0) : Type 0 where
  pub id : Uuid
  pub job_id : Uuid
  pub payload : Value
  pub destination : String
  pub attempts : ℕ
  pub last_error : String
  pub moved_at : ℤ

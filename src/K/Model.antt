-- ===== src/K/Model.antt =====
-- k/webhook-delivery/src/models.rs, and the timestamps and JSON values that a job holds.
-- A DateTime<Utc> is its count of nanoseconds since the epoch; chrono's RFC 3339 text is a parameter,
-- as are the values of serde_json and their compact text.
use benchmark_rust_llms.Prelude.{String, Option, ℕ, ℤ, Result, ok, err, str_eq, if◌then◌else◌}
use benchmark_rust_llms.Q.Model.{Uuid}

pub data JobStatus : Type 0 where
  pending in_flight delivered dead : JobStatus

unfoldable pub as_str : JobStatus → String
as_str pending = "pending"
as_str in_flight = "in_flight"
as_str delivered = "delivered"
as_str dead = "dead"

-- What a failed call reports, by the crate that does.
pub data AnyError : Type 0 where
  engine : String → AnyError
  row_not_found decode_failure json_failure : AnyError
  unknown_status : String → AnyError

-- `JobStatus::from_str`
unfoldable pub from_str : String → Result AnyError JobStatus
from_str s =
    if str_eq s "pending"
    then ok pending
    else if str_eq s "in_flight"
    then ok in_flight
    else if str_eq s "delivered"
    then ok delivered
    else if str_eq s "dead"
    then ok dead
    else err (unknown_status s)

-- `to_rfc3339_opts(Millis, true)` and `parse_from_rfc3339`
pub record TimeText : Type 0 where
  pub fmt_ts : ℤ → String
  pub parse_from_rfc3339 : String → Option ℤ

-- `serde_json::to_string` and `serde_json::from_str`
pub record JsonText (Value : Type 0) : Type 0 where
  pub to_text : Value → Result String String
  pub from_text : String → Option Value

pub record Job (Value : Type 0) : Type 0 where
  pub id : Uuid
  pub destination : String
  pub payload : Value
  pub status : JobStatus
  pub attempts : ℕ
  pub max_attempts : ℤ
  pub next_attempt_at : ℤ
  pub last_error : Option String
  pub created_at : ℤ
  pub updated_at : ℤ

pub record DlqEntry : Type 0 where
  pub id : Uuid
  pub destination : String
  pub attempts : ℕ
  pub last_error : Option String
  pub updated_at : ℤ

-- `DlqEntry::from`
unfoldable pub dlq_entry_from : {Value : Type 0} → Job Value → DlqEntry
dlq_entry_from job = record {
  id = job.id;
  destination = job.destination;
  attempts = job.attempts;
  last_error = job.last_error;
  updated_at = job.updated_at;
}

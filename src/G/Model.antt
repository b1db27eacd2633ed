-- ===== src/G/Model.antt =====
-- g/src/models.rs, and the table that g/src/db.rs creates. The i64 columns are integers.
use benchmark_rust_llms.Prelude.{String, Option, none, some, ℤ}

abbrev pub status_pending : String
status_pending = "pending"

abbrev pub status_processing : String
status_processing = "processing"

abbrev pub status_delivered : String
status_delivered = "delivered"

abbrev pub status_dead_lettered : String
status_dead_lettered = "dead_lettered"

-- A row of `deliveries`.
pub record DeliveryRow : Type 0 where
  pub id : String
  pub destination : String
  pub payload : String
  pub status : String
  pub attempts : ℤ
  pub max_attempts : ℤ
  pub next_attempt_at : ℤ
  pub created_at : ℤ
  pub updated_at : ℤ
  pub delivered_at : Option ℤ
  pub last_error : Option String

pub record ClaimedJob : Type 0 where
  pub id : String
  pub destination : String
  pub payload : String
  pub attempts : ℤ
  pub max_attempts : ℤ

pub record DeliveryStatus : Type 0 where
  pub id : String
  pub status : String
  pub destination : String
  pub attempts : ℤ
  pub max_attempts : ℤ
  pub created_at : String
  pub updated_at : String
  pub next_attempt_at : Option String
  pub delivered_at : Option String
  pub last_error : Option String

-- `from_timestamp_millis` and `to_rfc3339`, if chrono can hold the time, and the digits of an i64.
pub record TimeText : Type 0 where
  pub rfc3339_of_millis : ℤ → Option String
  pub to_string : ℤ → String

module _ (time : TimeText) where
  open time use {rfc3339_of_millis, to_string}

  abbrev pub text_or : String → Option String → String
  text_or d none = d
  text_or d (some t) = t

  unfoldable pub millis_to_rfc3339 : ℤ → String
  millis_to_rfc3339 ms = text_or (to_string ms) (rfc3339_of_millis ms)

  abbrev pub shown : Option ℤ → Option String
  shown none = none
  shown (some ms) = some (millis_to_rfc3339 ms)

  -- Each column has the type that it is read at.
  unfoldable pub map_row : DeliveryRow → DeliveryStatus
  unfolding millis_to_rfc3339
  map_row row = record {
    id = row.id;
    status = row.status;
    destination = row.destination;
    attempts = row.attempts;
    max_attempts = row.max_attempts;
    created_at = millis_to_rfc3339 row.created_at;
    updated_at = millis_to_rfc3339 row.updated_at;
    next_attempt_at = shown (some row.next_attempt_at);
    delivered_at = shown row.delivered_at;
    last_error = row.last_error;
  }

-- ===== src/Q/Api/Admin.antt =====
-- q/src/api/admin.rs: the endpoints for the administrator.
-- `V` is serde_json's value type, with what it reads from bytes and the lossy text of bytes as
-- parameters.
pub mod Replay
use benchmark_rust_llms.Prelude.{
  ℕ, String, ◌<>◌, min, Option, none, some, List, [], ◌∷◌, map, Bool, true, false, if◌then◌else◌, ℤ,
  Result, ok, err, ◌>>=◌, ok_or, map_err,
}
use benchmark_rust_llms.Q.Model.{Uuid, UuidText, Delivery, DlqEntry, DeliveryStatus, Stats}
use benchmark_rust_llms.Q.Db.Rows.{Db, Io, DbError, DbResult}
use benchmark_rust_llms.Q.Db.Writes.{replay_dead_letter}
use benchmark_rust_llms.Q.Db.Reads.{find, find_dlq_entry}
use benchmark_rust_llms.Q.Db.Reads
use benchmark_rust_llms.Q.Metrics.{Metrics}
use benchmark_rust_llms.Q.Config.{Config}
use benchmark_rust_llms.Q.Security.Auth.{HeaderMap, admin_authorized}
use benchmark_rust_llms.Q.Api.{
  AppState, ApiError, unauthorized, not_found, internal, string, boolean, Reply,
}

abbrev pub default_limit : ℕ
default_limit = 50

abbrev pub max_limit : ℕ
max_limit = 1000

unfoldable pub require_admin : HeaderMap → String → Result ApiError (Unit {0})
unfolding admin_authorized
require_admin headers admin_key =
    if admin_authorized headers admin_key then ok tt else err unauthorized

abbrev pub or_number : ℕ → Option ℕ → ℕ
or_number n none = n
or_number n (some m) = m

abbrev pub page_limit : Option ℕ → ℕ
page_limit limit = min (or_number default_limit limit) max_limit

module _ (uuid : UuidText) (show_error : DbError → String) where
  open uuid use {to_string, parse_str}

  unfoldable pub db_err : DbError → ApiError
  db_err e = internal ("db error: " <> show_error e)

  -- `io` answers the SELECT, `io'` the UPDATE.
  abbrev pub found_entry : Io → Uuid → Db → Result ApiError DlqEntry
  unfolding db_err
  found_entry io id db = map_err db_err (find_dlq_entry uuid io id db) >>= λ entry.
      ok_or entry (not_found "unknown dead-letter id")

  abbrev pub delivery_of : DlqEntry → Result ApiError Uuid
  delivery_of entry = ok_or (parse_str entry.delivery_id) (internal "corrupt dead-letter row")

  unfoldable pub replayed : Uuid → Db × DbResult Bool → Db × Result ApiError Reply
  unfolding db_err
  replayed delivery_id (db, ok true) = (
    db,
    ok (record {
      status = 202;
      body = ("requeued", boolean true) ∷ ("delivery_id", string (to_string delivery_id)) ∷ [];
    }),
  )
  replayed delivery_id (db, ok false) = (db, err (not_found "delivery is not dead-lettered"))
  replayed delivery_id (db, err e) = (db, err (db_err e))

  unfoldable pub replay_delivery : Io → ℤ → Db → Result ApiError Uuid → Db × Result ApiError Reply
  unfolding replayed
  replay_delivery io' now db (err e) = (db, err e)
  replay_delivery io' now db (ok delivery_id) =
      replayed delivery_id (replay_dead_letter uuid io' now delivery_id db)

  unfoldable pub replay : Config → Io → Io → ℤ → HeaderMap → Uuid → Db → Db × Result ApiError Reply
  unfolding replay_delivery require_admin
  replay cfg io io' now headers id db = replay_delivery io' now db (
      require_admin headers cfg.admin_key >>= λ _.
      found_entry io id db >>= λ entry. delivery_of entry)

  module _ {V : Type 0} (from_slice : List ℕ → Option V) (lossy_string : List ℕ → V) where
    abbrev or_lossy : List ℕ → Option V → V
    or_lossy payload none = lossy_string payload
    or_lossy payload (some v) = v

    unfoldable pub payload_value : List ℕ → V
    payload_value payload = or_lossy payload (from_slice payload)

    pub record DeliveryResponse : Type 0 where
      pub id : Uuid
      pub idempotency_key : Option String
      pub destination : String
      pub payload : V
      pub status : DeliveryStatus
      pub attempts : ℕ
      pub max_attempts : ℕ
      pub next_retry_at : ℤ
      pub last_error : Option String
      pub created_at : ℤ
      pub updated_at : ℤ

    unfoldable pub delivery_response : Delivery → DeliveryResponse
    unfolding payload_value
    delivery_response d = record {
      id = d.id;
      idempotency_key = d.idempotency_key;
      destination = d.destination;
      payload = payload_value d.payload;
      status = d.status;
      attempts = d.attempts;
      max_attempts = d.max_attempts;
      next_retry_at = d.next_retry_at;
      last_error = d.last_error;
      created_at = d.created_at;
      updated_at = d.updated_at;
    }

    pub record DlqEntryResponse : Type 0 where
      pub id : Uuid
      pub delivery_id : String
      pub destination : String
      pub payload : V
      pub attempts : ℕ
      pub last_error : Option String
      pub dead_lettered_at : ℤ

    unfoldable pub entry_response : DlqEntry → DlqEntryResponse
    unfolding payload_value
    entry_response e = record {
      id = e.id;
      delivery_id = e.delivery_id;
      destination = e.destination;
      payload = payload_value e.payload;
      attempts = e.attempts;
      last_error = e.last_error;
      dead_lettered_at = e.dead_lettered_at;
    }

    unfoldable pub list_dead_letters :
        Config → Io → HeaderMap → Option ℕ → Option ℕ → Db → Result ApiError (List DlqEntryResponse)
    unfolding require_admin entry_response db_err
    list_dead_letters cfg io headers limit offset db = require_admin headers cfg.admin_key >>= λ _.
        map_err db_err (Reads.list_dead_letters uuid io (page_limit limit) (or_number 0 offset) db)
        >>= λ entries. ok (map entry_response entries)

    unfoldable pub get_delivery :
        Config → Io → HeaderMap → Uuid → Db → Result ApiError DeliveryResponse
    unfolding require_admin delivery_response db_err
    get_delivery cfg io headers id db = require_admin headers cfg.admin_key >>= λ _.
        map_err db_err (find uuid io id db) >>= λ d.
        ok_or d (not_found "unknown delivery id") >>= λ delivery. ok (delivery_response delivery)

  -- The counts of the tables and the counters of the process.
  unfoldable pub stats : Config → Io → HeaderMap → Db → Metrics → Result ApiError (Stats × Metrics)
  unfolding require_admin db_err
  stats cfg io headers db metrics = require_admin headers cfg.admin_key >>= λ _.
      map_err db_err (Reads.stats io db) >>= λ queue. ok (queue, metrics)

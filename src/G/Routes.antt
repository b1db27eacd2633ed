-- ===== src/G/Routes.antt =====
-- g/src/routes.rs and error.rs: the handlers. What serde_json and axum read
-- of a request, and the prints, are parameters; the router is axum's.
pub mod Accepts
pub mod Requeue
use Prim.Native.Nat.{bit_or, bit_xor}
use benchmark_rust_llms.Prelude.{
  ℕ, String, ◌<>◌, decimal, as_bytes, length, Option, none, some, List, [], ◌∷◌, ◌++◌, map, Bool,
  true, false, any, not, ltb, ◌==◌, if◌then◌else◌, str_eq, ℤ, pos, leb_ℤ, read_i64, Result, ok, err,
  ◌>>=◌, map_err, ok_or, select, select_first, update, count_if, order_by, limited,
}
use benchmark_rust_llms.G.Model.{
  DeliveryRow, DeliveryStatus, TimeText, map_row, status_pending, status_dead_lettered,
}
use benchmark_rust_llms.G.Config.{Config}
use benchmark_rust_llms.G.Security.{validate_destination}
use benchmark_rust_llms.G.Security as Security
use benchmark_rust_llms.G.Db.{
  Table, Io, SqlxError, constraint_violation, execute, query, has_id, has_status,
}

pub data ApiError : Type 0 where
  bad_request unprocessable payload_too_large : String → ApiError
  not_found : ApiError
  conflict internal : String → ApiError

-- `IntoResponse` of ApiError: the status and the text under `error`.
unfoldable pub into_response : ApiError → ℕ × String
into_response (bad_request m) = (400, m)
into_response (unprocessable m) = (422, m)
into_response (payload_too_large m) = (413, m)
into_response not_found = (404, "delivery not found")
into_response (conflict m) = (409, m)
into_response (internal m) = (500, "internal server error")

pub record WebhookRequest (Value : Type 0) : Type 0 where
  pub content : Value
  pub destination : String

-- `EnqueueResponse`
pub record EnqueueResponse : Type 0 where
  pub id : String
  pub status : String

-- axum's JsonRejection: its text, and whether its status is 413.
pub record JsonRejection : Type 0 where
  pub body_text : String
  pub is_too_large : Bool

unfoldable pub rejected : JsonRejection → ApiError
rejected e =
    if e.is_too_large
    then payload_too_large ("request body exceeds the configured limit: " <> e.body_text)
    else bad_request ("invalid request body: " <> e.body_text)

-- `is_null` and `to_text` are serde_json's; `show_error` is sqlx's text of an error.
pub record Outside (Value : Type 0) : Type 0 where
  pub security : Security.Outside
  pub time : TimeText
  pub is_null : Value → Bool
  pub to_text : Value → Result String String
  pub show_error : SqlxError → String

module _ {Value : Type 0} (out : Outside Value) where
  open out use {security, time, is_null, to_text, show_error}

  unfoldable pub check_not_null : Value → Result ApiError (Unit {0})
  check_not_null v = if is_null v then err (bad_request "'data' must not be null") else ok tt

  unfoldable pub check_size : Config → String → Result ApiError (Unit {0})
  check_size cfg body =
      if ltb cfg.max_payload_bytes (length (as_bytes body))
      then err (
          payload_too_large (
            "serialized payload is "
            <> (decimal (length (as_bytes body))
                <> (" bytes, exceeding the maximum of "
                    <> (decimal cfg.max_payload_bytes <> " bytes")))))
      else ok tt

  -- The checks in their order; the request, and the text of its payload.
  unfoldable pub checked :
      Config
      → Result JsonRejection (WebhookRequest Value)
      → Result ApiError (WebhookRequest Value × String)
  unfolding rejected check_not_null check_size
  checked cfg payload = do
    req ← map_err rejected payload
    _ ← check_not_null req.content
    _ ←
        map_err unprocessable
          (validate_destination security req.destination cfg.allow_private_destinations)
    body ← map_err (λ e. bad_request ("payload is not serializable: " <> e)) (to_text req.content)
    _ ← check_size cfg body
    ok (req, body)

  -- The row of the INSERT, whose id is the PRIMARY KEY.
  abbrev pub new_row : Config → ℤ → String → WebhookRequest Value → String → DeliveryRow
  new_row cfg now id req body = record {
    id = id;
    destination = req.destination;
    payload = body;
    status = status_pending;
    attempts = pos 0;
    max_attempts = cfg.max_attempts;
    next_attempt_at = now;
    created_at = now;
    updated_at = now;
    delivered_at = none;
    last_error = none;
  }

  unfoldable pub insert : Io → DeliveryRow → Table → Table × Result SqlxError (Unit {0})
  insert io row db =
      if any (has_id row.id) db
      then (db, err constraint_violation)
      else execute io db (db ++ row ∷ [], tt)

  abbrev pub answer :
      String → Table × Result SqlxError (Unit {0}) → Table × Result ApiError EnqueueResponse
  answer id (db, err e) = (db, err (internal (show_error e)))
  answer id (db, ok u) = (db, ok (record { id = id; status = status_pending }))

  unfoldable pub stored :
      Io
      → ℤ
      → String
      → Config
      → Table
      → Result ApiError (WebhookRequest Value × String)
      → Table × Result ApiError EnqueueResponse
  unfolding insert
  stored io now id cfg db (err e) = (db, err e)
  stored io now id cfg db (ok (req, body)) = answer id (insert io (new_row cfg now id req body) db)

  -- `now` and `id` are the clock's time and the fresh id; a success is answered 202.
  unfoldable pub create_webhook :
      Io
      → ℤ
      → String
      → Config
      → Result JsonRejection (WebhookRequest Value)
      → Table
      → Table × Result ApiError EnqueueResponse
  unfolding checked stored
  create_webhook io now id cfg payload db = stored io now id cfg db (checked cfg payload)

  abbrev pub asked {ℓ} : {A : Type ℓ} → Result SqlxError A → Result ApiError A
  asked r = map_err (λ e. internal (show_error e)) r

  unfoldable pub get_webhook : Io → String → Table → Result ApiError DeliveryStatus
  unfolding map_row
  get_webhook io id db = asked (query io (select_first (has_id id) db)) >>= λ row.
      ok_or row not_found >>= λ r. ok (map_row time r)

  -- ORDER BY updated_at DESC
  abbrev pub newer : DeliveryRow → DeliveryRow → Bool
  newer a b = leb_ℤ b.updated_at a.updated_at

  abbrev pub clamp : ℤ → ℤ
  clamp n = if leb_ℤ n (pos 1) then pos 1 else if leb_ℤ (pos 500) n then pos 500 else n

  abbrev pub parsed_limit : Option ℤ → ℤ
  parsed_limit none = pos 100
  parsed_limit (some n) = n

  abbrev pub limit_of : Option String → ℤ
  limit_of none = pos 100
  limit_of (some v) = parsed_limit (read_i64 v)

  -- `limit` is the query's parameter; the length of the list is the answer's count.
  unfoldable pub list_dlq : Io → Option String → Table → Result ApiError (List DeliveryStatus)
  unfolding map_row
  list_dlq io limit db =
      asked (
        query io (
          limited (clamp (limit_of limit))
            (order_by newer (select (has_status status_dead_lettered) db))))
      >>= λ rows. ok (map (map_row time) rows)

  unfoldable pub check_dead_lettered : DeliveryRow → Result ApiError (Unit {0})
  check_dead_lettered r =
      if not (str_eq r.status status_dead_lettered)
      then err (
          conflict
            ("delivery is '" <> (r.status <> "': only dead-lettered deliveries can be requeued")))
      else ok tt

  abbrev pub set_requeued : ℤ → DeliveryRow → DeliveryRow
  set_requeued now r = record r {
    status = status_pending;
    attempts = pos 0;
    next_attempt_at = now;
    updated_at = now;
    last_error = none;
    delivered_at = none;
  }

  abbrev pub requeued :
      String → Table × Result SqlxError (Unit {0}) → Table × Result ApiError EnqueueResponse
  requeued id (db, err e) = (db, err (internal (show_error e)))
  requeued id (db, ok u) = (db, ok (record { id = id; status = status_pending }))

  abbrev pub write_requeued :
      Io → ℤ → String → Table → Result ApiError (Unit {0}) → Table × Result ApiError EnqueueResponse
  write_requeued io now id db (err e) = (db, err e)
  write_requeued io now id db (ok u) =
      requeued id (execute io db (update (has_id id) (set_requeued now) db, tt))

  -- The SELECT of the row, and the check of its status.
  unfoldable pub read_dead_letter : Io → String → Table → Result ApiError (Unit {0})
  unfolding check_dead_lettered
  read_dead_letter io id db = asked (query io (select_first (has_id id) db)) >>= λ row.
      ok_or row not_found >>= λ r. check_dead_lettered r

  -- The statements stand in no transaction: the SELECT finds the table `before`, the UPDATE `db`.
  unfoldable pub requeue_from_dlq :
      Io → Io → ℤ → String → Table → Table → Table × Result ApiError EnqueueResponse
  unfolding read_dead_letter
  requeue_from_dlq io io' now id before db =
      write_requeued io' now id db (read_dead_letter io id before)

  abbrev pub with_status : String → List String → List String
  with_status s ss = if any (λ t. str_eq t s) ss then ss else s ∷ ss

  abbrev pub distinct_statuses : Table → List String
  distinct_statuses [] = []
  distinct_statuses (r ∷ db) = with_status r.status (distinct_statuses db)

  -- SELECT status, COUNT(*) ... GROUP BY status
  unfoldable pub get_stats : Io → Table → Result ApiError (List (String × ℕ))
  get_stats io db =
      asked (query io (map (λ s. (s, count_if (has_status s) db)) (distinct_statuses db)))

-- ===== src/D/Worker.antt =====
-- d/src/worker.rs: the delivery of one job, and the loop of the worker.
-- The network, the resolver, the clock, the jitter and chrono's sums are answers in a `World`. An
-- overflow wraps, as in a release build.
pub mod Guard
pub mod Written
pub mod Host
pub mod Blocked
use benchmark_rust_llms.Prelude.{
  ℕ, ◌+◌, ◌-◌, ◌*◌, ◌^◌, ◌%◌, min, Char, code, String, ◌<>◌, decimal, Option, none, some, List, [],
  ◌∷◌, Bool, true, ◌&&◌, not, ltb, leb, ◌==◌, if◌then◌else◌, str_eq, ℤ, Result, ok, err, ◌>>=◌,
}
use benchmark_rust_llms.Net.{IpAddr}
use benchmark_rust_llms.Q.Model.{Uuid, UuidText}
use benchmark_rust_llms.D.Model.{TimeText, JsonText, WebhookJob}
use benchmark_rust_llms.D.Config.{Config, is_set}
use benchmark_rust_llms.D.Security.{validate_destination, is_blocked_literal_ip, is_private_ip}
use benchmark_rust_llms.D.Db.{Db, Io, record_attempt, mark_delivered, move_to_dlq}

-- `authority.split('/').next()`
unfoldable pub until_slash : String → String
until_slash String.[] = ""
until_slash (String.◌∷◌ c s) = if code c == b'/' then "" else String.◌∷◌ c (until_slash s)

abbrev pub split_here : Char → String → Option (String × String) → Option (String × String)
split_here c s (some (h, port)) = some (String.◌∷◌ c h, port)
split_here c s none = if code c == b':' then some ("", s) else none

-- `rfind(':')`: the texts before and behind the last colon.
unfoldable pub last_colon : String → Option (String × String)
last_colon String.[] = none
last_colon (String.◌∷◌ c s) = split_here c s (last_colon s)

unfoldable pub all_digits : String → Bool
all_digits String.[] = true
all_digits (String.◌∷◌ c s) = leb b'0' (code c) && leb (code c) b'9' && all_digits s

abbrev pub without_port : String → Option (String × String) → String
without_port s none = s
without_port s (some (h, port)) = if not (str_eq port "") && all_digits port then h else s

unfoldable pub host_from_url : String → String
unfolding until_slash last_colon
host_from_url authority = without_port (until_slash authority) (last_colon (until_slash authority))

-- The loop over the resolved addresses: the first private one ends it.
unfoldable pub check_ips : (IpAddr → String) → String → List IpAddr → Result String (Unit {0})
unfolding is_private_ip
check_ips show_ip host [] = ok tt
check_ips show_ip host (ip ∷ ips) =
    if is_private_ip ip
    then err ("host " <> (host <> (" resolves to private address " <> show_ip ip)))
    else check_ips show_ip host ips

-- `shift` and the capped delay; `as_millis() as u64` keeps the low bits.
unfoldable pub capped_ms : ℕ → Config → ℕ
capped_ms attempt config =
    min (min (config.retry_base % 2 ^ 64 * 2 ^ min (attempt - 1) 10) (2 ^ 64 - 1))
      (config.retry_max % 2 ^ 64)

-- `jitter` is what the f64 product and its cast to u64 make of the capped delay.
unfoldable pub backoff : (ℕ → ℕ) → ℕ → Config → ℕ
unfolding capped_ms
backoff jitter attempt config = jitter (capped_ms attempt config)

-- `chrono::Duration::from_std`, in milliseconds, or five seconds.
abbrev pub delay_of : ℕ → ℕ
delay_of delay = if ltb delay (2 ^ 63) then delay else 5000

-- What the processing of one job meets; `plus` adds milliseconds to a time, if chrono can hold it.
pub record World (Value : Type 0) : Type 0 where
  pub allow_private : Option String
  pub lookup_host : String → Result String (List IpAddr)
  pub network : String → Value → Result String ℕ
  pub now : ℤ
  pub entry_id : Uuid
  pub jitter : ℕ → ℕ
  pub plus : ℤ → ℕ → Option ℤ
  pub store : Io
  pub store' : Io

-- How the processing ends; a sum out of range is a panic, which ends the worker.
pub data Ending : Type 0 where
  finished panicked : Ending

-- The standard library's reading and printing of addresses are parameters.
module _ (parse_ip : String → Option IpAddr) (show_ip : IpAddr → String) where
  abbrev pub check_host : (String → Result String (List IpAddr)) → String → Result String (Unit {0})
  check_host lookup_host host =
      if str_eq host ""
      then err "no host in URL"
      else if is_blocked_literal_ip parse_ip host
      then err ("host " <> (host <> " is a private/reserved address"))
      else lookup_host host >>= λ ips. check_ips show_ip host ips

  unfoldable pub check_destination_blocked :
      Option String → (String → Result String (List IpAddr)) → String → Result String (Unit {0})
  unfolding host_from_url check_ips is_blocked_literal_ip
  check_destination_blocked allow_private lookup_host destination =
      validate_destination destination >>= λ parsed.
      if is_set allow_private then ok tt else check_host lookup_host (host_from_url parsed)

  module _ (uuid : UuidText) (time : TimeText) {Value : Type 0} (json : JsonText Value)
      (config : Config) where
    abbrev pub retried : World Value → WebhookJob Value → ℕ → Option ℤ → Db → Db × Ending
    retried w job attempts none db = (db, panicked)
    retried w job attempts (some next) db =
        ((record_attempt uuid time json w.store job.id attempts (some next) db).0, finished)

    -- `job.attempts + 1`
    abbrev pub next_attempt : WebhookJob Value → ℕ
    next_attempt job = (job.attempts + 1) % 2 ^ 32

    -- A failed statement is ignored.
    unfoldable pub handle_failure : World Value → WebhookJob Value → String → Db → Db × Ending
    unfolding backoff
    handle_failure w job error db =
        if leb job.max_attempts (next_attempt job)
        then (
          (move_to_dlq uuid time json w.store w.store' w.now w.entry_id
              (record job { attempts = next_attempt job }) error db).0,
          finished,
        )
        else retried w job (next_attempt job)
            (w.plus w.now (delay_of (backoff w.jitter (next_attempt job) config))) db

    -- From 200 to 299 is a success.
    unfoldable pub answered : World Value → WebhookJob Value → Result String ℕ → Db → Db × Ending
    unfolding handle_failure
    answered w job (err e) db = handle_failure w job e db
    answered w job (ok status) db =
        if leb 200 status && ltb status 300
        then ((mark_delivered uuid time json w.store job.id db).0, finished)
        else handle_failure w job ("HTTP status " <> decimal status) db

    unfoldable pub checked :
        World Value → WebhookJob Value → Result String (Unit {0}) → Db → Db × Ending
    unfolding answered
    checked w job (err e) db = (
      (move_to_dlq uuid time json w.store w.store' w.now w.entry_id job ("blocked: " <> e) db).0,
      finished,
    )
    checked w job (ok u) db = answered w job (w.network job.destination job.payload) db

    unfoldable pub process_job : World Value → WebhookJob Value → Db → Db × Ending
    unfolding checked check_destination_blocked
    process_job w job db =
        checked w job (check_destination_blocked w.allow_private w.lookup_host job.destination) db

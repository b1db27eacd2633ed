-- ===== src/Lib.antt =====
-- Webhook delivery services: a model of the services in q/, k/, d/ and g/, four implementations of
-- one task, and what makes them correct.
--
-- Each service takes webhooks over HTTP, stores them in SQLite and delivers them with retries. An
-- ingestion handler checks the caller and the destination and inserts a row; workers poll the rows
-- that are due, send them, and record the outcome: delivered, queued again after a backed-off delay,
-- or moved to the dead letters, from which an administrator may replay them.
--
-- Q/Model and Q/Db: q/src/model.rs and q/src/db.rs. `Db` is the two tables as lists of rows; a
--   WHERE clause is a Boolean test, a statement is `update`, `select` or `count_if` of
--   Prelude/Tables. Each method takes what the engine answers (`Io`), the clock and fresh ids as
--   arguments, so every failure path is present; a failed statement changes nothing. Q/Db/Calls
--   makes the writing methods data, so that a history, or an interleaving of workers and handlers
--   (the mutex makes each method one step), is a list of calls.
-- Q/Delivery: q/src/delivery/. `next_delay_ms` in Backoff keeps the bits that a shift loses;
--   `classify` in Classify; `send`, `process` and `run` in Worker, over a `State` of tables and
--   counters, with the answers of one call of `process` in a `Turn`. The loop is a list of rounds,
--   one for each poll before the shutdown, so it needs no fuel.
-- Q/Security: q/src/security/. Ssrf has the checks on a destination and the refused addresses;
--   Ratelimit the sliding window, its map an association list, an Instant a number; Auth the bearer
--   and HMAC checks, on header values that are a text or opaque.
-- Q/Api: q/src/api/. The handlers as functions of the request, the shared `AppState` and the answers
--   of the world: `webhook_handler` in Webhook, by its stages, the endpoints of the administrator in
--   Admin, the probes in Health.
-- Q/Metrics: the counters of q/src/api/mod.rs. Q/Config: q/src/config.rs, `from_env` over an
--   environment that is a function of the variable's name.
-- K/Model, K/Db: k/webhook-delivery/src/models.rs and db.rs, over one table `jobs`, in which a dead
--   job stays. `claim_due_jobs` claims a batch in one transaction, whose statements each have an
--   answer of the engine in `ClaimIo`; a timestamp is compared as the text that the table holds.
--   K/Db/Calls makes the methods data.
-- K/Worker: `handle_one`, `backoff`, `deliver` and `worker_loop` of k/webhook-delivery/src/worker.rs,
--   over the table and a `World` of answers. An overflow wraps, as in a release build; the f64 jitter
--   of a delay is an argument, and a time out of chrono's range is a panic.
-- K/Security, K/Routes, K/Config: security.rs, routes.rs with error.rs, and config.rs beside them.
-- D/Model, D/Rows, D/Db: d/src/models.rs and db.rs, over `jobs` and `dead_letters`; the statements of a
--   method, which stand in no transaction, each have an answer.
-- D/Security, D/Worker, D/Api, D/Config: d/src/security.rs, worker.rs, the handlers with error.rs and
--   auth.rs, and config.rs. The field `data` of a WebhookRequest is `content`.
-- D/System: the loop of the worker with the handlers between its steps, as a state and a list of
--   events. `redeliver` lets go of the mutex between its reading and its writing, so it is two
--   events. A batch is worked off by recursion on the events, so it needs no fuel.
-- G/Model, G/Db: g/src/models.rs and the table of db.rs. G/Security, G/Deliver, G/Config: the files of
--   these names in g/src/. G/Worker: `tick`, by its two statements, and `process_job` of worker.rs.
--   G/Routes, G/Token: routes.rs with error.rs; `requeue_from_dlq` takes the tables that its two
--   statements find. G/Service: the history of the service, a list of events. The f64 delay is its
--   exact number, as it is while the configured times are below 2^53.
-- Net: the standard library's tests on IP addresses and its u8 and u16 masks, and the address blocks
--   that the guards of the services are compared with.
-- Prelude: tests on native numbers, lists, tables and their keys, a stable sort, integers, `Result`,
--   text.
--
-- Parameters: serde_json's reading and values, the uuid crate's text form (printing and parsing gives
-- the id back), the url parser, the resolver, the HMAC, the hex crate, the destinations' answers, the
-- parsing of socket addresses and of IP addresses, Unicode lower case, chrono's RFC 3339 text, the
-- engine's answers, the clock. In D, that a payload is what its text is
-- read as is a hypothesis where it matters: serde_json does not promise it of floats. Rows that ORDER BY
-- leaves tied keep their order of insertion. Numbers are natural numbers or integers, with the
-- wrap-around of the u32, u64 and i64 operations written out where one can occur.
--
-- Not modelled: start-up, routers and logging, which only do I/O or configure libraries.
pub mod Prelude
pub mod Net
pub mod Q
pub mod K
pub mod D
pub mod G

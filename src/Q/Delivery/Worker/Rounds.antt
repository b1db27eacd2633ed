-- ===== src/Q/Delivery/Worker/Rounds.antt =====
-- `process` of q/src/delivery/worker.rs, as calls of the methods of `Db`.
use benchmark_rust_llms.Prelude.{
  String, Option, none, some, List, [], ◌∷◌, ◌++◌, Bool, false, ◌≡◌, refl, sym, ap, ◌∙◌, inl, inr,
  Bool-cases, All, All-append, leb, ok, err, Result, unwrap_or,
}
use benchmark_rust_llms.Q.Model.{UuidText, Delivery}
use benchmark_rust_llms.Q.Db.Rows.{Db, DbResult}
use benchmark_rust_llms.Q.Db.Writes.{claim}
use benchmark_rust_llms.Q.Db.Calls.{
  Call, inserts, claims, marks_delivered, schedules_retry, dead_letters, replays, resets_stale,
  ages_for_test, step,
}
use benchmark_rust_llms.Q.Db.Calls
use benchmark_rust_llms.Q.Config.{Config}
use benchmark_rust_llms.Net.{IpAddr}
use benchmark_rust_llms.Q.Security.Ssrf.{Url, SsrfError, SsrfPolicy, validate, lookup}
use benchmark_rust_llms.Q.Delivery.Classify.{Outcome, delivered, retryable, permanent}
use benchmark_rust_llms.Q.Delivery.Worker.{
  Outside, Turn, State, Poll, send, finish, retry, process, process_parsed, process_checked,
  attempt_claimed, attempt_of, process_all, poll, polls, run,
}
use benchmark_rust_llms.Q.Delivery.Worker

-- The calls of a worker: none that inserts, replays or ages a delivery.
abbrev pub IsWorkers : Call → Type 0
IsWorkers (inserts io io' now d) = ⊥
IsWorkers (replays io now id) = ⊥
IsWorkers (ages_for_test io id at) = ⊥
IsWorkers _ = Unit

module _ (uuid : UuidText) where
  -- The second tables come from the first by calls of a worker.
  pub record Follows (db db' : Db) : Type 0 where
    pub calls : List Call
    pub workers : All IsWorkers calls
    pub follow : db' ≡ Calls.run uuid db calls

  run-append :
      (db : Db) (cs ds : List Call)
      → Calls.run uuid db (cs ++ ds) ≡ Calls.run uuid (Calls.run uuid db cs) ds
  unfolding Calls.run
  run-append db [] ds = refl
  run-append db (c ∷ cs) ds = run-append (step uuid db c) cs ds

  stay : (db : Db) → Follows db db
  unfolding Calls.run
  stay db = record { calls = []; workers = tt; follow = refl }

  one : (db : Db) (c : Call) → IsWorkers c → Follows db (step uuid db c)
  unfolding Calls.run
  one db c h = record { calls = c ∷ []; workers = (h, tt); follow = refl }

  compose : (a b c : Db) → Follows a b → Follows b c → Follows a c
  compose a b c f g = record {
    calls = f.calls ++ g.calls;
    workers = All-append IsWorkers f.calls g.calls f.workers g.workers;
    follow =
        g.follow ∙ ap (λ x. Calls.run uuid x g.calls) f.follow ∙ sym (run-append a f.calls g.calls);
  }

module _ (out : Outside) (cfg : Config) (ssrf : SsrfPolicy) where
  open out use {uuid, parse_url}

  dead_letter-Follows :
      (t : Turn) (d : Delivery) (e : String) (s : State)
      → Follows uuid s.db (Worker.dead_letter out cfg ssrf t d e s).db
  unfolding Worker.dead_letter step
  dead_letter-Follows t d e s =
      one uuid s.db (dead_letters t.write_io t.write_io' t.write_now t.entry_id d.id e) tt

  finish-Follows :
      (t : Turn) (d : Delivery) (o : Outcome) (s : State)
      → Follows uuid s.db (finish out cfg ssrf t d o s).db
  unfolding finish retry step
  finish-Follows t d delivered s = one uuid s.db (marks_delivered t.write_io t.write_now d.id) tt
  finish-Follows t d (retryable e) s =
      elim (Bool-cases (leb d.max_attempts (attempt_of out cfg ssrf d))) [
        | inl last ↦ rw last (dead_letter-Follows t d e s)
        | inr more ↦ rw more (one uuid s.db (schedules_retry t.write_io t.write_now d.id _ e) tt)
      ]
  finish-Follows t d (permanent e) s =
      dead_letter-Follows t d e (record s { metrics = Worker.inc_permanent_failures s.metrics })

  attempt-Follows :
      (t : Turn) (d : Delivery) (s : State) (won : DbResult Bool) (db : Db)
      → Follows uuid s.db db
      → Follows uuid s.db (attempt_claimed out cfg ssrf t d s (db, won)).db
  unfolding attempt_claimed
  attempt-Follows t d s won db f = elim (Bool-cases (unwrap_or false won)) [
    | inl taken ↦ rw taken (
        compose uuid s.db db _ f (
          finish-Follows t d (send out cfg ssrf t d (attempt_of out cfg ssrf d))
            (record s { db = db })))
    | inr lost ↦ rw lost f
  ]

  checked-Follows :
      (t : Turn) (d : Delivery) (s : State) (r : Result SsrfError (List IpAddr))
      → Follows uuid s.db (process_checked out cfg ssrf t d s r).db
  unfolding process_checked step
  checked-Follows t d s (err e) = dead_letter-Follows t d _ s
  checked-Follows t d s (ok ips) =
      attempt-Follows t d s (claim uuid t.claim_io t.claim_now d.id s.db).1
        (claim uuid t.claim_io t.claim_now d.id s.db).0
        (one uuid s.db (claims t.claim_io t.claim_now d.id) tt)

  parsed-Follows :
      (t : Turn) (d : Delivery) (s : State) (o : Option Url)
      → Follows uuid s.db (process_parsed out cfg ssrf t d s o).db
  unfolding process_parsed
  parsed-Follows t d s none = dead_letter-Follows t d _ s
  parsed-Follows t d s (some url) =
      checked-Follows t d s (validate ssrf url (lookup t.to_socket_addrs))

  pub process-Follows :
      (t : Turn) (d : Delivery) (s : State) → Follows uuid s.db (process out cfg ssrf t d s).db
  unfolding process
  process-Follows t d s = parsed-Follows t d s (parse_url d.destination)

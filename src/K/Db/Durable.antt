-- ===== src/K/Db/Durable.antt =====
-- What no call of k/webhook-delivery/src/db.rs loses: an accepted job, its payload, its destination.
use mathlib.Core.List.{append-nil, append_assoc, map-append}
use benchmark_rust_llms.Prelude.{
  String, none, some, List, [], ◌∷◌, ◌++◌, map, Bool, ◌≡◌, refl, sym, ◌∙◌, ap, inl, inr, update,
  Bool-cases, ℤ, ok, err, Result, subst, through, select_first, ok_injective, any, ◌>>=◌,
}
use benchmark_rust_llms.Q.Model.{Uuid, UuidText}
use benchmark_rust_llms.K.Model.{AnyError, TimeText, JsonText, Job}
use benchmark_rust_llms.K.Db.{
  JobRow, Table, Io, ClaimIo, execute, has_id, set_in_flight, new_row, insert_text, returned,
  claim_each, committed, begun, query, due_ids, insert_job, claim_due_jobs, mark_delivered,
  reschedule_job, mark_dead, requeue_dead,
}
use benchmark_rust_llms.K.Db.Calls.{
  Call, inserts, claims, marks_delivered, reschedules, marks_dead, requeues, step, run,
}

-- What was submitted, and when.
pub record Core : Type 0 where
  pub id : String
  pub destination : String
  pub payload : String
  pub max_attempts : ℤ
  pub created_at : String

abbrev pub core : JobRow → Core
core r = record {
  id = r.id;
  destination = r.destination;
  payload = r.payload;
  max_attempts = r.max_attempts;
  created_at = r.created_at;
}

-- The second table has all jobs of the first, in the same order, and perhaps more behind them.
abbrev pub Extends : Table → Table → Type 0
Extends db db' = (new : List Core) × (map core db' ≡ map core db ++ new)

Extends-refl : (db : Table) → Extends db db
Extends-refl db = ([], sym (append-nil _))

Extends-trans : (a b c : Table) → Extends a b → Extends b c → Extends a c
Extends-trans a b c (p, e) (q, f) = (p ++ q, f ∙ ap (λ l. l ++ q) e ∙ append_assoc (map core a) p q)

map-core-update :
    (p : JobRow → Bool) (f : JobRow → JobRow)
    → ((r : JobRow) → core (f r) ≡ core r)
    → (rs : List JobRow) → map core (update p f rs) ≡ map core rs
map-core-update p f k [] = refl
map-core-update p f k (r ∷ rs) = elim (Bool-cases (p r)) [
  | inl e ↦ rw (e, k r, map-core-update p f k rs)
  | inr e ↦ rw (e, map-core-update p f k rs)
]

same-Extends : (db db' : Table) → map core db' ≡ map core db → Extends db db'
same-Extends db db' e = ([], e ∙ sym (append-nil _))

execute-Extends {ℓ} :
    {A : Type ℓ} (io : Io) (db db' : Table) (a : A)
    → Extends db db'
    → Extends db (execute io db (db', a)).0
execute-Extends none db db' a h = h
execute-Extends (some e) db db' a h = Extends-refl db

update-Extends {ℓ} :
    {A : Type ℓ} (io : Io) (p : JobRow → Bool) (f : JobRow → JobRow) (db : Table) (a : A)
    → ((r : JobRow) → core (f r) ≡ core r)
    → Extends db (execute io db (update p f db, a)).0
update-Extends io p f db a k =
    execute-Extends io db (update p f db) a (same-Extends db _ (map-core-update p f k db))

module _ (uuid : UuidText) (time : TimeText) {Value : Type 0} (json : JsonText Value) where
  open uuid use {to_string}
  open json use {to_text}

  insert_text-Extends :
      (io : Io) (now : ℤ) (id : Uuid) (destination : String) (n : ℤ) (db : Table)
      (t : Result String String)
      → Extends db (insert_text uuid time json io now id destination n db t).0
  unfolding insert_text
  insert_text-Extends io now id destination n db (err e) = Extends-refl db
  insert_text-Extends io now id destination n db (ok text) =
      elim (Bool-cases (any (has_id (to_string id)) db)) [
        | inl t ↦ rw t (Extends-refl db)
        | inr t ↦ rw t (
            let row = new_row uuid time json (TimeText.fmt_ts time now) id destination text n in
            execute-Extends io db (db ++ row ∷ []) tt
              (map core (row ∷ []), map-append core db (row ∷ [])))
      ]

  claim_each-core :
      (io : String → Io) (now : String) (ids : List String) (db : Table)
      {r : Table × List (Job Value)}
      → claim_each uuid time json io now ids db ≡ ok r
      → map core r.0 ≡ map core db
  unfolding claim_each
  claim_each-core io now [] db {r} h = subst (λ x. map core x.0 ≡ map core db) (ok_injective h) refl
  claim_each-core io now (i ∷ ids) db {r} h =
      let db' = update (has_id i) (set_in_flight now) db in
      through (returned uuid time json (io i) (select_first (has_id i) db')) _ h λ job _ h1.
        through (claim_each uuid time json io now ids db') _ h1 λ q e h2.
          subst (λ x. map core x.0 ≡ map core db) (ok_injective h2)
            (claim_each-core io now ids db' {r = q} e
              ∙ map-core-update (has_id i) (set_in_flight now) (λ _. refl) db)

  committed-Extends :
      (io : Io) (db : Table) (c : Result AnyError (Table × List (Job Value)))
      → ((r : Table × List (Job Value)) → c ≡ ok r → Extends db r.0)
      → Extends db (committed uuid time json io db c).0
  committed-Extends io db (err e) k = Extends-refl db
  committed-Extends (some e) db (ok r) k = Extends-refl db
  committed-Extends none db (ok r) k = k r refl

  claim_due_jobs-Extends :
      (io : ClaimIo) (now limit : ℤ) (db : Table)
      → Extends db (claim_due_jobs uuid time json io now limit db).0
  unfolding claim_due_jobs
  claim_due_jobs-Extends io now limit db =
      let t = TimeText.fmt_ts time now in
      let start = begun uuid time json io.begins (query io.selects (ok (due_ids t limit db))) in
      committed-Extends io.commits db
        (start >>= λ ids. claim_each uuid time json io.updates t ids db)
        (λ r h.
          through start _ h
            λ ids _ h1. same-Extends db r.0 (claim_each-core io.updates t ids db {r = r} h1))

  step-Extends : (db : Table) (c : Call Value) → Extends db (step uuid time json db c)
  unfolding step insert_job mark_delivered reschedule_job mark_dead requeue_dead
  step-Extends db (inserts io now id destination v n) =
      insert_text-Extends io now id destination n db (to_text v)
  step-Extends db (claims io now limit) = claim_due_jobs-Extends io now limit db
  step-Extends db (marks_delivered io now id) = update-Extends io _ _ db tt (λ r. refl)
  step-Extends db (reschedules io now id next e) = update-Extends io _ _ db tt (λ r. refl)
  step-Extends db (marks_dead io now id e) = update-Extends io _ _ db tt (λ r. refl)
  step-Extends db (requeues io now id) = update-Extends io _ _ db _ (λ r. refl)

  -- Whatever calls run, in whatever order and with whatever answers of the engine, every job that was
  -- in the table stays in it, at its place, with its id, payload, destination, attempt limit and time
  -- of creation.
  pub run-keeps_jobs : (db : Table) (cs : List (Call Value)) → Extends db (run uuid time json db cs)
  unfolding run
  run-keeps_jobs db [] = Extends-refl db
  run-keeps_jobs db (c ∷ cs) =
      Extends-trans db (step uuid time json db c) (run uuid time json (step uuid time json db c) cs)
        (step-Extends db c) (run-keeps_jobs (step uuid time json db c) cs)

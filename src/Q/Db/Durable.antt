-- ===== src/Q/Db/Durable.antt =====
-- What no call of q/src/db.rs ever loses: an accepted delivery, its payload, a dead-letter entry.
use mathlib.Core.List.{append-nil, append_assoc, map-append}
use benchmark_rust_llms.Prelude.{
  ℕ, String, Option, List, [], ◌∷◌, ◌++◌, map, Bool, ◌≡◌, refl, sym, ◌∙◌, ap, inl, inr, update,
  Bool-cases, ℤ,
}
use benchmark_rust_llms.Q.Model.{UuidText}
use benchmark_rust_llms.Q.Db.Rows.{DeliveryRow, DlqRow, Db, Io, execute}
use benchmark_rust_llms.Q.Db.Writes.{
  claim, mark_delivered, schedule_retry, replay_dead_letter, set_in_flight_stale_for_test,
  reset_stale_in_flight,
}
use benchmark_rust_llms.Q.Db.Calls.{
  Call, inserts, claims, marks_delivered, schedules_retry, dead_letters, replays, resets_stale,
  ages_for_test, step, run,
}
use benchmark_rust_llms.Q.Db.Writes.{new_row}
use benchmark_rust_llms.Q.Db.Cases.{execute_cases, insert_cases, dead_letter_cases}

-- What was submitted, and when.
pub record Core : Type 0 where
  pub id : String
  pub idempotency_key : Option String
  pub destination : String
  pub payload : List ℕ
  pub max_attempts : ℕ
  pub created_at : ℤ

abbrev pub core : DeliveryRow → Core
core r = record {
  id = r.id;
  idempotency_key = r.idempotency_key;
  destination = r.destination;
  payload = r.payload;
  max_attempts = r.max_attempts;
  created_at = r.created_at;
}

-- The second state has all that the first has, in the same order, and perhaps more behind it.
pub record Extends (db db' : Db) : Type 0 where
  pub new_cores : List Core
  pub new_entries : List DlqRow
  pub cores : map core db'.deliveries ≡ map core db.deliveries ++ new_cores
  pub entries : db'.dead_letters ≡ db.dead_letters ++ new_entries

Extends-refl : (db : Db) → Extends db db
Extends-refl db = record {
  new_cores = [];
  new_entries = [];
  cores = sym (append-nil _);
  entries = sym (append-nil _);
}

Extends-trans : (a b c : Db) → Extends a b → Extends b c → Extends a c
Extends-trans a b c p q = record {
  new_cores = p.new_cores ++ q.new_cores;
  new_entries = p.new_entries ++ q.new_entries;
  cores =
      q.cores
      ∙ ap (λ l. l ++ q.new_cores) p.cores
      ∙ append_assoc (map core a.deliveries) p.new_cores q.new_cores;
  entries =
      q.entries
      ∙ ap (λ l. l ++ q.new_entries) p.entries
      ∙ append_assoc a.dead_letters p.new_entries q.new_entries;
}

map-core-update :
    (p : DeliveryRow → Bool) (f : DeliveryRow → DeliveryRow)
    → ((r : DeliveryRow) → core (f r) ≡ core r)
    → (rs : List DeliveryRow) → map core (update p f rs) ≡ map core rs
map-core-update p f k [] = refl
map-core-update p f k (r ∷ rs) = elim (Bool-cases (p r)) [
  | inl e ↦ rw (e, k r, map-core-update p f k rs)
  | inr e ↦ rw (e, map-core-update p f k rs)
]

update-Extends :
    (p : DeliveryRow → Bool) (f : DeliveryRow → DeliveryRow)
    → ((r : DeliveryRow) → core (f r) ≡ core r)
    → (db : Db) (qs : List DlqRow)
    → Extends db
        (record { deliveries = update p f db.deliveries; dead_letters = db.dead_letters ++ qs })
update-Extends p f k db qs = record {
  new_cores = [];
  new_entries = qs;
  cores = map-core-update p f k db.deliveries ∙ sym (append-nil _);
  entries = refl;
}

execute-update-Extends {ℓ} :
    {A : Type ℓ} (p : DeliveryRow → Bool) (f : DeliveryRow → DeliveryRow)
    → ((r : DeliveryRow) → core (f r) ≡ core r)
    → (io : Io) (db : Db) (a : A)
    → Extends db (execute io db (record db { deliveries = update p f db.deliveries }, a)).0
execute-update-Extends p f k io db a =
    execute_cases (Extends db) io db _ a (Extends-refl db) (record {
      new_cores = [];
      new_entries = [];
      cores = map-core-update p f k db.deliveries ∙ sym (append-nil _);
      entries = sym (append-nil _);
    })

module _ (uuid : UuidText) where
  pub step-Extends : (db : Db) (c : Call) → Extends db (step uuid db c)
  unfolding step claim mark_delivered schedule_retry replay_dead_letter reset_stale_in_flight
      set_in_flight_stale_for_test
  step-Extends db (inserts io io' now d) =
      insert_cases uuid (Extends db) io io' now d db (Extends-refl db) (λ _. record {
        new_cores = core (new_row uuid now d) ∷ [];
        new_entries = [];
        cores = map-append core db.deliveries _;
        entries = sym (append-nil _);
      })
  step-Extends db (claims io now id) = execute-update-Extends _ _ (λ r. refl) io db _
  step-Extends db (marks_delivered io now id) = execute-update-Extends _ _ (λ r. refl) io db _
  step-Extends db (schedules_retry io now id next e) =
      execute-update-Extends _ _ (λ r. refl) io db _
  step-Extends db (dead_letters io io' now entry id e) =
      dead_letter_cases uuid (Extends db) io io' now entry id e db (Extends-refl db)
        (λ r _ _. update-Extends _ _ (λ r. refl) db _)
  step-Extends db (replays io now id) = execute-update-Extends _ _ (λ r. refl) io db _
  step-Extends db (resets_stale io now stale) = execute-update-Extends _ _ (λ r. refl) io db _
  step-Extends db (ages_for_test io id at) = execute-update-Extends _ _ (λ r. refl) io db _

  -- Whatever calls are made and whatever the engine answers, every delivery that was stored stays,
  -- with its id, key, destination, payload and limit, and so does every dead-letter entry.
  pub run-Extends : (db : Db) (cs : List Call) → Extends db (run uuid db cs)
  unfolding run
  run-Extends db [] = Extends-refl db
  run-Extends db (c ∷ cs) =
      Extends-trans db (step uuid db c) _ (step-Extends db c) (run-Extends (step uuid db c) cs)

-- ===== src/G/Service/Rows.antt =====
-- What the statements of g/src/ keep of the table: unique ids, known statuses, and every row's id,
-- destination and payload.
use benchmark_rust_llms.Prelude.{ℕ, String, [], ◌∷◌, ℤ, Result}
use benchmark_rust_llms.G.Config.{Config}
use benchmark_rust_llms.G.Db.{Table, Io, reset_processing}
use benchmark_rust_llms.G.Worker.{tick}
use benchmark_rust_llms.G.Model.{
  DeliveryRow, status_pending, status_processing, status_delivered, status_dead_lettered,
}
use benchmark_rust_llms.G.Db.{SqlxError, execute, has_status, set_pending}
use benchmark_rust_llms.G.Worker.{
  claim, reclaim, then_claim, is_in, due_ids, is_stale, in_millis, set_processing,
}
use benchmark_rust_llms.Prelude.{
  All, Some, Some-update, HasUnique, update-HasUnique, update-All, update, any, str_eq, Bool, true,
  ok, err, none, some, ◌≡◌, refl, ◌∙◌, wrap_i64, ◌-ℤ◌,
}

-- One of the four words.
abbrev pub is_status : String → Bool
is_status s =
    any (str_eq s)
      (status_pending ∷ status_processing ∷ status_delivered ∷ status_dead_lettered ∷ [])

pub record IsWellFormed (db : Table) : Type 0 where
  pub unique : HasUnique DeliveryRow.id db
  pub statuses : All (λ r. is_status r.status ≡ true) db

-- The row carries the payload of an id to its destination.
abbrev pub IsRowOf : String → String → String → DeliveryRow → Type 0
IsRowOf id destination payload r =
    (r.id ≡ id) × (r.destination ≡ destination) × (r.payload ≡ payload)

abbrev pub Holds : String → String → String → Table → Type 0
Holds id destination payload db = Some (IsRowOf id destination payload) db

-- The second table is well formed and holds what the first holds.
pub record IsKept (db db' : Table) : Type 0 where
  pub well_formed : IsWellFormed db'
  pub held : (i d p : String) → Holds i d p db → Holds i d p db'

pub same : (db : Table) → IsWellFormed db → IsKept db db
same db w = record { well_formed = w; held = λ i d p h. h }

pub then-IsKept : (db db' db'' : Table) → IsKept db db' → IsKept db' db'' → IsKept db db''
then-IsKept db db' db'' k l = record {
  well_formed = l.well_formed;
  held = λ i d p h. l.held i d p (k.held i d p h);
}

-- An assignment that leaves what was submitted alone, and writes one of the four words.
pub record KeepsRow (f : DeliveryRow → DeliveryRow) : Type 0 where
  pub id : (r : DeliveryRow) → (f r).id ≡ r.id
  pub destination : (r : DeliveryRow) → (f r).destination ≡ r.destination
  pub payload : (r : DeliveryRow) → (f r).payload ≡ r.payload
  pub status : (r : DeliveryRow) → is_status (f r).status ≡ true

pub update-IsKept :
    (p : DeliveryRow → Bool) (f : DeliveryRow → DeliveryRow) (db : Table)
    → KeepsRow f
    → IsWellFormed db
    → IsKept db (update p f db)
update-IsKept p f db k w = record {
  well_formed = record {
    unique = update-HasUnique DeliveryRow.id p f k.id db w.unique;
    statuses = update-All (λ r. is_status r.status ≡ true) p f (λ r _ _. k.status r) db w.statuses;
  };
  held = λ i d t h.
      Some-update (IsRowOf i d t) p f
        (λ r o. (k.id r ∙ o.0, k.destination r ∙ o.1, k.payload r ∙ o.2)) db h;
}

pub execute-IsKept {ℓ} :
    {A : Type ℓ} (io : Io) (db db' : Table) (a : A)
    → IsWellFormed db
    → IsKept db db'
    → IsKept db (execute io db (db', a)).0
execute-IsKept none db db' a w k = k
execute-IsKept (some e) db db' a w k = same db w

pending-KeepsRow : (now : ℤ) → KeepsRow (set_pending now)
pending-KeepsRow now = record {
  id = λ r. refl;
  destination = λ r. refl;
  payload = λ r. refl;
  status = λ r. refl;
}

processing-KeepsRow : (now : ℤ) → KeepsRow (set_processing now)
processing-KeepsRow now = record {
  id = λ r. refl;
  destination = λ r. refl;
  payload = λ r. refl;
  status = λ r. refl;
}

pub reset_processing-IsKept :
    (io : Io) (now : ℤ) (db : Table) → IsWellFormed db → IsKept db (reset_processing io now db).0
unfolding reset_processing
reset_processing-IsKept io now db w =
    execute-IsKept io db _ _ w
      (update-IsKept (has_status status_processing) (set_pending now) db (pending-KeepsRow now) w)

claim-IsKept :
    (io : Io) (now batch : ℤ) (db : Table) → IsWellFormed db → IsKept db (claim io now batch db).0
unfolding claim
claim-IsKept io now batch db w = execute-IsKept io db _ _ w (
    update-IsKept (is_in (due_ids now batch db)) (set_processing now) db (processing-KeepsRow now)
      w)

then_claim-IsKept :
    (io : Io) (now batch : ℤ) (db : Table) (r : Table × Result SqlxError ℕ)
    → IsKept db r.0
    → IsKept db (then_claim io now batch r).0
then_claim-IsKept io now batch db (db', err e) k = k
then_claim-IsKept io now batch db (db', ok n) k =
    then-IsKept db db' _ k (claim-IsKept io now batch db' k.well_formed)

pub tick-IsKept :
    (io io' : Io) (now : ℤ) (cfg : Config) (db : Table)
    → IsWellFormed db
    → IsKept db (tick io io' now cfg db).0
unfolding tick reclaim
tick-IsKept io io' now cfg db w = then_claim-IsKept io' now cfg.batch_size db _ (
    execute-IsKept io db _ _ w (
      update-IsKept (is_stale (wrap_i64 (now -ℤ in_millis cfg.visibility_timeout_secs)))
        (set_pending now) db (pending-KeepsRow now) w))

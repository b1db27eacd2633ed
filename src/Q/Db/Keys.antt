-- ===== src/Q/Db/Keys.antt =====
-- Idempotency keys in q/src/db.rs: a key that was accepted is answered with the same delivery.
use benchmark_rust_llms.Prelude.{
  String, none, some, List, [], ◌∷◌, ◌++◌, map, true, false, ◌≡◌, refl, sym, subst, inl, inr, arith,
  Bool-cases, All, Some, Some-append, Some-append_right, Some-map, map-Some, any,
  any_of_select_first, select_first, ℤ, ok, err, eq_iff, eq_refl, Option,
}
use benchmark_rust_llms.Q.Model.{Uuid, UuidText, NewDelivery}
use benchmark_rust_llms.Q.Db.Rows.{
  key_is, SqliteError, DeliveryRow, Db, Io, has_key, is_constraint_error, idempotency_conflict,
  constraint_violation,
}
use benchmark_rust_llms.Q.Db.Writes.{insert, inserted, conflict, new_row, violates}
use benchmark_rust_llms.Q.Db.Calls.{Call, run}
use benchmark_rust_llms.Q.Db.Durable.{Core, core, Extends, run-Extends}
use benchmark_rust_llms.Q.Db.Invariant.{IsUnique, IsWellFormed, clash}
use benchmark_rust_llms.Q.Db.Invariant.Histories.{run-IsWellFormed}
use benchmark_rust_llms.Q.Db.Invariant.Inserts.{insert-IsWellFormed}

abbrev Holds : String → String → DeliveryRow → Type 0
Holds t k r = (r.id ≡ t) × (r.idempotency_key ≡ some k)

abbrev CoreHolds : String → String → Core → Type 0
CoreHolds t k c = (c.id ≡ t) × (c.idempotency_key ≡ some k)

has_key_of : (t k : String) (r : DeliveryRow) → Holds t k r → has_key (some k) r ≡ true
has_key_of t k r h = rw (h.1) (eq_refl k)

key_of : (k : String) (r : DeliveryRow) → has_key (some k) r ≡ true → r.idempotency_key ≡ some k
key_of k r h = by_key r.idempotency_key h
  where
    by_key : (o : Option String) → key_is (some k) o ≡ true → o ≡ some k
    by_key none e = cc
    by_key (some j) e = ground (arith, eq_iff j k)

other_key :
    (t k : String) (x : DeliveryRow) (rs : List DeliveryRow)
    → x.idempotency_key ≡ some k
    → All (λ s. clash x s ≡ false) rs
    → Some (Holds t k) rs
    → ⊥
other_key t k x [] e h f = f
other_key t k x (r ∷ rs) e h (inl hit) = ground (arith, has_key_of t k r hit, (rw e at h.0))
other_key t k x (r ∷ rs) e h (inr f) = other_key t k x rs e h.1 f

-- The key finds its row.
unique_key :
    (t k : String) (rs : List DeliveryRow)
    → IsUnique rs
    → Some (Holds t k) rs
    → (r : DeliveryRow) × (select_first (has_key (some k)) rs ≡ some r) × (r.id ≡ t)
unique_key t k [] u f = absurd f
unique_key t k (r ∷ rs) u (inl hit) = (r, rw (has_key_of t k r hit) refl, hit.0)
unique_key t k (r ∷ rs) u (inr f) = elim (Bool-cases (has_key (some k) r)) [
  | inl hit ↦ absurd (other_key t k r rs (key_of k r hit) u.0 f)
  | inr miss ↦ rw miss (unique_key t k rs u.1 f)
]

module _ (uuid : UuidText) where
  open uuid use {to_string}

  -- An accepted delivery is the last row of the table.
  insert-ok :
      (io io' : Io) (now : ℤ) (d : NewDelivery) (db : Db)
      → (insert uuid io io' now d db).1 ≡ ok tt
      → (insert uuid io io' now d db).0.deliveries ≡ db.deliveries ++ new_row uuid now d ∷ []
  unfolding insert inserted
  insert-ok (some e) io' now d db h = elim (Bool-cases (is_constraint_error e)) [
    | inl t ↦ cc
    | inr t ↦ cc
  ]
  insert-ok none io' now d db h = elim (Bool-cases (any (violates uuid d) db.deliveries)) [
    | inl t ↦ ground arith
    | inr t ↦ rw t refl
  ]

  conflict-found :
      (u : Uuid) (r : DeliveryRow) (e : SqliteError)
      → r.id ≡ to_string u
      → conflict uuid none e (some r) ≡ idempotency_conflict u
  unfolding conflict
  conflict-found u r e h = rw (h, conflict, uuid.parse_str-to_string u) refl

  violates_of_key :
      (e : NewDelivery) (r : DeliveryRow)
      → has_key e.idempotency_key r ≡ true
      → violates uuid e r ≡ true
  violates_of_key e r h = ground arith

  -- A submission under a key that is taken names the delivery that has it.
  pub insert-conflict :
      (now : ℤ) (e : NewDelivery) (db : Db) (u : Uuid) (r : DeliveryRow)
      → select_first (has_key e.idempotency_key) db.deliveries ≡ some r
      → r.id ≡ to_string u
      → insert uuid none none now e db ≡ (db, err (idempotency_conflict u))
  unfolding insert inserted
  insert-conflict now e db u r found named =
      rw
        (
          any_of_select_first (has_key e.idempotency_key) (violates uuid e) (violates_of_key e)
              db.deliveries {x = r} found,
          inserted,
          found,
          conflict-found u r constraint_violation named,
        )
        refl

  -- A delivery that was accepted under a key answers every later submission with that key,
  -- whatever was called in between: the id is the first one's, and the tables do not change.
  pub insert_idempotent :
      (io io' : Io) (now now' : ℤ) (d e : NewDelivery) (db : Db) (cs : List Call) (k : String)
      → IsWellFormed uuid db
      → d.idempotency_key ≡ some k
      → e.idempotency_key ≡ some k
      → (insert uuid io io' now d db).1 ≡ ok tt
      → insert uuid none none now' e (run uuid (insert uuid io io' now d db).0 cs)
        ≡ (run uuid (insert uuid io io' now d db).0 cs, err (idempotency_conflict d.id))
  insert_idempotent io io' now now' d e db cs k w kd ke h =
      let db' = (insert uuid io io' now d db).0 in
      let x = run-Extends uuid db' cs in
      let w' = run-IsWellFormed uuid db' cs (insert-IsWellFormed uuid io io' now d db w) in
      let (r, found, named) = unique_key (to_string d.id) k (run uuid db' cs).deliveries w'.unique (
        later x (
          rw (insert-ok io io' now d db h) (
            Some-append_right (Holds (to_string d.id) k) db.deliveries (new_row uuid now d ∷ [])
              (inl (refl, kd))))) in
      insert-conflict now' e (run uuid db' cs) d.id r (rw ke found) named
    where
      later :
          {a b : Db}
          → Extends a b
          → Some (Holds (to_string d.id) k) a.deliveries
          → Some (Holds (to_string d.id) k) b.deliveries
      later {a} {b} x h = Some-map (CoreHolds (to_string d.id) k) core b.deliveries (
          subst (Some (CoreHolds (to_string d.id) k)) (sym x.cores) (
            Some-append (CoreHolds (to_string d.id) k) (map core a.deliveries) x.new_cores
              (map-Some (CoreHolds (to_string d.id) k) core a.deliveries h)))

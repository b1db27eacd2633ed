-- ===== src/G/Worker/Claims.antt =====
-- `claim` of g/src/worker.rs: what the batch of a tick is, and that no two batches share a job.
use benchmark_rust_llms.Prelude.{
  String, none, List, [], ◌∷◌, map, Bool, any, str_eq, ℤ, pos, negsuc, ok, select, update, order_by,
  limited,
}
use benchmark_rust_llms.G.Model.{DeliveryRow, ClaimedJob, status_processing}
use benchmark_rust_llms.G.Db.{Table}
use benchmark_rust_llms.G.Worker.{
  is_in, is_due, due_ids, due_before, set_processing, claimed_job, claim,
}
use benchmark_rust_llms.Prelude.{
  All, All-take, All-both, select-All, select-All_of, order_by-All, Bool-cases, eq_iff, inl, inr,
  ap, sym, ◌∙◌, ◌≡◌, refl, true, false, arith,
}
use benchmark_rust_llms.Prelude.{All-map, ok_injective, subst}

-- Membership in a list of texts, under a map.
any-map :
    (p : String → Bool) (rows : List DeliveryRow)
    → any p (map (λ r. DeliveryRow.id r) rows) ≡ any (λ r. p r.id) rows
any-map p [] = refl
any-map p (r ∷ rows) = ground (arith, any-map p rows)

-- A row of a list that is part of a table's.
any_All :
    {A : Type 0} (p : A → Bool) (P : A → Type 0) (xs : List A)
    → any p xs ≡ true
    → All P xs
    → (x : A) × (p x ≡ true) × P x
any_All p P [] h a = absurd (ground arith)
any_All p P (x ∷ xs) h a = elim (Bool-cases (p x)) [
  | inl e ↦ (x, e, a.0)
  | inr e ↦ any_All p P xs (ground arith) a.1
]

-- A row that no claim may take: it is not pending.
abbrev pub IsTaken : List String → DeliveryRow → Type 0
IsTaken ids r = is_in ids r ≡ true → r.status ≡ status_processing

set-IsTaken :
    (now : ℤ) (ids : List String) (db : Table)
    → All (IsTaken ids) (update (is_in ids) (set_processing now) db)
set-IsTaken now ids [] = tt
set-IsTaken now ids (r ∷ db) = elim (Bool-cases (is_in ids r)) [
  | inl e ↦ rw e ((λ h. refl), set-IsTaken now ids db)
  | inr e ↦ rw e ((λ h. absurd (let k : is_in ids r ≡ true = h in cc)), set-IsTaken now ids db)
]

limited-All :
    (P : DeliveryRow → Type 0) (batch : ℤ) (rows : List DeliveryRow)
    → All P rows
    → All P (limited batch rows)
limited-All P (pos n) rows h = All-take P n rows h
limited-All P (negsuc n) rows h = h

-- The rows of the inner SELECT are due, and have what every row of the table has.
due-All :
    (P : DeliveryRow → Type 0) (now batch : ℤ) (db : Table)
    → All P db
    → All
        (λ r. (is_due now r ≡ true) × P r)
        (limited batch (order_by due_before (select (is_due now) db)))
due-All P now batch db h =
    limited-All (λ r. (is_due now r ≡ true) × P r) batch _
      (order_by-All due_before (λ r. (is_due now r ≡ true) × P r) _
        (All-both (λ r. is_due now r ≡ true) P (select (is_due now) db) (select-All (is_due now) db)
          (select-All_of P (is_due now) db h)))

-- The id of a claimed row is that of a due row of the table before.
claimed-due :
    (P : DeliveryRow → Type 0) (now batch : ℤ) (db : Table) (r : DeliveryRow)
    → All P db
    → is_in (due_ids now batch db) r ≡ true
    → (q : DeliveryRow) × (str_eq q.id r.id ≡ true) × ((is_due now q ≡ true) × P q)
claimed-due P now batch db r a h =
    any_All (λ q. str_eq q.id r.id) (λ q. (is_due now q ≡ true) × P q)
      (limited batch (order_by due_before (select (is_due now) db)))
      (sym (
          any-map (λ i. str_eq i r.id)
            (limited batch (order_by due_before (select (is_due now) db))))
        ∙ h)
      (due-All P now batch db a)

is_in_same :
    (ids : List String) (q r : DeliveryRow) → str_eq q.id r.id ≡ true → is_in ids q ≡ is_in ids r
is_in_same ids q r e =
    let k : q.id ≡ r.id = (eq_iff q.id r.id).0 e in ap (λ t. any (λ i. str_eq i t) ids) k

due_not_processing :
    (now : ℤ) (q : DeliveryRow) → is_due now q ≡ true → ¬ (q.status ≡ status_processing)
due_not_processing now q h e = let k = rw e at h in cc

-- A row of the first batch is not in the second, which the table as it was left gives.
not_again :
    (now batch : ℤ) (ids : List String) (db : Table) (r : DeliveryRow)
    → All (IsTaken ids) db
    → is_in (due_ids now batch db) r ≡ true
    → is_in ids r ≡ false
not_again now batch ids db r a h = elim (Bool-cases (is_in ids r)) [
  | inr e ↦ e
  | inl e ↦
      let (q, same, due_taken) = claimed-due (IsTaken ids) now batch db r a h in
      let processing = due_taken.1 (is_in_same ids q r same ∙ e) in
      absurd (due_not_processing now q due_taken.0 processing)
]

mapped-All :
    {A B : Type 0} (f : A → B) (P : B → Type 0) (xs : List A)
    → All (λ x. P (f x)) xs
    → All P (map f xs)
mapped-All f P [] h = tt
mapped-All f P (x ∷ xs) h = (h.0, mapped-All f P xs h.1)

other_id :
    (ids : List String) (q r : DeliveryRow)
    → is_in ids q ≡ true
    → is_in ids r ≡ false
    → str_eq q.id r.id ≡ false
other_id ids q r h n = elim (Bool-cases (str_eq q.id r.id)) [
  | inr e ↦ e
  | inl e ↦ absurd (let k = is_in_same ids q r e in cc)
]

-- Every job of the second list has another id than every job of the first.
abbrev pub ShareNone : List ClaimedJob → List ClaimedJob → Type 0
ShareNone jobs later =
    All (λ j. All (λ k. str_eq (ClaimedJob.id k) (ClaimedJob.id j) ≡ false) jobs) later

claimed-ShareNone :
    (now now' batch batch' : ℤ) (db : Table)
    → let ids = due_ids now batch db in
      let db' = update (is_in ids) (set_processing now) db in
      ShareNone
        (map claimed_job (select (is_in ids) db))
        (map claimed_job (select (is_in (due_ids now' batch' db')) db'))
claimed-ShareNone now now' batch batch' db =
    let ids = due_ids now batch db in
    let db' = update (is_in ids) (set_processing now) db in
    let p' = is_in (due_ids now' batch' db') in
    mapped-All claimed_job
      (λ j.
        All (λ k. str_eq (ClaimedJob.id k) (ClaimedJob.id j) ≡ false)
          (map claimed_job (select (is_in ids) db)))
      (select p' db')
      (All-map
        (λ r h.
          let n = not_again now' batch' ids db' r (set-IsTaken now ids db) h in
          mapped-All claimed_job (λ k. str_eq (ClaimedJob.id k) r.id ≡ false)
            (select (is_in ids) db)
            (All-map (λ q i. other_id ids q r i n) (select (is_in ids) db)
              (select-All (is_in ids) db)))
        (select p' db') (select-All p' db'))

-- Two claims, one after the other on the table that the first has left, at whatever times and batch
-- sizes, return no job of one id: a delivery that one tick has claimed the next does not claim too,
-- unless something puts it back between them.
pub claims-ShareNone :
    (now now' batch batch' : ℤ) (db : Table) {jobs later : List ClaimedJob}
    → (claim none now batch db).1 ≡ ok jobs
    → (claim none now' batch' (claim none now batch db).0).1 ≡ ok later
    → ShareNone jobs later
unfolding claim
claims-ShareNone now now' batch batch' db {jobs} {later} h h' =
    subst (λ js. ShareNone js later) (ok_injective h)
      (subst (λ js. ShareNone (map claimed_job (select (is_in (due_ids now batch db)) db)) js)
        (ok_injective h') (claimed-ShareNone now now' batch batch' db))

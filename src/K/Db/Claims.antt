-- ===== src/K/Db/Claims.antt =====
-- `claim_due_jobs` of k/webhook-delivery/src/db.rs: what a batch of claims leaves behind.
use benchmark_rust_llms.Prelude.{
  String, Bool, false, none, some, ℕ, ◌≤◌, List, [], ◌∷◌, ◌&&◌, ok, err, Result, ℤ, ◌≡◌, refl, ap,
  sym, ◌∙◌, inl, inr, Option-cases, ◌⊎◌, arith, All, Bool-cases, through, subst, select_first,
  count_if, update, Matches, Some, ◌≢◌, eq_iff, select_first-holds, ok_or-ok, ◌>>=◌, ok_or,
  Option-cases,
}
use benchmark_rust_llms.Q.Model.{UuidText}
use benchmark_rust_llms.K.Model.{
  AnyError, row_not_found, from_str, in_flight, TimeText, JsonText, Job,
}
use benchmark_rust_llms.K.Db.{
  JobRow, Table, Io, ClaimIo, has_id, has_status, set_in_flight, due_ids, row_to_job, claim_each,
  claim_due_jobs, returned, committed, begun, query, get_i64, parse_ts,
}

abbrev pub is_pending : String → JobRow → Bool
is_pending t r = has_id t r && has_status "pending" r

-- How many pending rows the id has.
abbrev pub claimable : String → Table → ℕ
claimable t db = count_if (is_pending t) db

claimed : (t now : String) (r : JobRow) → is_pending t (set_in_flight now r) ≡ false
claimed t now r = ground arith

update-claimable :
    (i t now : String) (db : Table)
    → claimable t (update (has_id i) (set_in_flight now) db) ≤ claimable t db
update-claimable i t now [] = omega arith
update-claimable i t now (r ∷ db) = elim (Bool-cases (has_id i r)) [
  | inl e ↦ rw (e, claimed t now r) (ground (arith, update-claimable i t now db))
  | inr e ↦ rw e (ground (arith, update-claimable i t now db))
]

claim-claimable :
    (t now : String) (db : Table) → claimable t (update (has_id t) (set_in_flight now) db) ≡ 0
claim-claimable t now [] = refl
claim-claimable t now (r ∷ db) = elim (Bool-cases (has_id t r)) [
  | inl e ↦ rw (e, claimed t now r) (claim-claimable t now db)
  | inr e ↦ rw (e, e) (claim-claimable t now db)
]

ok_injective {ℓ} : {A : Type ℓ} {x y : A} → ok x ≡ (let r : Result AnyError A = ok y in r) → x ≡ y
ok_injective h = cc

select-in_flight :
    (t now : String) (db : Table) {r : JobRow}
    → select_first (has_id t) (update (has_id t) (set_in_flight now) db) ≡ some r
    → r.status ≡ "in_flight"
select-in_flight t now [] h = cc
select-in_flight t now (x ∷ db) {r} h = elim (Bool-cases (has_id t x)) [
  | inl e ↦ ground (arith, select-in_flight t now db {r = r})
  | inr e ↦ select-in_flight t now db {r = r} (ground arith)
]

select-id :
    (t now : String) (db : Table) {r : JobRow}
    → select_first (has_id t) (update (has_id t) (set_in_flight now) db) ≡ some r
    → r.id ≡ t
select-id t now db {r} h =
    (eq_iff r.id t).0 (select_first-holds (has_id t) (update (has_id t) (set_in_flight now) db) h)

-- A row with one of the ids is in flight; every other row is as it was.
abbrev pub IsTakenUp : List String → JobRow → JobRow → Type 0
IsTakenUp ids x y =
    (All (λ t. x.id ≢ t) ids × (y ≡ x))
    ⊎ (Some (λ t. x.id ≡ t) ids × (y.id ≡ x.id) × (y.status ≡ "in_flight"))

none_taken : (db : Table) → Matches (IsTakenUp []) db db
none_taken [] = tt
none_taken (x ∷ db) = (inl (tt, refl), none_taken db)

taken_first :
    (i now : String) (ids : List String) (x y : JobRow)
    → x.id ≡ i
    → IsTakenUp ids (set_in_flight now x) y
    → IsTakenUp (i ∷ ids) x y
taken_first i now ids x y e (inl (a, same)) = inr (inl e, ap JobRow.id same, ap JobRow.status same)
taken_first i now ids x y e (inr (a, same, s)) = inr (inl e, same, s)

not_first :
    (i : String) (ids : List String) (x y : JobRow)
    → x.id ≢ i
    → IsTakenUp ids x y
    → IsTakenUp (i ∷ ids) x y
not_first i ids x y e (inl (a, same)) = inl ((e, a), same)
not_first i ids x y e (inr (a, same, s)) = inr (inr a, same, s)

update-taken :
    (i now : String) (ids : List String) (db db' : Table)
    → Matches (IsTakenUp ids) (update (has_id i) (set_in_flight now) db) db'
    → Matches (IsTakenUp (i ∷ ids)) db db'
update-taken i now ids [] [] m = tt
update-taken i now ids [] (y ∷ db') m = absurd m
update-taken i now ids (x ∷ db) [] m = absurd m
update-taken i now ids (x ∷ db) (y ∷ db') m = elim (Bool-cases (has_id i x)) [
  | inl e ↦
      let (first, rest) = rw e at m in
      (taken_first i now ids x y ((eq_iff x.id i).0 e) first, update-taken i now ids db db' rest)
  | inr e ↦
      let (first, rest) = rw e at m in
      (
        not_first i ids x y (λ f. let k = (eq_iff x.id i).1 f in cc) first,
        update-taken i now ids db db' rest,
      )
]

module _ (uuid : UuidText) (time : TimeText) {Value : Type 0} (json : JsonText Value) where
  row_to_job-status :
      (r : JobRow) {j : Job Value}
      → row_to_job uuid time json r ≡ ok j
      → from_str r.status ≡ ok j.status
  unfolding row_to_job
  row_to_job-status r {j} h = through (get_i64 r.attempts) _ h λ n _ h1.
      through (ok_or (UuidText.parse_str uuid r.id) _) _ h1 λ u _ h2.
        through (ok_or (JsonText.from_text json r.payload) _) _ h2 λ v _ h3.
          through (from_str r.status) _ h3 λ s e h4.
            through (parse_ts uuid time json r.next_attempt_at) _ h4 λ a _ h5.
              through (parse_ts uuid time json r.created_at) _ h5
                λ b _ h6. through (parse_ts uuid time json r.updated_at) _ h6 λ c _ h7. cc

  returned-in_flight :
      (io : Io) (t now : String) (db : Table) {j : Job Value}
      → returned uuid time json io
          (select_first (has_id t) (update (has_id t) (set_in_flight now) db))
        ≡ ok j
      → j.status ≡ in_flight
  unfolding from_str
  returned-in_flight none t now db {j} h =
      elim (Option-cases (select_first (has_id t) (update (has_id t) (set_in_flight now) db))) [
        | inl e ↦ absurd (
            let bad : err row_not_found ≡ ok j =
              subst (λ o. returned uuid time json none o ≡ ok j) e h in
            cc)
        | inr (r, e) ↦
            let f : row_to_job uuid time json r ≡ ok j =
              subst (λ o. returned uuid time json none o ≡ ok j) e h in
            ok_injective
              (sym (row_to_job-status r f) ∙ ap from_str (select-in_flight t now db {r = r} e))
      ]
  returned-in_flight (some e) t now db {j} h = absurd (let bad : err e ≡ ok j = h in cc)

  row_to_job-id :
      (r : JobRow) {j : Job Value}
      → row_to_job uuid time json r ≡ ok j
      → UuidText.parse_str uuid r.id ≡ some j.id
  unfolding row_to_job
  row_to_job-id r {j} h = through (get_i64 r.attempts) _ h λ n _ h1.
      through (ok_or (UuidText.parse_str uuid r.id) _) _ h1 λ u i h2.
        through (ok_or (JsonText.from_text json r.payload) _) _ h2 λ v _ h3.
          through (from_str r.status) _ h3 λ s _ h4.
            through (parse_ts uuid time json r.next_attempt_at) _ h4 λ a _ h5.
              through (parse_ts uuid time json r.created_at) _ h5 λ b _ h6.
                through (parse_ts uuid time json r.updated_at) _ h6 λ c _ h7.
                  subst (λ x. UuidText.parse_str uuid r.id ≡ some (Job.id x)) (ok_injective h7)
                    (ok_or-ok (UuidText.parse_str uuid r.id) _ i)

  returned-id :
      (io : Io) (t now : String) (db : Table) {j : Job Value}
      → returned uuid time json io
          (select_first (has_id t) (update (has_id t) (set_in_flight now) db))
        ≡ ok j
      → UuidText.parse_str uuid t ≡ some j.id
  returned-id none t now db {j} h =
      elim (Option-cases (select_first (has_id t) (update (has_id t) (set_in_flight now) db))) [
        | inl e ↦ absurd (
            let bad : err row_not_found ≡ ok j =
              subst (λ o. returned uuid time json none o ≡ ok j) e h in
            cc)
        | inr (r, e) ↦
            let f : row_to_job uuid time json r ≡ ok j =
              subst (λ o. returned uuid time json none o ≡ ok j) e h in
            subst (λ i. UuidText.parse_str uuid i ≡ some j.id) (select-id t now db {r = r} e)
              (row_to_job-id r f)
      ]
  returned-id (some e) t now db {j} h = absurd (let bad : err e ≡ ok j = h in cc)

  -- The table and the jobs after the ids have been claimed: a job for each id, in flight; in the
  -- table, the rows with the ids in flight, and the others as they were.
  abbrev pub IsClaimed : Table → List String → Table × List (Job Value) → Type 0
  IsClaimed db ids r =
      Matches (λ t j. UuidText.parse_str uuid t ≡ some (Job.id j)) ids r.1
      × All (λ j. Job.status j ≡ in_flight) r.1
      × Matches (IsTakenUp ids) db r.0
      × All (λ t. claimable t r.0 ≡ 0) ids

  claim_each-claimable :
      (io : String → Io) (now t : String) (ids : List String) (db : Table)
      {r : Table × List (Job Value)}
      → claim_each uuid time json io now ids db ≡ ok r
      → claimable t r.0 ≤ claimable t db
  unfolding claim_each
  claim_each-claimable io now t [] db {r} h =
      subst (λ x. claimable t x.0 ≤ claimable t db) (ok_injective h) (omega arith)
  claim_each-claimable io now t (i ∷ ids) db {r} h =
      let db' = update (has_id i) (set_in_flight now) db in
      through (returned uuid time json (io i) (select_first (has_id i) db')) _ h λ job _ h1.
        through (claim_each uuid time json io now ids db') _ h1 λ q e h2.
          subst (λ x. claimable t x.0 ≤ claimable t db) (ok_injective h2)
            (omega
              (arith, claim_each-claimable io now t ids db' {r = q} e, update-claimable i t now db))

  claim_each-IsClaimed :
      (io : String → Io) (now : String) (ids : List String) (db : Table)
      {r : Table × List (Job Value)}
      → claim_each uuid time json io now ids db ≡ ok r
      → IsClaimed db ids r
  unfolding claim_each
  claim_each-IsClaimed io now [] db {r} h =
      subst (IsClaimed db []) (ok_injective h) (tt, tt, none_taken db, tt)
  claim_each-IsClaimed io now (i ∷ ids) db {r} h =
      let db' = update (has_id i) (set_in_flight now) db in
      through (returned uuid time json (io i) (select_first (has_id i) db')) _ h λ job f h1.
        through (claim_each uuid time json io now ids db') _ h1 λ q e h2.
          let rest = claim_each-IsClaimed io now ids db' {r = q} e in
          subst (IsClaimed db (i ∷ ids)) (ok_injective h2) (
            (returned-id (io i) i now db f, rest.0),
            (returned-in_flight (io i) i now db f, rest.1),
            update-taken i now ids db q.0 rest.2,
            (
              omega (
                arith,
                claim_each-claimable io now i ids db' {r = q} e,
                claim-claimable i now db,
              ),
              rest.3,
            ),
          )

  committed_cases :
      {P : Table × List (Job Value) → Type 0} (io : Io) (db : Table)
      (c : Result AnyError (Table × List (Job Value)))
      → ((r : Table × List (Job Value)) → c ≡ ok r → P r)
      → ((e : AnyError) × (committed uuid time json io db c ≡ (db, err e)))
        ⊎ ((r : Table × List (Job Value)) × (committed uuid time json io db c ≡ (r.0, ok r.1))
            × P r)
  committed_cases io db (err e) k = inl (e, refl)
  committed_cases (some e) db (ok r) k = inl (e, refl)
  committed_cases none db (ok r) k = inr (r, refl, k r refl)

  begun-ok :
      (io io' : Io) (xs : List String) {ys : List String}
      → begun uuid time json io (query io' (ok xs)) ≡ ok ys
      → ys ≡ xs
  begun-ok none none xs h = cc
  begun-ok none (some e) xs {ys} h = absurd (let bad : err e ≡ ok ys = h in cc)
  begun-ok (some e) io' xs {ys} h = absurd (let bad : err e ≡ ok ys = h in cc)

  -- A call of `claim_due_jobs` either fails and leaves the table as it was, or returns, in the order of
  -- the ids that its SELECT found, a job with each id, in flight. Then the rows with these ids are in
  -- flight, none of them is pending any more, and every other row is as it was.
  pub claim_due_jobs_lem :
      (io : ClaimIo) (now limit : ℤ) (db : Table)
      → ((e : AnyError) × (claim_due_jobs uuid time json io now limit db ≡ (db, err e)))
        ⊎ ((r : Table × List (Job Value)) × (claim_due_jobs uuid time json io now limit db
              ≡ (r.0, ok r.1))
            × IsClaimed db (due_ids (TimeText.fmt_ts time now) limit db) r)
  unfolding claim_due_jobs
  claim_due_jobs_lem io now limit db =
      let t = TimeText.fmt_ts time now in
      let ids = due_ids t limit db in
      let start = begun uuid time json io.begins (query io.selects (ok ids)) in
      committed_cases {P = IsClaimed db ids} io.commits db
        (start >>= λ found. claim_each uuid time json io.updates t found db)
        (λ r h. through start _ h λ found e h1. claim_each-IsClaimed io.updates t ids db {r = r} (
          subst (λ xs. claim_each uuid time json io.updates t xs db ≡ ok r)
            (begun-ok io.begins io.selects ids {ys = found} e) h1))

-- ===== src/K/Db/Requeue.antt =====
-- `mark_dead` and `requeue_dead` of k/webhook-delivery/src/db.rs together.
use benchmark_rust_llms.Prelude.{
  String, true, false, none, some, ℕ, ◌≤◌, [], ◌∷◌, ok, ℤ, ltb, ◌≡◌, refl, ap, inl, inr, arith,
  Bool-cases, select_first, count_if, update, update_none,
}
use benchmark_rust_llms.Q.Model.{Uuid, UuidText}
use benchmark_rust_llms.K.Model.{TimeText, JsonText}
use benchmark_rust_llms.K.Db.{
  JobRow, Table, has_id, is_dead, set_dead, set_requeued, mark_dead, requeue_dead,
}

-- The row of a job that has been dead-lettered and requeued.
abbrev pub revived : String → String → String → JobRow → JobRow
revived now now' e r = set_requeued now' (set_dead now e r)

positive : {n : ℕ} → 1 ≤ n → ltb 0 n ≡ true
positive {n} h = ground arith

module _ (t now now' e : String) where
  dies : (r : JobRow) → has_id t r ≡ true → is_dead t (set_dead now e r) ≡ true
  dies r h = ground arith

  revives : (r : JobRow) → is_dead t (revived now now' e r) ≡ false
  revives r = ground arith

  other : (r : JobRow) → has_id t r ≡ false → is_dead t r ≡ false
  other r h = ground arith

  -- The requeue finds the rows that the dead-lettering wrote, and no others.
  update-dead :
      (db : Table)
      → update (is_dead t) (set_requeued now') (update (has_id t) (set_dead now e) db)
        ≡ update (has_id t) (revived now now' e) db
  update-dead [] = refl
  update-dead (r ∷ db) = elim (Bool-cases (has_id t r)) [
    | inl h ↦ rw (h, dies r h) (ap (λ xs. revived now now' e r ∷ xs) (update-dead db))
    | inr h ↦ rw (h, other r h) (ap (λ xs. r ∷ xs) (update-dead db))
  ]

  count-dead :
      (db : Table) {r : JobRow}
      → select_first (has_id t) db ≡ some r
      → 1 ≤ count_if (is_dead t) (update (has_id t) (set_dead now e) db)
  count-dead [] h = cc
  count-dead (x ∷ db) {r} h = elim (Bool-cases (has_id t x)) [
    | inl i ↦ rw (i, dies x i) (omega arith)
    | inr i ↦ rw (i, other x i) (count-dead db {r = r} (ground arith))
  ]

  count-revived :
      (db : Table) → count_if (is_dead t) (update (has_id t) (revived now now' e) db) ≡ 0
  count-revived [] = refl
  count-revived (x ∷ db) = elim (Bool-cases (has_id t x)) [
    | inl i ↦ rw (i, revives x) (count-revived db)
    | inr i ↦ rw (i, other x i) (count-revived db)
  ]

  select-revived :
      (db : Table) {r : JobRow}
      → select_first (has_id t) db ≡ some r
      → select_first (has_id t) (update (has_id t) (revived now now' e) db)
        ≡ some (revived now now' e r)
  select-revived [] h = cc
  select-revived (x ∷ db) {r} h = elim (Bool-cases (has_id t x)) [
    | inl i ↦ ground arith
    | inr i ↦ ground (arith, select-revived db {r = r})
  ]

module _ (uuid : UuidText) (time : TimeText) {Value : Type 0} (json : JsonText Value) where
  open uuid use {to_string}
  open time use {fmt_ts}

  -- A stored job that is dead-lettered can be requeued, and once only: the first requeue answers
  -- true and leaves the job pending and due with no attempts and no error, all else as it was; the
  -- second answers false and changes nothing.
  pub mark_dead-requeue :
      (now now' now'' : ℤ) (id : Uuid) (e : String) (db : Table) (r : JobRow)
      → select_first (has_id (to_string id)) db ≡ some r
      → (let first =
            requeue_dead uuid time json none now' id
              (mark_dead uuid time json none now id e db).0 in
          (first.1 ≡ ok true)
          × (select_first (has_id (to_string id)) first.0
              ≡ some (record r {
                status = "pending";
                attempts = 0;
                next_attempt_at = fmt_ts now';
                last_error = none;
                updated_at = fmt_ts now';
              }))
          × (requeue_dead uuid time json none now'' id first.0 ≡ (first.0, ok false)))
  unfolding mark_dead requeue_dead
  mark_dead-requeue now now' now'' id e db r h =
      let t = to_string id in
      let n = fmt_ts now in
      let n' = fmt_ts now' in
      let found = count-dead t n n' e db {r = r} h in
      let gone = count-revived t n n' e db in
      rw (update-dead t n n' e db) (
        ap ok (positive found),
        select-revived t n n' e db {r = r} h,
        rw (update_none (is_dead t) (set_requeued (fmt_ts now'')) _ gone, gone) refl,
      )

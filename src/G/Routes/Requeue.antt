-- ===== src/G/Routes/Requeue.antt =====
-- `requeue_from_dlq` of g/src/routes.rs: what it needs, and what it writes.
use benchmark_rust_llms.Prelude.{
  String, Option, none, some, str_eq, ℤ, ok, err, ◌>>=◌, ok_or, select_first, update,
}
use benchmark_rust_llms.G.Model.{DeliveryRow, status_pending, status_dead_lettered}
use benchmark_rust_llms.G.Db.{Table, Io, query, has_id}
use benchmark_rust_llms.G.Routes.{
  Outside, ApiError, internal, not_found, asked, check_dead_lettered, read_dead_letter,
  set_requeued, requeue_from_dlq,
}
use benchmark_rust_llms.Prelude.{
  Result-cases, Bool-cases, inl, inr, eq_iff, ◌≡◌, refl, ◌⊎◌, ◌>>=◌, ok_or,
}

module _ {Value : Type 0} (out : Outside Value) where
  open out use {show_error}

  -- What the SELECT has to find: a row of the id, dead-lettered.
  pub record IsDeadLetter (io : Io) (id : String) (before : Table) : Type 0 where
    pub row : DeliveryRow
    pub found : select_first (has_id id) before ≡ some row
    pub dead : row.status ≡ status_dead_lettered
    pub answers : io ≡ none

  check-dead :
      (r : DeliveryRow) → check_dead_lettered out r ≡ ok tt → r.status ≡ status_dead_lettered
  unfolding check_dead_lettered
  check-dead r h = elim (Bool-cases (str_eq r.status status_dead_lettered)) [
    | inl e ↦ (eq_iff r.status status_dead_lettered).0 e
    | inr e ↦ absurd (let k = rw e at h in cc)
  ]

  dead-check :
      (r : DeliveryRow) → r.status ≡ status_dead_lettered → check_dead_lettered out r ≡ ok tt
  unfolding check_dead_lettered
  dead-check r h = rw h refl

  found-IsDeadLetter :
      (io : Io) (id : String) (before : Table) (o : Option DeliveryRow)
      → select_first (has_id id) before ≡ o
      → (asked out (query io o) >>= λ row. ok_or row not_found >>= λ r. check_dead_lettered out r)
        ≡ ok tt
      → IsDeadLetter io id before
  found-IsDeadLetter (some e) id before o h k = cc
  found-IsDeadLetter none id before none h k = cc
  found-IsDeadLetter none id before (some r) h k = record {
    row = r;
    found = h;
    dead = check-dead r k;
    answers = refl;
  }

  read-IsDeadLetter :
      (io : Io) (id : String) (before : Table)
      → read_dead_letter out io id before ≡ ok tt
      → IsDeadLetter io id before
  unfolding read_dead_letter
  read-IsDeadLetter io id before h =
      found-IsDeadLetter io id before (select_first (has_id id) before) refl h

  IsDeadLetter-read :
      (io : Io) (id : String) (before : Table)
      → IsDeadLetter io id before
      → read_dead_letter out io id before ≡ ok tt
  unfolding read_dead_letter
  IsDeadLetter-read io id before d = rw (d.answers, d.found) (dead-check d.row d.dead)

  -- A requeue is answered with success exactly when its SELECT found a dead-lettered row of the id and
  -- both statements were answered. It then makes every row of the id pending, due at once and without
  -- attempts, whatever status the UPDATE meets; otherwise the table is as it was.
  pub requeue_from_dlq_lem :
      (io io' : Io) (now : ℤ) (id : String) (before db : Table)
      → (IsDeadLetter io id before
          × (io' ≡ none)
          × (requeue_from_dlq out io io' now id before db ≡ (
            update (has_id id) (set_requeued out now) db,
            ok (record { id = id; status = status_pending }),
          )))
        ⊎ ((e : ApiError) × (IsDeadLetter io id before → ¬ (io' ≡ none))
            × (requeue_from_dlq out io io' now id before db ≡ (db, err e)))
  unfolding requeue_from_dlq
  requeue_from_dlq_lem io none now id before db =
      elim (Result-cases (read_dead_letter out io id before)) [
        | inl (u, i) ↦ inl (read-IsDeadLetter io id before i, refl, rw i refl)
        | inr (e, i) ↦ inr (e, (λ d n. let k = IsDeadLetter-read io id before d in cc), rw i refl)
      ]
  requeue_from_dlq_lem io (some x) now id before db =
      elim (Result-cases (read_dead_letter out io id before)) [
        | inl (u, i) ↦ inr (internal (show_error x), (λ d n. cc), rw i refl)
        | inr (e, i) ↦ inr (e, (λ d n. cc), rw i refl)
      ]

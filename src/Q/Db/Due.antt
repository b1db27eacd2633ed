-- ===== src/Q/Db/Due.antt =====
-- `list_due` of q/src/db.rs: what a worker is given, and how one unreadable row stops it.
use benchmark_rust_llms.Prelude.{
  ℕ, min, ◌^◌, ◌≤◌, ◌<◌, none, List, [], ◌∷◌, Bool, true, ◌≡◌, ◌≢◌, refl, sym, ap, ◌∙◌, inl, inr,
  arith, All, All-take, Some, Matches, Matches-length, ℤ, ok, map_rows, length, length-take,
  length-order_by, order_by-All, order_by-IsOrdered, IsOrdered, IsOrdered-take, select, select-All,
  select-All_of, length-select, count_if, leb_ℤ, ◌≤ℤ◌, leb_ℤ→≤ℤ, leb_ℤ_total, leb_ℤ_trans, eq_iff,
  Result-cases, lt→ltb, succeeded,
}
use benchmark_rust_llms.Q.Model.{
  UuidText, Delivery, as_str, parse-as_str, as_str-injective, pending,
}
use benchmark_rust_llms.Q.Db.Rows.{
  DeliveryRow, Db, map_delivery, get_i32, is_due, due_before, clamp_i64,
}
use benchmark_rust_llms.Q.Db.Reads.{list_due, due_rows}
use benchmark_rust_llms.Q.Db.Invariant.{IsRow, IsWellFormed}

-- The counters fit the i32 that they are read as.
abbrev pub IsReadable : DeliveryRow → Type 0
IsReadable r = (r.attempts < 2 ^ 31) × (r.max_attempts < 2 ^ 31)

-- ORDER BY next_retry_at ASC, on what is read.
abbrev pub retried_before : Delivery → Delivery → Bool
retried_before a b = leb_ℤ a.next_retry_at b.next_retry_at

pub get_i32-ok : (n : ℕ) → n < 2 ^ 31 → get_i32 n ≡ ok n
unfolding get_i32
get_i32-ok n h = rw (lt→ltb n (2 ^ 31) h) refl

due_status : (now : ℤ) (r : DeliveryRow) → is_due now r ≡ true → r.status ≡ as_str pending
unfolding as_str
due_status now r h = ground (arith, eq_iff r.status "pending")

due_time : (now : ℤ) (r : DeliveryRow) → is_due now r ≡ true → leb_ℤ r.next_retry_at now ≡ true
due_time now r h = ground arith

-- What holds of all rows holds of the rows that the SELECT returns.
due_rows-All :
    (P : DeliveryRow → Type 0) (now : ℤ) (limit : ℕ) (db : Db)
    → All P (select (is_due now) db.deliveries)
    → All P (due_rows now limit db)
due_rows-All P now limit db h =
    All-take P (clamp_i64 limit) _ (order_by-All due_before P (select (is_due now) db.deliveries) h)

both :
    (P Q : DeliveryRow → Type 0) (rs : List DeliveryRow)
    → All P rs
    → All Q rs
    → All (λ r. P r × Q r) rs
both P Q [] p q = tt
both P Q (r ∷ rs) p q = ((p.0, q.0), both P Q rs p.1 q.1)

length-due_rows :
    (now : ℤ) (limit : ℕ) (db : Db)
    → length (due_rows now limit db) ≡ min (clamp_i64 limit) (count_if (is_due now) db.deliveries)
length-due_rows now limit db =
    length-take (clamp_i64 limit) _
    ∙ ap (min (clamp_i64 limit)) (
        length-order_by due_before (select (is_due now) db.deliveries)
        ∙ length-select (is_due now) db.deliveries)

module _ (uuid : UuidText) where
  open uuid use {to_string}

  -- The delivery is what the row says.
  pub record Reads (r : DeliveryRow) (d : Delivery) : Type 0 where
    pub id : to_string d.id ≡ r.id
    pub idempotency_key : d.idempotency_key ≡ r.idempotency_key
    pub destination : d.destination ≡ r.destination
    pub payload : d.payload ≡ r.payload
    pub status : as_str d.status ≡ r.status
    pub attempts : d.attempts ≡ r.attempts
    pub max_attempts : d.max_attempts ≡ r.max_attempts
    pub next_retry_at : d.next_retry_at ≡ r.next_retry_at
    pub last_error : d.last_error ≡ r.last_error
    pub created_at : d.created_at ≡ r.created_at
    pub updated_at : d.updated_at ≡ r.updated_at

  -- A well-formed, readable row converts, and to what it says.
  pub map_delivery-Reads :
      (r : DeliveryRow)
      → IsRow uuid r
      → IsReadable r
      → (d : Delivery) × (map_delivery uuid r ≡ ok d) × Reads r d
  unfolding map_delivery
  map_delivery-Reads r ((u, eu), (s, es)) (ha, hm) = (
    record {
      id = u;
      idempotency_key = r.idempotency_key;
      destination = r.destination;
      payload = r.payload;
      status = s;
      attempts = r.attempts;
      max_attempts = r.max_attempts;
      next_retry_at = r.next_retry_at;
      last_error = r.last_error;
      created_at = r.created_at;
      updated_at = r.updated_at;
    },
    rw
        (
          ← es,
          parse-as_str s,
          ← eu,
          uuid.parse_str-to_string u,
          get_i32-ok r.attempts ha,
          get_i32-ok r.max_attempts hm,
        )
        refl,
    record {
      id = eu;
      idempotency_key = refl;
      destination = refl;
      payload = refl;
      status = es;
      attempts = refl;
      max_attempts = refl;
      next_retry_at = refl;
      last_error = refl;
      created_at = refl;
      updated_at = refl;
    },
  )

  map_rows-Reads :
      (rs : List DeliveryRow)
      → All (λ r. IsRow uuid r × IsReadable r) rs
      → (ds : List Delivery) × (map_rows (map_delivery uuid) rs ≡ ok ds) × Matches Reads rs ds
  unfolding map_rows
  map_rows-Reads [] h = ([], refl, tt)
  map_rows-Reads (r ∷ rs) (h, hs) =
      let (d, e, m) = map_delivery-Reads r h.0 h.1 in
      let (ds, es, ms) = map_rows-Reads rs hs in (d ∷ ds, rw (e, es) refl, (m, ms))

  Matches-due :
      (now : ℤ) (rs : List DeliveryRow) (ds : List Delivery)
      → Matches Reads rs ds
      → All (λ r. is_due now r ≡ true) rs
      → All (λ d. (d.status ≡ pending) × (d.next_retry_at ≤ℤ now)) ds
  Matches-due now [] [] m h = tt
  Matches-due now [] (d ∷ ds) m h = absurd m
  Matches-due now (r ∷ rs) [] m h = absurd m
  Matches-due now (r ∷ rs) (d ∷ ds) (m, ms) (h, hs) = (
    (
      as_str-injective d.status pending (m.status ∙ due_status now r h),
      rw m.next_retry_at (leb_ℤ→≤ℤ r.next_retry_at now (due_time now r h)),
    ),
    Matches-due now rs ds ms hs,
  )

  Matches-below :
      (r : DeliveryRow) (d : Delivery) (rs : List DeliveryRow) (ds : List Delivery)
      → Reads r d
      → Matches Reads rs ds
      → All (λ s. due_before r s ≡ true) rs
      → All (λ e. retried_before d e ≡ true) ds
  Matches-below r d [] [] m ms h = tt
  Matches-below r d [] (e ∷ ds) m ms h = absurd ms
  Matches-below r d (s ∷ rs) [] m ms h = absurd ms
  Matches-below r d (s ∷ rs) (e ∷ ds) m ms h =
      (rw (m.next_retry_at, ms.0.next_retry_at) h.0, Matches-below r d rs ds m ms.1 h.1)

  Matches-IsOrdered :
      (rs : List DeliveryRow) (ds : List Delivery)
      → Matches Reads rs ds
      → IsOrdered due_before rs
      → IsOrdered retried_before ds
  Matches-IsOrdered [] [] m h = tt
  Matches-IsOrdered [] (d ∷ ds) m h = absurd m
  Matches-IsOrdered (r ∷ rs) [] m h = absurd m
  Matches-IsOrdered (r ∷ rs) (d ∷ ds) (m, ms) (h, hs) =
      (Matches-below r d rs ds m ms h, Matches-IsOrdered rs ds ms hs)

  -- On well-formed tables with readable rows `list_due` succeeds: it gives pending deliveries that
  -- are due, in order of their retry times, as many as are due up to the limit, each as stored.
  pub list_due_lem :
      (now : ℤ) (limit : ℕ) (db : Db)
      → IsWellFormed uuid db
      → All IsReadable db.deliveries
      → (ds : List Delivery) × (list_due uuid none now limit db ≡ ok ds)
        × All (λ d. (d.status ≡ pending) × (d.next_retry_at ≤ℤ now)) ds
        × IsOrdered retried_before ds
        × (length ds ≡ min (clamp_i64 limit) (count_if (is_due now) db.deliveries))
        × Matches Reads (due_rows now limit db) ds
  unfolding list_due
  list_due_lem now limit db w readable =
      let readies = both (IsRow uuid) IsReadable db.deliveries w.rows readable in
      let (ds, e, m) = map_rows-Reads (due_rows now limit db) (
        due_rows-All (λ r. IsRow uuid r × IsReadable r) now limit db
          (select-All_of (λ r. IsRow uuid r × IsReadable r) (is_due now) db.deliveries readies)) in
      (
        ds,
        rw e refl,
        Matches-due now (due_rows now limit db) ds m (
            due_rows-All (λ r. is_due now r ≡ true) now limit db
              (select-All (is_due now) db.deliveries)),
        Matches-IsOrdered (due_rows now limit db) ds m (
            IsOrdered-take due_before (clamp_i64 limit) _ (
              order_by-IsOrdered due_before (λ a b. leb_ℤ_total a.next_retry_at b.next_retry_at)
                (λ a b c. leb_ℤ_trans a.next_retry_at b.next_retry_at c.next_retry_at)
                (select (is_due now) db.deliveries))),
        sym (Matches-length Reads (due_rows now limit db) ds m) ∙ length-due_rows now limit db,
        m,
      )

  -- A row whose `max_attempts` is beyond the i32 range cannot be converted.
  unreadable :
      (r : DeliveryRow) → 2 ^ 31 ≤ r.max_attempts → (d : Delivery) → map_delivery uuid r ≢ ok d
  unfolding map_delivery get_i32
  unreadable r h d e = ground arith

  map_rows-unreadable :
      (rs : List DeliveryRow) (ds : List Delivery)
      → Some (λ r. 2 ^ 31 ≤ r.max_attempts) rs
      → map_rows (map_delivery uuid) rs ≢ ok ds
  unfolding map_rows
  map_rows-unreadable [] ds h e = h
  map_rows-unreadable (r ∷ rs) ds (inl big) e =
      let (d, first, _) = succeeded (map_delivery uuid r) _ e in unreadable r big d first
  map_rows-unreadable (r ∷ rs) ds (inr h) e =
      let (d, first, e') = succeeded (map_delivery uuid r) _ e in
      let (ds', others, _) = succeeded (map_rows (map_delivery uuid) rs) _ e' in
      map_rows-unreadable rs ds' h others

  -- One row with a `max_attempts` of 2^31 or more, among the rows that are due and within the limit,
  -- makes the whole batch fail.
  pub list_due_unreadable :
      (now : ℤ) (limit : ℕ) (db : Db) (ds : List Delivery)
      → Some (λ r. 2 ^ 31 ≤ r.max_attempts) (due_rows now limit db)
      → list_due uuid none now limit db ≢ ok ds
  unfolding list_due
  list_due_unreadable now limit db ds h e =
      elim (Result-cases (map_rows (map_delivery uuid) (due_rows now limit db))) [
        | inl (xs, good) ↦ map_rows-unreadable (due_rows now limit db) xs h good
        | inr (x, bad) ↦ cc
      ]

-- ===== src/Q/Delivery/Worker/Fates.antt =====
-- What one call of `process` of q/src/delivery/worker.rs makes of the row of its delivery.
use benchmark_rust_llms.Prelude.{
  ℕ, ◌+◌, ◌^◌, ◌≤◌, ◌<◌, String, none, some, List, [], ◌∷◌, Bool, true, false, ◌≡◌, refl, ap, ◌∙◌,
  inl, inr, arith, Bool-cases, select_first, select_first-holds, update, count_if, count_if_mono,
  any, leb, ℤ, ◌+ℤ◌, wrap_i64, as_i64, ok, eq_iff, eq_refl, if◌then◌else◌, str_eq,
}
use benchmark_rust_llms.Q.Model.{Delivery}
use benchmark_rust_llms.Q.Db.Rows.{
  DeliveryRow, Db, has_id, has_id_status, has_status, has_entry_id, get_i32,
}
use benchmark_rust_llms.Q.Db.Writes
use benchmark_rust_llms.Q.Db.Writes.{
  claim, mark_delivered, schedule_retry, dead_letter_row, move_to_dlq, set_in_flight, set_delivered,
  set_retry, set_dead_letter,
}
use benchmark_rust_llms.Q.Db.Durable.{core}
use benchmark_rust_llms.Q.Db.Invariant.{IsUnique, IsWellFormed}
use benchmark_rust_llms.Q.Db.Letters.{absent}
use benchmark_rust_llms.Q.Db.Due.{get_i32-ok}
use benchmark_rust_llms.Q.Metrics.{inc_permanent_failures}
use benchmark_rust_llms.Q.Config.{Config}
use benchmark_rust_llms.Net.{IpAddr}
use benchmark_rust_llms.Q.Security.Ssrf.{Url, SsrfPolicy, validate, lookup}
use benchmark_rust_llms.Q.Delivery.Classify.{Outcome, delivered, retryable, permanent}
use benchmark_rust_llms.Q.Delivery.Worker.{
  Outside, Turn, State, send, finish, retry, process, process_parsed, process_checked,
  attempt_claimed, attempt_of, delay_of,
}
use benchmark_rust_llms.Q.Delivery.Worker

has_id-kept :
    (t : String) (p : DeliveryRow → Bool) (f : DeliveryRow → DeliveryRow)
    → ((r : DeliveryRow) → (f r).id ≡ r.id)
    → (x : DeliveryRow) → has_id t (if p x then f x else x) ≡ has_id t x
has_id-kept t p f keeps x = elim (Bool-cases (p x)) [
  | inl e ↦ rw e (ap (λ i. str_eq i t) (keeps x))
  | inr e ↦ rw e refl
]

-- An UPDATE that keeps the ids leaves the row of an id in its place.
pub select_first-update :
    (t : String) (p : DeliveryRow → Bool) (f : DeliveryRow → DeliveryRow)
    → ((r : DeliveryRow) → (f r).id ≡ r.id)
    → (rs : List DeliveryRow) {r : DeliveryRow} → select_first (has_id t) rs ≡ some r
    → select_first (has_id t) (update p f rs) ≡ some (if p r then f r else r)
select_first-update t p f keeps [] e = cc
select_first-update t p f keeps (x ∷ rs) {r} e = elim (Bool-cases (has_id t x)) [
  | inl hit ↦
      let e' : some x ≡ some r = rw hit at e in
      let same : x ≡ r = cc in
      rw (has_id-kept t p f keeps x, hit) (ap (λ z. some (if p z then f z else z)) same)
  | inr miss ↦
      rw (has_id-kept t p f keeps x, miss)
        (select_first-update t p f keeps rs {r = r} (rw miss at e))
]

count-pending :
    (t : String) (rs : List DeliveryRow) {r : DeliveryRow}
    → IsUnique rs
    → select_first (has_id t) rs ≡ some r
    → r.status ≡ "pending"
    → count_if (has_id_status t "pending") rs ≡ 1
count-pending t [] u e k = cc
count-pending t (x ∷ rs) {r} u e k = elim (Bool-cases (has_id t x)) [
  | inl hit ↦
      let e' : some x ≡ some r = rw hit at e in
      let same : x ≡ r = cc in
      let here : has_status "pending" x ≡ true = rw (same, k) (eq_refl "pending") in
      let none_left = absent t x rs ((eq_iff x.id t).0 hit) u.0 in
      let fewer = count_if_mono (has_id_status t "pending") (has_id t) (λ y h. ground arith) rs in
      rw (hit, here) (omega (arith, none_left, fewer))
  | inr miss ↦ rw miss (count-pending t rs {r = r} u.1 (rw miss at e) k)
]

-- What an outcome makes of a claimed row: done, queued again for later, or dead-lettered with the
-- attempts that had been recorded.
abbrev pub Settles : Delivery → ℤ → Outcome → ℕ → DeliveryRow → Type 0
Settles d later delivered n r' =
    (r'.status ≡ "delivered") × (r'.attempts ≡ n + 1) × (r'.last_error ≡ none)
Settles d later (retryable e) n r' =
    (d.attempts + 1 < d.max_attempts
      → (r'.status ≡ "pending")
        × (r'.attempts ≡ n + 1)
        × (r'.last_error ≡ some e)
        × (r'.next_retry_at ≡ later))
    × (d.max_attempts ≤ d.attempts + 1
        → (r'.status ≡ "dead_letter") × (r'.attempts ≡ n) × (r'.last_error ≡ some e))
Settles d later (permanent e) n r' =
    (r'.status ≡ "dead_letter") × (r'.attempts ≡ n) × (r'.last_error ≡ some e)

-- The engine answers every statement, and the id for a new entry is not taken.
pub record IsFaultless (out : Outside) (t : Turn) (db : Db) : Type 0 where
  pub claim : t.claim_io ≡ none
  pub write : t.write_io ≡ none
  pub write' : t.write_io' ≡ none
  pub fresh : any (has_entry_id (out.uuid.to_string t.entry_id)) db.dead_letters ≡ false

module _ (out : Outside) (cfg : Config) (ssrf : SsrfPolicy) (t : Turn) (d : Delivery) where
  abbrev pub key : String
  key = out.uuid.to_string d.id

  -- The retry time that is written.
  abbrev pub later : ℤ
  later = wrap_i64 (t.retry_now +ℤ as_i64 (delay_of out cfg ssrf t d))

  dead_letter-Settled :
      (e : String) (s : State) {r : DeliveryRow}
      → IsFaultless out t s.db
      → select_first (has_id key) s.db.deliveries ≡ some r
      → r.attempts < 2 ^ 31
      → (r' : DeliveryRow) × (select_first
            (has_id key)
            (Worker.dead_letter out cfg ssrf t d e s).db.deliveries
          ≡ some r')
        × (core r' ≡ core r)
        × (r'.status ≡ "dead_letter")
        × (r'.attempts ≡ r.attempts)
        × (r'.last_error ≡ some e)
  unfolding Worker.dead_letter Writes.dead_letter dead_letter_row move_to_dlq get_i32
  dead_letter-Settled e s {r} fine found fits = (
    set_dead_letter t.write_now e r,
    rw
        (
          fine.write,
          found,
          dead_letter_row,
          get_i32-ok r.attempts fits,
          dead_letter_row,
          fine.fresh,
          fine.write',
        )
        (select_first-update key (has_id key) (set_dead_letter t.write_now e) (λ x. refl)
            s.db.deliveries {r = r} found
          ∙ rw (select_first-holds (has_id key) s.db.deliveries {x = r} found) refl),
    refl,
    refl,
    refl,
    refl,
  )

  delivered-Settled :
      (s : State) {r : DeliveryRow}
      → IsFaultless out t s.db
      → select_first (has_id key) s.db.deliveries ≡ some r
      → (r' : DeliveryRow) × (select_first
            (has_id key)
            (mark_delivered out.uuid t.write_io t.write_now d.id s.db).0.deliveries
          ≡ some r')
        × (core r' ≡ core r)
        × Settles d later delivered r.attempts r'
  unfolding mark_delivered
  delivered-Settled s {r} fine found = (
    set_delivered t.write_now r,
    rw fine.write (
        select_first-update key (has_id key) (set_delivered t.write_now) (λ x. refl) s.db.deliveries
          {r = r} found
        ∙ rw (select_first-holds (has_id key) s.db.deliveries {x = r} found) refl),
    refl,
    (refl, refl, refl),
  )

  retry-Settled :
      (e : String) (s : State) {r : DeliveryRow}
      → IsFaultless out t s.db
      → select_first (has_id key) s.db.deliveries ≡ some r
      → (r' : DeliveryRow) × (select_first (has_id key) (retry out cfg ssrf t d e s).db.deliveries
          ≡ some r')
        × (core r' ≡ core r)
        × (r'.status ≡ "pending")
        × (r'.attempts ≡ r.attempts + 1)
        × (r'.last_error ≡ some e)
        × (r'.next_retry_at ≡ later)
  unfolding retry schedule_retry
  retry-Settled e s {r} fine found = (
    set_retry t.write_now later e r,
    rw fine.write (
        select_first-update key (has_id key) (set_retry t.write_now later e) (λ x. refl)
          s.db.deliveries {r = r} found
        ∙ rw (select_first-holds (has_id key) s.db.deliveries {x = r} found) refl),
    refl,
    refl,
    refl,
    refl,
    refl,
  )

  finish-Settled :
      (o : Outcome) (s : State) {r : DeliveryRow}
      → IsFaultless out t s.db
      → select_first (has_id key) s.db.deliveries ≡ some r
      → r.attempts < 2 ^ 31
      → (r' : DeliveryRow) × (select_first (has_id key) (finish out cfg ssrf t d o s).db.deliveries
          ≡ some r')
        × (core r' ≡ core r)
        × Settles d later o r.attempts r'
  unfolding finish
  finish-Settled delivered s {r} fine found fits = delivered-Settled s {r = r} fine found
  finish-Settled (retryable e) s {r} fine found fits =
      elim (Bool-cases (leb d.max_attempts (attempt_of out cfg ssrf d))) [
        | inl last ↦
            let (r', found', same, x, y, z) = dead_letter-Settled e s {r = r} fine found fits in
            rw last (r', found', same, (λ h. absurd (ground arith), λ h. (x, y, z)))
        | inr more ↦
            let (r', found', same, x, y, z, n) = retry-Settled e s {r = r} fine found in
            rw more (r', found', same, (λ h. (x, y, z, n), λ h. absurd (ground arith)))
      ]
  finish-Settled (permanent e) s {r} fine found fits =
      let (r', found', same, x, y, z) =
        dead_letter-Settled e (record s { metrics = inc_permanent_failures s.metrics }) {r = r}
          (record {
            claim = fine.claim;
            write = fine.write;
            write' = fine.write';
            fresh = fine.fresh;
          })
          found fits in
      (r', found', same, (x, y, z))

  abbrev pub claimed_db : State → Db
  claimed_db s = record (s.db) {
    deliveries = update (has_id_status key "pending") (set_in_flight t.claim_now) s.db.deliveries;
  }

  claim-won :
      (s : State) {r : DeliveryRow}
      → IsWellFormed out.uuid s.db
      → IsFaultless out t s.db
      → select_first (has_id key) s.db.deliveries ≡ some r
      → r.status ≡ "pending"
      → claim out.uuid t.claim_io t.claim_now d.id s.db ≡ (claimed_db s, ok true)
  unfolding claim
  claim-won s {r} w fine found waiting =
      rw (fine.claim, count-pending key s.db.deliveries {r = r} w.unique found waiting) refl

  -- Without faults, a pending delivery whose destination passes is settled by the outcome of the one
  -- request that `process` sends: delivered, queued again at the backed-off time while attempts
  -- remain, else dead-lettered. What was submitted stays.
  pub process-Settles :
      (s : State) (r : DeliveryRow) (url : Url) (ips : List IpAddr)
      → IsWellFormed out.uuid s.db
      → IsFaultless out t s.db
      → select_first (has_id (out.uuid.to_string d.id)) s.db.deliveries ≡ some r
      → r.status ≡ "pending"
      → r.attempts < 2 ^ 31
      → out.parse_url d.destination ≡ some url
      → validate ssrf url (lookup t.to_socket_addrs) ≡ ok ips
      → (r' : DeliveryRow) × (select_first
            (has_id (out.uuid.to_string d.id))
            (process out cfg ssrf t d s).db.deliveries
          ≡ some r')
        × (core r' ≡ core r)
        × Settles d later (send out cfg ssrf t d (d.attempts + 1)) r.attempts r'
  unfolding process process_parsed process_checked attempt_claimed
  process-Settles s r url ips w fine found waiting fits parsed passed =
      rw (parsed, process_parsed, passed, process_checked, claim-won s {r = r} w fine found waiting)
        (finish-Settled (send out cfg ssrf t d (d.attempts + 1)) (record s { db = claimed_db s })
          {r = set_in_flight t.claim_now r}
          (record {
            claim = fine.claim;
            write = fine.write;
            write' = fine.write';
            fresh = fine.fresh;
          })
          (select_first-update key (has_id_status key "pending") (set_in_flight t.claim_now)
              (λ x. refl) s.db.deliveries {r = r} found
            ∙ rw (select_first-holds (has_id key) s.db.deliveries {x = r} found, waiting) refl)
          fits)

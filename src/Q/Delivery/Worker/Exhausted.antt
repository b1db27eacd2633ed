-- ===== src/Q/Delivery/Worker/Exhausted.antt =====
-- A delivery of q/src/delivery/worker.rs whose sends keep failing is dead-lettered in the end.
use benchmark_rust_llms.Prelude.{
  ltb, ltb→lt, select_first-holds, subst, inl, inr, Bool-cases, sym, eq_iff, arith, length, ◌∙◌,
  ◌≤◌, ◌+◌, ap, refl, ◌+◌, ◌^◌, ◌≤◌, ◌<◌, String, Option, none, some, List, [], ◌∷◌, ◌≡◌, refl, sym,
  ap, ◌∙◌, inl, inr, arith, length, select_first, select_first-All, ok, err, Bool-cases, ltb,
  str_eq, if◌then◌else◌, eq_iff,
}
use benchmark_rust_llms.Q.Model.{Uuid, Delivery, as_str}
use benchmark_rust_llms.Q.Db.Rows.{DeliveryRow, DbResult, has_id}
use benchmark_rust_llms.Q.Db.Reads.{find}
use benchmark_rust_llms.Q.Db.Durable.{core}
use benchmark_rust_llms.Q.Db.Due.{IsReadable, Reads, map_delivery-Reads}
use benchmark_rust_llms.Q.Db.Invariant.{IsRow, IsWellFormed}
use benchmark_rust_llms.Q.Db.Invariant.Histories.{run-IsWellFormed}
use benchmark_rust_llms.Q.Config.{Config}
use benchmark_rust_llms.Net.{IpAddr}
use benchmark_rust_llms.Q.Security.Ssrf.{Url, SsrfPolicy, validate, lookup}
use benchmark_rust_llms.Q.Delivery.Classify.{retryable}
use benchmark_rust_llms.Q.Db.Invariant.Histories.{run-IsWellFormed}
use benchmark_rust_llms.Q.Db.Durable.{core}
use benchmark_rust_llms.Q.Delivery.Worker.Rounds.{process-Follows}
use benchmark_rust_llms.Q.Delivery.Worker.Fates.{process-Settles, later, Settles}
use benchmark_rust_llms.Q.Delivery.Worker.{Outside, Turn, State, send, process}
use benchmark_rust_llms.Q.Delivery.Worker.Fates.{IsFaultless, Settles, later, process-Settles}
use benchmark_rust_llms.Q.Delivery.Worker.Rounds.{process-Follows}

module _ (out : Outside) (cfg : Config) (ssrf : SsrfPolicy) (id : Uuid) where
  open out use {uuid}

  -- A worker takes the delivery up: it reads it, and processes it if it is pending.
  take_up : Turn → State → DbResult (Option Delivery) → State
  take_up t s (ok (some d)) =
      if str_eq (as_str d.status) "pending" then process out cfg ssrf t d s else s
  take_up t s (ok none) = s
  take_up t s (err e) = s

  unfoldable pub take_ups : List Turn → State → State
  unfolding take_up
  take_ups [] s = s
  take_ups (t ∷ ts) s = take_ups ts (take_up t s (find uuid none id s.db))

  -- The destination passes, and what is sent to it fails in a way that is retried.
  pub record Fails (t : Turn) (d : Delivery) : Type 0 where
    pub url : Url
    pub ips : List IpAddr
    pub parsed : out.parse_url d.destination ≡ some url
    pub passed : validate ssrf url (lookup t.to_socket_addrs) ≡ ok ips
    pub error : String
    pub failed : send out cfg ssrf t d (d.attempts + 1) ≡ retryable error

  -- So it goes on every turn, without faults of the engine.
  unfoldable pub KeepsFailing : List Turn → State → Type 0
  unfolding take_up
  KeepsFailing [] s = Unit
  KeepsFailing (t ∷ ts) s =
      IsFaultless out t s.db
      × ((d : Delivery) → find uuid none id s.db ≡ ok (some d) → Fails t d)
      × KeepsFailing ts (take_up t s (find uuid none id s.db))

  -- The delivery's row, read.
  find-Reads :
      (s : State) (r : DeliveryRow)
      → IsWellFormed uuid s.db
      → select_first (has_id (uuid.to_string id)) s.db.deliveries ≡ some r
      → IsReadable r
      → (d : Delivery) × (find uuid none id s.db ≡ ok (some d)) × Reads uuid r d
  unfolding find
  find-Reads s r w found readable =
      let (d, e, m) =
        map_delivery-Reads uuid r
          (select_first-All (IsRow uuid) (has_id (uuid.to_string id)) s.db.deliveries {x = r} w.rows
            found)
          readable in
      (d, rw (found, e) refl, m)

  dead_stays :
      (ts : List Turn) (s : State) (r : DeliveryRow)
      → IsWellFormed uuid s.db
      → select_first (has_id (uuid.to_string id)) s.db.deliveries ≡ some r
      → IsReadable r
      → r.status ≡ "dead_letter"
      → take_ups ts s ≡ s
  unfolding take_ups
  dead_stays [] s r w found readable dead = refl
  dead_stays (t ∷ ts) s r w found readable dead =
      let (d, e, m) = find-Reads s r w found readable in
      let idle : take_up t s (find uuid none id s.db) ≡ s = rw (e, take_up, m.status, dead) refl in
      ap (take_ups ts) idle ∙ dead_stays ts s r w found readable dead

  -- One turn more: the row is pending with one attempt more, or dead-lettered when that was the last.
  failed_turn :
      (t : Turn) (s : State) (r : DeliveryRow) (d : Delivery)
      → IsWellFormed uuid s.db
      → select_first (has_id (uuid.to_string id)) s.db.deliveries ≡ some r
      → r.status ≡ "pending"
      → r.attempts < 2 ^ 31
      → Reads uuid r d
      → IsFaultless out t s.db
      → Fails t d
      → (r' : DeliveryRow) × (select_first
            (has_id (uuid.to_string id))
            (process out cfg ssrf t d s).db.deliveries
          ≡ some r')
        × (core r' ≡ core r)
        × (r.attempts + 1 < r.max_attempts
            → (r'.status ≡ "pending") × (r'.attempts ≡ r.attempts + 1))
        × (r.max_attempts ≤ r.attempts + 1
            → (r'.status ≡ "dead_letter") × (r'.attempts ≡ r.attempts))
  failed_turn t s r d w found waiting fits m fine x =
      let key : uuid.to_string d.id ≡ uuid.to_string id =
        m.id
        ∙ (eq_iff r.id (uuid.to_string id)).0
            (select_first-holds (has_id (uuid.to_string id)) s.db.deliveries {x = r} found) in
      let (r', found', same, settled) =
        process-Settles out cfg ssrf t d s r x.url x.ips w fine (rw key found) waiting fits x.parsed
          x.passed in
      let settled' : Settles d (later out cfg ssrf t d) (retryable x.error) r.attempts r' =
        subst (λ o. Settles d (later out cfg ssrf t d) o r.attempts r') x.failed settled in
      let found'' : select_first (has_id (uuid.to_string id))
            (process out cfg ssrf t d s).db.deliveries
          ≡ some r' =
        subst (λ k. select_first (has_id k) (process out cfg ssrf t d s).db.deliveries ≡ some r')
          key found' in
      (
        r',
        found'',
        same,
        λ h. let y = settled'.0 (rw (m.attempts, m.max_attempts) h) in (y.0, y.1),
        λ h. let y = settled'.1 (rw (m.attempts, m.max_attempts) h) in (y.0, y.1),
      )

  kept :
      (t : Turn) (d : Delivery) (s : State)
      → IsWellFormed uuid s.db
      → IsWellFormed uuid (process out cfg ssrf t d s).db
  kept t d s w =
      let f = process-Follows out cfg ssrf t d s in
      rw f.follow (run-IsWellFormed uuid s.db f.calls w)

  -- A pending delivery whose every send fails in a way that is retried is dead-lettered once a worker
  -- has taken it up as often as attempts remain, with what was submitted unchanged.
  pub take_ups-exhausted :
      (ts : List Turn) (s : State) (r : DeliveryRow)
      → IsWellFormed out.uuid s.db
      → select_first (has_id (out.uuid.to_string id)) s.db.deliveries ≡ some r
      → r.status ≡ "pending"
      → r.max_attempts < 2 ^ 31
      → r.attempts < r.max_attempts
      → r.max_attempts ≤ r.attempts + length ts
      → KeepsFailing ts s
      → (r' : DeliveryRow) × (select_first
            (has_id (out.uuid.to_string id))
            (take_ups ts s).db.deliveries
          ≡ some r')
        × (r'.status ≡ "dead_letter")
        × (core r' ≡ core r)
  unfolding take_ups KeepsFailing
  take_ups-exhausted [] s r w found waiting fits more enough keeps = absurd (omega arith)
  take_ups-exhausted (t ∷ ts) s r w found waiting fits more enough (fine, fails, rest) =
      let (d, e, m) = find-Reads s r w found (omega arith, fits) in
      let taken : take_up t s (find uuid none id s.db) ≡ process out cfg ssrf t d s =
        rw (e, take_up, m.status, waiting) refl in
      let (r', found', same, again, dead) =
        failed_turn t s r d w found waiting (omega arith) m fine (fails d e) in
      let limit : r'.max_attempts ≡ r.max_attempts = ap (λ c. c.max_attempts) same in
      elim (Bool-cases (ltb (r.attempts + 1) r.max_attempts)) [
        | inl h ↦
            let (waiting', counted) = again (ltb→lt _ _ h) in
            let (r'', found'', dead'', same') =
              take_ups-exhausted ts (process out cfg ssrf t d s) r' (kept t d s w) found' waiting'
                (omega (arith, limit)) (ground (arith, limit, counted))
                (omega (arith, limit, counted)) (subst (KeepsFailing ts) taken rest) in
            (
              r'',
              subst
                  (λ z.
                    select_first (has_id (uuid.to_string id)) (take_ups ts z).db.deliveries
                    ≡ some r'')
                  (sym taken) found'',
              dead'',
              same' ∙ same,
            )
        | inr h ↦
            let (dead', counted) = dead (ground arith) in
            let stays =
              dead_stays ts (process out cfg ssrf t d s) r' (kept t d s w) found'
                (omega (arith, counted), omega (arith, limit)) dead' in
            (
              r',
              ap (λ z. select_first (has_id (uuid.to_string id)) z.db.deliveries)
                    (ap (take_ups ts) taken ∙ stays)
                  ∙ found',
              dead',
              same,
            )
      ]

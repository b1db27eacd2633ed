-- ===== src/G/Service/Kept.antt =====
-- No event of g/src/ loses a delivery, doubles an id or writes an unknown status.
use benchmark_rust_llms.Prelude.{ℕ, String, List, [], ◌∷◌, ℤ, Result}
use benchmark_rust_llms.G.Model.{ClaimedJob}
use benchmark_rust_llms.G.Config.{Config}
use benchmark_rust_llms.G.Db.{Table, Io}
use benchmark_rust_llms.G.Worker.{World, process_job}
use benchmark_rust_llms.G.Routes.{
  Outside, JsonRejection, WebhookRequest, create_webhook, requeue_from_dlq,
}
use benchmark_rust_llms.G.Service.{Event, creates, ticks, finishes, requeues, restarts, step, run}
use benchmark_rust_llms.G.Model.{DeliveryRow}
use benchmark_rust_llms.G.Db.{has_id}
use benchmark_rust_llms.G.Worker.{outcome, next_attempt}
use benchmark_rust_llms.G.Routes.{EnqueueResponse, new_row, set_requeued}
use benchmark_rust_llms.G.Routes.Accepts.{IsAcceptable, create_webhook_lem}
use benchmark_rust_llms.G.Routes.Requeue.{requeue_from_dlq_lem}
use benchmark_rust_llms.Prelude.{
  All-append, Some-append, Some-append_right, append-HasUnique, any, Bool-cases, true, false, inl,
  inr, ok, err, ◌≡◌, refl, ◌∙◌, ◌++◌, leb_ℤ,
}
use benchmark_rust_llms.Prelude.{ok_injective, ap, sym}
use benchmark_rust_llms.G.Service.Rows.{
  is_status, IsWellFormed, IsRowOf, Holds, IsKept, KeepsRow, same, then-IsKept, update-IsKept,
  execute-IsKept, reset_processing-IsKept, tick-IsKept,
}

module _ {Value : Type 0} (out : Outside Value) (hmac : List ℕ → List ℕ → List ℕ)
    (hex_encode : List ℕ → String) (show_status : ℕ → String) (cfg : Config) where
  open out use {security}

  outcome_keeps :
      (w : World) (job : ClaimedJob) (d : Result String (Unit {0})) (r : DeliveryRow)
      → let r' = outcome security hmac hex_encode show_status cfg w job d r in
        (r'.id ≡ r.id)
        × (r'.destination ≡ r.destination)
        × (r'.payload ≡ r.payload)
        × (is_status r'.status ≡ true)
  unfolding outcome
  outcome_keeps w job (ok u) r = (refl, refl, refl, refl)
  outcome_keeps w job (err e) r =
      elim (Bool-cases
        (leb_ℤ job.max_attempts (next_attempt security hmac hex_encode show_status cfg job))) [
          | inl t ↦ rw t (refl, refl, refl, refl)
          | inr t ↦ rw t (refl, refl, refl, refl)
        ]

  outcome-KeepsRow :
      (w : World) (job : ClaimedJob) (d : Result String (Unit {0}))
      → KeepsRow (outcome security hmac hex_encode show_status cfg w job d)
  outcome-KeepsRow w job d = record {
    id = λ r. (outcome_keeps w job d r).0;
    destination = λ r. (outcome_keeps w job d r).1;
    payload = λ r. (outcome_keeps w job d r).2;
    status = λ r. (outcome_keeps w job d r).3;
  }

  process_job-IsKept :
      (w : World) (job : ClaimedJob) (db : Table)
      → IsWellFormed db
      → IsKept db (process_job security hmac hex_encode show_status cfg w job db).0
  unfolding process_job
  process_job-IsKept w job db s =
      execute-IsKept w.store db _ tt s
        (update-IsKept (has_id job.id) _ db (outcome-KeepsRow w job _) s)

  requeued-KeepsRow : (now : ℤ) → KeepsRow (set_requeued out now)
  requeued-KeepsRow now = record {
    id = λ r. refl;
    destination = λ r. refl;
    payload = λ r. refl;
    status = λ r. refl;
  }

  requeue_from_dlq-IsKept :
      (io io' : Io) (now : ℤ) (id : String) (before db : Table)
      → IsWellFormed db
      → IsKept db (requeue_from_dlq out io io' now id before db).0
  requeue_from_dlq-IsKept io io' now id before db w =
      elim (requeue_from_dlq_lem out io io' now id before db) [
        | inl (_, _, e) ↦
            rw e (update-IsKept (has_id id) (set_requeued out now) db (requeued-KeepsRow now) w)
        | inr (_, _, e) ↦ rw e (same db w)
      ]

  inserted-IsKept :
      (row : DeliveryRow) (db : Table)
      → is_status row.status ≡ true
      → any (has_id row.id) db ≡ false
      → IsWellFormed db
      → IsKept db (db ++ row ∷ [])
  inserted-IsKept row db s fresh w = record {
    well_formed = record {
      unique = append-HasUnique DeliveryRow.id db row fresh w.unique;
      statuses = All-append (λ r. is_status r.status ≡ true) db (row ∷ []) w.statuses (s, tt);
    };
    held = λ i d p h. Some-append (IsRowOf i d p) db _ h;
  }

  create_webhook-IsKept :
      (io : Io) (now : ℤ) (id : String) (payload : Result JsonRejection (WebhookRequest Value))
      (db : Table)
      → IsWellFormed db
      → IsKept db (create_webhook out io now id cfg payload db).0
  create_webhook-IsKept io now id payload db w =
      elim (create_webhook_lem out io now id cfg payload db) [
        | inl (a, e) ↦
            rw e (
              inserted-IsKept (new_row out cfg now id (IsAcceptable.req a) a.body) db refl a.fresh
                w)
        | inr (_, _, e) ↦ rw e (same db w)
      ]

  step-IsKept :
      (db : Table) (e : Event Value)
      → IsWellFormed db
      → IsKept db (step out hmac hex_encode show_status cfg db e)
  unfolding step
  step-IsKept db (creates io now id payload) w = create_webhook-IsKept io now id payload db w
  step-IsKept db (ticks io io' now) w = tick-IsKept io io' now cfg db w
  step-IsKept db (finishes x job) w = process_job-IsKept x job db w
  step-IsKept db (requeues io io' now id before) w =
      requeue_from_dlq-IsKept io io' now id before db w
  step-IsKept db (restarts io now) w = reset_processing-IsKept io now db w

  -- From a table with unique ids and known statuses, any sequence of requests, ticks, ends of
  -- deliveries, requeues and restarts, whichever statements fail, leads to such a table, which has for
  -- every row of the first one with its id, its destination and its payload.
  pub run-IsKept :
      (db : Table) (es : List (Event Value))
      → IsWellFormed db
      → IsKept db (run out hmac hex_encode show_status cfg db es)
  unfolding run
  run-IsKept db [] w = same db w
  run-IsKept db (e ∷ es) w =
      let k = step-IsKept db e w in
      then-IsKept db (step out hmac hex_encode show_status cfg db e) _ k
        (run-IsKept (step out hmac hex_encode show_status cfg db e) es k.well_formed)

  accepted_row :
      (io : Io) (now : ℤ) (id : String) (req : WebhookRequest Value) (db : Table)
      (a : IsAcceptable out io id cfg (ok req) db) (reply : EnqueueResponse)
      → reply.id ≡ id
      → (body : String) × (out.to_text req.content ≡ ok body)
        × Holds reply.id req.destination body
            (db ++ new_row out cfg now id (IsAcceptable.req a) a.body ∷ [])
  accepted_row io now id req db a reply e =
      let same_req : req ≡ a.req = ok_injective a.valid.reads in
      (
        a.body,
        ap (λ r. out.to_text (WebhookRequest.content r)) same_req ∙ a.valid.serialises,
        Some-append_right (IsRowOf reply.id req.destination a.body) db _
            (inl (sym e, sym (ap (λ r. WebhookRequest.destination r) same_req), refl)),
      )

  stored-Holds :
      (io : Io) (now : ℤ) (id : String) (req : WebhookRequest Value) (db : Table)
      {reply : EnqueueResponse}
      → (create_webhook out io now id cfg (ok req) db).1 ≡ ok reply
      → (body : String) × (out.to_text req.content ≡ ok body)
        × Holds reply.id req.destination body (create_webhook out io now id cfg (ok req) db).0
  stored-Holds io now id req db {reply} h =
      elim (create_webhook_lem out io now id cfg (ok req) db) [
        | inl (a, e) ↦ rw e (
            accepted_row io now id req db a reply
              (ap (λ r. EnqueueResponse.id r) (sym (ok_injective (rw e at h)))))
        | inr (_, _, e) ↦ absurd (let k = rw e at h in cc)
      ]

  -- In a table with unique ids and known statuses, a webhook that `create_webhook` answers with success
  -- is there after any events that follow, whichever statements fail, with the id of the answer, its
  -- destination and the text of its payload.
  pub accepted_delivery_kept :
      (io : Io) (now : ℤ) (id : String) (req : WebhookRequest Value) (db : Table)
      (es : List (Event Value)) {reply : EnqueueResponse}
      → IsWellFormed db
      → (create_webhook out io now id cfg (ok req) db).1 ≡ ok reply
      → (body : String) × (out.to_text req.content ≡ ok body)
        × Holds reply.id req.destination body
            (run out hmac hex_encode show_status cfg db (creates io now id (ok req) ∷ es))
  unfolding run step
  accepted_delivery_kept io now id req db es {reply} w h =
      let (body, text, stored) = stored-Holds io now id req db h in
      (
        body,
        text,
        (run-IsKept (create_webhook out io now id cfg (ok req) db).0 es
              (create_webhook-IsKept io now id (ok req) db w).well_formed).held
            reply.id req.destination body stored,
      )

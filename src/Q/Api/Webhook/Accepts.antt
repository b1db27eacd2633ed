-- ===== src/Q/Api/Webhook/Accepts.antt =====
-- What `webhook_handler` of q/src/api/webhook.rs does to the tables.
use benchmark_rust_llms.Prelude.{
  Result-cases, ℕ, String, Option, none, some, List, [], ◌∷◌, true, ◌≡◌, refl, sym, ◌⊎◌, inl, inr,
  Result, ok, err, Bool-cases, Option-cases, Result-cases, subst,
}
use benchmark_rust_llms.Q.Model.{UuidText, NewDelivery}
use benchmark_rust_llms.Q.Db.Rows.{Db, DbError, sqlite, idempotency_conflict, DbResult}
use benchmark_rust_llms.Q.Config.{Config}
use benchmark_rust_llms.Net.{IpAddr}
use benchmark_rust_llms.Q.Security.Ssrf.{Url, SsrfPolicy, validate, lookup}
use benchmark_rust_llms.Q.Security.Ratelimit.{RateLimiter, check}
use benchmark_rust_llms.Q.Security.Auth.{HeaderMap, bearer_token, authorized}
use benchmark_rust_llms.Q.Delivery.Worker.{Outside}
use benchmark_rust_llms.Q.Api.{AppState, ApiError, Reply}
use benchmark_rust_llms.Q.Api.Webhook.{
  key_or_anonymous, with_url, ingest_sync, checked, joined, webhook_handler, with_request, limited,
  new_delivery, IngestRequest, Arrival, key_or_anonymous, stored, checked, ingest_sync, accepted,
  answer, joined, new_delivery, with_url, with_request, limited, webhook_handler,
}
use benchmark_rust_llms.Q.Db.Conflicts.{with_new, insert_lem, IsTaken, Explained}
use benchmark_rust_llms.Q.Model.{Uuid}
use benchmark_rust_llms.Q.Api.{string, boolean}

module _ (out : Outside) (parse_body : List ℕ → Option IngestRequest)
    (show_error : DbError → String) (cfg : Config) (ssrf : SsrfPolicy) (a : Arrival)
    (headers : HeaderMap) where
  -- The answer to a repeated request: 200, with the id of a delivery that was stored with its key.
  abbrev pub IsRepeated : NewDelivery → Db → Result ApiError Reply → Type 0
  IsRepeated d db r =
      (existing : Uuid) × (status : String) × IsTaken out.uuid d.idempotency_key existing db
      × (r
          ≡ ok (record {
            status = 200;
            body =
                ("id", string (UuidText.to_string out.uuid existing))
                ∷ ("status", string status)
                ∷ ("duplicate", boolean true)
                ∷ [];
          }))

  abbrev pub Failed : AppState → AppState × Result ApiError Reply → Type 0
  Failed app (app', r) = (app'.db ≡ app.db) × ((e : ApiError) × (r ≡ err e))

  -- Either the delivery has been added and the answer is 202, or the tables are untouched and the
  -- answer is an error, or that of a repeated request.
  abbrev pub Ingested : NewDelivery → AppState → AppState × Result ApiError Reply → Type 0
  Ingested d app (app', r) =
      ((app'.db ≡ with_new out.uuid a.insert_now d app.db)
        × (r ≡ ok (accepted out parse_body show_error a.id)))
      ⊎ ((app'.db ≡ app.db) × (((e : ApiError) × (r ≡ err e)) ⊎ IsRepeated d app.db r))

  stored-Ingested :
      (d : NewDelivery) (app : AppState) (r : Db × DbResult (Unit {0}))
      → (r ≡ (with_new out.uuid a.insert_now d app.db, ok tt))
        ⊎ ((x : DbError) × (r ≡ (app.db, err x)) × Explained out.uuid d.idempotency_key x app.db)
      → Ingested d app
          (answer out parse_body show_error a.id app (stored out parse_body show_error a r))
  unfolding stored answer
  stored-Ingested d app r (inl e) =
      subst
        (λ z.
          Ingested d app
            (answer out parse_body show_error a.id app (stored out parse_body show_error a z)))
        (sym e) (inl (refl, refl))
  stored-Ingested d app r (inr (idempotency_conflict x, e, k)) =
      subst
        (λ z.
          Ingested d app
            (answer out parse_body show_error a.id app (stored out parse_body show_error a z)))
        (sym e) (inr (refl, inr (x, _, k, refl)))
  stored-Ingested d app r (inr (sqlite x, e, k)) =
      subst
        (λ z.
          Ingested d app
            (answer out parse_body show_error a.id app (stored out parse_body show_error a z)))
        (sym e) (inr (refl, inl (_, refl)))

  -- What has been checked by the time a delivery is stored.
  pub record IsAdmitted (body : List ℕ) (app : AppState) (req : IngestRequest) : Type 0 where
    pub allowed : authorized out.hmac_sha256 headers body cfg.hmac_secret cfg.api_keys ≡ true
    pub in_rate : (check a.instant (key_or_anonymous (bearer_token headers)) app.limiter).1 ≡ true
    pub read : parse_body body ≡ some req
    pub url : Url
    pub parsed : out.parse_url req.destination ≡ some url
    pub ips : List IpAddr
    pub passed : validate ssrf url (lookup a.to_socket_addrs) ≡ ok ips

  -- The tables are as they were, and the answer is an error, or an admitted request was repeated.
  abbrev pub Untouched : List ℕ → AppState → AppState × Result ApiError Reply → Type 0
  Untouched body app (app', r) =
      (app'.db ≡ app.db)
      × (((e : ApiError) × (r ≡ err e))
          ⊎ ((req : IngestRequest) × IsAdmitted body app req
              × IsRepeated (new_delivery out parse_body show_error cfg ssrf a headers req) app.db
                  r))

  url-cases :
      (req : IngestRequest) (app : AppState) (o : Option Url)
      → a.panicked ≡ none
      → ((url : Url) × (o ≡ some url)
          × ((ips : List IpAddr) × (validate ssrf url (lookup a.to_socket_addrs) ≡ ok ips))
          × Ingested
              (new_delivery out parse_body show_error cfg ssrf a headers req)
              app
              (with_url out parse_body show_error cfg ssrf a headers req app o))
        ⊎ Failed app (with_url out parse_body show_error cfg ssrf a headers req app o)
  unfolding with_url ingest_sync
  url-cases req app none calm = inr (refl, (_, refl))
  url-cases req app (some url) calm =
      elim (Result-cases (validate ssrf url (lookup a.to_socket_addrs))) [
        | inl (ips, e) ↦ inl (
          url,
          refl,
          (ips, e),
          rw (e, calm, checked, joined)
              (stored-Ingested (new_delivery out parse_body show_error cfg ssrf a headers req) app _
                (insert_lem out.uuid a.insert_io a.insert_io' a.insert_now
                  (new_delivery out parse_body show_error cfg ssrf a headers req) app.db)),
        )
        | inr (x, e) ↦ inr (rw (e, calm, checked, joined, answer) (refl, (_, refl)))
      ]

  request-cases :
      (body : List ℕ) (app : AppState) (l : RateLimiter)
      → a.panicked ≡ none
      → ((req : IngestRequest) × (parse_body body ≡ some req)
          × ((url : Url) × (out.parse_url req.destination ≡ some url)
              × ((ips : List IpAddr) × (validate ssrf url (lookup a.to_socket_addrs) ≡ ok ips))
              × Ingested (new_delivery out parse_body show_error cfg ssrf a headers req) app (
                  with_request out parse_body show_error cfg ssrf a headers
                    (record app { limiter = l })
                    (parse_body body))))
        ⊎ Failed app (
            with_request out parse_body show_error cfg ssrf a headers
              (record app { limiter = l })
              (parse_body body))
  unfolding with_request
  request-cases body app l calm = elim (Option-cases (parse_body body)) [
    | inl e ↦ inr (rw e (refl, (_, refl)))
    | inr (req, e) ↦
        elim (url-cases req (record app { limiter = l }) (out.parse_url req.destination) calm) [
          | inl (url, parsed, passed, x) ↦
              inl (req, e, (url, parsed, passed, rw (e, with_request) x))
          | inr x ↦ inr (rw (e, with_request) x)
        ]
  ]

  -- If the blocking task finishes, either the request was authorised, within the rate, well-formed and
  -- for an allowed destination, its delivery has been added behind the others and the answer is 202;
  -- or the tables are untouched, and the answer is an error, or the request was all that too and the
  -- answer is 200 with the id of a delivery that is stored with the request's idempotency key.
  pub webhook_handler_lem :
      (body : List ℕ) (app : AppState)
      → a.panicked ≡ none
      → ((req : IngestRequest) × IsAdmitted body app req
          × ((webhook_handler out parse_body show_error cfg ssrf a headers body app).0.db
              ≡ with_new out.uuid a.insert_now
                  (new_delivery out parse_body show_error cfg ssrf a headers req)
                  app.db)
          × ((webhook_handler out parse_body show_error cfg ssrf a headers body app).1
              ≡ ok (accepted out parse_body show_error a.id)))
        ⊎ Untouched body app (webhook_handler out parse_body show_error cfg ssrf a headers body app)
  unfolding webhook_handler limited
  webhook_handler_lem body app calm =
      elim (Bool-cases (authorized out.hmac_sha256 headers body cfg.hmac_secret cfg.api_keys)) [
        | inr no_key ↦ inr (rw no_key (refl, inl (_, refl)))
        | inl key ↦
            elim (Bool-cases
              (check a.instant (key_or_anonymous (bearer_token headers)) app.limiter).1) [
                | inr full ↦ inr (rw (key, full) (refl, inl (_, refl)))
                | inl room ↦
                    elim (request-cases body app
                      (check a.instant (key_or_anonymous (bearer_token headers)) app.limiter).0
                      calm) [
                        | inr (same, failed) ↦ inr (rw (key, room) (same, inl failed))
                        | inl (req, read, (url, parsed, (ips, passed), x)) ↦
                            let admitted : IsAdmitted body app req = record {
                              allowed = key;
                              in_rate = room;
                              read = read;
                              url = url;
                              parsed = parsed;
                              ips = ips;
                              passed = passed;
                            } in
                            elim x [
                              | inl (added, answered) ↦
                                  inl (req, admitted, rw (key, room) added, rw (key, room) answered)
                              | inr (same, inl failed) ↦ inr (rw (key, room) (same, inl failed))
                              | inr (same, inr repeated) ↦
                                  inr (rw (key, room) (same, inr (req, admitted, repeated)))
                            ]
                      ]
              ]
      ]

-- ===== src/G/Routes/Accepts.antt =====
-- `create_webhook` of g/src/routes.rs: which webhooks are stored, and as what.
use benchmark_rust_llms.Prelude.{
  String, ◌<>◌, as_bytes, length, none, some, [], ◌∷◌, ◌++◌, false, any, ltb, ℤ, Result, ok, err,
  map_err,
}
use benchmark_rust_llms.G.Model.{DeliveryRow, status_pending}
use benchmark_rust_llms.G.Config.{Config}
use benchmark_rust_llms.G.Security.{validate_destination}
use benchmark_rust_llms.G.Db.{Table, Io, SqlxError, constraint_violation, has_id}
use benchmark_rust_llms.G.Routes.{
  Outside, ApiError, JsonRejection, WebhookRequest, bad_request, unprocessable, internal, rejected,
  check_not_null, check_size, checked, stored, insert, new_row, answer, create_webhook,
}
use benchmark_rust_llms.G.Security.Policy.{IsDeliverable, validate_destination_iff}
use benchmark_rust_llms.Prelude.{
  through, then_ok, ok_injective, map_err-ok, Result-cases, subst, ap, ◌∙◌, Bool-cases, inl, inr,
  ◌≡◌, refl, ◌⊎◌, ◌≤◌, arith,
}

module _ {Value : Type 0} (out : Outside Value) where
  open out use {security, is_null, to_text, show_error}

  -- The request is read, its payload is not null and has a text of allowed size, and its destination
  -- passes the guard.
  pub record IsValid (cfg : Config) (payload : Result JsonRejection (WebhookRequest Value))
      (req : WebhookRequest Value) (body : String) : Type 0 where
    pub reads : payload ≡ ok req
    pub no_null : is_null req.content ≡ false
    pub deliverable : IsDeliverable security req.destination cfg.allow_private_destinations
    pub serialises : to_text req.content ≡ ok body
    pub small : length (as_bytes body) ≤ cfg.max_payload_bytes

  not_null-ok : (v : Value) → check_not_null out v ≡ ok tt → is_null v ≡ false
  unfolding check_not_null
  not_null-ok v h = elim (Bool-cases (is_null v)) [
    | inl e ↦ absurd (let k = rw e at h in cc)
    | inr e ↦ e
  ]

  ok-not_null : (v : Value) → is_null v ≡ false → check_not_null out v ≡ ok tt
  unfolding check_not_null
  ok-not_null v h = rw h refl

  check_size-ok :
      (cfg : Config) (body : String)
      → check_size out cfg body ≡ ok tt
      → length (as_bytes body) ≤ cfg.max_payload_bytes
  unfolding check_size
  check_size-ok cfg body h =
      elim (Bool-cases (ltb cfg.max_payload_bytes (length (as_bytes body)))) [
        | inl e ↦ absurd (let k = rw e at h in cc)
        | inr e ↦ ground arith
      ]

  ok-check_size :
      (cfg : Config) (body : String)
      → length (as_bytes body) ≤ cfg.max_payload_bytes
      → check_size out cfg body ≡ ok tt
  unfolding check_size
  ok-check_size cfg body h =
      let e : ltb cfg.max_payload_bytes (length (as_bytes body)) ≡ false = ground arith in rw e refl

  checked-IsValid :
      (cfg : Config) (payload : Result JsonRejection (WebhookRequest Value))
      {r : WebhookRequest Value × String}
      → checked out cfg payload ≡ ok r
      → IsValid cfg payload r.0 r.1
  unfolding checked
  checked-IsValid cfg payload {r} h = through (map_err rejected payload) _ h λ req reads h1.
      through (check_not_null out req.content) _ h1 λ _ full h2.
        through
          (map_err unprocessable
            (validate_destination security req.destination cfg.allow_private_destinations))
          _ h2
          λ _ valid h3.
            through
              (map_err (λ e. bad_request ("payload is not serializable: " <> e))
                (to_text req.content))
              _ h3
              λ body text h4. through (check_size out cfg body) _ h4 λ _ size h5.
                subst (λ x. IsValid cfg payload x.0 x.1) (ok_injective h5)
                  (record {
                    reads = map_err-ok rejected payload reads;
                    no_null = not_null-ok req.content full;
                    deliverable =
                        (validate_destination_iff security req.destination
                            cfg.allow_private_destinations).0
                          (map_err-ok unprocessable _ valid);
                    serialises =
                        map_err-ok (λ e. bad_request ("payload is not serializable: " <> e))
                          (to_text req.content) text;
                    small = check_size-ok cfg body size;
                  })

  IsValid-checked :
      (cfg : Config) (payload : Result JsonRejection (WebhookRequest Value))
      (req : WebhookRequest Value) (body : String)
      → IsValid cfg payload req body
      → checked out cfg payload ≡ ok (req, body)
  unfolding checked
  IsValid-checked cfg payload req body v =
      then_ok _ (ap (map_err rejected) v.reads)
      ∙ then_ok _ (ok-not_null req.content v.no_null)
      ∙ then_ok _ (
          ap (map_err unprocessable) (
            (validate_destination_iff security req.destination cfg.allow_private_destinations).1
              v.deliverable))
      ∙ then_ok _
          (ap (map_err (λ e. bad_request ("payload is not serializable: " <> e))) v.serialises)
      ∙ then_ok _ (ok-check_size cfg body v.small)

  -- What has to hold for a request to be accepted: it is valid, the id is fresh, and the engine answers.
  pub record IsAcceptable (io : Io) (id : String) (cfg : Config)
      (payload : Result JsonRejection (WebhookRequest Value)) (db : Table) : Type 0 where
    pub req : WebhookRequest Value
    pub body : String
    pub valid : IsValid cfg payload req body
    pub fresh : any (has_id id) db ≡ false
    pub answers : io ≡ none

  insert_cases :
      (io : Io) (row : DeliveryRow) (db : Table)
      → ((any (has_id row.id) db ≡ false)
          × (io ≡ none)
          × (insert out io row db ≡ (db ++ row ∷ [], ok tt)))
        ⊎ ((e : SqlxError) × (any (has_id row.id) db ≡ false → ¬ (io ≡ none))
            × (insert out io row db ≡ (db, err e)))
  unfolding insert
  insert_cases none row db = elim (Bool-cases (any (has_id row.id) db)) [
    | inl t ↦ inr (constraint_violation, (λ f. absurd (let k = f in cc)), rw t refl)
    | inr t ↦ inl (t, refl, rw t refl)
  ]
  insert_cases (some e) row db = elim (Bool-cases (any (has_id row.id) db)) [
    | inl t ↦ inr (constraint_violation, (λ f h. cc), rw t refl)
    | inr t ↦ inr (e, (λ f h. cc), rw t refl)
  ]

  -- A webhook is either acceptable, and then stored as one pending row behind the others, due at once,
  -- and answered with its id, or it is not, and then refused with an error and the table is as it was.
  pub create_webhook_lem :
      (io : Io) (now : ℤ) (id : String) (cfg : Config)
      (payload : Result JsonRejection (WebhookRequest Value)) (db : Table)
      → ((a : IsAcceptable io id cfg payload db) × (create_webhook out io now id cfg payload db ≡ (
        db ++ new_row out cfg now id (IsAcceptable.req a) a.body ∷ [],
        ok (record { id = id; status = status_pending }),
      )))
        ⊎ ((e : ApiError) × (¬ IsAcceptable io id cfg payload db)
            × (create_webhook out io now id cfg payload db ≡ (db, err e)))
  unfolding create_webhook stored
  create_webhook_lem io now id cfg payload db = elim (Result-cases (checked out cfg payload)) [
    | inr (e, i) ↦ inr (
      e,
      (λ a. let v = IsValid-checked cfg payload a.req a.body a.valid in cc),
      ap (stored out io now id cfg db) i,
    )
    | inl (r, i) ↦ elim (insert_cases io (new_row out cfg now id r.0 r.1) db) [
      | inl (fresh, calm, done) ↦ inl (
        record {
          req = r.0;
          body = r.1;
          valid = checked-IsValid cfg payload i;
          fresh = fresh;
          answers = calm;
        },
        ap (stored out io now id cfg db) i ∙ ap (answer out id) done,
      )
      | inr (e, refused, failed) ↦ inr (
        internal (show_error e),
        (λ a. refused a.fresh a.answers),
        ap (stored out io now id cfg db) i ∙ ap (answer out id) failed,
      )
    ]
  ]

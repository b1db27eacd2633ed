-- ===== src/K/Routes/Accepts.antt =====
-- `post_webhook` of k/webhook-delivery/src/routes.rs: which requests are stored, and what is stored.
use benchmark_rust_llms.Prelude.{
  ℕ, ◌≤◌, String, ◌<>◌, none, some, List, [], ◌∷◌, ◌++◌, false, ◌≡◌, refl, sym, ap, ◌∙◌, ◌⊎◌, inl,
  inr, arith, length, any, ℤ, Result, ok, err, map_err, map_err-ok, Bool-cases, Result-cases,
  through, then_ok, ok_injective, subst,
}
use benchmark_rust_llms.Net.Url.{Url}
use benchmark_rust_llms.Q.Model.{Uuid}
use benchmark_rust_llms.K.Model.{AnyError, engine, TimeText}
use benchmark_rust_llms.K.Config.{Config}
use benchmark_rust_llms.K.Db.{Table, Io, has_id, new_row, insert_text, insert_job}
use benchmark_rust_llms.K.Security.{enforce_size, validate_destination}
use benchmark_rust_llms.K.Security.Policy.{IsDeliverable, validate_destination_iff}
use benchmark_rust_llms.K.Routes.{
  ApiError, internal, validation, payload_too_large, WebhookRequest, Outside, security_error_to_api,
  checked, stored, answer, post_webhook,
}

size_lem : (len max : ℕ) → enforce_size len max ≡ ok tt → len ≤ max
unfolding enforce_size
size_lem len max h = ground arith

lem_size : (len max : ℕ) → len ≤ max → enforce_size len max ≡ ok tt
unfolding enforce_size
lem_size len max h = ground arith

module _ {Value : Type 0} (out : Outside Value) where
  open out use {uuid, time, json, parse_url, lookup_host, from_slice, show_ip}
  open uuid use {to_string}
  open json use {to_text}

  -- A request that passes the checks: it fits, is JSON, and its destination may be delivered to.
  pub record IsValid (config : Config) (body : List ℕ) (req : WebhookRequest Value) : Type 0 where
    pub url : Url
    pub size : length body ≤ config.max_payload_bytes
    pub reads : from_slice body ≡ ok req
    pub parses : parse_url req.destination ≡ ok url
    pub deliverable : IsDeliverable parse_url lookup_host config.allow_private_destinations url

  checked-IsValid :
      (config : Config) (body : List ℕ) (req : WebhookRequest Value)
      → checked out config body ≡ ok req
      → IsValid config body req
  unfolding checked
  checked-IsValid config body req h =
      through
        (map_err (λ _. payload_too_large) (enforce_size (length body) config.max_payload_bytes)) _ h
        λ u size h1.
          through (map_err (λ e. validation ("invalid JSON body: " <> e)) (from_slice body)) _ h1
            λ r reads h2.
              through
                (map_err (security_error_to_api show_ip) (
                  validate_destination parse_url lookup_host r.destination
                    config.allow_private_destinations))
                _ h2
                λ url valid h3. subst (IsValid config body) (ok_injective h3) (
                  let v =
                    (validate_destination_iff parse_url lookup_host r.destination
                        config.allow_private_destinations url).0
                      (map_err-ok (security_error_to_api show_ip) _ valid) in
                  record {
                    url = url;
                    size =
                        size_lem (length body) config.max_payload_bytes
                          (map_err-ok (λ _. payload_too_large) _ size);
                    reads = map_err-ok (λ e. validation ("invalid JSON body: " <> e)) _ reads;
                    parses = v.0;
                    deliverable = v.1;
                  })

  IsValid-checked :
      (config : Config) (body : List ℕ) (req : WebhookRequest Value)
      → IsValid config body req
      → checked out config body ≡ ok req
  unfolding checked
  IsValid-checked config body req v =
      then_ok _ (
        ap (map_err (λ _. payload_too_large))
          (lem_size (length body) config.max_payload_bytes v.size))
      ∙ then_ok _ (ap (map_err (λ e. validation ("invalid JSON body: " <> e))) v.reads)
      ∙ then_ok _ (
          ap (map_err (security_error_to_api show_ip)) (
            (validate_destination_iff parse_url lookup_host req.destination
                config.allow_private_destinations v.url).1
              (v.parses, v.deliverable)))

  -- What has to hold for a request to be accepted: it is valid, its payload has a text, the id is
  -- fresh, and the engine answers.
  pub record IsAcceptable (io : Io) (id : Uuid) (config : Config) (body : List ℕ) (db : Table)
      : Type 0 where
    pub req : WebhookRequest Value
    pub text : String
    pub valid : IsValid config body req
    pub serialises : to_text req.content ≡ ok text
    pub fresh : any (has_id (to_string id)) db ≡ false
    pub answers : io ≡ none

  -- The row of an accepted request.
  abbrev pub accepted_row :
      (io : Io) (now : ℤ) (id : Uuid) (config : Config) (body : List ℕ) (db : Table)
      → IsAcceptable io id config body db
      → Table
  accepted_row io now id config body db a =
      db
      ++ new_row uuid time json (TimeText.fmt_ts time now) id (WebhookRequest.destination a.req)
          a.text config.max_attempts
        ∷ []

  abbrev IsStored : Io → Uuid → Table → Result String String → String → Type 0
  IsStored io id db t text = (t ≡ ok text) × (any (has_id (to_string id)) db ≡ false) × (io ≡ none)

  insert_cases :
      (io : Io) (now : ℤ) (id : Uuid) (destination : String) (n : ℤ) (db : Table)
      (t : Result String String)
      → ((text : String) × IsStored io id db t text
          × (insert_text uuid time json io now id destination n db t ≡ (
            db ++ new_row uuid time json (TimeText.fmt_ts time now) id destination text n ∷ [],
            ok tt,
          )))
        ⊎ ((e : AnyError) × ((text : String) → ¬ IsStored io id db t text)
            × (insert_text uuid time json io now id destination n db t ≡ (db, err e)))
  unfolding insert_text
  insert_cases io now id destination n db (err e) = inr (_, (λ text h. cc (h.0)), refl)
  insert_cases none now id destination n db (ok text) =
      elim (Bool-cases (any (has_id (to_string id)) db)) [
        | inl t ↦ inr (engine "UNIQUE constraint failed: jobs.id", (λ text h. cc (h.1)), rw t refl)
        | inr t ↦ inl (text, (refl, t, refl), rw t refl)
      ]
  insert_cases (some e) now id destination n db (ok text) =
      elim (Bool-cases (any (has_id (to_string id)) db)) [
        | inl t ↦ inr (engine "UNIQUE constraint failed: jobs.id", (λ text h. cc (h.2)), rw t refl)
        | inr t ↦ inr (e, (λ text h. cc (h.2)), rw t refl)
      ]

  -- A webhook is either acceptable, and then stored as one pending row behind the others and answered
  -- with its id, or it is not, and then refused with an error and the table is as it was.
  pub post_webhook_lem :
      (io : Io) (now : ℤ) (id : Uuid) (config : Config) (body : List ℕ) (db : Table)
      → ((a : IsAcceptable io id config body db) × (post_webhook out io now id config body db
            ≡ (accepted_row io now id config body db a, ok (record { id = id }))))
        ⊎ ((e : ApiError) × (¬ IsAcceptable io id config body db)
            × (post_webhook out io now id config body db ≡ (db, err e)))
  unfolding post_webhook stored insert_job
  post_webhook_lem io now id config body db = elim (Result-cases (checked out config body)) [
    | inr (e, i) ↦ inr (
      e,
      (λ a. let v = IsValid-checked config body a.req a.valid in cc),
      ap (stored out io now id config db) i,
    )
    | inl (req, i) ↦
        elim (insert_cases io now id req.destination config.max_attempts db (to_text req.content)) [
          | inl (text, (t, fresh, calm), done) ↦ inl (
            record {
              req = req;
              text = text;
              valid = checked-IsValid config body req i;
              serialises = t;
              fresh = fresh;
              answers = calm;
            },
            ap (stored out io now id config db) i ∙ ap (answer out id) done,
          )
          | inr (e, refused, failed) ↦ inr (
            internal e,
            (λ a.
                let same : a.req ≡ req =
                  ok_injective (sym (IsValid-checked config body a.req a.valid) ∙ i) in
                refused a.text (
                  subst (λ r. to_text (WebhookRequest.content r) ≡ ok a.text) same a.serialises,
                  a.fresh,
                  a.answers,
                )),
            ap (stored out io now id config db) i ∙ ap (answer out id) failed,
          )
        ]
  ]

-- ===== src/Q/Api/Admin/Replay.antt =====
-- `replay` of q/src/api/admin.rs: what it requeues.
use benchmark_rust_llms.Prelude.{
  ◌≤◌, String, none, some, List, [], ◌∷◌, true, ◌≡◌, refl, ap, ◌∙◌, ◌⊎◌, inl, inr, arith, Result,
  ok, err, Result-cases, Bool-cases, Option-cases, update, update_none, count_if, count_if_mono,
  ◌==◌, ==_iff, ℤ, eq_iff,
}
use benchmark_rust_llms.Q.Model.{Uuid, UuidText, DlqEntry}
use benchmark_rust_llms.Q.Db.Rows.{DeliveryRow, Db, Io, DbError, has_id, has_id_status}
use benchmark_rust_llms.Q.Db.Reads.{find_dlq_entry}
use benchmark_rust_llms.Q.Db.Writes.{replay_dead_letter, set_replayed}
use benchmark_rust_llms.Q.Db.Invariant.{IsUnique, IsWellFormed}
use benchmark_rust_llms.Q.Db.Letters.{absent}
use benchmark_rust_llms.Q.Config.{Config}
use benchmark_rust_llms.Q.Security.Auth.{HeaderMap, admin_authorized}
use benchmark_rust_llms.Q.Api.{ApiError, Reply}
use benchmark_rust_llms.Q.Api.Admin.{require_admin, replayed, replay_delivery, replay}

count-has_id_le : (t : String) (rs : List DeliveryRow) → IsUnique rs → count_if (has_id t) rs ≤ 1
count-has_id_le t [] u = omega arith
count-has_id_le t (x ∷ rs) u = elim (Bool-cases (has_id t x)) [
  | inl hit ↦ rw (hit, absent t x rs ((eq_iff x.id t).0 hit) u.0) (omega arith)
  | inr miss ↦ rw miss (count-has_id_le t rs u.1)
]

module _ (uuid : UuidText) (show_error : DbError → String) (cfg : Config) (io io' : Io) (now : ℤ)
    (headers : HeaderMap) (id : Uuid) (db : Db) where
  open uuid use {to_string, parse_str}

  -- The tables with the dead-lettered row of the delivery pending again, due now, no attempt counted.
  abbrev pub requeued : Uuid → Db
  requeued delivery = record db {
    deliveries =
        update (has_id_status (to_string delivery) "dead_letter") (set_replayed now) db.deliveries;
  }

  -- One row has been requeued and the answer is 202, or nothing has changed and it is an error.
  abbrev pub Requeues : Uuid → Db × Result ApiError Reply → Type 0
  Requeues delivery (db', r) =
      (db' ≡ requeued delivery)
      × (count_if (has_id_status (to_string delivery) "dead_letter") db.deliveries ≡ 1)
      × ((reply : Reply) × (r ≡ ok reply) × (reply.status ≡ 202))

  abbrev pub Refuses : Db × Result ApiError Reply → Type 0
  Refuses (db', r) = (db' ≡ db) × ((e : ApiError) × (r ≡ err e))

  replayed-cases :
      IsWellFormed uuid db
      → (io'' : Io) (delivery : Uuid)
      → Requeues delivery
          (replayed uuid show_error delivery (replay_dead_letter uuid io'' now delivery db))
        ⊎ Refuses (replayed uuid show_error delivery (replay_dead_letter uuid io'' now delivery db))
  unfolding replayed replay_dead_letter
  replayed-cases w (some e) delivery = inr (refl, (_, refl))
  replayed-cases w none delivery =
      let t = to_string delivery in
      let n = count_if (has_id_status t "dead_letter") db.deliveries in
      elim (Bool-cases (n == 1)) [
        | inl one ↦ inl (rw (one, replayed) (refl, (==_iff n 1).0 one, (_, refl, refl)))
        | inr other ↦
            let few = count-has_id_le t db.deliveries w.unique in
            let fewer =
              count_if_mono (has_id_status t "dead_letter") (has_id t) (λ r h. ground arith)
                db.deliveries in
            let zero_rows : n ≡ 0 = ground (arith, few, fewer) in
            inr (
              rw (other, replayed)
                (
                  ap (λ rows. record db { deliveries = rows })
                      (update_none (has_id_status t "dead_letter") (set_replayed now) db.deliveries
                        zero_rows),
                  (_, refl),
                ))
      ]

  -- On well-formed tables `replay` requeues exactly one dead-lettered delivery, the one that the
  -- entry names, for a caller with the admin key, and answers 202; in every other case it changes
  -- nothing and answers with an error.
  pub replay_lem :
      IsWellFormed uuid db
      → ((entry : DlqEntry) × (delivery : Uuid) × (admin_authorized headers cfg.admin_key ≡ true)
          × (find_dlq_entry uuid io id db ≡ ok (some entry))
          × (uuid.parse_str entry.delivery_id ≡ some delivery)
          × Requeues delivery (replay uuid show_error cfg io io' now headers id db))
        ⊎ Refuses (replay uuid show_error cfg io io' now headers id db)
  unfolding replay require_admin
  replay_lem w = elim (Bool-cases (admin_authorized headers cfg.admin_key)) [
    | inr no_key ↦ inr (rw (no_key, replay_delivery) (refl, (_, refl)))
    | inl key ↦ elim (Result-cases (find_dlq_entry uuid io id db)) [
      | inr (e, bad) ↦ inr (rw (key, bad, replay_delivery) (refl, (_, refl)))
      | inl (found, good) ↦ elim (Option-cases found) [
        | inl absent ↦ inr (rw (key, good, absent, replay_delivery) (refl, (_, refl)))
        | inr (entry, is) ↦ elim (Option-cases (parse_str entry.delivery_id)) [
          | inl corrupt ↦ inr (rw (key, good, is, corrupt, replay_delivery) (refl, (_, refl)))
          | inr (delivery, parsed) ↦ elim (replayed-cases w io' delivery) [
            | inl x ↦ inl (
              entry,
              delivery,
              key,
              good ∙ ap ok is,
              parsed,
              rw (key, good, is, parsed, replay_delivery) x,
            )
            | inr x ↦ inr (rw (key, good, is, parsed, replay_delivery) x)
          ]
        ]
      ]
    ]
  ]

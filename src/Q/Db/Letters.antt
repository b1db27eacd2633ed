-- ===== src/Q/Db/Letters.antt =====
-- `dead_letter`, `find_dlq_entry` and `replay_dead_letter` of q/src/db.rs together.
use benchmark_rust_llms.Prelude.{
  ap, ℕ, String, none, some, List, [], ◌∷◌, ◌++◌, true, false, ◌≡◌, refl, ap, inl, inr, arith,
  Bool-cases, Result-cases, All, any, select_first, update, count_if, ℤ, ok, eq_iff, eq_refl,
  Option,
}
use benchmark_rust_llms.Q.Model.{Uuid, UuidText, DlqEntry}
use benchmark_rust_llms.Q.Db.Rows.{
  DeliveryRow, DlqRow, Db, Io, has_id, has_id_status, has_entry_id, get_i32, map_dlq,
}
use benchmark_rust_llms.Q.Db.Writes.{
  dead_letter, dead_letter_row, move_to_dlq, replay_dead_letter, set_dead_letter, dlq_row,
  dlq_entry,
}
use benchmark_rust_llms.Q.Db.Reads.{find_dlq_entry}
use benchmark_rust_llms.Q.Db.Cases.{moved}
use benchmark_rust_llms.Q.Db.Invariant.{IsUnique, IsWellFormed, clash}

-- An id stands in one row.
pub absent :
    (t : String) (x : DeliveryRow) (rs : List DeliveryRow)
    → x.id ≡ t
    → All (λ s. clash x s ≡ false) rs
    → count_if (has_id t) rs ≡ 0
absent t x [] e h = refl
absent t x (r ∷ rs) e h = ground (arith, absent t x rs e h.1, eq_iff r.id t, eq_iff r.id x.id)

pub count-has_id :
    (t : String) (rs : List DeliveryRow) {r : DeliveryRow}
    → IsUnique rs
    → select_first (has_id t) rs ≡ some r
    → count_if (has_id t) rs ≡ 1
count-has_id t [] u e = cc
count-has_id t (x ∷ rs) {r} u e = elim (Bool-cases (has_id t x)) [
  | inl hit ↦ rw (hit, absent t x rs ((eq_iff x.id t).0 hit) u.0) refl
  | inr miss ↦ rw miss (count-has_id t rs {r = r} u.1 (ground arith))
]

dead_letter_status :
    (t : String) (now : ℤ) (e : String) (r : DeliveryRow)
    → has_id_status t "dead_letter" (set_dead_letter now e r) ≡ has_id t r
dead_letter_status t now e r = ground (arith, eq_refl "dead_letter")

-- The rows of the id are the dead-lettered rows of the id after the UPDATE.
count-dead :
    (t : String) (now : ℤ) (e : String) (rs : List DeliveryRow)
    → count_if (has_id_status t "dead_letter") (update (has_id t) (set_dead_letter now e) rs)
      ≡ count_if (has_id t) rs
count-dead t now e [] = refl
count-dead t now e (r ∷ rs) = elim (Bool-cases (has_id t r)) [
  | inl hit ↦ rw (hit, dead_letter_status t now e r, hit, count-dead t now e rs) refl
  | inr miss ↦ rw (miss, miss, count-dead t now e rs) refl
]

select_first_fresh :
    (t : String) (qs : List DlqRow) (q : DlqRow)
    → any (has_entry_id t) qs ≡ false
    → has_entry_id t q ≡ true
    → select_first (has_entry_id t) (qs ++ q ∷ []) ≡ some q
select_first_fresh t [] q h k = rw k refl
select_first_fresh t (x ∷ qs) q h k = ground (arith, select_first_fresh t qs q)

module _ (uuid : UuidText) where
  open uuid use {to_string}

  -- What a successful `dead_letter` has done.
  pub record Moved (now : ℤ) (entry id : Uuid) (e : String) (db db' : Db) (q : DlqEntry)
      : Type 0 where
    pub row : DeliveryRow
    pub found : select_first (has_id (to_string id)) db.deliveries ≡ some row
    pub fresh : any (has_entry_id (to_string entry)) db.dead_letters ≡ false
    pub counter : get_i32 row.attempts ≡ ok row.attempts
    pub after : db' ≡ moved uuid now entry id e row db
    pub result : q ≡ dlq_entry uuid now entry id e row

  move_to_dlq-Moved :
      (io : Io) (now : ℤ) (entry id : Uuid) (e : String) (r : DeliveryRow) (db : Db) (q : DlqEntry)
      → select_first (has_id (to_string id)) db.deliveries ≡ some r
      → get_i32 r.attempts ≡ ok r.attempts
      → (move_to_dlq uuid io now entry id e r db).1 ≡ ok (some q)
      → Moved now entry id e db (move_to_dlq uuid io now entry id e r db).0 q
  unfolding move_to_dlq
  move_to_dlq-Moved io now entry id e r db q found counter h =
      elim (Bool-cases (any (has_entry_id (to_string entry)) db.dead_letters)) [
        | inl taken ↦ absurd (ground arith)
        | inr fresh ↦ record {
          row = r;
          found = found;
          fresh = fresh;
          counter = counter;
          after = ground arith;
          result = ground arith;
        }
      ]

  get_i32-same : (n m : ℕ) → get_i32 n ≡ ok m → get_i32 n ≡ ok n
  unfolding get_i32
  get_i32-same n m h = ground arith

  dead_letter_row-Moved :
      (io : Io) (now : ℤ) (entry id : Uuid) (e : String) (o : Option DeliveryRow) (db : Db)
      (q : DlqEntry)
      → select_first (has_id (to_string id)) db.deliveries ≡ o
      → (dead_letter_row uuid io now entry id e o db).1 ≡ ok (some q)
      → Moved now entry id e db (dead_letter_row uuid io now entry id e o db).0 q
  unfolding dead_letter_row
  dead_letter_row-Moved io now entry id e none db q found h = cc
  dead_letter_row-Moved io now entry id e (some r) db q found h =
      elim (Result-cases (get_i32 r.attempts)) [
        | inl (n, good) ↦
            rw (good, dead_letter_row)
              (move_to_dlq-Moved io now entry id e r db q found (get_i32-same r.attempts n good)
                (rw (good, dead_letter_row) at h))
        | inr (x, bad) ↦ let h' = rw (bad, dead_letter_row) at h in cc
      ]

  pub dead_letter-Moved :
      (io io' : Io) (now : ℤ) (entry id : Uuid) (e : String) (db : Db) (q : DlqEntry)
      → (dead_letter uuid io io' now entry id e db).1 ≡ ok (some q)
      → Moved now entry id e db (dead_letter uuid io io' now entry id e db).0 q
  unfolding dead_letter
  dead_letter-Moved (some x) io' now entry id e db q h = cc
  dead_letter-Moved none io' now entry id e db q h =
      dead_letter_row-Moved io' now entry id e (select_first (has_id (to_string id)) db.deliveries)
        db q refl h

  find-Moved :
      (now : ℤ) (entry id : Uuid) (e : String) (db db' : Db) (q : DlqEntry)
      → Moved now entry id e db db' q
      → find_dlq_entry uuid none q.id db' ≡ ok (some q)
  unfolding find_dlq_entry map_dlq
  find-Moved now entry id e db db' q m =
      rw
        (
          m.after,
          m.result,
          select_first_fresh (to_string entry) db.dead_letters (dlq_row uuid now entry id e m.row)
              m.fresh (eq_refl (to_string entry)),
          uuid.parse_str-to_string entry,
          m.counter,
        )
        refl

  replayable :
      (now now' : ℤ) (entry id : Uuid) (e : String) (db db' : Db) (q : DlqEntry)
      → IsWellFormed uuid db
      → Moved now entry id e db db' q
      → (replay_dead_letter uuid none now' id db').1 ≡ ok true
  unfolding replay_dead_letter
  replayable now now' entry id e db db' q w m =
      rw
        (
          m.after,
          count-dead (to_string id) now e db.deliveries,
          count-has_id (to_string id) db.deliveries {r = m.row} w.unique m.found,
        )
        refl

  -- After a successful `dead_letter` the entry that it returned is found by its id, it carries the
  -- attempts, payload and error of the delivery, and `replay_dead_letter` accepts the delivery.
  pub dead_letter-replay :
      (io io' : Io) (now now' : ℤ) (entry id : Uuid) (e : String) (db : Db) (q : DlqEntry)
      → IsWellFormed uuid db
      → (dead_letter uuid io io' now entry id e db).1 ≡ ok (some q)
      → let db' = (dead_letter uuid io io' now entry id e db).0 in
        (find_dlq_entry uuid none q.id db' ≡ ok (some q))
        × (q.delivery_id ≡ to_string id)
        × (q.last_error ≡ some e)
        × ((r : DeliveryRow) × (select_first (has_id (to_string id)) db.deliveries ≡ some r)
            × (q.attempts ≡ r.attempts)
            × (q.payload ≡ r.payload))
        × ((replay_dead_letter uuid none now' id db').1 ≡ ok true)
  dead_letter-replay io io' now now' entry id e db q w h =
      let m = dead_letter-Moved io io' now entry id e db q h in
      (
        find-Moved now entry id e db _ q m,
        rw m.result refl,
        rw m.result refl,
        (m.row, m.found, ap (λ x. x.attempts) m.result, ap (λ x. x.payload) m.result),
        replayable now now' entry id e db _ q w m,
      )

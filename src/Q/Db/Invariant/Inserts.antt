-- ===== src/Q/Db/Invariant/Inserts.antt =====
-- `insert` and `dead_letter` of q/src/db.rs keep the invariant.
use benchmark_rust_llms.Prelude.{
  String, List, [], ◌∷◌, false, ◌≡◌, inl, inr, Some, All-map, update, arith, Bool-cases, Option,
  any, select_first, str_eq, ℤ, ◌++◌, All-append, eq_iff, some, none, refl,
}
use benchmark_rust_llms.Q.Model.{Uuid, UuidText, NewDelivery, pending}
use benchmark_rust_llms.Q.Db.Rows.{DeliveryRow, DlqRow, Db, has_id, has_entry_id, Io, key_is}
use benchmark_rust_llms.Q.Db.Writes.{
  insert, violates, new_row, set_dead_letter, dead_letter, dlq_row,
}
use benchmark_rust_llms.Q.Db.Invariant.{clash, IsUnique, HasUniqueIds, IsRow, IsEntry, IsWellFormed}
use benchmark_rust_llms.Q.Db.Invariant.Updates.{
  update-Some-id, update-IsWellFormed, pending_word, set_dead_letter-Keeps,
}
use benchmark_rust_llms.Q.Db.Cases.{insert_cases, dead_letter_cases, moved}

pub str_eq_sym : (s t : String) → str_eq s t ≡ false → str_eq t s ≡ false
str_eq_sym s t h = ground (arith, eq_iff s t, eq_iff t s)

key_is_sym : (a b : Option String) → key_is a b ≡ false → key_is b a ≡ false
key_is_sym none none h = refl
key_is_sym none (some b) h = refl
key_is_sym (some a) none h = refl
key_is_sym (some a) (some b) h = str_eq_sym b a h

module _ (uuid : UuidText) where
  open uuid use {to_string}

  violates-clash :
      (now : ℤ) (d : NewDelivery) (r : DeliveryRow)
      → violates uuid d r ≡ false
      → clash r (new_row uuid now d) ≡ false
  violates-clash now d r h =
      ground
        (arith, str_eq_sym r.id (to_string d.id), key_is_sym d.idempotency_key r.idempotency_key)

  -- A row that no row violates may be added at the end.
  IsUnique-append :
      (now : ℤ) (d : NewDelivery) (rs : List DeliveryRow)
      → any (violates uuid d) rs ≡ false
      → IsUnique rs
      → IsUnique (rs ++ new_row uuid now d ∷ [])
  IsUnique-append now d [] h u = (tt, tt)
  IsUnique-append now d (r ∷ rs) h u = (
    All-append (λ s. clash r s ≡ false) rs (new_row uuid now d ∷ []) u.0
        (violates-clash now d r (ground arith), tt),
    IsUnique-append now d rs (ground arith) u.1,
  )

  HasUniqueIds-append :
      (q : DlqRow) (qs : List DlqRow)
      → any (has_entry_id q.id) qs ≡ false
      → HasUniqueIds qs
      → HasUniqueIds (qs ++ q ∷ [])
  HasUniqueIds-append q [] h u = (tt, tt)
  HasUniqueIds-append q (s ∷ qs) h u = (
    All-append (λ t. has_entry_id s.id t ≡ false) qs (q ∷ []) u.0
        (str_eq_sym s.id q.id (ground arith), tt),
    HasUniqueIds-append q qs (ground arith) u.1,
  )

  Some-append :
      (t : String) (rs ss : List DeliveryRow)
      → Some (λ r. r.id ≡ t) rs
      → Some (λ r. r.id ≡ t) (rs ++ ss)
  Some-append t [] ss h = absurd h
  Some-append t (r ∷ rs) ss (inl e) = inl e
  Some-append t (r ∷ rs) ss (inr h) = inr (Some-append t rs ss h)

  pub select_first-Some :
      (t : String) (rs : List DeliveryRow) {r : DeliveryRow}
      → select_first (has_id t) rs ≡ some r
      → Some (λ r. r.id ≡ t) rs
  select_first-Some t [] e = cc
  select_first-Some t (s ∷ rs) {r} e = elim (Bool-cases (has_id t s)) [
    | inl hit ↦ inl ((eq_iff s.id t).0 hit)
    | inr miss ↦ inr (select_first-Some t rs {r = r} (ground arith))
  ]

  pub insert-IsWellFormed :
      (io io' : Io) (now : ℤ) (d : NewDelivery) (db : Db)
      → IsWellFormed uuid db
      → IsWellFormed uuid (insert uuid io io' now d db).0
  insert-IsWellFormed io io' now d db w =
      insert_cases uuid (IsWellFormed uuid) io io' now d db w (λ fresh. record {
        rows =
            All-append (IsRow uuid) db.deliveries _ w.rows
              (((d.id, refl), (pending, pending_word)), tt);
        unique = IsUnique-append now d db.deliveries fresh w.unique;
        entries =
            All-map (λ q h. (h.0, h.1, Some-append q.delivery_id db.deliveries _ h.2))
              db.dead_letters w.entries;
        unique_entries = w.unique_entries;
      })

  pub dead_letter-IsWellFormed :
      (io io' : Io) (now : ℤ) (entry id : Uuid) (e : String) (db : Db)
      → IsWellFormed uuid db
      → IsWellFormed uuid (dead_letter uuid io io' now entry id e db).0
  dead_letter-IsWellFormed io io' now entry id e db w =
      dead_letter_cases uuid (IsWellFormed uuid) io io' now entry id e db w (λ r found fresh.
        record {
          rows = (updated db w).rows;
          unique = (updated db w).unique;
          entries =
              All-append (IsEntry uuid (moved uuid now entry id e r db).deliveries) db.dead_letters
                _ (updated db w).entries (((entry, refl), (id, refl), named db r found), tt);
          unique_entries =
              HasUniqueIds-append (dlq_row uuid now entry id e r) db.dead_letters fresh
                w.unique_entries;
        })
    where
      updated :
          (db : Db)
          → IsWellFormed uuid db
          → IsWellFormed uuid (record db {
            deliveries = update (has_id (to_string id)) (set_dead_letter now e) db.deliveries;
          })
      updated db w =
          update-IsWellFormed (has_id (to_string id)) (set_dead_letter now e)
            (set_dead_letter-Keeps now e) uuid db w

      named :
          (db : Db) (r : DeliveryRow)
          → select_first (has_id (to_string id)) db.deliveries ≡ some r
          → Some
              (λ r. r.id ≡ to_string id)
              (update (has_id (to_string id)) (set_dead_letter now e) db.deliveries)
      named db r found =
          update-Some-id (has_id (to_string id)) (set_dead_letter now e)
            (set_dead_letter-Keeps now e) (to_string id) db.deliveries
            (select_first-Some (to_string id) db.deliveries {r = r} found)

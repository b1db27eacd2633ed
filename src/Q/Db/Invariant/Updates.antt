-- ===== src/Q/Db/Invariant/Updates.antt =====
-- The UPDATE statements of q/src/db.rs keep the invariant.
use benchmark_rust_llms.Prelude.{
  String, List, [], ◌∷◌, Bool, false, ◌≡◌, sym, subst, inl, inr, All, Some, All-map, update,
  update-All, arith, Bool-cases, ℤ, refl,
}
use benchmark_rust_llms.Q.Model.{UuidText, DeliveryStatus, as_str, pending, delivered, in_flight}
use benchmark_rust_llms.Q.Db.Rows.{DeliveryRow, Db}
use benchmark_rust_llms.Q.Db.Writes.{
  set_dead_letter, set_delivered, set_for_test, set_in_flight, set_replayed, set_requeued,
  set_retry,
}
use benchmark_rust_llms.Q.Db.Invariant.{clash, IsUnique, IsId, IsRow, IsWellFormed, Keeps}

module _ (p : DeliveryRow → Bool) (f : DeliveryRow → DeliveryRow) (k : Keeps f) where
  update-clash :
      (r : DeliveryRow) (rs : List DeliveryRow)
      → All (λ s. clash r s ≡ false) rs
      → All (λ s. clash (f r) s ≡ false) (update p f rs)
        × All (λ s. clash r s ≡ false) (update p f rs)
  update-clash r [] h = (tt, tt)
  update-clash r (s ∷ rs) h =
      ground (arith, k.id r, k.key r, k.id s, k.key s, update-clash r rs h.1)

  update-IsUnique : (rs : List DeliveryRow) → IsUnique rs → IsUnique (update p f rs)
  update-IsUnique [] h = tt
  update-IsUnique (r ∷ rs) h = elim (Bool-cases (p r)) [
    | inl e ↦ rw e ((update-clash r rs h.0).0, update-IsUnique rs h.1)
    | inr e ↦ rw e ((update-clash r rs h.0).1, update-IsUnique rs h.1)
  ]

  pub update-Some-id :
      (t : String) (rs : List DeliveryRow)
      → Some (λ r. r.id ≡ t) rs
      → Some (λ r. r.id ≡ t) (update p f rs)
  update-Some-id t [] h = h
  update-Some-id t (r ∷ rs) (inl e) = inl (ground (arith, k.id r))
  update-Some-id t (r ∷ rs) (inr h) = inr (update-Some-id t rs h)

  pub update-IsWellFormed :
      (uuid : UuidText) (db : Db)
      → IsWellFormed uuid db
      → IsWellFormed uuid (record db { deliveries = update p f db.deliveries })
  update-IsWellFormed uuid db w = record {
    rows =
        update-All (IsRow uuid) p f (λ r _ h. (subst (IsId uuid) (sym (k.id r)) h.0, k.status r))
          db.deliveries w.rows;
    unique = update-IsUnique db.deliveries w.unique;
    entries =
        All-map (λ q h. (h.0, h.1, update-Some-id q.delivery_id db.deliveries h.2)) db.dead_letters
          w.entries;
    unique_entries = w.unique_entries;
  }

pub set_in_flight-Keeps : (now : ℤ) → Keeps (set_in_flight now)
unfolding as_str
set_in_flight-Keeps now = record {
  id = λ r. refl;
  key = λ r. refl;
  status = λ r. (in_flight, refl);
}

pub set_delivered-Keeps : (now : ℤ) → Keeps (set_delivered now)
unfolding as_str
set_delivered-Keeps now = record {
  id = λ r. refl;
  key = λ r. refl;
  status = λ r. (delivered, refl);
}

pub set_retry-Keeps : (now next : ℤ) (e : String) → Keeps (set_retry now next e)
unfolding as_str
set_retry-Keeps now next e = record {
  id = λ r. refl;
  key = λ r. refl;
  status = λ r. (pending, refl);
}

pub set_dead_letter-Keeps : (now : ℤ) (e : String) → Keeps (set_dead_letter now e)
unfolding as_str
set_dead_letter-Keeps now e = record {
  id = λ r. refl;
  key = λ r. refl;
  status = λ r. (DeliveryStatus.dead_letter, refl);
}

pub set_replayed-Keeps : (now : ℤ) → Keeps (set_replayed now)
unfolding as_str
set_replayed-Keeps now = record { id = λ r. refl; key = λ r. refl; status = λ r. (pending, refl) }

pub set_requeued-Keeps : (now : ℤ) → Keeps (set_requeued now)
unfolding as_str
set_requeued-Keeps now = record { id = λ r. refl; key = λ r. refl; status = λ r. (pending, refl) }

pub set_for_test-Keeps : (at : ℤ) → Keeps (set_for_test at)
unfolding as_str
set_for_test-Keeps at = record { id = λ r. refl; key = λ r. refl; status = λ r. (in_flight, refl) }

pub pending_word : as_str pending ≡ "pending"
unfolding as_str
pending_word = refl

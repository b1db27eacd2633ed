-- ===== src/Q/Db/Counts.antt =====
-- `stats` of q/src/db.rs: the four statuses partition the table.
use benchmark_rust_llms.Prelude.{ℕ, ◌+◌, List, [], ◌∷◌, ◌≡◌, arith, ok, none, length, count_if, All}
use benchmark_rust_llms.Q.Model.{
  UuidText, Stats, as_str, pending, in_flight, delivered, dead_letter,
}
use benchmark_rust_llms.Q.Db.Rows.{DeliveryRow, Db, has_status}
use benchmark_rust_llms.Q.Db.Reads.{stats}
use benchmark_rust_llms.Q.Db.Invariant.{IsRow, IsWellFormed}

-- A row is counted under one status.
abbrev share : DeliveryRow → ℕ
share r =
    count_if (has_status "pending") (r ∷ [])
    + count_if (has_status "in_flight") (r ∷ [])
    + count_if (has_status "delivered") (r ∷ [])
    + count_if (has_status "dead_letter") (r ∷ [])

module _ (uuid : UuidText) where
  share-one : (r : DeliveryRow) → IsRow uuid r → share r ≡ 1
  unfolding as_str
  share-one r (_, (pending, e)) = rw (← e)
  share-one r (_, (in_flight, e)) = rw (← e)
  share-one r (_, (delivered, e)) = rw (← e)
  share-one r (_, (dead_letter, e)) = rw (← e)

  counts :
      (rs : List DeliveryRow)
      → All (IsRow uuid) rs
      → count_if (has_status "pending") rs
          + count_if (has_status "in_flight") rs
          + count_if (has_status "delivered") rs
          + count_if (has_status "dead_letter") rs
        ≡ length rs
  counts [] h = omega arith
  counts (r ∷ rs) h = ground (arith, share-one r h.0, counts rs h.1)

  -- On well-formed tables the counters of the four statuses add up to `submitted`.
  pub stats_partition :
      (db : Db) (s : Stats)
      → IsWellFormed uuid db
      → stats none db ≡ ok s
      → s.pending + s.in_flight + s.delivered + s.dead_lettered ≡ s.submitted
  unfolding stats
  stats_partition db s w h = ground (arith, counts db.deliveries w.rows)

-- ===== src/Q/Db/Tests.antt =====
-- Runs of the methods of q/src/db.rs, and the theorems about them at concrete tables.
use benchmark_rust_llms.Prelude.{
  order_by, none, some, List, [], ◌∷◌, ◌≡◌, ◌≢◌, refl, inl, true, pos, ok, err, ◌≤◌, arith, min,
  All, IsOrdered, length, count_if, ◌≤ℤ◌, Matches, select_first, Some, ◌^◌,
}
use benchmark_rust_llms.Q.Samples.{
  strokes, stroke_text, first, second, row_of, queued, queued-IsWellFormed,
}
use benchmark_rust_llms.Q.Model.{pending, Delivery, DlqEntry}
use benchmark_rust_llms.Q.Db.Rows.{
  Db, empty, is_due, clamp_i64, has_id, idempotency_conflict, DeliveryRow,
}
use benchmark_rust_llms.Q.Db.Writes.{
  insert, claim, dead_letter, replay_dead_letter, schedule_retry, inserted,
}
use benchmark_rust_llms.Q.Db.Reads.{list_due, due_rows, find_dlq_entry}
use benchmark_rust_llms.Q.Db.Calls.{
  Call, inserts, claims, marks_delivered, schedules_retry, dead_letters, replays, run, step,
}
use benchmark_rust_llms.Q.Db.Durable.{Extends, run-Extends}
use benchmark_rust_llms.Q.Db.Claims.{claim_once}
use benchmark_rust_llms.Q.Db.Keys.{insert_idempotent}
use benchmark_rust_llms.Q.Db.Due.{list_due_lem, list_due_unreadable, retried_before, Reads}
use benchmark_rust_llms.Q.Db.Letters.{dead_letter-replay}
use benchmark_rust_llms.Q.Db.Invariant.{IsWellFormed}
use benchmark_rust_llms.Q.Db.Invariant.Histories.{run-IsWellFormed, empty-IsWellFormed}

abbrev history : List Call
history =
    inserts none none (pos 10) first
    ∷ inserts none none (pos 11) second
    ∷ claims none (pos 12) 1
    ∷ schedules_retry none (pos 13) 1 (pos 30) "HTTP 500"
    ∷ dead_letters none none (pos 40) 7 1 "HTTP 404"
    ∷ replays none (pos 50) 1
    ∷ []

history_runs : length (run stroke_text empty history).deliveries ≡ 1
unfolding run step insert strokes replay_dead_letter dead_letter schedule_retry claim
history_runs = refl

run-IsWellFormed_example : IsWellFormed stroke_text (run stroke_text empty history)
run-IsWellFormed_example =
    run-IsWellFormed stroke_text empty history (empty-IsWellFormed stroke_text)

run-Extends_example : Extends empty (run stroke_text empty history)
run-Extends_example = run-Extends stroke_text empty history

claim_wins : (claim stroke_text none (pos 20) 1 queued).1 ≡ ok true
unfolding claim strokes
claim_wins = refl

abbrev between : List Call
between =
    inserts none none (pos 20) (record second { id = 3 })
    ∷ claims none (pos 21) 2
    ∷ schedules_retry none (pos 22) 2 (pos 40) "HTTP 500"
    ∷ marks_delivered none (pos 23) 1
    ∷ replays none (pos 24) 2
    ∷ []

claim_once_example :
    (claim stroke_text none
      (pos 25)
      1
      (run stroke_text (claim stroke_text none (pos 20) 1 queued).0 between)).1
    ≢ ok true
unfolding strokes
claim_once_example =
    claim_once stroke_text none none (pos 20) (pos 25) 1 queued between
      (refl, (tt, (refl, (tt, (refl, tt))))) claim_wins

insert_idempotent_example :
    insert stroke_text none none (pos 90) second (
      run stroke_text
        (insert stroke_text none none (pos 10) first empty).0
        (claims none (pos 20) 1 ∷ []))
    ≡ (
      run stroke_text
          (insert stroke_text none none (pos 10) first empty).0
          (claims none (pos 20) 1 ∷ []),
      err (idempotency_conflict 1),
    )
unfolding insert inserted
insert_idempotent_example =
    insert_idempotent stroke_text none none (pos 10) (pos 90) first second empty
      (claims none (pos 20) 1 ∷ []) "key-1" (empty-IsWellFormed stroke_text) refl refl refl

list_due_lem_example :
    (ds : List Delivery) × (list_due stroke_text none (pos 25) 20 queued ≡ ok ds)
    × All (λ d. (d.status ≡ pending) × (d.next_retry_at ≤ℤ pos 25)) ds
    × IsOrdered retried_before ds
    × (length ds ≡ min (clamp_i64 20) (count_if (is_due (pos 25)) queued.deliveries))
    × Matches (Reads stroke_text) (due_rows (pos 25) 20 queued) ds
list_due_lem_example =
    list_due_lem stroke_text (pos 25) 20 queued queued-IsWellFormed
      ((omega arith, omega arith), ((omega arith, omega arith), ((omega arith, omega arith), tt)))

-- A delivery submitted under MAX_ATTEMPTS = 2^31, next to one that is fine.
abbrev poisoned : Db
poisoned = record {
  deliveries = row_of 1 "pending" 0 8 20 ∷ row_of 2 "pending" 0 2147483648 10 ∷ [];
  dead_letters = [];
}

poisoned_due : Some {A = DeliveryRow} (λ r. 2 ^ 31 ≤ r.max_attempts) (due_rows (pos 25) 20 poisoned)
unfolding order_by
poisoned_due = inl (omega arith)

list_due_unreadable_example : list_due stroke_text none (pos 25) 20 poisoned ≢ ok []
list_due_unreadable_example = list_due_unreadable stroke_text (pos 25) 20 poisoned [] poisoned_due

abbrev letter : DlqEntry
letter = record {
  id = 7;
  delivery_id = "x";
  destination = "http://example.com/hook";
  payload = 123 ∷ 125 ∷ [];
  attempts = 0;
  last_error = some "HTTP 404";
  dead_lettered_at = pos 30;
}

dead_lettered :
    (dead_letter stroke_text none none (pos 30) 7 1 "HTTP 404" queued).1 ≡ ok (some letter)
unfolding dead_letter strokes
dead_lettered = refl

dead_letter-replay_example :
    let db' = (dead_letter stroke_text none none (pos 30) 7 1 "HTTP 404" queued).0 in
    (find_dlq_entry stroke_text none 7 db' ≡ ok (some letter))
    × (letter.delivery_id ≡ strokes 1)
    × (letter.last_error ≡ some "HTTP 404")
    × ((r : DeliveryRow) × (select_first (has_id (strokes 1)) queued.deliveries ≡ some r)
        × (letter.attempts ≡ r.attempts)
        × (letter.payload ≡ r.payload))
    × ((replay_dead_letter stroke_text none (pos 60) 1 db').1 ≡ ok true)
dead_letter-replay_example =
    dead_letter-replay stroke_text none none (pos 30) (pos 60) 7 1 "HTTP 404" queued letter
      queued-IsWellFormed dead_lettered

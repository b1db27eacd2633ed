-- ===== src/K/Tests.antt =====
-- Runs of k/webhook-delivery/src/, and its theorems at a concrete table.
use benchmark_rust_llms.Prelude.{
  ℕ, none, some, List, [], ◌∷◌, ◌≡◌, refl, pos, true, false, ok, err, Result, ◌⊎◌, select_first,
  order_by, bytes_leb, as_bytes,
}
use benchmark_rust_llms.Q.Samples.{strokes, stroke_text}
use benchmark_rust_llms.K.Samples.{
  clock_text, number_text, calm, job_row, stored, signer, hex_one, config, unavailable, job_two,
}
use benchmark_rust_llms.K.Model.{AnyError, Job}
use benchmark_rust_llms.K.Db.{Table, has_id, due_ids, claim_due_jobs, mark_dead, requeue_dead}
use benchmark_rust_llms.K.Db.Claims.{IsClaimed, claim_due_jobs_lem}
use benchmark_rust_llms.K.Db.Requeue.{mark_dead-requeue}
use benchmark_rust_llms.Prelude.{◌≤◌, arith, leb_ℤ}
use benchmark_rust_llms.K.Db.{reschedule_job}
use benchmark_rust_llms.K.Db.Claims.{claimable}
use benchmark_rust_llms.K.Worker.{DeliveryError, capped_ms, deliver, recorded, handle_one}
use benchmark_rust_llms.K.Worker.Outcomes.{handle_one_lem}
use benchmark_rust_llms.Prelude.{◌*◌, ◌^◌, ◌-◌, min, max}
use benchmark_rust_llms.K.Worker.Backoff.{capped_ms_lem}

abbrev claimed_now : Table × Result AnyError (List (Job ℕ))
claimed_now = claim_due_jobs stroke_text clock_text number_text calm (pos 5) (pos 8) stored

oldest_first : due_ids (strokes 5) (pos 8) stored ≡ strokes 3 ∷ strokes 1 ∷ []
unfolding strokes order_by bytes_leb as_bytes
oldest_first = refl

claim_due_jobs_lem_example :
    ((e : AnyError) × (claimed_now ≡ (stored, err e)))
    ⊎ ((r : Table × List (Job ℕ)) × (claimed_now ≡ (r.0, ok r.1))
        × IsClaimed stroke_text clock_text number_text stored
            (due_ids (strokes 5) (pos 8) stored)
            r)
claim_due_jobs_lem_example =
    claim_due_jobs_lem stroke_text clock_text number_text calm (pos 5) (pos 8) stored

mark_dead-requeue_example :
    let first =
      requeue_dead stroke_text clock_text number_text none
        (pos 6)
        2
        (mark_dead stroke_text clock_text number_text none (pos 5) 2 "gave up" stored).0 in
    (first.1 ≡ ok true)
    × (select_first (has_id (strokes 2)) first.0
        ≡ some (record (job_row 2 "in_flight" 1) {
          status = "pending";
          attempts = 0;
          next_attempt_at = strokes 6;
          last_error = none;
          updated_at = strokes 6;
        }))
    × (requeue_dead stroke_text clock_text number_text none (pos 7) 2 first.0 ≡ (first.0, ok false))
unfolding strokes
mark_dead-requeue_example =
    mark_dead-requeue stroke_text clock_text number_text (pos 5) (pos 6) (pos 7) 2 "gave up" stored
      (job_row 2 "in_flight" 1) refl

third_delay : capped_ms 3 100 10000 ≡ 400
unfolding capped_ms
third_delay = refl

tried_again :
    1
    ≤ claimable
        (strokes 2)
        (handle_one signer hex_one stroke_text clock_text number_text unavailable config job_two
          stored).0
unfolding strokes handle_one recorded deliver reschedule_job
tried_again = omega arith

handle_one_lem_example :
    (e : DeliveryError) × (deliver signer hex_one stroke_text clock_text number_text
        (λ r. ok 503)
        config
        job_two
      ≡ err e)
    × (leb_ℤ (pos 8) (pos 1) ≡ false)
unfolding strokes
handle_one_lem_example =
    handle_one_lem signer hex_one stroke_text clock_text number_text unavailable config job_two
      stored refl tried_again

capped_ms_lem_example : capped_ms 30 100 10000 ≡ min (100 * 2 ^ min (max 30 1 - 1) 20) 10000
capped_ms_lem_example = capped_ms_lem 30 100 10000 (omega arith) (omega arith)

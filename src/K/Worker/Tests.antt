-- ===== src/K/Worker/Tests.antt =====
-- A batch of a worker of k/webhook-delivery/src/worker.rs, and its theorems at concrete jobs.
use benchmark_rust_llms.Prelude.{ℕ, ◌∷◌, [], List, none, pos}
use benchmark_rust_llms.Q.Samples.{stroke_text}
use benchmark_rust_llms.K.Samples.{
  clock_text, number_text, calm, stored, signer, hex_one, config, unavailable,
}
use benchmark_rust_llms.K.Db.Calls.{Call, claims, requeues, run}
use benchmark_rust_llms.K.Db.Durable.{Extends, run-keeps_jobs}
use benchmark_rust_llms.K.Worker.{handle_all}
use benchmark_rust_llms.K.Worker.Batches.{AreHandled, handle_all-AreHandled}
use benchmark_rust_llms.K.Model.{Job}
use benchmark_rust_llms.Prelude.{refl}
use benchmark_rust_llms.Q.Samples.{strokes}
use benchmark_rust_llms.K.Samples.{job_two}

-- The job after the second has no attempts left.
abbrev job_three : Job ℕ
job_three = record job_two { id = 3; attempts = 8 }

handle_all-AreHandled_example :
    AreHandled signer hex_one stroke_text clock_text number_text config
      (λ n. unavailable)
      (λ n. record { store = refl; plus = λ t d. (pos 9, refl) })
      0
      (job_two ∷ job_three ∷ [])
      (handle_all signer hex_one stroke_text clock_text number_text
        (λ n. unavailable)
        config
        0
        (job_two ∷ job_three ∷ [])
        stored).0
unfolding strokes
handle_all-AreHandled_example =
    handle_all-AreHandled signer hex_one stroke_text clock_text number_text config
      (λ n. unavailable) (λ n. record { store = refl; plus = λ t d. (pos 9, refl) }) 0
      (job_two ∷ job_three ∷ []) stored ((refl, tt), (tt, tt))

abbrev calls : List (Call ℕ)
calls = claims calm (pos 5) (pos 8) ∷ requeues none (pos 6) 2 ∷ []

run-keeps_jobs_example : Extends stored (run stroke_text clock_text number_text stored calls)
run-keeps_jobs_example = run-keeps_jobs stroke_text clock_text number_text stored calls

-- ===== src/D/Tests.antt =====
-- Runs of d/src/, and its theorems at concrete tables and hosts.
use benchmark_rust_llms.Prelude.{
  ℕ, String, none, some, List, [], ◌∷◌, ◌≡◌, refl, pos, ok, Result, inl, arith, ◌<>◌, ◌↔◌,
}
use benchmark_rust_llms.Net.{v4, v6}
use benchmark_rust_llms.Q.Samples.{strokes, count_strokes, stroke_text}
use benchmark_rust_llms.D.Samples.{
  clock_text, number_text, config, no_literals, show_ip, out, job_one, tables, start, start-IsSound,
  failing, request, row_one,
}
use benchmark_rust_llms.D.System.{run, fetches, processes, creates, redelivers, Event}
use benchmark_rust_llms.D.System.Tables.{Holds}
use benchmark_rust_llms.D.System.Promises.{accepted_webhook_kept}
use benchmark_rust_llms.D.Api.{create_webhook}
use benchmark_rust_llms.D.Db.{enqueue, insert_job, redeliver, move_to_dlq}
use benchmark_rust_llms.D.Db.Letters.{redeliver-move_to_dlq, returned}
use benchmark_rust_llms.D.Security.{
  validate_destination, starts_lower, slice_from, is_blocked_literal_ip, trim_start_matches,
  trim_end_matches,
}
use benchmark_rust_llms.D.Model.{new, status_str}
use benchmark_rust_llms.D.Worker.{
  host_from_url, until_slash, last_colon, all_digits, check_destination_blocked, process_job,
  answered, finished,
}
use benchmark_rust_llms.D.Worker.Written.{check_destination_blocked_iff, IsReachable}
use benchmark_rust_llms.D.Config.{is_set}
use benchmark_rust_llms.Prelude.{◌⊎◌, true}
use benchmark_rust_llms.D.Worker.Blocked.{process_job-private, process_job-mapped}
use benchmark_rust_llms.D.System.{reads, step}
use benchmark_rust_llms.D.System.Sound.{AreFresh}
use benchmark_rust_llms.D.System.Promises.{redelivered_twice}
use benchmark_rust_llms.D.Model.{DqlEntry, status_str}
use benchmark_rust_llms.D.Db.{JobRow, get_dlq, row_to_dlq, fetch_due}

abbrev entry_two : DqlEntry ℕ
entry_two = record {
  id = 2;
  job_id = 9;
  payload = 6;
  destination = "http://other.example/";
  attempts = 5;
  last_error = "HTTP status 500";
  moved_at = pos 1;
}

abbrev row_again : ℕ → JobRow
row_again n = record {
  id = strokes n;
  payload = strokes 6;
  destination = "http://other.example/";
  attempts = 0;
  max_attempts = 5;
  next_attempt_at = strokes 6;
  created_at = strokes 6;
  status = "Pending";
}

-- A fetch, the first step of a redelivery, a delivery that gives up, and the second step.
abbrev events : List (Event ℕ)
events =
    fetches none (pos 5)
    ∷ reads none 2
    ∷ processes (failing (v4 1 2 3 4 ∷ []))
    ∷ redelivers 0 none none (pos 6) 11
    ∷ []

fresh : AreFresh out start events
unfolding run step get_dlq row_to_dlq strokes count_strokes fetch_due process_job
fresh = (tt, (tt, ((refl, tt), (tt, tt))))

accepted_webhook_kept_example :
    Holds stroke_text clock_text number_text 8 "https://new.example/hook"
      (run out start
        (creates none (pos 5) 7 request ∷ fetches none (pos 5) ∷ processes (failing []) ∷ [])).db
unfolding create_webhook enqueue insert_job validate_destination starts_lower slice_from new strokes
    step count_strokes
accepted_webhook_kept_example =
    accepted_webhook_kept out start none (pos 5) 7 request
      (fetches none (pos 5) ∷ processes (failing []) ∷ []) start-IsSound (refl, (tt, (tt, tt))) refl

redelivered_twice_example :
    (run out start (
      reads none 2
      ∷ reads none 2
      ∷ redelivers 0 none none (pos 6) 11
      ∷ redelivers 0 none none (pos 6) 12
      ∷ [])).db.jobs
    ≡ (row_one ∷ row_again 11 ∷ row_again 12 ∷ [])
unfolding get_dlq row_to_dlq strokes count_strokes status_str
redelivered_twice_example =
    redelivered_twice out start 2 11 12 (pos 6) entry_two refl refl refl refl

redeliver-move_to_dlq_example :
    redeliver stroke_text clock_text number_text none none none
      (pos 6)
      11
      3
      5
      (move_to_dlq stroke_text clock_text number_text none none (pos 5) 3 job_one "boom" tables).0
    ≡ (
      returned stroke_text clock_text number_text (pos 6) 11 5 job_one tables,
      ok (
          some (record job_one {
            id = 11;
            attempts = 0;
            next_attempt_at = pos 6;
            created_at = pos 6;
          })),
    )
unfolding strokes count_strokes
redeliver-move_to_dlq_example =
    redeliver-move_to_dlq stroke_text clock_text number_text job_one "boom" (pos 5) (pos 6) 3 11 5
      tables refl refl refl refl

check_destination_blocked_iff_example :
    (check_destination_blocked no_literals show_ip none
        (λ h. ok (v4 10 0 0 1 ∷ []))
        ("http://" <> ("hook.example" <> (":" <> ("80" <> ("/" <> "in")))))
      ≡ ok tt)
    ↔ ((is_set none ≡ true)
        ⊎ IsReachable no_literals show_ip (λ h. ok (v4 10 0 0 1 ∷ [])) none "hook.example")
unfolding all_digits
check_destination_blocked_iff_example =
    check_destination_blocked_iff no_literals show_ip (λ h. ok (v4 10 0 0 1 ∷ [])) none "http://"
      "hook.example" "80" "in" (inl refl) refl (ground arith) (ground arith) (ground arith) refl
      refl

process_job-private_example :
    (e : String) × ((network : String → ℕ → Result String ℕ)
      → process_job no_literals show_ip stroke_text clock_text number_text config
          (record (failing (v4 127 0 0 1 ∷ [])) { network = network })
          job_one
          tables
        ≡ (
          (move_to_dlq stroke_text clock_text number_text none none
              (pos 5)
              3
              job_one
              ("blocked: " <> e)
              tables).0,
          finished,
        ))
unfolding validate_destination starts_lower slice_from
process_job-private_example =
    process_job-private no_literals show_ip stroke_text clock_text number_text config
      (failing (v4 127 0 0 1 ∷ [])) job_one tables refl refl refl
      (inl ((omega arith, omega arith, omega arith, omega arith), refl))

-- ::ffff:127.0.0.1
process_job-mapped_example :
    process_job no_literals show_ip stroke_text clock_text number_text config
      (failing (v6 0 0 0 0 0 65535 32512 1 ∷ []))
      job_one
      tables
    ≡ answered no_literals show_ip stroke_text clock_text number_text config
        (failing (v6 0 0 0 0 0 65535 32512 1 ∷ []))
        job_one
        (ok 500)
        tables
unfolding validate_destination starts_lower slice_from host_from_url until_slash last_colon
    all_digits is_blocked_literal_ip trim_start_matches trim_end_matches
process_job-mapped_example =
    process_job-mapped no_literals show_ip stroke_text clock_text number_text config
      (failing (v6 0 0 0 0 0 65535 32512 1 ∷ [])) job_one tables 32512 1 refl refl refl refl

without_the_port : host_from_url "hook.example:8080/in" ≡ "hook.example"
unfolding host_from_url until_slash last_colon all_digits
without_the_port = refl

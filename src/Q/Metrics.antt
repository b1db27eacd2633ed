-- ===== src/Q/Metrics.antt =====
-- `Metrics` of q/src/api/mod.rs: the process-wide u64 counters, which wrap around as `fetch_add` does.
use benchmark_rust_llms.Prelude.{ℕ, ◌+◌, ◌%◌, ◌^◌}

pub record Metrics : Type 0 where
  pub submitted : ℕ
  pub delivered : ℕ
  pub dead_lettered : ℕ
  pub permanent_failures : ℕ
  pub retryable_failures : ℕ

abbrev pub new : Metrics
new = record {
  submitted = 0;
  delivered = 0;
  dead_lettered = 0;
  permanent_failures = 0;
  retryable_failures = 0;
}

abbrev pub inc : ℕ → ℕ
inc c = (c + 1) % 2 ^ 64

abbrev pub inc_submitted : Metrics → Metrics
inc_submitted m = record m { submitted = inc m.submitted }

abbrev pub inc_delivered : Metrics → Metrics
inc_delivered m = record m { delivered = inc m.delivered }

abbrev pub inc_dead_lettered : Metrics → Metrics
inc_dead_lettered m = record m { dead_lettered = inc m.dead_lettered }

abbrev pub inc_permanent_failures : Metrics → Metrics
inc_permanent_failures m = record m { permanent_failures = inc m.permanent_failures }

abbrev pub inc_retryable_failures : Metrics → Metrics
inc_retryable_failures m = record m { retryable_failures = inc m.retryable_failures }

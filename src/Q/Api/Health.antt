-- ===== src/Q/Api/Health.antt =====
-- q/src/api/health.rs: liveness and readiness.
use benchmark_rust_llms.Prelude.{ℕ, String, if◌then◌else◌}
use benchmark_rust_llms.Q.Db.Rows.{Io}
use benchmark_rust_llms.Q.Db.Reads.{ping}

abbrev pub healthz : ℕ × String
healthz = (200, "ok")

unfoldable pub readyz : Io → ℕ
unfolding ping
readyz io = if ping io then 200 else 503

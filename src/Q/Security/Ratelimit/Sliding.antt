-- ===== src/Q/Security/Ratelimit/Sliding.antt =====
-- What q/src/security/ratelimit.rs promises: at most `limit` uses of a key in any window, decided by
-- the key's own uses alone.
use benchmark_rust_llms.Prelude.{ℕ, ◌^◌, ◌≤◌, ◌<◌, String, ◌≡◌, count_if}
use benchmark_rust_llms.Q.Security.Ratelimit.Window.{within}
use benchmark_rust_llms.Q.Security.Ratelimit.Tracks.{Tracks}
use benchmark_rust_llms.Q.Security.Ratelimit.Exact.{Log}

module _ (limit window : ℕ) (small : limit < 2 ^ 32) (k : String) where
  -- The limiter and the log after any calls.
  record Exact (last : ℕ) (s : Log) : Type 0 where
    limit_kept : s.0.limit ≡ limit
    window_kept : s.0.window ≡ window
    tracks : Tracks s.0 k last s.1
    bounded : (a : ℕ) → count_if (within window a) s.1 ≤ limit

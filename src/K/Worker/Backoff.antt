-- ===== src/K/Worker/Backoff.antt =====
-- `backoff` of k/webhook-delivery/src/worker.rs: the delay before the jitter.
use benchmark_rust_llms.Prelude.{ℕ, ◌-◌, ◌*◌, ◌^◌, ◌<◌, min, max, ◌≡◌, arith, ap, ◌∙◌}
use benchmark_rust_llms.K.Worker.{shift, capped_ms}

shift_lem : (attempts : ℕ) → attempts < 2 ^ 32 → shift attempts ≡ min (max attempts 1 - 1) 20
shift_lem attempts h = omega arith

saturated : (a m : ℕ) → m < 2 ^ 64 → min (min a (2 ^ 64 - 1)) m ≡ min a m
saturated a m h = omega arith

-- Before the jitter the delay is the lesser of `max_ms` and the base doubled for each attempt after
-- the first, but at most twenty times, as long as the attempts fit a u32 and `max_ms` a u64; the
-- saturating product loses nothing.
pub capped_ms_lem :
    (attempts base_ms max_ms : ℕ)
    → attempts < 2 ^ 32
    → max_ms < 2 ^ 64
    → capped_ms attempts base_ms max_ms ≡ min (base_ms * 2 ^ min (max attempts 1 - 1) 20) max_ms
unfolding capped_ms
capped_ms_lem attempts base_ms max_ms h h' =
    saturated (base_ms * 2 ^ shift attempts) max_ms h'
    ∙ ap (λ s. min (base_ms * 2 ^ s) max_ms) (shift_lem attempts h)

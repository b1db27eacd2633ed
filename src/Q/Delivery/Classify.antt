-- ===== src/Q/Delivery/Classify.antt =====
-- q/src/delivery/classify.rs: what the answer to a send means.
use benchmark_rust_llms.Prelude.{
  ℕ, ◌≤◌, String, ◌<>◌, decimal, Option, none, some, ◌&&◌, ◌||◌, ◌==◌, leb, if◌then◌else◌, ◌≡◌, ◌↔◌,
  ◌⊎◌, inl, arith,
}

pub data Outcome : Type 0 where
  delivered : Outcome
  retryable : String → Outcome
  permanent : String → Outcome

-- A transport error is given by its text.
unfoldable pub classify : ℕ → Option String → Outcome
classify status (some e) = retryable e
classify status none =
    if leb 200 status && leb status 299
    then delivered
    else if (status == 429) || leb 500 status && leb status 599
    then retryable ("HTTP " <> decimal status)
    else permanent ("HTTP " <> decimal status)

-- A delivery is done exactly on a 2xx answer, and is retried exactly after a transport error, a 429
-- or a 5xx; the text kept is the error's, or names the status.
pub classify_iff :
    (status : ℕ) (transport_err : Option String)
    → ((classify status transport_err ≡ delivered)
        ↔ ((transport_err ≡ none) × (200 ≤ status) × (status ≤ 299)))
      × ((e : String)
          → (classify status transport_err ≡ retryable e) ↔ (
              (transport_err ≡ some e)
              ⊎ ((transport_err ≡ none)
                  × ((status ≡ 429) ⊎ ((500 ≤ status) × (status ≤ 599)))
                  × (e ≡ "HTTP " <> decimal status))))
unfolding classify
classify_iff status none = (ground arith, λ e. (ground arith, ground arith))
classify_iff status (some e) = ((λ h. cc, λ h. cc), λ d. (λ h. inl (cc), λ h. ground arith))

-- ===== src/Q/Security/Ratelimit.antt =====
-- q/src/security/ratelimit.rs: the sliding-window limiter.
-- An `Instant` is a count of nanoseconds; `duration_since` stops at 0. The map of hits is an
-- association list. The mutex makes each method one step.
pub mod Map
pub mod Window
pub mod Tracks
pub mod Exact
pub mod Sliding
use benchmark_rust_llms.Prelude.{
  ℕ, ◌-◌, ◌%◌, ◌^◌, String, List, [], ◌∷◌, ◌++◌, Bool, true, false, ltb, leb, if◌then◌else◌, str_eq,
  length, Option, none, some,
}

abbrev pub Hits : Type 0
Hits = List (String × List ℕ)

pub record RateLimiter : Type 0 where
  pub limit : ℕ
  pub window : ℕ
  pub hits : Hits

abbrev pub new : ℕ → ℕ → RateLimiter
new limit window = record { limit = limit; window = window; hits = [] }

-- `map.entry(key).or_default()`, read: a missing key has no hits.
unfoldable pub get : String → Hits → List ℕ
get k [] = []
get k ((j, ts) ∷ m) = if str_eq j k then ts else get k m

-- The same entry, written.
unfoldable pub set : String → List ℕ → Hits → Hits
set k ts [] = (k, ts) ∷ []
set k ts ((j, us) ∷ m) = if str_eq j k then (j, ts) ∷ m else (j, us) ∷ set k ts m

-- `map.retain`, by a test on the hits.
unfoldable pub retain : (List ℕ → Bool) → Hits → Hits
retain p [] = []
retain p ((j, ts) ∷ m) = if p ts then (j, ts) ∷ retain p m else retain p m

-- The `while let` loop: hits that the window has left are popped from the front.
unfoldable pub expire : ℕ → ℕ → List ℕ → List ℕ
expire window now [] = []
expire window now (t ∷ ts) = if leb window (now - t) then expire window now ts else t ∷ ts

abbrev pub is_live : List ℕ → Bool
is_live [] = false
is_live (t ∷ ts) = true

-- The last hit lies in the window.
unfoldable pub has_recent : ℕ → ℕ → List ℕ → Bool
has_recent window now [] = false
has_recent window now (t ∷ []) = ltb (now - t) window
has_recent window now (t ∷ u ∷ ts) = has_recent window now (u ∷ ts)

-- `hits.len() as u32 >= self.limit`
abbrev pub is_full : ℕ → List ℕ → Bool
is_full limit ts = leb limit (length ts % 2 ^ 32)

unfoldable pub check : ℕ → String → RateLimiter → RateLimiter × Bool
unfolding get set retain expire
check now key l =
    let ts = expire l.window now (get key l.hits) in
    if is_full l.limit ts
    then (record l { hits = set key ts l.hits }, false)
    else (record l { hits = retain is_live (set key (ts ++ now ∷ []) l.hits) }, true)

unfoldable pub prune : ℕ → RateLimiter → RateLimiter
unfolding retain has_recent
prune now l = record l { hits = retain (has_recent l.window now) l.hits }

unfoldable pub active_keys : RateLimiter → ℕ
active_keys l = length l.hits

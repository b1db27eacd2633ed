-- ===== src/Q/Security/Ratelimit/Exact.antt =====
-- Sequences of calls of `check` and `prune` of q/src/security/ratelimit.rs.
use benchmark_rust_llms.Prelude.{
  ℕ, ◌-◌, ◌^◌, ◌≤◌, ◌<◌, String, List, [], ◌∷◌, ◌++◌, Bool, true, false, not, ◌&&◌, ◌≡◌, refl, sym,
  ◌∙◌, inl, inr, arith, length, leb, ltb, count_if, IsOrdered, str_eq, if◌then◌else◌, Bool-cases,
}
use benchmark_rust_llms.Q.Security.Ratelimit.{
  Hits, RateLimiter, get, retain, expire, is_live, is_full, has_recent, check, prune,
}
use benchmark_rust_llms.Q.Security.Ratelimit.Map.{
  IsKeyed, get-set, get-set_other, set-IsKeyed, retain-IsKeyed, get-retain,
}
use benchmark_rust_llms.Q.Security.Ratelimit.Window.{Event, checks, prunes, recent, length-expire}
use benchmark_rust_llms.Q.Security.Ratelimit.Tracks.{
  Tracks, retrack_same, retrack_pop, retrack_push, count-recent,
}

-- A limiter, and the times at which it has admitted `k`.
abbrev pub Log : Type 0
Log = RateLimiter × List ℕ

unfoldable pub record_check : String → ℕ → String → List ℕ → RateLimiter × Bool → Log
record_check k now j log (l, admitted) =
    (l, if str_eq j k && admitted then log ++ now ∷ [] else log)

unfoldable pub step : String → Event → Log → Log
unfolding record_check
step k (checks now j) (l, log) = record_check k now j log (check now j l)
step k (prunes now) (l, log) = (prune now l, log)

unfoldable pub run : String → List Event → Log → Log
unfolding step
run k [] s = s
run k (e ∷ es) s = run k es (step k e s)

live_or_empty : (ts : List ℕ) → (if is_live ts then ts else []) ≡ ts
live_or_empty [] = refl
live_or_empty (t ∷ ts) = refl

get-retain_live : (k : String) (m : Hits) → IsKeyed m → get k (retain is_live m) ≡ get k m
get-retain_live k m u = get-retain is_live k m refl u ∙ live_or_empty (get k m)

is_full-lt :
    (limit : ℕ) (ts : List ℕ)
    → limit < 2 ^ 32
    → length ts ≤ limit
    → is_full limit ts ≡ not (ltb (length ts) limit)
is_full-lt limit ts h k = ground arith

live_append : (ts : List ℕ) (now : ℕ) → is_live (ts ++ now ∷ []) ≡ true
live_append [] now = refl
live_append (t ∷ ts) now = refl

-- If the last hit is not recent, none is.
all_expired :
    (w now : ℕ) (ts : List ℕ)
    → IsOrdered leb ts
    → has_recent w now ts ≡ false
    → expire w now ts ≡ []
unfolding has_recent expire
all_expired w now [] h e = refl
all_expired w now (t ∷ []) h e = ground arith
all_expired w now (t ∷ u ∷ ts) h e =
    let none_left = all_expired w now (u ∷ ts) h.1 e in
    elim (Bool-cases (leb w (now - u))) [
      | inl gone ↦ let gone' : leb w (now - t) ≡ true = ground arith in rw gone' none_left
      | inr kept ↦ let bad = rw kept at none_left in absurd (ground arith)
    ]

module _ (l : RateLimiter) (k : String) (last now : ℕ) (log : List ℕ) (small : l.limit < 2 ^ 32)
    (h : last ≤ now) (t : Tracks l k last log) where
  pub prune-Tracks : Tracks (prune now l) k now log
  unfolding prune
  prune-Tracks = elim (Bool-cases (has_recent l.window now (get k l.hits))) [
    | inl e ↦
        retrack_same l k last now log _ h t (retain-IsKeyed _ l.hits t.keyed)
          (get-retain (has_recent l.window now) k l.hits refl t.keyed ∙ rw e refl)
    | inr e ↦ retrack_pop l k last now log _ h t (retain-IsKeyed _ l.hits t.keyed) (
        get-retain (has_recent l.window now) k l.hits refl t.keyed
        ∙ rw e (sym (all_expired l.window now (get k l.hits) t.ordered e)))
  ]

  full :
      is_full l.limit (expire l.window now (get k l.hits))
      ≡ not (ltb (length (expire l.window now (get k l.hits))) l.limit)
  full =
      let a = length-expire l.window now (get k l.hits) in
      let b = t.few in
      is_full-lt l.limit (expire l.window now (get k l.hits)) small (omega (arith, a, b))

  -- The decision for the key.
  pub check-recent : (check now k l).1 ≡ ltb (count_if (recent l.window now) log) l.limit
  unfolding check
  check-recent =
      let c = count-recent l k last now log h t in
      elim (Bool-cases (is_full l.limit (expire l.window now (get k l.hits)))) [
        | inl e ↦ rw (e, c) (ground (arith, full))
        | inr e ↦ rw (e, c) (ground (arith, full))
      ]

  pub check-Tracks :
      Tracks (check now k l).0 k now (if (check now k l).1 then log ++ now ∷ [] else log)
  unfolding check
  check-Tracks =
      let ts = expire l.window now (get k l.hits) in
      elim (Bool-cases (is_full l.limit ts)) [
        | inl e ↦ rw e (
            retrack_pop l k last now log _ h t (set-IsKeyed k ts l.hits t.keyed)
              (get-set k ts l.hits))
        | inr e ↦ rw e (
            retrack_push l k last now log _ h t
              (retain-IsKeyed is_live _ (set-IsKeyed k (ts ++ now ∷ []) l.hits t.keyed))
              (get-retain_live k _ (set-IsKeyed k (ts ++ now ∷ []) l.hits t.keyed)
                ∙ get-set k (ts ++ now ∷ []) l.hits)
              (ground (arith, full)))
      ]

  pub check_other-Tracks : (j : String) → str_eq j k ≡ false → Tracks (check now j l).0 k now log
  unfolding check
  check_other-Tracks j e =
      let ts = expire l.window now (get j l.hits) in
      elim (Bool-cases (is_full l.limit ts)) [
        | inl f ↦ rw f (
            retrack_same l k last now log _ h t (set-IsKeyed j ts l.hits t.keyed)
              (get-set_other k j ts l.hits e))
        | inr f ↦ rw f (
            retrack_same l k last now log _ h t
              (retain-IsKeyed is_live _ (set-IsKeyed j (ts ++ now ∷ []) l.hits t.keyed))
              (get-retain_live k _ (set-IsKeyed j (ts ++ now ∷ []) l.hits t.keyed)
                ∙ get-set_other k j (ts ++ now ∷ []) l.hits e))
      ]

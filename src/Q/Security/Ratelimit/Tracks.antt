-- ===== src/Q/Security/Ratelimit/Tracks.antt =====
-- `check` and `prune` of q/src/security/ratelimit.rs over time: the window is exact for every key.
use benchmark_rust_llms.Prelude.{
  ℕ, ◌-◌, ◌≤◌, ◌<◌, String, List, [], ◌∷◌, ◌++◌, true, false, ◌≡◌, refl, sym, ap, ◌∙◌, arith, All,
  All-append, length, length-append, leb, count_if, count_if-append, IsOrdered,
}
use benchmark_rust_llms.Q.Security.Ratelimit.{Hits, RateLimiter, get, expire}
use benchmark_rust_llms.Q.Security.Ratelimit.Map.{IsKeyed}
use benchmark_rust_llms.Q.Security.Ratelimit.Window.{
  expired, expire-split, expired-All, expire-fresh, expire-IsOrdered, expire-All, length-expire,
  append-IsOrdered, recent, count_none, count_all,
}

-- The log `log` of the admissions of a key, `last` being the time of the last event, against what the limiter
-- has: old admissions that have expired, then the hits.
pub record Tracks (l : RateLimiter) (k : String) (last : ℕ) (log : List ℕ) : Type 0 where
  pub old : List ℕ
  pub split : log ≡ old ++ get k l.hits
  pub gone : All (λ t. l.window ≤ last - t) old
  pub ordered : IsOrdered leb (get k l.hits)
  pub past : All (λ t. t ≤ last) (get k l.hits)
  pub few : length (get k l.hits) ≤ l.limit
  pub keyed : IsKeyed l.hits

pub older :
    (w last now : ℕ) (ts : List ℕ)
    → last ≤ now
    → All (λ t. w ≤ last - t) ts
    → All (λ t. w ≤ now - t) ts
older w last now [] h k = tt
older w last now (t ∷ ts) h k = (omega arith, older w last now ts h k.1)

later : (last now : ℕ) (ts : List ℕ) → last ≤ now → All (λ t. t ≤ last) ts → All (λ t. t ≤ now) ts
later last now [] h k = tt
later last now (t ∷ ts) h k = (omega arith, later last now ts h k.1)

append_assoc : (xs ys zs : List ℕ) → ((xs ++ ys) ++ zs) ≡ (xs ++ (ys ++ zs))
append_assoc [] ys zs = refl
append_assoc (x ∷ xs) ys zs = ap (◌∷◌ x) (append_assoc xs ys zs)

none_recent :
    (w now : ℕ) (ts : List ℕ) → All (λ t. w ≤ now - t) ts → All (λ t. recent w now t ≡ false) ts
none_recent w now [] h = tt
none_recent w now (t ∷ ts) h = (ground arith, none_recent w now ts h.1)

all_recent :
    (w now : ℕ) (ts : List ℕ) → All (λ t. now - t < w) ts → All (λ t. recent w now t ≡ true) ts
all_recent w now [] h = tt
all_recent w now (t ∷ ts) h = (ground arith, all_recent w now ts h.1)

-- What is left of the hits is what is recent in the log.
pub count-recent :
    (l : RateLimiter) (k : String) (last now : ℕ) (log : List ℕ)
    → last ≤ now
    → Tracks l k last log
    → count_if (recent l.window now) log ≡ length (expire l.window now (get k l.hits))
count-recent l k last now log h t =
    let w = l.window in
    let ts = get k l.hits in
    let p = recent w now in
    let c1 = count_if-append p t.old ts in
    let c2 = count_if-append p (expired w now ts) (expire w now ts) in
    let c3 = count_none p t.old (none_recent w now t.old (older w last now t.old h t.gone)) in
    let c4 = count_none p (expired w now ts) (none_recent w now _ (expired-All w now ts)) in
    let c5 = count_all p (expire w now ts) (all_recent w now _ (expire-fresh w now ts t.ordered)) in
    let c6 = ap (count_if p) (expire-split w now ts) in
    let c7 = ap (count_if p) t.split in omega (arith, c1, c2, c3, c4, c5, c6, c7)

module _ (l : RateLimiter) (k : String) (last now : ℕ) (log : List ℕ) (m : Hits) (h : last ≤ now)
    (t : Tracks l k last log) (keyed : IsKeyed m) where
  pub retrack_same : get k m ≡ get k l.hits → Tracks (record l { hits = m }) k now log
  retrack_same e = record {
    old = t.old;
    split = rw e t.split;
    gone = older l.window last now t.old h t.gone;
    ordered = rw e t.ordered;
    past = rw e (later last now (get k l.hits) h t.past);
    few = rw e t.few;
    keyed = keyed;
  }

  popped :
      log ≡ (t.old ++ expired l.window now (get k l.hits)) ++ expire l.window now (get k l.hits)
  popped =
      t.split
      ∙ ap (λ x. t.old ++ x) (sym (expire-split l.window now (get k l.hits)))
      ∙ sym (append_assoc t.old _ _)

  all_gone : All (λ x. l.window ≤ now - x) (t.old ++ expired l.window now (get k l.hits))
  all_gone =
      All-append _ t.old _ (older l.window last now t.old h t.gone)
        (expired-All l.window now (get k l.hits))

  pub retrack_pop :
      get k m ≡ expire l.window now (get k l.hits) → Tracks (record l { hits = m }) k now log
  retrack_pop e = record {
    old = t.old ++ expired l.window now (get k l.hits);
    split = rw e popped;
    gone = all_gone;
    ordered = rw e (expire-IsOrdered l.window now (get k l.hits) t.ordered);
    past =
        rw e (later last now _ h (expire-All (λ x. x ≤ last) l.window now (get k l.hits) t.past));
    few =
        rw e (
          let a = length-expire l.window now (get k l.hits) in
          let b = t.few in omega (arith, a, b));
    keyed = keyed;
  }

  pub retrack_push :
      get k m ≡ expire l.window now (get k l.hits) ++ now ∷ []
      → length (expire l.window now (get k l.hits)) < l.limit
      → Tracks (record l { hits = m }) k now (log ++ now ∷ [])
  retrack_push e room =
      let past =
        later last now _ h (expire-All (λ x. x ≤ last) l.window now (get k l.hits) t.past) in
      record {
        old = t.old ++ expired l.window now (get k l.hits);
        split = rw e (
            ap (λ x. x ++ now ∷ []) popped
            ∙ append_assoc (t.old ++ expired l.window now (get k l.hits))
                (expire l.window now (get k l.hits)) (now ∷ []));
        gone = all_gone;
        ordered =
            rw e (
              append-IsOrdered now _ (expire-IsOrdered l.window now (get k l.hits) t.ordered) past);
        past = rw e (All-append (λ x. x ≤ now) _ (now ∷ []) past (omega arith, tt));
        few = rw e (
            let a = length-append (expire l.window now (get k l.hits)) (now ∷ []) in
            omega (arith, a));
        keyed = keyed;
      }

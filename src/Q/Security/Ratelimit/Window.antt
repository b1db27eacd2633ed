-- ===== src/Q/Security/Ratelimit/Window.antt =====
-- The hits of one key in q/src/security/ratelimit.rs: those that `expire` pops and those it leaves,
-- and the sequences of calls.
use benchmark_rust_llms.Prelude.{
  ℕ, ◌+◌, ◌-◌, ◌≤◌, ◌<◌, String, List, [], ◌∷◌, ◌++◌, Bool, true, false, ◌&&◌, ◌≡◌, refl, ap, inl,
  inr, arith, All, All-append, length, leb, ltb, count_if, IsOrdered, if◌then◌else◌, Bool-cases,
}
use benchmark_rust_llms.Q.Security.Ratelimit.{expire}

pub data Event : Type 0 where
  checks : ℕ → String → Event
  prunes : ℕ → Event

abbrev pub time : Event → ℕ
time (checks t k) = t
time (prunes t) = t

-- The clock does not run backwards: the events come at times from `last` on, up to `now`.
abbrev pub IsTimed : ℕ → List Event → ℕ → Type 0
IsTimed last [] now = last ≤ now
IsTimed last (e ∷ es) now = (last ≤ time e) × IsTimed (time e) es now

-- The hits that are not popped, and those that are.
pub expired : ℕ → ℕ → List ℕ → List ℕ
expired window now [] = []
expired window now (t ∷ ts) = if leb window (now - t) then t ∷ expired window now ts else []

pub expire-split : (w now : ℕ) (ts : List ℕ) → (expired w now ts ++ expire w now ts) ≡ ts
unfolding expired expire
expire-split w now [] = refl
expire-split w now (t ∷ ts) = ground (arith, expire-split w now ts)

pub expired-All : (w now : ℕ) (ts : List ℕ) → All (λ t. w ≤ now - t) (expired w now ts)
unfolding expired
expired-All w now [] = tt
expired-All w now (t ∷ ts) = ground (arith, expired-All w now ts)

pub fresh_tail :
    (w now t : ℕ) (ts : List ℕ)
    → now - t < w
    → All (λ u. leb t u ≡ true) ts
    → All (λ u. now - u < w) ts
fresh_tail w now t [] h k = tt
fresh_tail w now t (u ∷ ts) h k = (ground arith, fresh_tail w now t ts h k.1)

-- What is left is recent, since the hits stand in order.
pub expire-fresh :
    (w now : ℕ) (ts : List ℕ) → IsOrdered leb ts → All (λ t. now - t < w) (expire w now ts)
unfolding expire
expire-fresh w now [] h = tt
expire-fresh w now (t ∷ ts) h = elim (Bool-cases (leb w (now - t))) [
  | inl e ↦ rw e (expire-fresh w now ts h.1)
  | inr e ↦ rw e (ground arith, fresh_tail w now t ts (ground arith) h.0)
]

pub expire-IsOrdered :
    (w now : ℕ) (ts : List ℕ) → IsOrdered leb ts → IsOrdered leb (expire w now ts)
unfolding expire
expire-IsOrdered w now [] h = tt
expire-IsOrdered w now (t ∷ ts) h = ground (arith, expire-IsOrdered w now ts h.1)

pub expire-All : (P : ℕ → Type 0) (w now : ℕ) (ts : List ℕ) → All P ts → All P (expire w now ts)
unfolding expire
expire-All P w now [] h = tt
expire-All P w now (t ∷ ts) h = ground (arith, expire-All P w now ts h.1)

pub length-expire : (w now : ℕ) (ts : List ℕ) → length (expire w now ts) ≤ length ts
unfolding expire
length-expire w now [] = omega arith
length-expire w now (t ∷ ts) = ground (arith, length-expire w now ts)

pub append-IsOrdered :
    (now : ℕ) (ts : List ℕ)
    → IsOrdered leb ts
    → All (λ t. t ≤ now) ts
    → IsOrdered leb (ts ++ now ∷ [])
append-IsOrdered now [] h k = (tt, tt)
append-IsOrdered now (t ∷ ts) h k = (
  All-append (λ u. leb t u ≡ true) ts (now ∷ []) h.0 (ground arith, tt),
  append-IsOrdered now ts h.1 k.1,
)

-- The hits that count against a key at `now`.
abbrev pub recent : ℕ → ℕ → ℕ → Bool
recent window now t = ltb (now - t) window

-- The times in the window that begins at `a`.
abbrev pub within : ℕ → ℕ → ℕ → Bool
within window a t = leb a t && ltb t (a + window)

pub count_none : (p : ℕ → Bool) (ts : List ℕ) → All (λ t. p t ≡ false) ts → count_if p ts ≡ 0
count_none p [] h = refl
count_none p (t ∷ ts) h = rw h.0 (count_none p ts h.1)

pub count_all : (p : ℕ → Bool) (ts : List ℕ) → All (λ t. p t ≡ true) ts → count_if p ts ≡ length ts
count_all p [] h = refl
count_all p (t ∷ ts) h = rw h.0 (ap ℕ.suc (count_all p ts h.1))

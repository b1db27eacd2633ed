-- ===== src/Q/Security/Ratelimit/Map.antt =====
-- The map of hits of q/src/security/ratelimit.rs: what a key has after its entry, or another's, is
-- written, and after `retain`.
use benchmark_rust_llms.Prelude.{
  ℕ, String, List, [], ◌∷◌, Bool, false, ◌≡◌, refl, inl, inr, arith, subst, All, str_eq,
  if◌then◌else◌, Bool-cases, eq_iff, eq_refl,
}
use benchmark_rust_llms.Q.Security.Ratelimit.{Hits, get, set, retain}

-- No key stands twice.
abbrev pub IsKeyed : Hits → Type 0
IsKeyed [] = Unit
IsKeyed ((j, ts) ∷ m) = All (λ e. str_eq e.0 j ≡ false) m × IsKeyed m

pub get-set : (k : String) (ts : List ℕ) (m : Hits) → get k (set k ts m) ≡ ts
unfolding get set
get-set k ts [] = rw (eq_refl k) refl
get-set k ts ((j, us) ∷ m) = ground (arith, get-set k ts m)

pub get-set_other :
    (k j : String) (ts : List ℕ) (m : Hits) → str_eq j k ≡ false → get k (set j ts m) ≡ get k m
unfolding get set
get-set_other k j ts [] h = rw h refl
get-set_other k j ts ((i, us) ∷ m) h =
    ground (arith, eq_iff i k, eq_iff j k, eq_iff i j, get-set_other k j ts m h)

set-All :
    (i k : String) (ts : List ℕ) (m : Hits)
    → str_eq k i ≡ false
    → All (λ e. str_eq e.0 i ≡ false) m
    → All (λ e. str_eq e.0 i ≡ false) (set k ts m)
unfolding set
set-All i k ts [] h a = (h, tt)
set-All i k ts ((j, us) ∷ m) h a = ground (arith, set-All i k ts m h a.1)

pub set-IsKeyed : (k : String) (ts : List ℕ) (m : Hits) → IsKeyed m → IsKeyed (set k ts m)
unfolding set
set-IsKeyed k ts [] h = (tt, tt)
set-IsKeyed k ts ((j, us) ∷ m) h = elim (Bool-cases (str_eq j k)) [
  | inl e ↦ rw e h
  | inr e ↦
      rw e (set-All j k ts m (ground (arith, eq_iff j k, eq_iff k j)) h.0, set-IsKeyed k ts m h.1)
]

retain-All :
    (p : List ℕ → Bool) (i : String) (m : Hits)
    → All (λ e. str_eq e.0 i ≡ false) m
    → All (λ e. str_eq e.0 i ≡ false) (retain p m)
unfolding retain
retain-All p i [] h = tt
retain-All p i ((j, ts) ∷ m) h = ground (arith, retain-All p i m h.1)

pub retain-IsKeyed : (p : List ℕ → Bool) (m : Hits) → IsKeyed m → IsKeyed (retain p m)
unfolding retain
retain-IsKeyed p [] h = tt
retain-IsKeyed p ((j, ts) ∷ m) h = elim (Bool-cases (p ts)) [
  | inl e ↦ rw e (retain-All p j m h.0, retain-IsKeyed p m h.1)
  | inr e ↦ rw e (retain-IsKeyed p m h.1)
]

get_absent : (k : String) (m : Hits) → All (λ e. str_eq e.0 k ≡ false) m → get k m ≡ []
unfolding get
get_absent k [] h = refl
get_absent k ((j, ts) ∷ m) h = rw h.0 (get_absent k m h.1)

-- A key keeps its hits if they pass the test, and has none if they do not.
pub get-retain :
    (p : List ℕ → Bool) (k : String) (m : Hits)
    → p [] ≡ false
    → IsKeyed m
    → get k (retain p m) ≡ (if p (get k m) then get k m else [])
unfolding get retain
get-retain p k [] h u = rw h refl
get-retain p k ((j, ts) ∷ m) h u = elim (Bool-cases (str_eq j k)) [
  | inl e ↦ elim (Bool-cases (p ts)) [
    | inl y ↦ rw (y, e, y) refl
    | inr n ↦
        rw (n, e, n)
          (get_absent k (retain p m) (
            retain-All p k m
              (subst (λ i. All (λ x. str_eq x.0 i ≡ false) m) ((eq_iff j k).0 e) u.0)))
  ]
  | inr e ↦ elim (Bool-cases (p ts)) [
    | inl y ↦ rw (y, e) (get-retain p k m h u.1)
    | inr n ↦ rw (n, e) (get-retain p k m h u.1)
  ]
]

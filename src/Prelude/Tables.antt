-- ===== src/Prelude/Tables.antt =====
-- Tables as lists of rows: what SELECT, UPDATE, DELETE and COUNT with a WHERE clause do to them.
use Prim.Native.Nat.{ℕ, suc, ◌+◌, ◌≤◌}
use mathlib.Core.Path.{◌≡◌, refl, ap}
use mathlib.Core.Logic.{inl, inr}
use mathlib.Core.Bool.{Bool, true, false}
use mathlib.Core.List.{List, [], ◌∷◌, ◌++◌}
use mathlib.Core.Option.{Option, none, some}
use native.Mathlib.Omega.{arith}
use benchmark_rust_llms.Prelude.Tests.{if◌then◌else◌, Bool-cases}
use benchmark_rust_llms.Prelude.Lists.{length, All, any, take}
use benchmark_rust_llms.Prelude.Int.{ℤ, pos, negsuc}

module _ {ℓ} {A : Type ℓ} where
  -- LIMIT ?: a negative limit is none.
  abbrev pub limited : ℤ → List A → List A
  limited (pos n) xs = take n xs
  limited (negsuc n) xs = xs

  -- SELECT ... WHERE p
  abbrev pub select : (A → Bool) → List A → List A
  select p [] = []
  select p (x ∷ xs) = if p x then x ∷ select p xs else select p xs

  -- SELECT ... WHERE p, read by `query_row`: the first row.
  abbrev pub select_first : (A → Bool) → List A → Option A
  select_first p [] = none
  select_first p (x ∷ xs) = if p x then some x else select_first p xs

  -- UPDATE ... SET f WHERE p
  abbrev pub update : (A → Bool) → (A → A) → List A → List A
  update p f [] = []
  update p f (x ∷ xs) = (if p x then f x else x) ∷ update p f xs

  -- SELECT COUNT(*) WHERE p; also the count of rows that an UPDATE reports.
  abbrev pub count_if : (A → Bool) → List A → ℕ
  count_if p [] = 0
  count_if p (x ∷ xs) = if p x then suc (count_if p xs) else count_if p xs

  -- DELETE ... WHERE p
  abbrev pub delete : (A → Bool) → List A → List A
  delete p [] = []
  delete p (x ∷ xs) = if p x then delete p xs else x ∷ delete p xs

  pub length-update : (p : A → Bool) (f : A → A) (xs : List A) → length (update p f xs) ≡ length xs
  length-update p f [] = refl
  length-update p f (x ∷ xs) = ap suc (length-update p f xs)

  pub count_if-le : (p : A → Bool) (xs : List A) → count_if p xs ≤ length xs
  count_if-le p [] = omega arith
  count_if-le p (x ∷ xs) = ground (arith, count_if-le p xs)

  pub count_if_mono :
      (p q : A → Bool)
      → ((x : A) → p x ≡ true → q x ≡ true)
      → (xs : List A) → count_if p xs ≤ count_if q xs
  count_if_mono p q h [] = omega arith
  count_if_mono p q h (x ∷ xs) = elim (Bool-cases (p x)) [
    | inl e ↦ rw (e, h x e) (let i = count_if_mono p q h xs in omega (arith, i))
    | inr e ↦ rw e (let i = count_if_mono p q h xs in ground (arith, i))
  ]

  pub count_if-append :
      (p : A → Bool) (xs ys : List A) → count_if p (xs ++ ys) ≡ count_if p xs + count_if p ys
  count_if-append p [] ys = omega arith
  count_if-append p (x ∷ xs) ys = ground (arith, count_if-append p xs ys)

  -- The rows that a SELECT returns satisfy its test.
  pub select-All : (p : A → Bool) (xs : List A) → All (λ x. p x ≡ true) (select p xs)
  select-All p [] = tt
  select-All p (x ∷ xs) = elim (Bool-cases (p x)) [
    | inl e ↦ rw e (e, select-All p xs)
    | inr e ↦ rw e (select-All p xs)
  ]

  pub length-select : (p : A → Bool) (xs : List A) → length (select p xs) ≡ count_if p xs
  length-select p [] = refl
  length-select p (x ∷ xs) = ground (arith, length-select p xs)

  pub select_first-holds :
      (p : A → Bool) (xs : List A) {x : A} → select_first p xs ≡ some x → p x ≡ true
  select_first-holds p [] e = cc
  select_first-holds p (y ∷ xs) {x} e = ground (arith, select_first-holds p xs {x = x})

  pub update_none :
      (p : A → Bool) (f : A → A) (xs : List A) → count_if p xs ≡ 0 → update p f xs ≡ xs
  update_none p f [] h = refl
  update_none p f (x ∷ xs) h = ground (arith, update_none p f xs)

  pub any_of_select_first :
      (p q : A → Bool)
      → ((x : A) → p x ≡ true → q x ≡ true)
      → (xs : List A) {x : A} → select_first p xs ≡ some x
      → any q xs ≡ true
  any_of_select_first p q h [] e = cc
  any_of_select_first p q h (y ∷ xs) {x} e = elim (Bool-cases (p y)) [
    | inl t ↦ rw (h y t) refl
    | inr t ↦ ground (arith, any_of_select_first p q h xs {x = x})
  ]

module _ {ℓ κ} {A : Type ℓ} (P : A → Type κ) where
  pub select-All_of : (p : A → Bool) (xs : List A) → All P xs → All P (select p xs)
  select-All_of p [] h = tt
  select-All_of p (x ∷ xs) h = ground (arith, select-All_of p xs h.1)

  -- An UPDATE keeps a property of rows if its assignment does on the rows that it meets.
  pub update-All :
      (p : A → Bool) (f : A → A)
      → ((x : A) → p x ≡ true → P x → P (f x))
      → (xs : List A) → All P xs
      → All P (update p f xs)
  update-All p f keep [] h = tt
  update-All p f keep (x ∷ xs) h = elim (Bool-cases (p x)) [
    | inl e ↦ rw e (keep x e h.0, update-All p f keep xs h.1)
    | inr e ↦ rw e (h.0, update-All p f keep xs h.1)
  ]

  pub select_first-All :
      (p : A → Bool) (xs : List A) {x : A} → All P xs → select_first p xs ≡ some x → P x
  select_first-All p [] h e = cc
  select_first-All p (y ∷ xs) {x} h e = elim (Bool-cases (p y)) [
    | inl t ↦ ground arith
    | inr t ↦ select_first-All p xs h.1 (ground arith)
  ]

-- A row behind those that a test refuses is the first that it accepts, and the only one deleted.
pub select_first-last :
    {A : Type 0} (p : A → Bool) (xs : List A) (x : A)
    → any p xs ≡ false
    → p x ≡ true
    → select_first p (xs ++ x ∷ []) ≡ some x
select_first-last p [] x h e = rw e refl
select_first-last p (y ∷ xs) x h e =
    let y' : p y ≡ false = ground arith in rw y' (select_first-last p xs x (ground arith) e)

pub delete-last :
    {A : Type 0} (p : A → Bool) (xs : List A) (x : A)
    → any p xs ≡ false
    → p x ≡ true
    → delete p (xs ++ x ∷ []) ≡ xs
delete-last p [] x h e = rw e refl
delete-last p (y ∷ xs) x h e =
    let y' : p y ≡ false = ground arith in
    rw y' (ap (λ ys. y ∷ ys) (delete-last p xs x (ground arith) e))

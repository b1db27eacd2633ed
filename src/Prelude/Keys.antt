-- ===== src/Prelude/Keys.antt =====
-- Tables whose rows are told apart by a text: a PRIMARY KEY, and what keeps it.
use Prim.Native.Nat.{ℕ, zero, suc}
use Prim.Native.String.{String}
use mathlib.Core.Path.{◌≡◌, refl}
use mathlib.Core.Logic.{inl, inr, ◌⊎◌}
use mathlib.Core.Bool.{Bool, true, false}
use mathlib.Core.List.{List, [], ◌∷◌, ◌++◌}
use mathlib.Core.Option.{Option, some}
use native.Mathlib.Omega.{arith}
use text.Mathlib.TextEquality.{eq_iff}
use benchmark_rust_llms.Prelude.Tests.{Bool-cases}
use benchmark_rust_llms.Prelude.Lists.{All, All-map, All-append, All-take, take, any, Some}
use benchmark_rust_llms.Prelude.Tables.{select, select_first, select-All_of, update, delete}
use benchmark_rust_llms.Prelude.Sort.{insert_by, insert_by-All, order_by, order_by-All}
use benchmark_rust_llms.Prelude.Text.{str_eq}

pub str_eq_sym : (s t : String) → str_eq s t ≡ false → str_eq t s ≡ false
str_eq_sym s t h = ground (arith, eq_iff s t, eq_iff t s)

pub some_injective {ℓ} : {A : Type ℓ} {x y : A} → (let o : Option A = some x in o) ≡ some y → x ≡ y
some_injective h = cc

pub any_of_Some {ℓ} :
    {A : Type ℓ} (p : A → Bool) (xs : List A) → Some (λ x. p x ≡ true) xs → any p xs ≡ true
any_of_Some p [] h = absurd h
any_of_Some p (x ∷ xs) (inl e) = rw e refl
any_of_Some p (x ∷ xs) (inr h) = ground (arith, any_of_Some p xs h)

module _ {ℓ κ ν} {A : Type ℓ} (P : A → Type κ) (Q : A → Type ν) where
  pub All-both : (xs : List A) → All P xs → All Q xs → All (λ x. P x × Q x) xs
  All-both [] h k = tt
  All-both (x ∷ xs) h k = ((h.0, k.0), All-both xs h.1 k.1)

pub delete-All {ℓ κ} :
    {A : Type ℓ} (P : A → Type κ) (p : A → Bool) (xs : List A) → All P xs → All P (delete p xs)
delete-All P p [] h = tt
delete-All P p (x ∷ xs) h = elim (Bool-cases (p x)) [
  | inl e ↦ rw e (delete-All P p xs h.1)
  | inr e ↦ rw e (h.0, delete-All P p xs h.1)
]

module _ {ℓ} {A : Type ℓ} (R : A → Type 0) where
  pub Some-All {κ} : (P : A → Type κ) (xs : List A) → Some R xs → All P xs → (y : A) × R y × P y
  Some-All P [] h k = absurd h
  Some-All P (x ∷ xs) (inl r) k = (x, r, k.0)
  Some-All P (x ∷ xs) (inr h) k = Some-All P xs h k.1

  pub Some-witness : (xs : List A) → Some R xs → (y : A) × R y
  Some-witness [] h = absurd h
  Some-witness (x ∷ xs) (inl r) = (x, r)
  Some-witness (x ∷ xs) (inr h) = Some-witness xs h

  pub Some-imp : (P : A → Type 0) → ((x : A) → R x → P x) → (xs : List A) → Some R xs → Some P xs
  Some-imp P f [] h = h
  Some-imp P f (x ∷ xs) (inl r) = inl (f x r)
  Some-imp P f (x ∷ xs) (inr h) = inr (Some-imp P f xs h)

  pub Some-update :
      (p : A → Bool) (f : A → A)
      → ((x : A) → R x → R (f x))
      → (xs : List A) → Some R xs
      → Some R (update p f xs)
  Some-update p f k [] h = h
  Some-update p f k (x ∷ xs) (inl r) = elim (Bool-cases (p x)) [
    | inl e ↦ rw e (inl (k x r))
    | inr e ↦ rw e (inl r)
  ]
  Some-update p f k (x ∷ xs) (inr h) = inr (Some-update p f k xs h)

  -- What a DELETE does not keep satisfied its test.
  pub Some-delete :
      (p : A → Bool) (xs : List A)
      → Some R xs
      → Some R (delete p xs) ⊎ Some (λ x. R x × (p x ≡ true)) xs
  Some-delete p [] h = absurd h
  Some-delete p (x ∷ xs) (inl r) = elim (Bool-cases (p x)) [
    | inl e ↦ inr (inl (r, e))
    | inr e ↦ inl (rw e (inl r))
  ]
  Some-delete p (x ∷ xs) (inr h) = elim (Some-delete p xs h) [
    | inr k ↦ inr (inr k)
    | inl k ↦ elim (Bool-cases (p x)) [ inl e ↦ inl (rw e k) | inr e ↦ inl (rw e (inr k)) ]
  ]

pub select_first-Some :
    {A : Type 0} (p : A → Bool) (xs : List A) {x : A}
    → select_first p xs ≡ some x
    → Some (λ y. (y ≡ x) × (p y ≡ true)) xs
select_first-Some p [] h = cc
select_first-Some p (y ∷ xs) {x} h = elim (Bool-cases (p y)) [
  | inl e ↦ inl (some_injective (rw e at h), e)
  | inr e ↦ inr (select_first-Some p xs {x = x} (rw e at h))
]

-- Every row of a table is in it.
pub all_in : {A : Type 0} (xs : List A) → All (λ x. Some (λ y. y ≡ x) xs) xs
all_in [] = tt
all_in (x ∷ xs) = (inl refl, All-map (λ y h. inr h) xs (all_in xs))

module _ {ℓ} {A : Type ℓ} (key : A → String) where
  abbrev pub has_key_of : String → A → Bool
  has_key_of k x = str_eq (key x) k

  -- No two rows have one key.
  abbrev pub HasUnique : List A → Type 0
  HasUnique [] = Unit
  HasUnique (x ∷ xs) = All (λ y. has_key_of (key x) y ≡ false) xs × HasUnique xs

  fresh_All :
      (k : String) (xs : List A)
      → any (has_key_of k) xs ≡ false
      → All (λ y. has_key_of k y ≡ false) xs
  fresh_All k [] h = tt
  fresh_All k (x ∷ xs) h = (ground arith, fresh_All k xs (ground arith))

  append-All_key :
      (k : String) (xs : List A) (x : A)
      → All (λ y. has_key_of k y ≡ false) xs
      → has_key_of k x ≡ false
      → All (λ y. has_key_of k y ≡ false) (xs ++ x ∷ [])
  append-All_key k xs x h e = All-append (λ y. has_key_of k y ≡ false) xs (x ∷ []) h (e, tt)

  -- An INSERT of a fresh key.
  pub append-HasUnique :
      (xs : List A) (x : A)
      → any (has_key_of (key x)) xs ≡ false
      → HasUnique xs
      → HasUnique (xs ++ x ∷ [])
  append-HasUnique [] x h u = (tt, tt)
  append-HasUnique (y ∷ xs) x h u =
      let e : has_key_of (key x) y ≡ false = ground arith in
      (
        append-All_key (key y) xs x u.0 (str_eq_sym (key y) (key x) e),
        append-HasUnique xs x (ground arith) u.1,
      )

  module _ (p : A → Bool) (f : A → A) (keeps : (x : A) → key (f x) ≡ key x) where
    update-All_key :
        (k : String) (xs : List A)
        → All (λ y. has_key_of k y ≡ false) xs
        → All (λ y. has_key_of k y ≡ false) (update p f xs)
    update-All_key k [] h = tt
    update-All_key k (x ∷ xs) h = elim (Bool-cases (p x)) [
      | inl e ↦ rw (e, keeps x) (h.0, update-All_key k xs h.1)
      | inr e ↦ rw e (h.0, update-All_key k xs h.1)
    ]

    pub update-HasUnique : (xs : List A) → HasUnique xs → HasUnique (update p f xs)
    update-HasUnique [] h = tt
    update-HasUnique (x ∷ xs) h = elim (Bool-cases (p x)) [
      | inl e ↦ rw (e, keeps x) (update-All_key (key x) xs h.0, update-HasUnique xs h.1)
      | inr e ↦ rw e (update-All_key (key x) xs h.0, update-HasUnique xs h.1)
    ]

  pub select-HasUnique : (p : A → Bool) (xs : List A) → HasUnique xs → HasUnique (select p xs)
  select-HasUnique p [] h = tt
  select-HasUnique p (x ∷ xs) h = elim (Bool-cases (p x)) [
    | inl e ↦
        rw e (select-All_of (λ y. has_key_of (key x) y ≡ false) p xs h.0, select-HasUnique p xs h.1)
    | inr e ↦ rw e (select-HasUnique p xs h.1)
  ]

  pub take-HasUnique : (n : ℕ) (xs : List A) → HasUnique xs → HasUnique (take n xs)
  take-HasUnique zero xs h = tt
  take-HasUnique (suc n) [] h = tt
  take-HasUnique (suc n) (x ∷ xs) h =
      (All-take (λ y. has_key_of (key x) y ≡ false) n xs h.0, take-HasUnique n xs h.1)

  pub delete-HasUnique : (p : A → Bool) (xs : List A) → HasUnique xs → HasUnique (delete p xs)
  delete-HasUnique p [] h = tt
  delete-HasUnique p (x ∷ xs) h = elim (Bool-cases (p x)) [
    | inl e ↦ rw e (delete-HasUnique p xs h.1)
    | inr e ↦
        rw e (delete-All (λ y. has_key_of (key x) y ≡ false) p xs h.0, delete-HasUnique p xs h.1)
  ]

  -- Rows with one key are one row.
  pub unique_same :
      (xs : List A) → HasUnique xs → All (λ x. All (λ y. has_key_of (key x) y ≡ true → y ≡ x) xs) xs
  unique_same [] h = tt
  unique_same (x ∷ xs) h = (
    ((λ e. refl), All-map (λ y n e. let n' : has_key_of (key x) y ≡ false = n in cc) xs h.0),
    All-map (λ z k. ((λ e. let n = str_eq_sym (key z) (key x) k.0 in cc), k.1)) xs
        (All-both (λ z. has_key_of (key x) z ≡ false)
          (λ z. All (λ y. has_key_of (key z) y ≡ true → y ≡ z) xs) xs h.0 (unique_same xs h.1)),
  )

  module _ (le : A → A → Bool) where
    insert_by-HasUnique :
        (x : A) (xs : List A)
        → All (λ y. has_key_of (key x) y ≡ false) xs
        → HasUnique xs
        → HasUnique (insert_by le x xs)
    unfolding insert_by
    insert_by-HasUnique x [] h u = (tt, tt)
    insert_by-HasUnique x (y ∷ xs) h u = elim (Bool-cases (le x y)) [
      | inl e ↦ rw e (h, u)
      | inr e ↦ rw e (
        insert_by-All le (λ z. has_key_of (key y) z ≡ false) x xs (str_eq_sym (key y) (key x) h.0)
            u.0,
        insert_by-HasUnique x xs h.1 u.1,
      )
    ]

    pub order_by-HasUnique : (xs : List A) → HasUnique xs → HasUnique (order_by le xs)
    unfolding order_by
    order_by-HasUnique [] h = tt
    order_by-HasUnique (x ∷ xs) h =
        insert_by-HasUnique x (order_by le xs)
          (order_by-All le (λ y. has_key_of (key x) y ≡ false) xs h.0) (order_by-HasUnique xs h.1)

  -- A row with one property and a row with the other are one row, if their keys are equal.
  pub unique_pair :
      (Q R : A → Type 0)
      → ((x y : A) → Q x → R y → has_key_of (key x) y ≡ true)
      → (xs : List A) → HasUnique xs
      → Some Q xs
      → Some R xs
      → (x : A) × Q x × R x
  unique_pair Q R same [] u h k = absurd h
  unique_pair Q R same (x ∷ xs) u (inl q) (inl r) = (x, q, r)
  unique_pair Q R same (x ∷ xs) u (inl q) (inr k) =
      let (y, r, n) = Some-All R (λ y. has_key_of (key x) y ≡ false) xs k u.0 in
      absurd (let e = same x y q r in cc)
  unique_pair Q R same (x ∷ xs) u (inr h) (inl r) =
      let (y, q, n) = Some-All Q (λ y. has_key_of (key x) y ≡ false) xs h u.0 in
      absurd (let e = same y x q r in let n' = str_eq_sym (key y) (key x) n in cc)
  unique_pair Q R same (x ∷ xs) u (inr h) (inr k) = unique_pair Q R same xs u.1 h k

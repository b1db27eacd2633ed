-- ===== src/Prelude/Fallible.antt =====
-- Rust's `Result<A, E>`, and its `?`.
use mathlib.Core.Path.{◌≡◌, refl, ap}
use mathlib.Core.Logic.{◌⊎◌, inl, inr}
use mathlib.Core.Option.{Option, none, some}
use mathlib.Core.List.{List, [], ◌∷◌}

pub data Result {ℓ κ} (E : Type κ) (A : Type ℓ) : Type (ℓ ⊔ κ) where
  ok : A → Result E A
  err : E → Result E A

module _ {ℓ κ} {E : Type κ} {A : Type ℓ} where
  -- `ok_or`
  abbrev pub ok_or : Option A → E → Result E A
  ok_or none e = err e
  ok_or (some a) e = ok a

  abbrev pub unwrap_or : A → Result E A → A
  unwrap_or d (ok a) = a
  unwrap_or d (err e) = d

  abbrev pub map_err {ν} : {F : Type ν} → (E → F) → Result E A → Result F A
  map_err f (ok a) = ok a
  map_err f (err e) = err (f e)

-- `?`: the rest runs on a success only.
module _ {ℓ κ ν} {E : Type κ} {A : Type ℓ} {B : Type ν} where
  infixl 5 ◌>>=◌
  abbrev pub ◌>>=◌ : Result E A → (A → Result E B) → Result E B
  err e >>= rest = err e
  ok a >>= rest = rest a

  -- A chain that succeeds has succeeded at each link.
  pub succeeded :
      (r : Result E A) (rest : A → Result E B) {b : B}
      → (r >>= rest) ≡ ok b
      → (a : A) × (r ≡ ok a) × (rest a ≡ ok b)
  succeeded (err e) rest h = cc
  succeeded (ok a) rest h = (a, refl, h)

  -- The same for a proof: what follows from each link and the rest of the chain.
  pub through {ν'} :
      {G : Type ν'} (r : Result E A) (rest : A → Result E B) {b : B}
      → (r >>= rest) ≡ ok b
      → ((a : A) → r ≡ ok a → rest a ≡ ok b → G)
      → G
  through (err e) rest h k = absurd (let bad : err e ≡ ok _ = h in cc)
  through (ok a) rest h k = k a refl h

  -- A link that succeeds is passed.
  pub then_ok : {r : Result E A} {a : A} (rest : A → Result E B) → r ≡ ok a → (r >>= rest) ≡ rest a
  then_ok rest e = ap (λ r. r >>= rest) e

-- Rows converted one by one; the first error ends it, as `?` in a loop does.
unfoldable pub map_rows {ℓ ν κ} :
    {E : Type κ} {A : Type ℓ} {B : Type ν} → (A → Result E B) → List A → Result E (List B)
map_rows f [] = ok []
map_rows f (x ∷ xs) = f x >>= λ y. map_rows f xs >>= λ ys. ok (y ∷ ys)

pub Result-cases {ℓ κ} :
    {E : Type κ} {A : Type ℓ} (r : Result E A) → ((a : A) × (r ≡ ok a)) ⊎ ((e : E) × (r ≡ err e))
Result-cases (ok a) = inl (a, refl)
Result-cases (err e) = inr (e, refl)

pub map_err-ok {ℓ κ ν} :
    {E : Type κ} {F : Type ν} {A : Type ℓ} (f : E → F) (r : Result E A) {a : A}
    → map_err f r ≡ ok a
    → r ≡ ok a
map_err-ok f (ok b) h = cc
map_err-ok f (err e) h = cc

pub ok_injective {ℓ κ} :
    {E : Type κ} {A : Type ℓ} {x y : A} → (let r : Result E A = ok x in r) ≡ ok y → x ≡ y
ok_injective h = cc

pub ok_or-ok {ℓ κ} :
    {E : Type κ} {A : Type ℓ} (o : Option A) (e : E) {a : A} → ok_or o e ≡ ok a → o ≡ some a
ok_or-ok none e h = cc
ok_or-ok (some b) e h = cc

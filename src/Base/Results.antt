-- ===== src/Base/Results.antt =====
-- `Result<A, E>`, with `?` as the bind of a do block.
use mathlib.Core.Path.{◌≡◌, refl}
use mathlib.Core.Logic.{◌⊎◌, inl, inr}

pub data Fallible {ε ℓ} (E : Type ε) (A : Type ℓ) : Type (ε ⊔ ℓ) where
  ok : A → Fallible E A
  err : E → Fallible E A

module _ {ε ℓ} {E : Type ε} {A : Type ℓ} where
  infixl 5 ◌>>=◌
  abbrev pub ◌>>=◌ {κ} : {B : Type κ} → Fallible E A → (A → Fallible E B) → Fallible E B
  err e >>= k = err e
  ok x >>= k = k x

  pub Result-cases : (r : Fallible E A) → ((x : A) × (r ≡ ok x)) ⊎ ((e : E) × (r ≡ err e))
  Result-cases (err e) = inr (e, refl)
  Result-cases (ok x) = inl (x, refl)

  -- A bind that succeeds has two parts that do.
  pub bind-ok {κ} :
      {B : Type κ} (r : Fallible E A) (k : A → Fallible E B) {y : B} (same : (r >>= k) ≡ ok y)
      → (x : A) × (r ≡ ok x) × (k x ≡ ok y)
  bind-ok (err e) k same = cc
  bind-ok (ok x) k same = (x, refl, same)

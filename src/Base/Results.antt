-- ===== src/Base/Results.antt =====
-- A result of a method that may throw. Each error stands for one `throw` of the sources, with the
-- values that its message shows.
use mathlib.Core.Path.{◌≡◌, refl}
use mathlib.Core.Logic.{◌⊎◌, inl, inr}

pub data Result {ε ℓ} (Thrown : Type ε) (Value : Type ℓ) : Type (ε ⊔ ℓ) where
  err : Thrown → Result Thrown Value
  ok : Value → Result Thrown Value

module _ {ε ℓ κ} {Thrown : Type ε} {A : Type ℓ} {B : Type κ} where
  infixl 5 ◌>>=◌
  abbrev pub ◌>>=◌ : Result Thrown A → (A → Result Thrown B) → Result Thrown B
  first >>= next = elim first [ err thrown ↦ err thrown | ok value ↦ next value ]

  -- The first step gave a value, and the rest ended well on it.
  abbrev pub Passes : Result Thrown A → (A → Result Thrown B) → B → Type (ε ⊔ ℓ ⊔ κ)
  Passes first next end = (value : A) × (first ≡ ok value) × (next value ≡ ok end)

  pub >>=-eq-ok :
      (first : Result Thrown A) (next : A → Result Thrown B) {end : B}
      → (first >>= next) ≡ ok end
      → Passes first next end
  >>=-eq-ok (err thrown) next h = cc
  >>=-eq-ok (ok value) next h = (value, refl, h)

module _ {ε ℓ} {Thrown : Type ε} {Value : Type ℓ} where
  pub Result-cases :
      (r : Result Thrown Value)
      → ((value : Value) × (r ≡ ok value)) ⊎ ((thrown : Thrown) × (r ≡ err thrown))
  Result-cases (err thrown) = inr (thrown, refl)
  Result-cases (ok value) = inl (value, refl)

  pub ok-injective : {v w : Value} → ◌≡◌ {A = Result Thrown Value} (ok v) (ok w) → v ≡ w
  ok-injective h = cc

  pub err-injective : {v w : Thrown} → ◌≡◌ {A = Result Thrown Value} (err v) (err w) → v ≡ w
  err-injective h = cc

  pub err-ne-ok : {v : Thrown} {w : Value} → ◌≡◌ {A = Result Thrown Value} (err v) (ok w) → ⊥
  err-ne-ok h = cc

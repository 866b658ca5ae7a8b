-- ===== src/Base/Lists.antt =====
-- Lists measured by native numbers, and the loops over a `vector` that the registries share.
use Prim.Native.Nat.{ℕ, suc, ◌+◌}
use mathlib.Core.Path.{◌≡◌, refl}
use mathlib.Core.Logic.{inl, inr}
use mathlib.Core.Bool.{Bool, true, false, ◌&&◌, ◌||◌}
use mathlib.Core.List.{List, [], ◌∷◌, ◌++◌, map}
use mathlib.Core.Option.{Option, none, some}
use native.Mathlib.Omega.{arith}
use quackapi.Base.Tests.{if◌then◌else◌, Bool-cases}

module _ {ℓ} {A : Type ℓ} where
  abbrev pub length : List A → ℕ
  length [] = 0
  length (x ∷ xs) = suc (length xs)

  abbrev pub any : (A → Bool) → List A → Bool
  any p [] = false
  any p (x ∷ xs) = p x || any p xs

  abbrev pub all : (A → Bool) → List A → Bool
  all p [] = true
  all p (x ∷ xs) = p x && all p xs

  -- The first element that passes, as a loop with `break` finds it.
  abbrev pub find : (A → Bool) → List A → Option A
  find p [] = none
  find p (x ∷ xs) = if p x then some x else find p xs

  -- `*it = v` at the first element that passes.
  abbrev pub replace : (A → Bool) → A → List A → List A
  replace p v [] = []
  replace p v (x ∷ xs) = if p x then v ∷ xs else x ∷ replace p v xs

  -- `erase(it)` at the first element that passes.
  abbrev pub remove : (A → Bool) → List A → List A
  remove p [] = []
  remove p (x ∷ xs) = if p x then xs else x ∷ remove p xs

  -- `erase(remove_if(…), end())`: all that pass.
  abbrev pub remove_if : (A → Bool) → List A → List A
  remove_if p [] = []
  remove_if p (x ∷ xs) = let rest = remove_if p xs in if p x then rest else x ∷ rest

  -- The loop that copies the elements that pass.
  abbrev pub filter : (A → Bool) → List A → List A
  filter p [] = []
  filter p (x ∷ xs) = let rest = filter p xs in if p x then x ∷ rest else rest

  -- How many elements pass.
  abbrev pub count : (A → Bool) → List A → ℕ
  count p [] = 0
  count p (x ∷ xs) = (if p x then 1 else 0) + count p xs

  -- Each element is related to all that follow it.
  abbrev pub Pairwise : (A → A → Bool) → List A → Type 0
  Pairwise r [] = Unit
  Pairwise r (x ∷ xs) = (all (r x) xs ≡ true) × Pairwise r xs

  pub length-append : (xs ys : List A) → length (xs ++ ys) ≡ length xs + length ys
  length-append [] ys = omega arith
  length-append (x ∷ xs) ys = omega (arith, length-append xs ys)

  pub any-append : (p : A → Bool) (xs ys : List A) → any p (xs ++ ys) ≡ (any p xs || any p ys)
  any-append p [] ys = refl
  any-append p (x ∷ xs) ys = ground (arith, any-append p xs ys)

  pub any-find : (p : A → Bool) (xs : List A) → any p xs ≡ false → find p xs ≡ none
  any-find p [] h = refl
  any-find p (x ∷ xs) h = ground (arith, any-find p xs)

  pub find-none : (p : A → Bool) (xs : List A) → find p xs ≡ none → any p xs ≡ false
  find-none p [] h = refl
  find-none p (x ∷ xs) h = ground (arith, find-none p xs)

  pub find_passes : (p : A → Bool) (xs : List A) {a : A} → find p xs ≡ some a → p a ≡ true
  find_passes p [] h = cc
  find_passes p (x ∷ xs) {a} h = elim (Bool-cases (p x)) [
    | inl t ↦ ground arith
    | inr f ↦ find_passes p xs (ground arith)
  ]

-- What holds of every element, after the loops above.
module _ {ℓ} {A : Type ℓ} (p q : A → Bool) where
  pub all-imp :
      ((x : A) → p x ≡ true → q x ≡ true) → (xs : List A) → all p xs ≡ true → all q xs ≡ true
  all-imp h [] k = refl
  all-imp h (x ∷ xs) k = ground (arith, h x, all-imp h xs)

  pub all-remove_if :
      (r : A → Bool)
      → ((x : A) → p x ≡ true → r x ≡ false → q x ≡ true)
      → (xs : List A) → all p xs ≡ true
      → all q (remove_if r xs) ≡ true
  all-remove_if r h [] k = refl
  all-remove_if r h (x ∷ xs) k = elim (Bool-cases (r x)) [
    | inl t ↦ rw t (all-remove_if r h xs (ground arith))
    | inr f ↦ rw f (ground (arith, h x, all-remove_if r h xs))
  ]

  pub all-map :
      (f : A → A)
      → ((x : A) → p x ≡ true → q (f x) ≡ true)
      → (xs : List A) → all p xs ≡ true
      → all q (map f xs) ≡ true
  all-map f h [] k = refl
  all-map f h (x ∷ xs) k = ground (arith, h x, all-map f h xs)

module _ {ℓ} {A : Type ℓ} (p : A → Bool) where
  pub all-append : (xs ys : List A) → all p (xs ++ ys) ≡ (all p xs && all p ys)
  all-append [] ys = refl
  all-append (x ∷ xs) ys = ground (arith, all-append xs ys)

  pub all-remove : (q : A → Bool) (xs : List A) → all p xs ≡ true → all p (remove q xs) ≡ true
  all-remove q [] h = refl
  all-remove q (x ∷ xs) h = ground (arith, all-remove q xs)

  pub all-replace :
      (q : A → Bool) (v : A) (xs : List A)
      → p v ≡ true
      → all p xs ≡ true
      → all p (replace q v xs) ≡ true
  all-replace q v [] h k = refl
  all-replace q v (x ∷ xs) h k = ground (arith, all-replace q v xs)

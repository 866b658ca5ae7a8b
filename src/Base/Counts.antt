-- ===== src/Base/Counts.antt =====
-- Counting the elements that pass, and lists whose elements are related pairwise.
use Prim.Native.Nat.{◌+◌}
use mathlib.Core.Path.{◌≡◌, refl, ◌∙◌}
use mathlib.Core.Bool.{Bool, true, false, ◌&&◌, ◌||◌}
use mathlib.Core.List.{List, [], ◌∷◌, ◌++◌}
use native.Mathlib.Omega.{arith}
use quackapi.Base.Lists.{all, all-append, filter, count, Pairwise}

module _ {ℓ} {A : Type ℓ} where
  pub count-append : (p : A → Bool) (xs ys : List A) → count p (xs ++ ys) ≡ count p xs + count p ys
  count-append p [] ys = omega arith
  count-append p (x ∷ xs) ys = ground (arith, count-append p xs ys)

  pub count-filter :
      (p q : A → Bool) (xs : List A) → count p (filter q xs) ≡ count (λ x. p x && q x) xs
  count-filter p q [] = refl
  count-filter p q (x ∷ xs) = ground (arith, count-filter p q xs)

  -- Two tests that no element passes together.
  pub count-or :
      (p q r : A → Bool)
      → ((x : A) → q x ≡ true → r x ≡ false)
      → (xs : List A)
      → count (λ x. p x && q x) xs + count (λ x. p x && r x) xs
        ≡ count (λ x. p x && (q x || r x)) xs
  count-or p q r apart [] = refl
  count-or p q r apart (x ∷ xs) = ground (arith, count-or p q r apart xs, apart x)

  pub count-same :
      (p q : A → Bool) → ((x : A) → p x ≡ q x) → (xs : List A) → count p xs ≡ count q xs
  count-same p q same [] = refl
  count-same p q same (x ∷ xs) = ground (arith, count-same p q same xs, same x)

  pub Pairwise-append :
      (r : A → A → Bool) (xs ys : List A)
      → Pairwise r xs
      → Pairwise r ys
      → all (λ x. all (r x) ys) xs ≡ true
      → Pairwise r (xs ++ ys)
  Pairwise-append r [] ys h k across = k
  Pairwise-append r (x ∷ xs) ys (h, hs) k across =
      (all-append (r x) xs ys ∙ ground arith, Pairwise-append r xs ys hs k (ground arith))

  pub all-filter :
      (p q r : A → Bool)
      → ((x : A) → p x ≡ true → q x ≡ true → r x ≡ true)
      → (xs : List A) → all p xs ≡ true
      → all r (filter q xs) ≡ true
  all-filter p q r h [] k = refl
  all-filter p q r h (x ∷ xs) k = ground (arith, all-filter p q r h xs, h x)

  everywhere_true : (xs : List A) → all (λ _. true) xs ≡ true
  everywhere_true [] = refl
  everywhere_true (x ∷ xs) = everywhere_true xs

  pub filter-all :
      (q r : A → Bool)
      → ((x : A) → q x ≡ true → r x ≡ true)
      → (xs : List A) → all r (filter q xs) ≡ true
  filter-all q r h xs = all-filter (λ _. true) q r (λ x _. h x) xs (everywhere_true xs)

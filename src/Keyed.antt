-- ===== src/Keyed.antt =====
-- A `vector` of entries with a key, as the registries of quackapi_registry.cpp keep them: the loops of
-- their Add, Drop and Get methods, over the equality of keys that each of them uses.
pub mod Laws
pub mod Presence
pub mod TwoKeys
use quackapi.Base.{
  Bool, true, false, List, [], ◌∷◌, ◌++◌, Option, Result, ok, err, ◌≡◌, any, find, replace, remove,
  if◌then◌else◌,
}

-- What the source relies on of a comparison of keys.
pub record IsEquiv {κ} {K : Type κ} (same : K → K → Bool) : Type κ where
  pub same_refl : (a : K) → same a a ≡ true
  pub same_sym : (a b : K) → same a b ≡ true → same b a ≡ true
  pub same_trans : (a b c : K) → same a b ≡ true → same b c ≡ true → same a c ≡ true

module _ {ℓ κ} {A : Type ℓ} {K : Type κ} (same : K → K → Bool) (key : A → K) where
  abbrev pub named : K → A → Bool
  named k x = same (key x) k

  -- No two entries have the same key.
  abbrev pub Distinct : List A → Type 0
  Distinct [] = Unit
  Distinct (x ∷ xs) = (any (named (key x)) xs ≡ false) × Distinct xs

  -- CREATE [OR REPLACE]: the entry with the key is replaced in place, and a new key goes to the end.
  unfoldable pub upsert {ε} : {E : Type ε} → E → Bool → A → List A → Result E (List A)
  upsert duplicate or_replace v xs =
      if any (named (key v)) xs
      then (if or_replace then ok (replace (named (key v)) v xs) else err duplicate)
      else ok (xs ++ v ∷ [])

  -- Lookup by key.
  abbrev pub get : K → List A → Option A
  get k xs = find (named k) xs

  -- DROP: whether there was such an entry, and the entries left.
  unfoldable pub drop : K → List A → Bool × List A
  drop k xs = (any (named k) xs, remove (named k) xs)

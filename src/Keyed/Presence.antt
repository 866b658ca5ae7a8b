-- ===== src/Keyed/Presence.antt =====
-- Whether a key is there, after an entry is replaced or removed; and comparisons of keys made from others.
use quackapi.Base.{
  Bool, true, false, ◌&&◌, List, [], ◌∷◌, any, replace, remove, ◌≡◌, refl, arith, Bool-cases, inl,
  inr,
}
use quackapi.Keyed.{IsEquiv, named}

module _ {ℓ κ} {A : Type ℓ} {K : Type κ} (same : K → K → Bool) (key : A → K)
    (eq : IsEquiv same) where
  open eq use {same_sym, same_trans}

  -- An entry that takes the place of one with its key changes no key.
  pub any-replace_same :
      (k : K) (v : A) (xs : List A)
      → any (named same key k) (replace (named same key (key v)) v xs) ≡ any (named same key k) xs
  any-replace_same k v [] = refl
  any-replace_same k v (x ∷ xs) = elim (Bool-cases (same (key x) (key v))) [
    | inl t ↦ rw t (
        ground (
          arith,
          same_trans (key x) (key v) k,
          same_trans (key v) (key x) k,
          same_sym (key x) (key v),
        ))
    | inr f ↦ rw (f, any-replace_same k v xs)
  ]

  -- Removing a key leaves every other key there.
  pub any-remove_other :
      (j k : K) (xs : List A)
      → same k j ≡ false
      → any (named same key k) xs ≡ true
      → any (named same key k) (remove (named same key j) xs) ≡ true
  any-remove_other j k [] n h = cc
  any-remove_other j k (x ∷ xs) n h = elim (Bool-cases (same (key x) j)) [
    | inl t ↦ rw t (ground (arith, same_trans k (key x) j, same_sym (key x) k))
    | inr f ↦ rw f (ground (arith, any-remove_other j k xs n))
  ]

-- Keys compared through a function, and pairs of keys.
pub IsEquiv-through {κ μ} :
    {K : Type κ} {L : Type μ} (same : K → K → Bool) (f : L → K)
    → IsEquiv same
    → IsEquiv (λ a b. same (f a) (f b))
IsEquiv-through same f eq = record {
  same_refl = λ a. eq.same_refl (f a);
  same_sym = λ a b. eq.same_sym (f a) (f b);
  same_trans = λ a b c. eq.same_trans (f a) (f b) (f c);
}

pub IsEquiv-pair {κ} :
    {K : Type κ} (same : K → K → Bool)
    → IsEquiv same
    → IsEquiv {K = K × K} (λ a b. same a.0 b.0 && same a.1 b.1)
IsEquiv-pair same eq = record {
  same_refl = λ a. ground (arith, eq.same_refl a.0, eq.same_refl a.1);
  same_sym = λ a b h. ground (arith, eq.same_sym a.0 b.0, eq.same_sym a.1 b.1);
  same_trans = λ a b c h k. ground (arith, eq.same_trans a.0 b.0 c.0, eq.same_trans a.1 b.1 c.1);
}

-- ===== src/Keyed/TwoKeys.antt =====
-- Entries with two keys, a name that CREATE OR REPLACE goes by and a path that no other name may have.
use quackapi.Base.{
  Bool, false, not, ◌&&◌, List, [], ◌∷◌, ◌++◌, any, replace, ◌≡◌, refl, arith, Bool-cases, inl, inr,
}
use quackapi.Keyed.{IsEquiv, named, Distinct}
use quackapi.Keyed.Laws.{any-named, any-replace, append-Distinct}

module _ {ℓ κ μ} {A : Type ℓ} {K : Type κ} {L : Type μ} (same : K → K → Bool) (name : A → K)
    (alike : L → L → Bool) (path : A → L) where
  -- Another name has the path.
  abbrev pub clashes : A → A → Bool
  clashes v it = not (same (name it) (name v)) && alike (path it) (path v)

module _ {ℓ κ μ} {A : Type ℓ} {K : Type κ} {L : Type μ} (same : K → K → Bool) (name : A → K)
    (alike : L → L → Bool) (path : A → L) (eq : IsEquiv same) (eqv : IsEquiv alike) where
  abbrev pub clash : A → A → Bool
  clash = clashes same name alike path

  unnamed_free :
      (v : A) (xs : List A)
      → any (clash v) xs ≡ false
      → any (named same name (name v)) xs ≡ false
      → any (named alike path (path v)) xs ≡ false
  unnamed_free v [] c n = refl
  unnamed_free v (x ∷ xs) c n = ground (arith, unnamed_free v xs)

  pub replace-paths :
      (v : A) (xs : List A)
      → any (clash v) xs ≡ false
      → Distinct same name xs
      → Distinct alike path xs
      → Distinct alike path (replace (named same name (name v)) v xs)
  replace-paths v [] c n p = tt
  replace-paths v (x ∷ xs) c (n, ns) (p, ps) = elim (Bool-cases (same (name x) (name v))) [
    | inl t ↦ rw t (
      unnamed_free v xs (ground arith) (rw (any-named same name eq (name x) (name v) xs t) at n),
      ps,
    )
    | inr f ↦ rw f (
      any-replace alike path eqv (path x) v (named same name (name v)) xs p
          (ground (arith, eqv.same_sym (path v) (path x))),
      replace-paths v xs (ground arith) ns ps,
    )
  ]

  pub append-paths :
      (v : A) (xs : List A)
      → any (clash v) xs ≡ false
      → any (named same name (name v)) xs ≡ false
      → Distinct alike path xs
      → Distinct alike path (xs ++ v ∷ [])
  append-paths v xs c n p = append-Distinct alike path eqv v xs (unnamed_free v xs c n) p

-- ===== src/Keyed/Laws.antt =====
-- The loops of a registry as operations on a finite map.
use quackapi.Base.{
  Bool, true, false, List, [], ◌∷◌, ◌++◌, none, some, ok, err, ◌≡◌, refl, any, find, replace,
  remove, if◌then◌else◌, arith, Bool-cases, inl, inr, any-append, any-find, remove_if, subst, sym,
  err-injective, ok-injective, err-ne-ok, ◌↔◌,
}
use quackapi.Keyed.{IsEquiv, named, Distinct, upsert, get, drop}

pub find-any {ℓ} :
    {A : Type ℓ} (p : A → Bool) (xs : List A) (a : A) → find p xs ≡ some a → any p xs ≡ true
find-any p [] a h = cc
find-any p (x ∷ xs) a h = ground (arith, find-any p xs a)

module _ {ℓ κ} {A : Type ℓ} {K : Type κ} (same : K → K → Bool) (key : A → K)
    (eq : IsEquiv same) where
  open eq use {same_refl, same_sym, same_trans}

  -- Equal keys name the same entries.
  pub any-named :
      (a b : K) (xs : List A)
      → same a b ≡ true
      → any (named same key a) xs ≡ any (named same key b) xs
  any-named a b [] e = refl
  any-named a b (x ∷ xs) e =
      ground
        (arith, any-named a b xs e, same_trans (key x) a b, same_trans (key x) b a, same_sym a b)

  pub any-remove : (p q : A → Bool) (xs : List A) → any p xs ≡ false → any p (remove q xs) ≡ false
  any-remove p q [] h = refl
  any-remove p q (x ∷ xs) h = ground (arith, any-remove p q xs)

  pub any-remove_if :
      (p q : A → Bool) (xs : List A) → any p xs ≡ false → any p (remove_if q xs) ≡ false
  any-remove_if p q [] h = refl
  any-remove_if p q (x ∷ xs) h = elim (Bool-cases (q x)) [
    | inl t ↦ ground (arith, any-remove_if p q xs)
    | inr f ↦ ground (arith, any-remove_if p q xs)
  ]

  pub remove-Distinct :
      (q : A → Bool) (xs : List A) → Distinct same key xs → Distinct same key (remove q xs)
  remove-Distinct q [] h = tt
  remove-Distinct q (x ∷ xs) (n, d) =
      ground (arith, remove-Distinct q xs d, any-remove (named same key (key x)) q xs n)

  pub remove_if-Distinct :
      (q : A → Bool) (xs : List A) → Distinct same key xs → Distinct same key (remove_if q xs)
  remove_if-Distinct q [] h = tt
  remove_if-Distinct q (x ∷ xs) (n, d) =
      ground (arith, remove_if-Distinct q xs d, any-remove_if (named same key (key x)) q xs n)

  pub append-Distinct :
      (v : A) (xs : List A)
      → any (named same key (key v)) xs ≡ false
      → Distinct same key xs
      → Distinct same key (xs ++ v ∷ [])
  append-Distinct v [] n d = (refl, tt)
  append-Distinct v (x ∷ xs) n (m, d) = ground (
    arith,
    append-Distinct v xs,
    any-append (named same key (key x)) xs (v ∷ []),
    same_sym (key v) (key x),
  )

  pub any-replace :
      (k : K) (v : A) (q : A → Bool) (xs : List A)
      → any (named same key k) xs ≡ false
      → same (key v) k ≡ false
      → any (named same key k) (replace q v xs) ≡ false
  any-replace k v q [] n e = refl
  any-replace k v q (x ∷ xs) n e = elim (Bool-cases (q x)) [
    | inl t ↦ rw t (ground arith)
    | inr f ↦ rw f (ground (arith, any-replace k v q xs))
  ]

  pub replace-Distinct :
      (v : A) (xs : List A)
      → Distinct same key xs
      → Distinct same key (replace (named same key (key v)) v xs)
  replace-Distinct v [] d = tt
  replace-Distinct v (x ∷ xs) (n, d) = elim (Bool-cases (same (key x) (key v))) [
    | inl t ↦ rw t (rw (any-named (key x) (key v) xs t) at n, d)
    | inr f ↦ rw f (
      any-replace (key x) v (named same key (key v)) xs n
          (ground (arith, same_sym (key v) (key x))),
      replace-Distinct v xs d,
    )
  ]

  -- Adding an entry keeps the keys distinct.
  pub upsert-Distinct {ε} :
      {E : Type ε} (e : E) (or_replace : Bool) (v : A) (xs : List A) {ys : List A}
      → upsert same key e or_replace v xs ≡ ok ys
      → Distinct same key xs
      → Distinct same key ys
  unfolding upsert
  upsert-Distinct e true v xs {ys} h d = elim (Bool-cases (any (named same key (key v)) xs)) [
    | inl t ↦ subst (Distinct same key) (ok-injective (rw t at h)) (replace-Distinct v xs d)
    | inr f ↦ subst (Distinct same key) (ok-injective (rw f at h)) (append-Distinct v xs f d)
  ]
  upsert-Distinct e false v xs {ys} h d = elim (Bool-cases (any (named same key (key v)) xs)) [
    | inl t ↦ absurd (err-ne-ok (rw t at h))
    | inr f ↦ subst (Distinct same key) (ok-injective (rw f at h)) (append-Distinct v xs f d)
  ]

  -- A replaced entry is found under its key, and the others under theirs.
  pub get-replace :
      (k : K) (v : A) (xs : List A)
      → any (named same key (key v)) xs ≡ true
      → get same key k (replace (named same key (key v)) v xs)
        ≡ (if same (key v) k then some v else get same key k xs)
  get-replace k v [] h = cc
  get-replace k v (x ∷ xs) h = elim (Bool-cases (same (key x) (key v))) [
    | inl t ↦ rw t (
        ground (
          arith,
          same_trans (key x) (key v) k,
          same_trans (key v) (key x) k,
          same_sym (key x) (key v),
        ))
    | inr f ↦
        rw f (ground (arith, get-replace k v xs, same_trans (key x) k (key v), same_sym (key v) k))
  ]

  pub get-append :
      (k : K) (v : A) (xs : List A)
      → any (named same key (key v)) xs ≡ false
      → get same key k (xs ++ v ∷ []) ≡ (if same (key v) k then some v else get same key k xs)
  get-append k v [] h = refl
  get-append k v (x ∷ xs) h =
      ground (arith, get-append k v xs, same_trans (key x) k (key v), same_sym (key v) k)

  -- Lookup after CREATE [OR REPLACE].
  pub get-upsert {ε} :
      {E : Type ε} (e : E) (or_replace : Bool) (v : A) (k : K) (xs : List A) {ys : List A}
      → upsert same key e or_replace v xs ≡ ok ys
      → get same key k ys ≡ (if same (key v) k then some v else get same key k xs)
  unfolding upsert
  get-upsert e true v k xs {ys} h = elim (Bool-cases (any (named same key (key v)) xs)) [
    | inl t ↦ rw (← ok-injective (rw t at h)) (get-replace k v xs t)
    | inr f ↦ rw (← ok-injective (rw f at h)) (get-append k v xs f)
  ]
  get-upsert e false v k xs {ys} h = elim (Bool-cases (any (named same key (key v)) xs)) [
    | inl t ↦ absurd (err-ne-ok (rw t at h))
    | inr f ↦ rw (← ok-injective (rw f at h)) (get-append k v xs f)
  ]

  -- CREATE is refused exactly when the key is taken and OR REPLACE is not given.
  pub upsert-eq-err {ε} :
      {E : Type ε} (e : E) (or_replace : Bool) (v : A) (xs : List A)
      → (upsert same key e or_replace v xs ≡ err e)
        ↔ ((any (named same key (key v)) xs ≡ true) × (or_replace ≡ false))
  unfolding upsert
  upsert-eq-err e true v xs = ground arith
  upsert-eq-err e false v xs = ground arith

  -- Lookup after DROP, where keys are distinct.
  pub get-remove :
      (j k : K) (xs : List A)
      → Distinct same key xs
      → get same key k (remove (named same key j) xs)
        ≡ (if same j k then none else get same key k xs)
  get-remove j k [] d = ground arith
  get-remove j k (x ∷ xs) (n, d) = elim (Bool-cases (same (key x) j)) [
    | inl t ↦ rw t (
        ground (
          arith,
          any-find (named same key k) xs,
          any-named (key x) k xs,
          same_trans (key x) j k,
          same_sym (key x) j,
          same_trans j (key x) k,
        ))
    | inr f ↦ rw f (ground (arith, get-remove j k xs d, same_trans (key x) k j, same_sym j k))
  ]

  -- A key that is not there looks up nothing.
  pub get-absent :
      (j k : K) (xs : List A)
      → any (named same key j) xs ≡ false
      → get same key k xs ≡ (if same j k then none else get same key k xs)
  get-absent j k xs h = elim (Bool-cases (same j k)) [
    | inl t ↦ rw t (any-find (named same key k) xs (rw (any-named j k xs t) at h))
    | inr f ↦ rw f
  ]

  -- DROP says whether there was such an entry, and takes just that key out of the map.
  pub get-drop :
      (j k : K) (xs : List A)
      → Distinct same key xs
      → get same key k (drop same key j xs).1 ≡ (if same j k then none else get same key k xs)
  unfolding drop
  get-drop = get-remove

  pub drop-Distinct :
      (j : K) (xs : List A) → Distinct same key xs → Distinct same key (drop same key j xs).1
  unfolding drop
  drop-Distinct j xs d = remove-Distinct (named same key j) xs d

  -- Equal keys look up the same entry.
  pub get-same : (a b : K) (xs : List A) → same a b ≡ true → get same key a xs ≡ get same key b xs
  get-same a b [] e = refl
  get-same a b (x ∷ xs) e =
      ground
        (arith, get-same a b xs e, same_trans (key x) a b, same_trans (key x) b a, same_sym a b)

  -- The only error is that of a taken key.
  pub upsert-err {ε} :
      {E : Type ε} (e : E) (or_replace : Bool) (v : A) (xs : List A) {f : E}
      → upsert same key e or_replace v xs ≡ err f
      → f ≡ e
  unfolding upsert
  upsert-err e true v xs h = elim (Bool-cases (any (named same key (key v)) xs)) [
    | inl t ↦ absurd (err-ne-ok (sym (rw t at h)))
    | inr f ↦ absurd (err-ne-ok (sym (rw f at h)))
  ]
  upsert-err e false v xs h = elim (Bool-cases (any (named same key (key v)) xs)) [
    | inl t ↦ sym (err-injective (rw t at h))
    | inr f ↦ absurd (err-ne-ok (sym (rw f at h)))
  ]

-- ===== src/Ddl/Prefixes.antt =====
-- Routes in a group, with the group's prefix.
use quackapi.Base.{
  ℕ, zero, suc, true, false, [], ◌∷◌, ◌++◌, length, ok, err, err-ne-ok, ==_iff, append_assoc, ◌≡◌,
  refl, sym, ap, ◌∙◌, subst, arith, Bool-cases, inl, inr,
}
use quackapi.Text.{Text, empty, ends_in, pop_back}
use quackapi.Strings.{StringUtil}
use quackapi.Registry.Graphql.{strip_slashes}
use quackapi.Ddl.{path_has_prefix, is_absolute, absolute, join_group_prefix}

strip_slashes-head :
    (fuel c : ℕ) (s : Text) → (rest : Text) × (strip_slashes fuel (c ∷ s) ≡ c ∷ rest)
unfolding strip_slashes pop_back
strip_slashes-head zero c s = (s, refl)
strip_slashes-head (suc fuel) c [] = ([], refl)
strip_slashes-head (suc fuel) c (d ∷ s) =
    let (rest, e) = strip_slashes-head fuel c (pop_back (d ∷ s)) in
    elim (Bool-cases (ends_in b'/' (c ∷ d ∷ s))) [
      | inl slash ↦ (rest, rw slash (ground (arith, e)))
      | inr other ↦ (d ∷ s, rw other (ground arith))
    ]

-- An absolute path is a slash and what follows it.
is_absolute-split : (path : Text) → is_absolute path ≡ true → (rest : Text) × (path ≡ b'/' ∷ rest)
is_absolute-split [] h = cc
is_absolute-split (c ∷ s) h = (s, ap (λ k. k ∷ s) ((==_iff c b'/').0 h))

absolute-split : (path : Text) → (rest : Text) × (absolute path ≡ b'/' ∷ rest)
absolute-split path = elim (Bool-cases (is_absolute path)) [
  | inl is_path ↦ let (rest, e) = is_absolute-split path is_path in (rest, rw is_path e)
  | inr relative ↦ (path, rw relative refl)
]

module _ (strings : StringUtil) where
  abbrev stripped : Text → Text
  stripped prefix = strip_slashes (length prefix) prefix

  join_ok :
      (prefix path joined : Text)
      → empty path ≡ false
      → join_group_prefix strings prefix path ≡ ok joined
      → (is_absolute prefix ≡ true) × (joined ≡ stripped prefix ++ absolute path)
  unfolding join_group_prefix
  join_ok prefix path joined some_there h = elim (Bool-cases (is_absolute prefix)) [
    | inr relative ↦ absurd (err-ne-ok (rw relative at h))
    | inl is_path ↦ ground arith
  ]

  -- Where JoinGroupPrefix puts a path that is not empty under a prefix, it refuses to put the
  -- result under the same prefix.
  pub join_group_prefix_twice :
      (prefix path joined : Text)
      → empty path ≡ false
      → join_group_prefix strings prefix path ≡ ok joined
      → join_group_prefix strings prefix joined ≡ err (path_has_prefix joined prefix)
  unfolding join_group_prefix
  join_group_prefix_twice prefix path joined some_there h =
      let (absolute_prefix, whole) = join_ok prefix path joined some_there h in
      let (after_slash, prefix_split) = is_absolute-split prefix absolute_prefix in
      let (q, p_split) : (rest : Text) × (stripped prefix ≡ b'/' ∷ rest) =
        subst (λ t. (rest : Text) × (stripped t ≡ b'/' ∷ rest)) (sym prefix_split)
          (strip_slashes-head (length (b'/' ∷ after_slash)) b'/' after_slash) in
      let (t, r_split) = absolute-split path in
      let parts : joined ≡ stripped prefix ++ b'/' ∷ t =
        whole ∙ ap (λ r. stripped prefix ++ r) r_split in
      let front : joined ≡ b'/' ∷ (q ++ b'/' ∷ t) = parts ∙ ap (λ p. p ++ b'/' ∷ t) p_split in
      let some_joined : empty joined ≡ false = ap empty front in
      let absolute_joined : is_absolute joined ≡ true = ap is_absolute front in
      let prefixed : strings.starts_with joined (stripped prefix ++ b'/' ∷ []) ≡ true =
        (strings.starts_with_iff joined (stripped prefix ++ b'/' ∷ [])).1
          (t, parts ∙ sym (append_assoc (stripped prefix) (b'/' ∷ []) t)) in
      rw absolute_prefix (rw some_joined (rw absolute_joined (rw prefixed (ground arith))))

-- ===== src/Registry/Graphql/Fuel.antt =====
-- The fuel of NormalizeGraphqlMountPath's loop.
use quackapi.Base.{
  ℕ, zero, suc, ◌≤◌, ltb, Bool, false, ◌&&◌, [], ◌∷◌, length, ◌≡◌, refl, arith, Bool-cases, inl,
  inr,
}
use quackapi.Text.{Text, ends_in, pop_back}
use quackapi.Registry.Graphql.{strip_slashes, normalize_graphql_mount_path}

-- The test of the loop.
abbrev pub strips : Text → Bool
strips p = ltb 1 (length p) && ends_in b'/' p

length-pop_back : (c : ℕ) (p : Text) → length (pop_back (c ∷ p)) ≡ length p
unfolding pop_back
length-pop_back c [] = refl
length-pop_back c (d ∷ p) = ground (arith, length-pop_back d p)

-- With as much fuel as the path has bytes, the loop ends by its own test.
strip_slashes_ends : (fuel : ℕ) (p : Text) → length p ≤ fuel → strips (strip_slashes fuel p) ≡ false
unfolding strip_slashes
strip_slashes_ends zero [] h = refl
strip_slashes_ends zero (c ∷ p) h = absurd (omega arith)
strip_slashes_ends (suc fuel) [] h = refl
strip_slashes_ends (suc fuel) (c ∷ p) h = elim (Bool-cases (strips (c ∷ p))) [
  | inr stops ↦ rw (stops, strip_slashes) stops
  | inl goes ↦
      rw (goes, strip_slashes)
        (strip_slashes_ends fuel (pop_back (c ∷ p)) (omega (arith, length-pop_back c p)))
]

-- A normalised path has no slash at the end that the loop would take off.
pub normalize_graphql_mount_path_ends :
    (path : Text) → strips (normalize_graphql_mount_path path) ≡ false
unfolding normalize_graphql_mount_path
normalize_graphql_mount_path_ends path = strip_slashes_ends (length path) path (omega arith)

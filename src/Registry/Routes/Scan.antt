-- ===== src/Registry/Routes/Scan.antt =====
-- What the inner loop of AddRoutes finds: it is CREATE [OR REPLACE] on entries keyed by their name,
-- and it refuses a method and pattern that another route uses.
use quackapi.Base.{
  ℕ, suc, ◌+◌, Bool, true, false, not, ◌&&◌, List, [], ◌∷◌, ◌++◌, Option, none, some, ok,
  if◌then◌else◌, any, replace, ◌≡◌, ◌⊎◌, inl, inr, refl, ap, arith, Bool-cases, ◌∙◌,
}
use quackapi.Text.{Text, text_eq}
use quackapi.Text.Laws.{text_eq_refl, text_eq_sym, text_eq_trans, text_eq-IsEquiv}
use quackapi.Keyed.{IsEquiv, named, Distinct}
use quackapi.Keyed.Laws.{any-named, append-Distinct, replace-Distinct}
use quackapi.Keyed.TwoKeys.{replace-paths, append-paths}
use quackapi.Types.{Route}
use quackapi.Registry.Routes.{same_name, same_path, scan, assign, place}

abbrev pub path_eq : Text × Text → Text × Text → Bool
path_eq a b = text_eq a.0 b.0 && text_eq a.1 b.1

pub path_eq-IsEquiv : IsEquiv path_eq
path_eq-IsEquiv = record {
  same_refl = λ a. rw (text_eq_refl a.0, text_eq_refl a.1);
  same_sym = λ a b h. ground (arith, text_eq_sym a.0 b.0, text_eq_sym a.1 b.1);
  same_trans = λ a b c h k. ground (arith, text_eq_trans a.0 b.0 c.0, text_eq_trans a.1 b.1 c.1);
}

module _ {Value : Type 0} where
  abbrev pub name_of : Route Value → Text
  name_of r = r.name

  abbrev pub path_of : Route Value → Text × Text
  path_of r = (r.method, r.pattern)

  abbrev pub DistinctNames : List (Route Value) → Type 0
  DistinctNames rs = Distinct text_eq name_of rs

  abbrev pub DistinctPaths : List (Route Value) → Type 0
  DistinctPaths rs = Distinct path_eq path_of rs

  abbrev pub clashes : Route Value → Route Value → Bool
  clashes route it = not (same_name it route) && same_path it route

module _ {Value : Type 0} (or_replace : Bool) (route : Route Value) where
  -- One round that throws nothing.
  scan-cons :
      (it : Route Value) (rest : List (Route Value)) (i : ℕ) (existing : Option ℕ)
      {found : Option ℕ}
      → scan or_replace route (it ∷ rest) i existing ≡ ok found
      → (scan or_replace route rest (suc i) (if same_name it route then some i else existing)
          ≡ ok found)
        × (clashes route it ≡ false)
  unfolding scan
  scan-cons it rest i existing h = elim (Bool-cases (same_name it route)) [
    | inl same ↦ ground arith
    | inr other ↦ ground arith
  ]

  -- A scan that throws nothing has met no other route with the path.
  pub scan-clashes :
      (rs : List (Route Value)) (i : ℕ) (existing : Option ℕ) {found : Option ℕ}
      → scan or_replace route rs i existing ≡ ok found
      → any (clashes route) rs ≡ false
  scan-clashes [] i existing h = refl
  scan-clashes (it ∷ rest) i existing h =
      let (later, free) = scan-cons it rest i existing h in
      rw free (scan-clashes rest (suc i) (if same_name it route then some i else existing) later)

  -- The position that it leaves in `existing`.
  abbrev Found : List (Route Value) → ℕ → Option ℕ → Option ℕ → Type 0
  Found rs i existing found =
      ((any (named text_eq name_of route.name) rs ≡ false) × (found ≡ existing))
      ⊎ ((j : ℕ) × (any (named text_eq name_of route.name) rs ≡ true)
          × (found ≡ some (i + j))
          × (assign j route rs ≡ replace (named text_eq name_of route.name) route rs))

  scan-Found :
      (rs : List (Route Value)) (i : ℕ) (existing : Option ℕ) {found : Option ℕ}
      → DistinctNames rs
      → scan or_replace route rs i existing ≡ ok found
      → Found rs i existing found
  unfolding scan assign
  scan-Found [] i existing d h = inl (refl, ground arith)
  scan-Found (it ∷ rest) i existing {found} (n, d) h = elim (Bool-cases (same_name it route)) [
    | inl same ↦
        let gone : any (named text_eq name_of route.name) rest ≡ false =
          rw (any-named text_eq name_of text_eq-IsEquiv it.name route.name rest same) at n in
        let later : scan or_replace route rest (suc i) (some i) ≡ ok found =
          rw same at ((scan-cons it rest i existing h).0) in
        elim (scan-Found rest (suc i) (some i) d later) [
          | inl (absent, e) ↦ inr (0, rw same, e ∙ ap some (omega arith), rw same)
          | inr (j, present, e, written) ↦ absurd (true-ne-false present gone)
        ]
    | inr other ↦
        let later : scan or_replace route rest (suc i) existing ≡ ok found =
          rw other at ((scan-cons it rest i existing h).0) in
        elim (scan-Found rest (suc i) existing d later) [
          | inl (absent, e) ↦ inl (rw other absent, e)
          | inr (j, present, e, written) ↦
              inr
                (suc j, rw other present, e ∙ ap some (omega arith), rw other (ap (◌∷◌ it) written))
        ]
  ]
    where
      true-ne-false : {b : Bool} → b ≡ true → b ≡ false → ⊥
      true-ne-false p q = cc

  -- The proposed list after one route is the list of CREATE [OR REPLACE].
  pub place-scan :
      (rs : List (Route Value)) {found : Option ℕ}
      → DistinctNames rs
      → scan or_replace route rs 0 none ≡ ok found
      → place route rs found ≡ (
          if any (named text_eq name_of route.name) rs
          then replace (named text_eq name_of route.name) route rs
          else rs ++ route ∷ [])
  place-scan rs {found} d h = elim (scan-Found rs 0 none d h) [
    | inl (absent, e) ↦ rw (absent, e)
    | inr (j, present, e, written) ↦
        let at_j : found ≡ some j = e ∙ ap some (omega arith) in rw (present, at_j) written
  ]

  -- One round of the outer loop keeps names and paths distinct.
  pub place-Distinct :
      (rs : List (Route Value)) {found : Option ℕ}
      → scan or_replace route rs 0 none ≡ ok found
      → DistinctNames rs
      → DistinctPaths rs
      → DistinctNames (place route rs found) × DistinctPaths (place route rs found)
  place-Distinct rs h n p =
      let clear = scan-clashes rs 0 none h in
      rw (place-scan rs n h) (elim (Bool-cases (any (named text_eq name_of route.name) rs)) [
        | inl present ↦ rw present (
          replace-Distinct text_eq name_of text_eq-IsEquiv route rs n,
          replace-paths text_eq name_of path_eq path_of text_eq-IsEquiv path_eq-IsEquiv route rs
              clear n p,
        )
        | inr absent ↦ rw absent (
          append-Distinct text_eq name_of text_eq-IsEquiv route rs absent n,
          append-paths text_eq name_of path_eq path_of text_eq-IsEquiv path_eq-IsEquiv route rs
              clear absent p,
        )
      ])

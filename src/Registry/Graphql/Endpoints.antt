-- ===== src/Registry/Graphql/Endpoints.antt =====
-- Which mount a request path reaches.
use quackapi.Base.{
  Bool, false, List, [], ◌∷◌, none, some, any, find, length, ◌≡◌, sym, ap, ◌∙◌, arith, Bool-cases,
  Option-cases, ◌⊎◌, inl, inr, length-append, subst, eq_of_some, find_passes,
}
use quackapi.Text.{Text, codes}
use quackapi.Text.Laws.{text_eq_iff}
use quackapi.Strings.{StringUtil}
use quackapi.Types.{GraphqlRoute}
use quackapi.Registry.Graphql.{
  GraphqlState, schema_of, get_graphql_route_by_path, get_graphql_route_by_schema_path,
  normalize_graphql_mount_path,
}
use quackapi.Registry.Graphql.Mounts.{overlaps, overlaps_sym, Apart, IsValid}

found-any :
    (f q : GraphqlRoute → Bool) (rs : List GraphqlRoute) (b : GraphqlRoute)
    → any f rs ≡ false
    → find q rs ≡ some b
    → f b ≡ false
found-any f q [] b n k = cc
found-any f q (r ∷ rs) b n k = elim (Bool-cases (q r)) [
  | inl t ↦ ground arith
  | inr t ↦ found-any f q rs b (ground arith) (ground arith)
]

longer : (p : Text) → p ≡ schema_of p → ⊥
longer p e = absurd (omega (arith, ap length e, length-append p (codes "/schema")))

-- Entries that two searches find are one entry or do not overlap.
found-Apart :
    (p q : GraphqlRoute → Bool) (rs : List GraphqlRoute) (a b : GraphqlRoute)
    → Apart rs
    → find p rs ≡ some a
    → find q rs ≡ some b
    → (a ≡ b) ⊎ (overlaps a b ≡ false)
found-Apart p q [] a b w h k = cc
found-Apart p q (r ∷ rs) a b (n, w) h k = elim (Bool-cases (p r)) [
  | inl here ↦ elim (Bool-cases (q r)) [
    | inl too ↦
        let at_a : some r ≡ some a = rw here at h in
        let at_b : some r ≡ some b = rw too at k in inl (cc)
    | inr later ↦
        let at_a : some r ≡ some a = rw here at h in
        let apart = found-any (overlaps r) q rs b n (rw later at k) in
        inr (subst (λ x. overlaps x b ≡ false) (eq_of_some at_a) apart)
  ]
  | inr later ↦ elim (Bool-cases (q r)) [
    | inl here ↦
        let at_b : some r ≡ some b = rw here at k in
        let apart = found-any (overlaps r) p rs a n (rw later at h) in
        inr (subst (λ x. overlaps a x ≡ false) (eq_of_some at_b) (overlaps_sym r a apart))
    | inr also ↦ found-Apart p q rs a b w (rw later at h) (rw also at k)
  ]
]

-- In a valid state, a request path that reaches a mount reaches no mount's schema.
pub one_endpoint :
    (strings : StringUtil) (path method : Text) (s : GraphqlState) (a : GraphqlRoute)
    → IsValid s
    → get_graphql_route_by_path strings path method s ≡ some a
    → get_graphql_route_by_schema_path path s ≡ none
unfolding get_graphql_route_by_path get_graphql_route_by_schema_path
one_endpoint strings path method s a v h =
    elim (Option-cases (get_graphql_route_by_schema_path path s)) [
      | inl missing ↦ missing
      | inr (b, k) ↦ absurd (clash b k)
    ]
  where
    clash : (b : GraphqlRoute) → get_graphql_route_by_schema_path path s ≡ some b → ⊥
    clash b k =
        let here = find_passes _ s.graphql_routes h in
        let there = find_passes _ s.graphql_routes k in
        let at_a : a.path ≡ normalize_graphql_mount_path path =
          (text_eq_iff _ _).0 (ground arith) in
        let at_b : normalize_graphql_mount_path path ≡ schema_of b.path =
          (text_eq_iff _ _).0 there in
        elim (found-Apart _ _ s.graphql_routes a b v.apart h k) [
          | inl same ↦ longer b.path (ap (λ (r : GraphqlRoute). r.path) (sym same) ∙ at_a ∙ at_b)
          | inr apart ↦
              absurd (ground (arith, (text_eq_iff (schema_of b.path) a.path).1 (sym (at_a ∙ at_b))))
        ]

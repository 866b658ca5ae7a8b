-- ===== src/Registry/Graphql/Mounts.antt =====
-- The named mounts and their URLs.
use quackapi.Base.{
  Bool, true, false, not, ◌&&◌, ◌||◌, List, [], ◌∷◌, ◌++◌, ok, any, all, replace, remove, ◌≡◌, refl,
  ◌∙◌, arith, Bool-cases, Result-cases, inl, inr, any-append, all-append, all-replace, all-remove,
}
use quackapi.Text.{Text, text_eq}
use quackapi.Text.Laws.{text_eq_sym, text_eq-IsEquiv}
use quackapi.Strings.{StringUtil}
use quackapi.Keyed.{Distinct}
use quackapi.Keyed.Laws.{append-Distinct, replace-Distinct, remove-Distinct, any-named, any-remove}
use quackapi.Types.{GraphqlRoute}
use quackapi.Registry.Graphql.{
  GraphqlState, schema_of, route_named, check_others, canonical, register, add_graphql_route,
  drop_graphql_route, is_reserved_graphql_path,
}

abbrev pub mount_name : GraphqlRoute → Text
mount_name r = r.name

-- Two mounts want the same URL for a query or for a schema.
abbrev pub overlaps : GraphqlRoute → GraphqlRoute → Bool
overlaps a b =
    text_eq b.path a.path
    || (text_eq (schema_of b.path) a.path || text_eq b.path (schema_of a.path))

abbrev pub Apart : List GraphqlRoute → Type 0
Apart [] = Unit
Apart (r ∷ rs) = (any (overlaps r) rs ≡ false) × Apart rs

-- Neither URL of the mount is one of the built-in endpoint.
abbrev pub unreserved : GraphqlRoute → Bool
unreserved r =
    not (is_reserved_graphql_path r.path) && not (is_reserved_graphql_path (schema_of r.path))

pub record IsValid (s : GraphqlState) : Type 0 where
  pub names : Distinct text_eq mount_name s.graphql_routes
  pub apart : Apart s.graphql_routes
  pub free : all unreserved s.graphql_routes ≡ true

pub overlaps_sym : (a b : GraphqlRoute) → overlaps a b ≡ false → overlaps b a ≡ false
overlaps_sym a b h = ground (
  arith,
  text_eq_sym a.path b.path,
  text_eq_sym (schema_of a.path) b.path,
  text_eq_sym a.path (schema_of b.path),
)

-- The mounts of other names that stand in the way.
abbrev blocks : GraphqlRoute → GraphqlRoute → Bool
blocks route r = not (route_named route.name r) && overlaps route r

check_others-blocks :
    (route : GraphqlRoute) (rs : List GraphqlRoute)
    → check_others route rs ≡ ok tt
    → any (blocks route) rs ≡ false
unfolding check_others
check_others-blocks route [] h = refl
check_others-blocks route (r ∷ rs) h = ground (arith, check_others-blocks route rs)

Apart-remove : (p : GraphqlRoute → Bool) (rs : List GraphqlRoute) → Apart rs → Apart (remove p rs)
Apart-remove p [] a = tt
Apart-remove p (r ∷ rs) (n, a) = elim (Bool-cases (p r)) [
  | inl t ↦ rw t a
  | inr f ↦
      rw f (any-remove text_eq mount_name text_eq-IsEquiv (overlaps r) p rs n, Apart-remove p rs a)
]

Apart-append :
    (route : GraphqlRoute) (rs : List GraphqlRoute)
    → any (blocks route) rs ≡ false
    → any (route_named route.name) rs ≡ false
    → Apart rs
    → Apart (rs ++ route ∷ [])
Apart-append route [] b n a = (refl, tt)
Apart-append route (r ∷ rs) b n (m, a) = (
  any-append (overlaps r) rs (route ∷ []) ∙ rw m (ground (arith, overlaps_sym route r)),
  Apart-append route rs (ground arith) (ground arith) a,
)

unnamed :
    (route : GraphqlRoute) (rs : List GraphqlRoute)
    → any (blocks route) rs ≡ false
    → any (route_named route.name) rs ≡ false
    → any (overlaps route) rs ≡ false
unnamed route [] b n = refl
unnamed route (r ∷ rs) b n = ground (arith, unnamed route rs)

any-overlaps-replace :
    (r route : GraphqlRoute) (p : GraphqlRoute → Bool) (rs : List GraphqlRoute)
    → any (overlaps r) rs ≡ false
    → overlaps r route ≡ false
    → any (overlaps r) (replace p route rs) ≡ false
any-overlaps-replace r route p [] n o = refl
any-overlaps-replace r route p (x ∷ rs) n o = elim (Bool-cases (p x)) [
  | inl t ↦ rw t (ground arith)
  | inr f ↦ rw f (ground (arith, any-overlaps-replace r route p rs))
]

Apart-replace :
    (route : GraphqlRoute) (rs : List GraphqlRoute)
    → any (blocks route) rs ≡ false
    → Distinct text_eq mount_name rs
    → Apart rs
    → Apart (replace (route_named route.name) route rs)
Apart-replace route [] b d a = tt
Apart-replace route (r ∷ rs) b (n, d) (m, a) = elim (Bool-cases (route_named route.name r)) [
  | inl t ↦ rw t (
    unnamed route rs (ground arith)
        (rw (any-named text_eq mount_name text_eq-IsEquiv r.name route.name rs t) at n),
    a,
  )
  | inr f ↦ rw f (
    any-overlaps-replace r route (route_named route.name) rs m
        (ground (arith, overlaps_sym route r)),
    Apart-replace route rs (ground arith) d a,
  )
]

module _ (strings : StringUtil) where
  register-IsValid :
      (route : GraphqlRoute) (or_replace : Bool) (s : GraphqlState)
      → unreserved route ≡ true
      → IsValid s
      → IsValid (register strings route or_replace s).1
  unfolding register
  register-IsValid route or_replace s u v =
      elim (Result-cases (check_others route s.graphql_routes)) [
        | inr (e, refused) ↦ rw (refused, register) v
        | inl (done, checked) ↦
            let clear = check_others-blocks route s.graphql_routes (checked) in
            elim (Bool-cases (any (route_named route.name) s.graphql_routes)) [
              | inr absent ↦
                  rw (checked, register)
                    (rw absent (record {
                      names =
                          append-Distinct text_eq mount_name text_eq-IsEquiv route s.graphql_routes
                            absent v.names;
                      apart = Apart-append route s.graphql_routes clear absent v.apart;
                      free = all-append unreserved s.graphql_routes (route ∷ []) ∙ rw (v.free, u);
                    }))
              | inl present ↦ elim (Bool-cases or_replace) [
                | inr refuses ↦ rw (checked, register) (rw (present, refuses) v)
                | inl replaces ↦
                    rw (checked, register)
                      (rw (present, replaces)
                        (record {
                          names =
                              replace-Distinct text_eq mount_name text_eq-IsEquiv route
                                s.graphql_routes v.names;
                          apart = Apart-replace route s.graphql_routes clear v.names v.apart;
                          free =
                              all-replace unreserved (route_named route.name) route s.graphql_routes
                                u v.free;
                        }))
              ]
            ]
      ]

  -- AddGraphqlRoute, whether it throws or not, keeps the names of the mounts distinct, the path
  -- and the schema path of each apart from those of every other, and both off the built-in
  -- endpoints.
  pub add_graphql_route-IsValid :
      (route_in : GraphqlRoute) (or_replace : Bool) (s : GraphqlState)
      → IsValid s
      → IsValid (add_graphql_route strings route_in or_replace s).1
  unfolding add_graphql_route
  add_graphql_route-IsValid route_in or_replace s v =
      let route = canonical strings route_in in
      elim (Bool-cases (unreserved route)) [
        | inl free ↦ ground (arith, register-IsValid route or_replace s free v)
        | inr taken ↦ ground arith
      ]

  -- DROP GRAPHQL ROUTE.
  pub drop_graphql_route-IsValid :
      (name : Text) (s : GraphqlState) → IsValid s → IsValid (drop_graphql_route strings name s).1
  unfolding drop_graphql_route
  drop_graphql_route-IsValid name s v =
      elim (Bool-cases (any (route_named name) s.graphql_routes)) [
        | inr absent ↦ rw absent v
        | inl present ↦ rw present (record {
          names =
              remove-Distinct text_eq mount_name text_eq-IsEquiv (route_named name) s.graphql_routes
                v.names;
          apart = Apart-remove (route_named name) s.graphql_routes v.apart;
          free = all-remove unreserved (route_named name) s.graphql_routes v.free;
        })
      ]

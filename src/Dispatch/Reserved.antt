-- ===== src/Dispatch/Reserved.antt =====
-- Which requests the built-in endpoints answer, and the methods that they list.
use quackapi.Base.{
  Bool, true, false, ◌&&◌, ◌||◌, List, [], ◌∷◌, Option, none, some, any, find, if◌then◌else◌, ◌≡◌,
  refl, sym, ap, ◌∙◌, arith, Bool-cases, Option-cases, inl, inr,
}
use quackapi.Text.{Text, codes, text_eq}
use quackapi.Strings.{StringUtil}
use quackapi.Router.{method_list_contains}
use quackapi.Registry.Graphql.{
  GraphqlState, normalize_graphql_mount_path, schema_of, get_graphql_route_by_path,
  get_graphql_route_by_schema_path,
}
use quackapi.Dispatch.{Request, is_some}
use quackapi.Dispatch.BuiltIn.{
  BuiltIn, refusal, options_answer, reads, docs_paths, find_health, find_docs, find_thin,
  find_mount, find_mount_schema, built_in,
}

abbrev pub own_methods : BuiltIn → Option (List Text)
own_methods (refusal methods) = some methods
own_methods (options_answer methods) = some methods
own_methods _ = none

abbrev pub graphql_path : Request → Bool
graphql_path req = text_eq req.path (codes "/graphql") || text_eq req.path (codes "/graphql/")

abbrev pub docs_path : Request → Bool
docs_path req = any (text_eq req.path) docs_paths

-- OPTIONS of a page of the documentation.
abbrev pub docs_options : Request → Bool
docs_options req = text_eq req.method (codes "OPTIONS") && docs_path req

-- The methods that the built-in endpoints list.
abbrev pub own_list : Request → Bool → Text → Bool
own_list req cors m =
    if graphql_path req
    then text_eq (codes "POST") m
      || (cors && text_eq req.method (codes "OPTIONS") && text_eq (codes "OPTIONS") m)
    else text_eq (codes "GET") m
      || text_eq (codes "HEAD") m
      || (cors && text_eq (codes "OPTIONS") m)

is_some-find {ℓ} : {A : Type ℓ} (p : A → Bool) (xs : List A) → is_some (find p xs) ≡ any p xs
is_some-find p [] = refl
is_some-find p (x ∷ xs) = elim (Bool-cases (p x)) [
  | inl on ↦ rw on refl
  | inr off ↦ rw off (is_some-find p xs)
]

is_some-if {ℓ} :
    {A : Type ℓ} (b : Bool) (x : Option A) → is_some (if b then x else none) ≡ (b && is_some x)
is_some-if b x = ground arith

module _ (strings : StringUtil) (health_routes : Bool) (graphql : GraphqlState)
    (req : Request) where
  -- A mount is registered at the path, and takes the method.
  abbrev pub mounted : Bool
  mounted =
      any
        (λ r.
          text_eq r.path (normalize_graphql_mount_path req.path)
          && text_eq r.method (strings.upper req.method))
        graphql.graphql_routes

  abbrev pub schema_mounted : Bool
  schema_mounted =
      any (λ r. text_eq (normalize_graphql_mount_path req.path) (schema_of r.path))
        graphql.graphql_routes

  -- A built-in endpoint answers the request.
  abbrev pub reserved : Bool
  reserved =
      (health_routes
        && reads req
        && (text_eq req.path (codes "/health") || text_eq req.path (codes "/healthz")))
      || (text_eq req.method (codes "POST") && mounted)
      || (reads req && schema_mounted)
      || graphql_path req
      || (reads req
          && (text_eq req.path (codes "/graphql/schema")
              || text_eq req.path (codes "/graphql/schema/")))
      || ((reads req || text_eq req.method (codes "OPTIONS")) && docs_path req)

  find_mount-mounted :
      is_some (find_mount strings graphql req) ≡ (text_eq req.method (codes "POST") && mounted)
  unfolding get_graphql_route_by_path
  find_mount-mounted =
      is_some-if (text_eq req.method (codes "POST"))
        (get_graphql_route_by_path strings req.path req.method graphql)
      ∙ ap (λ b. text_eq req.method (codes "POST") && b) (is_some-find _ graphql.graphql_routes)

  find_mount_schema-mounted :
      is_some (find_mount_schema graphql req) ≡ (reads req && schema_mounted)
  unfolding get_graphql_route_by_schema_path
  find_mount_schema-mounted =
      is_some-if (reads req) (get_graphql_route_by_schema_path req.path graphql)
      ∙ ap (λ b. reads req && b) (is_some-find _ graphql.graphql_routes)

  -- The endpoints that are found one after the other.
  built_in-is_some :
      (cors : Bool)
      → is_some (built_in strings health_routes graphql cors req) ≡ (
          is_some (find_health health_routes req)
          || is_some (find_mount strings graphql req)
          || is_some (find_mount_schema graphql req)
          || is_some (find_thin cors req)
          || is_some (find_docs cors req))
  unfolding built_in
  built_in-is_some cors = elim (Option-cases (find_health health_routes req)) [
    | inr (b, e) ↦ rw (e, built_in) refl
    | inl e1 ↦ elim (Option-cases (find_mount strings graphql req)) [
      | inr (r, e) ↦ rw (e1, e, built_in) refl
      | inl e2 ↦ elim (Option-cases (find_mount_schema graphql req)) [
        | inr (r, e) ↦ rw (e1, e2, e, built_in) refl
        | inl e3 ↦ elim (Option-cases (find_thin cors req)) [
          | inr (b, e) ↦ rw (e1, e2, e3, e, built_in) refl
          | inl e4 ↦ rw (e1, e2, e3, e4, built_in) refl
        ]
      ]
    ]
  ]

  find_health-is_some : is_some (find_health health_routes req) ≡ (
      health_routes
      && reads req
      && (text_eq req.path (codes "/health") || text_eq req.path (codes "/healthz")))
  find_health-is_some = ground arith

  find_thin-is_some :
      (cors : Bool)
      → is_some (find_thin cors req) ≡ (
          graphql_path req
          || (reads req
              && (text_eq req.path (codes "/graphql/schema")
                  || text_eq req.path (codes "/graphql/schema/"))))
  find_thin-is_some cors = ground arith

  find_docs-is_some :
      (cors : Bool)
      → is_some (find_docs cors req)
        ≡ ((reads req || text_eq req.method (codes "OPTIONS")) && docs_path req)
  find_docs-is_some cors = ground arith

  pub built_in-reserved :
      (cors : Bool) → is_some (built_in strings health_routes graphql cors req) ≡ reserved
  built_in-reserved cors =
      built_in-is_some cors
      ∙ rw
          (
            find_health-is_some,
            find_mount-mounted,
            find_mount_schema-mounted,
            find_thin-is_some cors,
            find_docs-is_some cors,
          )
          (ground arith)

  find_thin-lists :
      (cors : Bool) (b : BuiltIn) (methods : List Text) (m : Text)
      → find_thin cors req ≡ some b
      → own_methods b ≡ some methods
      → (graphql_path req ≡ true) × (method_list_contains methods m ≡ own_list req cors m)
  find_thin-lists cors b methods m e h = ground arith

  find_docs-lists :
      (cors : Bool) (b : BuiltIn) (methods : List Text) (m : Text)
      → graphql_path req ≡ false
      → find_docs cors req ≡ some b
      → own_methods b ≡ some methods
      → (docs_options req ≡ true) × (method_list_contains methods m ≡ own_list req cors m)
  find_docs-lists cors b methods m o e h = ground arith

  pub built_in-lists :
      (cors : Bool) (b : BuiltIn) (methods : List Text) (m : Text)
      → built_in strings health_routes graphql cors req ≡ some b
      → own_methods b ≡ some methods
      → ((graphql_path req || docs_options req) ≡ true)
        × (method_list_contains methods m ≡ own_list req cors m)
  unfolding built_in
  built_in-lists cors b methods m e h = elim (Option-cases (find_health health_routes req)) [
    | inr (c, found) ↦ (let same = rw (found, built_in) at e in ground arith)
    | inl e1 ↦ elim (Option-cases (find_mount strings graphql req)) [
      | inr (r, found) ↦ (let same = rw (e1, found, built_in) at e in ground arith)
      | inl e2 ↦ elim (Option-cases (find_mount_schema graphql req)) [
        | inr (r, found) ↦ (let same = rw (e1, e2, found, built_in) at e in ground arith)
        | inl e3 ↦ elim (Option-cases (find_thin cors req)) [
          | inr (c, found) ↦
              let same = rw (e1, e2, e3, found, built_in) at e in
              let (at_graphql, lists) = find_thin-lists cors b methods m (found ∙ same) h in
              (ground arith, lists)
          | inl e4 ↦
              let rest = rw (e1, e2, e3, e4, built_in) at e in
              let (of_docs, lists) =
                find_docs-lists cors b methods m
                  (let missing = sym (find_thin-is_some cors) ∙ ap is_some e4 in ground arith) rest
                  h in
              (ground arith, lists)
        ]
      ]
    ]
  ]

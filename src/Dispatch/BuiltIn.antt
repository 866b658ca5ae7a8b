-- ===== src/Dispatch/BuiltIn.antt =====
-- The endpoints that HandleRequest answers before it looks for a route: health, the GraphQL mounts,
-- the built-in GraphQL endpoint and the documentation; and the whole choice of an answer.
use quackapi.Base.{Bool, ◌&&◌, ◌||◌, List, [], ◌∷◌, ◌++◌, Option, none, some, if◌then◌else◌, any}
use quackapi.Text.{Text, codes, text_eq}
use quackapi.Strings.{StringUtil}
use quackapi.Types.{Route, Stream, GraphqlRoute}
use quackapi.Registry.Graphql.{
  GraphqlState, get_graphql_route_by_path, get_graphql_route_by_schema_path,
}
use quackapi.Dispatch.{Request, Options}
use quackapi.Dispatch.Decide.{Decision, decide}

-- `refusal` and `options_answer` list the methods of a 405 and of a preflight.
pub data BuiltIn : Type 0 where
  health healthz openapi docs redoc thin_graphql thin_schema : BuiltIn
  graphql_mount graphql_mount_schema : GraphqlRoute → BuiltIn
  refusal options_answer : List Text → BuiltIn

pub data Response (Value : Type 0) : Type 0 where
  built_in_answer : BuiltIn → Response Value
  chosen : Decision Value → Response Value

abbrev pub one_of : List Text → Text → Bool
one_of paths path = any (text_eq path) paths

abbrev pub reads : Request → Bool
reads req = text_eq req.method (codes "GET") || text_eq req.method (codes "HEAD")

abbrev pub docs_paths : List Text
docs_paths =
    codes "/openapi.json" ∷ codes "/docs" ∷ codes "/docs/" ∷ codes "/redoc" ∷ codes "/redoc/" ∷ []

-- The answer to OPTIONS: a preflight where CORS is on, a 405 where it is not.
abbrev pub own_options : Bool → List Text → BuiltIn
own_options cors methods =
    if cors then options_answer (methods ++ codes "OPTIONS" ∷ []) else refusal methods

abbrev pub find_health : Bool → Request → Option BuiltIn
find_health health_routes req =
    if health_routes && reads req
    then (if text_eq req.path (codes "/health")
        then some health
        else if text_eq req.path (codes "/healthz")
        then some healthz
        else none)
    else none

abbrev pub find_docs : Bool → Request → Option BuiltIn
find_docs cors req =
    if reads req && text_eq req.path (codes "/openapi.json")
    then some openapi
    else if reads req && one_of (codes "/docs" ∷ codes "/docs/" ∷ []) req.path
    then some docs
    else if reads req && one_of (codes "/redoc" ∷ codes "/redoc/" ∷ []) req.path
    then some redoc
    else if text_eq req.method (codes "OPTIONS") && one_of docs_paths req.path
    then some (own_options cors (codes "GET" ∷ codes "HEAD" ∷ []))
    else none

abbrev pub find_thin : Bool → Request → Option BuiltIn
find_thin cors req =
    if one_of (codes "/graphql" ∷ codes "/graphql/" ∷ []) req.path
    then some (
        if text_eq req.method (codes "POST")
        then thin_graphql
        else if text_eq req.method (codes "OPTIONS")
        then own_options cors (codes "POST" ∷ [])
        else refusal (codes "POST" ∷ []))
    else if reads req && one_of (codes "/graphql/schema" ∷ codes "/graphql/schema/" ∷ []) req.path
    then some thin_schema
    else none

abbrev pub find_mount : StringUtil → GraphqlState → Request → Option GraphqlRoute
find_mount strings graphql req =
    if text_eq req.method (codes "POST")
    then get_graphql_route_by_path strings req.path req.method graphql
    else none

abbrev pub find_mount_schema : GraphqlState → Request → Option GraphqlRoute
find_mount_schema graphql req =
    if reads req then get_graphql_route_by_schema_path req.path graphql else none

module _ (strings : StringUtil) (health_routes : Bool) (graphql : GraphqlState) where
  unfoldable pub built_in : Bool → Request → Option BuiltIn
  built_in cors req = elim (find_health health_routes req) [
    | some b ↦ some b
    | none ↦ elim (find_mount strings graphql req) [
      | some route ↦ some (graphql_mount route)
      | none ↦ elim (find_mount_schema graphql req) [
        | some route ↦ some (graphql_mount_schema route)
        | none ↦ elim (find_thin cors req) [ some b ↦ some b | none ↦ find_docs cors req ]
      ]
    ]
  ]

  unfoldable pub respond :
      {Value : Type 0} → Request → Options → List (Route Value) → List Stream → Response Value
  unfolding built_in
  respond req options routes streams = elim (built_in options.cors req) [
    | some b ↦ built_in_answer b
    | none ↦ chosen (decide req options routes streams)
  ]

-- ===== src/Registry/Graphql.antt =====
-- GraphQL tables and mounts: the allowlist of POST /graphql (AddGraphqlTable, DropGraphqlTable,
-- ClearGraphqlTables, GraphqlAllowlistActive, IsGraphqlTableAllowed) and the named mounts
-- (AddGraphqlRoute, DropGraphqlRoute, GetGraphqlRouteByPath, GetGraphqlRouteBySchemaPath).
pub mod Tables
pub mod Mounts
pub mod Endpoints
pub mod Fuel
use quackapi.Base.{
  ℕ, zero, suc, ltb, Bool, true, false, not, ◌&&◌, ◌||◌, List, [], ◌∷◌, ◌++◌, Option, none, some,
  Result, ok, err, ◌==◌, if◌then◌else◌, any, find, replace, remove, length,
}
use quackapi.Text.{Text, codes, text_eq, empty, ends_in, pop_back}
use quackapi.Strings.{StringUtil}
use quackapi.Types.{GraphqlRoute}
use quackapi.Registry.{
  Error, table_name_empty, graphql_table_exists, graphql_name_empty, graphql_path_relative,
  graphql_tables_empty, graphql_method, graphql_path_reserved, graphql_schema_reserved,
  graphql_path_used, graphql_schema_collides, graphql_route_exists, Outcome,
}

pub record GraphqlState : Type 0 where
  pub graphql_tables : List Text
  pub graphql_routes : List GraphqlRoute

abbrev pub is_table : Text → Text → Bool
is_table table_name t = text_eq t table_name

unfoldable pub add_graphql_table : Text → Bool → GraphqlState → Outcome GraphqlState (Unit {0})
add_graphql_table table_name or_replace s =
    if empty table_name
    then (err table_name_empty, s)
    else if any (is_table table_name) s.graphql_tables
    then (if or_replace then (ok tt, s) else (err (graphql_table_exists table_name), s))
    else (ok tt, record s { graphql_tables = s.graphql_tables ++ table_name ∷ [] })

unfoldable pub drop_graphql_table : Text → GraphqlState → Bool × GraphqlState
drop_graphql_table table_name s =
    if any (is_table table_name) s.graphql_tables
    then (true, record s { graphql_tables = remove (is_table table_name) s.graphql_tables })
    else (false, s)

abbrev pub clear_graphql_tables : GraphqlState → GraphqlState
clear_graphql_tables s = record s { graphql_tables = [] }

abbrev pub is_nil : List Text → Bool
is_nil [] = true
is_nil (_ ∷ _) = false

abbrev pub graphql_allowlist_active : GraphqlState → Bool
graphql_allowlist_active s = not (is_nil s.graphql_tables)

unfoldable pub is_graphql_table_allowed : Text → GraphqlState → Bool
is_graphql_table_allowed table_name s =
    if is_nil s.graphql_tables then true else any (is_table table_name) s.graphql_tables

-- `while (p.size() > 1 && p.back() == '/') p.pop_back();`, on fuel; the size of the path is enough.
unfoldable pub strip_slashes : ℕ → Text → Text
unfolding ends_in pop_back
strip_slashes zero p = p
strip_slashes (suc fuel) p =
    let shorter = strip_slashes fuel (pop_back p) in
    if ltb 1 (length p) && ends_in b'/' p then shorter else p

unfoldable pub normalize_graphql_mount_path : Text → Text
unfolding strip_slashes
normalize_graphql_mount_path path = strip_slashes (length path) path

abbrev pub is_reserved_graphql_path : Text → Bool
is_reserved_graphql_path path =
    text_eq path (codes "/graphql") || text_eq path (codes "/graphql/schema")

abbrev pub schema_of : Text → Text
schema_of path = path ++ codes "/schema"

abbrev pub absolute : Text → Bool
absolute [] = false
absolute (c ∷ _) = c == b'/'

abbrev pub route_named : Text → GraphqlRoute → Bool
route_named name r = text_eq r.name name

-- The loop over the other mounts: the first one with the path, or whose schema URL is in the way.
unfoldable pub check_others : GraphqlRoute → List GraphqlRoute → Result Error (Unit {0})
check_others route [] = ok tt
check_others route (existing ∷ rest) =
    let later = check_others route rest in
    if text_eq existing.name route.name
    then later
    else if text_eq existing.path route.path
    then err (graphql_path_used route.path existing.name)
    else if text_eq (schema_of existing.path) route.path
        || text_eq existing.path (schema_of route.path)
    then err (graphql_schema_collides route.path existing.name)
    else later

module _ (strings : StringUtil) where
  -- `route`, with its path normalised and its method in upper case.
  abbrev pub canonical : GraphqlRoute → GraphqlRoute
  canonical route_in = record route_in {
    path = normalize_graphql_mount_path route_in.path;
    method = strings.upper route_in.method;
  }

  -- From the lock on.
  unfoldable pub register : GraphqlRoute → Bool → GraphqlState → Outcome GraphqlState (Unit {0})
  register route or_replace s = elim (check_others route s.graphql_routes) [
    | err e ↦ (err e, s)
    | ok _ ↦
        if any (route_named route.name) s.graphql_routes
        then (if or_replace
            then (
              ok tt,
              record s { graphql_routes = replace (route_named route.name) route s.graphql_routes },
            )
            else (err (graphql_route_exists route.name), s))
        else (ok tt, record s { graphql_routes = s.graphql_routes ++ route ∷ [] })
  ]

  unfoldable pub add_graphql_route :
      GraphqlRoute → Bool → GraphqlState → Outcome GraphqlState (Unit {0})
  add_graphql_route route_in or_replace s =
      let route = canonical route_in in
      if empty route_in.name
      then (err graphql_name_empty, s)
      else if not (absolute route_in.path)
      then (err graphql_path_relative, s)
      else if is_nil route_in.tables
      then (err graphql_tables_empty, s)
      else if not (text_eq route.method (codes "POST"))
      then (err (graphql_method route.method), s)
      else if is_reserved_graphql_path route.path
      then (err (graphql_path_reserved route.path), s)
      else if is_reserved_graphql_path (schema_of route.path)
      then (err (graphql_schema_reserved route.path), s)
      else register route or_replace s

  unfoldable pub drop_graphql_route : Text → GraphqlState → Bool × GraphqlState
  drop_graphql_route name s =
      if any (route_named name) s.graphql_routes
      then (true, record s { graphql_routes = remove (route_named name) s.graphql_routes })
      else (false, s)

  unfoldable pub get_graphql_route_by_path : Text → Text → GraphqlState → Option GraphqlRoute
  get_graphql_route_by_path path method s =
      find
        (λ r.
          text_eq r.path (normalize_graphql_mount_path path)
          && text_eq r.method (strings.upper method))
        s.graphql_routes

unfoldable pub get_graphql_route_by_schema_path : Text → GraphqlState → Option GraphqlRoute
get_graphql_route_by_schema_path path s =
    find (λ r. text_eq (normalize_graphql_mount_path path) (schema_of r.path)) s.graphql_routes

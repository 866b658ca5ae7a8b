-- ===== src/Tests/Registry.antt =====
-- The registries on a few entries.
use quackapi.Base.{
  ℕ, true, false, [], ◌∷◌, none, some, ok, err, ◌≡◌, ◌⊎◌, inr, refl, any, if◌then◌else◌,
}
use quackapi.Text.{Text, codes, text_eq, ends_in, pop_back}
use quackapi.Strings.Ascii.{ascii, to_upper}
use quackapi.Keyed.{get}
use quackapi.Types.{Route, Stream, sse, Queue, GraphqlRoute}
use quackapi.RateLimit.{lookup, rate_key}
use quackapi.Registry.{Error}
use quackapi.Registry.Routes.{RouteState, add_routes, has_name, propose, scan, place, assign}
use quackapi.Registry.Routes.Scan.{name_of}
use quackapi.Registry.Routes.Laws.{IsValid, latest, add_routes_atomic, add_routes-counters}
use quackapi.Registry.Graphql.{
  GraphqlState, add_graphql_route, register, check_others, get_graphql_route_by_path,
  get_graphql_route_by_schema_path, strip_slashes, normalize_graphql_mount_path,
}
use quackapi.Registry.Graphql.Mounts
use quackapi.Registry.Graphql.Endpoints
use quackapi.Tests.Routes.{route_of_method}

abbrev orders : Route ℕ
orders = route_of_method (codes "orders") (codes "GET") (codes "/orders")

abbrev moved : Route ℕ
moved = route_of_method (codes "orders") (codes "GET") (codes "/v2/orders")

abbrev users : Route ℕ
users = route_of_method (codes "users") (codes "GET") (codes "/users")

abbrev one_route : RouteState ℕ
one_route = record {
  routes = orders ∷ users ∷ [];
  routes_live = some (orders ∷ users ∷ []);
  rate_limit_entries = (codes "6:orders|ip:ann", record { count = 1; expires = 1000 }) ∷ [];
}

one_route-IsValid : IsValid one_route
unfolding text_eq
one_route-IsValid = record {
  names = (refl, (refl, tt));
  paths = (refl, (refl, tt));
  published = inr refl;
}

replaced : (add_routes ascii (moved ∷ []) true one_route).0 ≡ ok tt
unfolding add_routes propose scan place assign text_eq
replaced = refl

add_routes_atomic_example :
    ((e : Error) × (add_routes ascii (moved ∷ []) true one_route ≡ (err e, one_route)))
    ⊎ (((add_routes ascii (moved ∷ []) true one_route).0 ≡ ok tt)
        × ((k : Text)
            → get text_eq name_of k (add_routes ascii (moved ∷ []) true one_route).1.routes
              ≡ latest k (moved ∷ []) (get text_eq name_of k (orders ∷ users ∷ [])))
        × ((add_routes ascii (moved ∷ []) true one_route).1.routes_live
            ≡ some (add_routes ascii (moved ∷ []) true one_route).1.routes))
add_routes_atomic_example = add_routes_atomic ascii (moved ∷ []) true one_route one_route-IsValid

add_routes-counters_example :
    lookup
      (rate_key (codes "orders") (codes "ip:ann"))
      (add_routes ascii (moved ∷ []) true one_route).1.rate_limit_entries
    ≡ (if any (has_name (codes "orders")) (moved ∷ [])
        then none
        else lookup (rate_key (codes "orders") (codes "ip:ann")) one_route.rate_limit_entries)
add_routes-counters_example =
    add_routes-counters ascii (moved ∷ []) true one_route (codes "orders") (codes "ip:ann") replaced

abbrev ticks : Stream
ticks = record {
  name = codes "ticks";
  method = codes "GET";
  pattern = codes "/ticks";
  handler_sql = codes "SELECT 1";
  interval_ms = 1000;
  transport = sse;
}

abbrev mail : Queue
mail = record {
  name = codes "mail";
  max_attempts = 3;
  visibility_timeout_sec = 30;
  backoff_base_sec = 2;
}

abbrev mount : GraphqlRoute
mount = record {
  name = codes "main";
  method = codes "post";
  path = codes "/api/graphql/";
  tables = codes "t" ∷ [];
  require_auth = [];
  limit = 100;
}

abbrev no_graphql : GraphqlState
no_graphql = record { graphql_tables = codes "t" ∷ []; graphql_routes = [] }

no_graphql-IsValid : Mounts.IsValid no_graphql
no_graphql-IsValid = record { names = tt; apart = tt; free = refl }

add_graphql_route-IsValid_example :
    Mounts.IsValid (add_graphql_route ascii mount false no_graphql).1
add_graphql_route-IsValid_example =
    Mounts.add_graphql_route-IsValid ascii mount false no_graphql no_graphql-IsValid

abbrev mounted : GraphqlRoute
mounted = record mount { method = codes "POST"; path = codes "/api/graphql" }

mount_found :
    get_graphql_route_by_path ascii
      (codes "/api/graphql/")
      (codes "post")
      (add_graphql_route ascii mount false no_graphql).1
    ≡ some mounted
unfolding add_graphql_route register check_others get_graphql_route_by_path
    normalize_graphql_mount_path strip_slashes ends_in pop_back to_upper text_eq
mount_found = refl

one_endpoint_example :
    get_graphql_route_by_schema_path
      (codes "/api/graphql/")
      (add_graphql_route ascii mount false no_graphql).1
    ≡ none
one_endpoint_example =
    Endpoints.one_endpoint ascii (codes "/api/graphql/") (codes "post")
      (add_graphql_route ascii mount false no_graphql).1 mounted
      (Mounts.add_graphql_route-IsValid ascii mount false no_graphql no_graphql-IsValid) mount_found

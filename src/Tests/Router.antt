-- ===== src/Tests/Router.antt =====
-- Patterns, paths and the choice of a handler on a small set of routes.
use quackapi.Base.{
  ℕ, true, false, List, [], ◌∷◌, some, ◌≡◌, ◌↔◌, ◌≤◌, refl, any, all, arith, ltb, not, min, ◌&&◌,
  ◌||◌, if◌then◌else◌,
}
use quackapi.Text.{codes, text_eq, ends_in, pop_back}
use quackapi.Types.{Route, Stream, GraphqlRoute, sse}
use quackapi.Router.{
  Captures, split_path, match_pattern, match_segments, has_trailing_slash, strip_trailing_slash,
  capture_name, method_list_contains,
}
use quackapi.Router.Split.{segment_ok}
use quackapi.Router.Matching.{Binds, literal, bind, done, match_pattern_iff, captures-ok}
use quackapi.Dispatch.{
  Request, Options, search_all, scan_routes, scan_streams, route_step, stream_step, auto_head,
}
use quackapi.Dispatch.Decide.{decide, serve_route, effective_body_limit, hard_limit, limit_of}
use quackapi.Dispatch.Limit.{payload_limit}
use quackapi.Dispatch.Seen.{payload_limit-effective_body_limit}
use quackapi.Dispatch.Answers.{Answers}
use quackapi.Dispatch.Choice.{decide-Answers, decide_serves}
use quackapi.Dispatch.Precedence.{decide-last}
use quackapi.Dispatch.Lost.{lost, redirected, known_path, followed, redirect_settles}
use quackapi.Dispatch.BuiltIn.{built_in, respond}
use quackapi.Dispatch.Reserved.{graphql_path, docs_options, own_list, reserved}
use quackapi.Dispatch.Respond.{listed, unrouted, route_list, listed-respond, unrouted-respond}
use quackapi.Registry.Graphql.{
  GraphqlState, get_graphql_route_by_schema_path, normalize_graphql_mount_path, strip_slashes,
}
use quackapi.Strings.Ascii.{ascii}
use quackapi.Dispatch.Methods.{ws_on_path}
use quackapi.Tests.Routes.{route_of_method}

abbrev user_42 : Captures
user_42 = (codes "id", codes "42") ∷ []

match_user : match_pattern (codes "/users/{id}") (codes "/users/42") ≡ some user_42
unfolding match_pattern match_segments split_path has_trailing_slash capture_name text_eq ends_in
    pop_back
match_user = refl

match_pattern_iff_example :
    (match_pattern (codes "/users/{id}") (codes "/users/42") ≡ some user_42) ↔ (
      (has_trailing_slash (codes "/users/{id}") ≡ has_trailing_slash (codes "/users/42"))
      × Binds (split_path (codes "/users/{id}")) (split_path (codes "/users/42")) user_42)
match_pattern_iff_example = match_pattern_iff (codes "/users/{id}") (codes "/users/42") user_42

captures-ok_example : all (λ c. segment_ok c.1) user_42 ≡ true
captures-ok_example = captures-ok (codes "/users/{id}") (codes "/users/42") user_42 match_user

user_bound : Binds (split_path (codes "/users/{id}")) (codes "users" ∷ codes "42" ∷ []) user_42
unfolding split_path capture_name ends_in pop_back
user_bound = literal refl (bind refl done)

abbrev by_id : Route ℕ
by_id = route_of_method (codes "by_id") (codes "GET") (codes "/users/:id")

abbrev create : Route ℕ
create = route_of_method (codes "create") (codes "POST") (codes "/users")

abbrev me : Route ℕ
me = route_of_method (codes "me") (codes "GET") (codes "/users/me")

abbrev ticks : Stream
ticks = record {
  name = codes "ticks";
  method = codes "GET";
  pattern = codes "/ticks";
  handler_sql = codes "SELECT 1";
  interval_ms = 1000;
  transport = sse;
}

abbrev get_me : Request
get_me = record { method = codes "GET"; path = codes "/users/me"; query = []; body_size = 0 }

abbrev put_me : Request
put_me = record get_me { method = codes "PUT" }

abbrev get_slash : Request
get_slash = record get_me { path = codes "/users/me/" }

abbrev options : Options
options = record { cors = false; max_request_bytes = 8388608 }

abbrev routes : List (Route ℕ)
routes = me ∷ create ∷ by_id ∷ []

abbrev me_as_id : Captures
me_as_id = (codes "id", codes "me") ∷ []

runs_last : decide get_me options routes (ticks ∷ []) ≡ serve_route by_id me_as_id
unfolding decide search_all scan_routes scan_streams route_step stream_step auto_head match_pattern
    match_segments split_path has_trailing_slash capture_name text_eq ends_in pop_back
runs_last = refl

decide-Answers_example :
    Answers get_me routes by_id me_as_id × (0 ≤ min (limit_of options by_id) (hard_limit options))
decide-Answers_example = decide-Answers get_me options routes (ticks ∷ []) by_id me_as_id runs_last

decide_serves_example :
    (route : Route ℕ) × (captures : Captures) × (decide get_me options routes (ticks ∷ [])
      ≡ serve_route route captures)
unfolding match_pattern match_segments split_path has_trailing_slash capture_name text_eq ends_in
    pop_back
decide_serves_example = decide_serves get_me options routes (ticks ∷ []) refl (omega arith) refl

decide-last_example :
    decide get_me options (me ∷ create ∷ by_id ∷ []) (ticks ∷ []) ≡ serve_route by_id me_as_id
unfolding match_pattern match_segments split_path has_trailing_slash capture_name text_eq ends_in
    pop_back
decide-last_example =
    decide-last get_me options (me ∷ create ∷ []) (ticks ∷ []) by_id me_as_id refl refl
      (omega arith) refl

-- A GraphQL mount.
abbrev shop : GraphqlRoute
shop = record {
  name = codes "shop";
  path = codes "/shop";
  method = codes "POST";
  tables = codes "items" ∷ [];
  require_auth = [];
  limit = 0;
}

abbrev mounts : GraphqlState
mounts = record { graphql_tables = []; graphql_routes = shop ∷ [] }

put_me_refused :
    listed (respond ascii true mounts put_me options routes (ticks ∷ []))
    ≡ some (codes "GET" ∷ codes "HEAD" ∷ [])
unfolding respond built_in decide search_all scan_routes scan_streams route_step stream_step
    auto_head match_pattern match_segments split_path has_trailing_slash capture_name text_eq
    ends_in pop_back
put_me_refused = refl

listed-respond_example : method_list_contains (codes "GET" ∷ codes "HEAD" ∷ []) (codes "HEAD") ≡ (
    if graphql_path put_me || docs_options put_me
    then own_list put_me false (codes "HEAD")
    else route_list ascii true mounts put_me options routes (ticks ∷ []) (codes "HEAD"))
unfolding text_eq
listed-respond_example =
    listed-respond ascii true mounts put_me options routes (ticks ∷ [])
      (codes "GET" ∷ codes "HEAD" ∷ []) (codes "HEAD") refl put_me_refused

-- GET on the built-in GraphQL endpoint, which has no route.
get_graphql :
    listed (
      respond ascii true mounts
        (record get_me { path = codes "/graphql" })
        options
        routes
        (ticks ∷ []))
    ≡ some (codes "POST" ∷ [])
unfolding respond built_in get_graphql_route_by_schema_path normalize_graphql_mount_path
    strip_slashes text_eq ends_in pop_back
get_graphql = refl

unrouted-respond_example :
    unrouted (respond ascii true mounts get_slash options routes (ticks ∷ [])) ≡ (
      not (reserved ascii true mounts get_slash)
      && not (ltb (effective_body_limit options (search_all get_slash routes (ticks ∷ []))) 0)
      && not (known_path get_slash options routes (ticks ∷ []))
      && (text_eq (codes "GET") (codes "OPTIONS") || not (any (ws_on_path get_slash) (ticks ∷ []))))
unfolding text_eq
unrouted-respond_example =
    unrouted-respond ascii true mounts get_slash options routes (ticks ∷ []) refl

slash_redirected : redirected (decide get_slash options routes (ticks ∷ [])) ≡ true
unfolding decide search_all scan_routes scan_streams route_step stream_step auto_head match_pattern
    match_segments split_path has_trailing_slash strip_trailing_slash capture_name text_eq ends_in
    pop_back
slash_redirected = refl

redirect_settles_example : lost (decide (followed get_slash) options routes (ticks ∷ [])) ≡ false
unfolding text_eq
redirect_settles_example =
    redirect_settles get_slash options routes (ticks ∷ []) refl slash_redirected

payload_limit-effective_body_limit_example :
    payload_limit get_me options routes
    ≡ effective_body_limit options (search_all get_me routes (ticks ∷ []))
unfolding text_eq
payload_limit-effective_body_limit_example =
    payload_limit-effective_body_limit get_me options routes (ticks ∷ []) refl

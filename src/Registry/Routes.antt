-- ===== src/Registry/Routes.antt =====
-- Routes: AddRoute, AddRoutes, DropRoute, PublishRoutes, LiveRoutes and SnapshotRoutes, with the
-- counters of the rate limiter that they clear.
pub mod Scan
pub mod Laws
use quackapi.Base.{
  ℕ, zero, suc, ◌+◌, Bool, true, false, not, ◌&&◌, List, [], ◌∷◌, ◌++◌, Option, none, some, Result,
  ok, err, ◌>>=◌, if◌then◌else◌, any, remove,
}
use quackapi.Text.{Text, text_eq}
use quackapi.Strings.{StringUtil}
use quackapi.RateLimit.{Entries, clear_route_rate_limit}
use quackapi.Types.{Route}
use quackapi.Registry.{Error, route_exists, route_path_used, Outcome}

-- `routes_live` is null until the first publication.
pub record RouteState (Value : Type 0) : Type 0 where
  pub routes : List (Route Value)
  pub routes_live : Option (List (Route Value))
  pub rate_limit_entries : Entries

module _ {Value : Type 0} where
  abbrev pub same_name : Route Value → Route Value → Bool
  same_name it route = text_eq it.name route.name

  abbrev pub same_path : Route Value → Route Value → Bool
  same_path it route = text_eq it.method route.method && text_eq it.pattern route.pattern

  -- The inner loop of AddRoutes from position `i` on, with the `existing` found so far.
  unfoldable pub scan :
      Bool → Route Value → List (Route Value) → ℕ → Option ℕ → Result Error (Option ℕ)
  scan or_replace route [] i existing = ok existing
  scan or_replace route (it ∷ rest) i existing =
      let later =
        scan or_replace route rest (suc i) (if same_name it route then some i else existing) in
      if same_name it route
      then (if or_replace then later else err (route_exists route.name))
      else if same_path it route
      then err (route_path_used route.method route.pattern it.name)
      else later

  -- `*existing = route`
  unfoldable pub assign : ℕ → Route Value → List (Route Value) → List (Route Value)
  assign i route [] = []
  assign zero route (it ∷ rest) = route ∷ rest
  assign (suc i) route (it ∷ rest) = it ∷ assign i route rest

  abbrev pub place : Route Value → List (Route Value) → Option ℕ → List (Route Value)
  place route proposed none = proposed ++ route ∷ []
  place route proposed (some i) = assign i route proposed

  -- The outer loop of AddRoutes over the private copy.
  unfoldable pub propose :
      Bool → List (Route Value) → List (Route Value) → Result Error (List (Route Value))
  propose or_replace [] proposed = ok proposed
  propose or_replace (route ∷ rest) proposed = do
    existing ← scan or_replace route proposed 0 none
    propose or_replace rest (place route proposed existing)

  abbrev pub publish_routes : RouteState Value → RouteState Value
  publish_routes s = record s { routes_live = some s.routes }

  abbrev pub live_routes : RouteState Value → List (Route Value) × RouteState Value
  live_routes s = elim s.routes_live [ some live ↦ (live, s) | none ↦ (s.routes, publish_routes s) ]

  abbrev pub snapshot_routes : RouteState Value → List (Route Value) × RouteState Value
  snapshot_routes s = live_routes s

  abbrev pub has_name : Text → Route Value → Bool
  has_name name it = text_eq it.name name

  module _ (strings : StringUtil) where
    unfoldable pub clear_all : List (Route Value) → Entries → Entries
    clear_all [] m = m
    clear_all (route ∷ rest) m = clear_all rest (clear_route_rate_limit strings route.name m)

    unfoldable pub add_routes :
        List (Route Value) → Bool → RouteState Value → Outcome (RouteState Value) (Unit {0})
    add_routes new_routes or_replace s = elim (propose or_replace new_routes s.routes) [
      | err e ↦ (err e, s)
      | ok proposed ↦ (
        ok tt,
        record s {
          routes = proposed;
          routes_live = some proposed;
          rate_limit_entries = clear_all new_routes s.rate_limit_entries;
        },
      )
    ]

    abbrev pub add_route :
        Route Value → Bool → RouteState Value → Outcome (RouteState Value) (Unit {0})
    add_route route or_replace s = add_routes (route ∷ []) or_replace s

    unfoldable pub drop_route : Text → RouteState Value → Bool × RouteState Value
    drop_route name s =
        if any (has_name name) s.routes
        then (
          true,
          record s {
            routes = remove (has_name name) s.routes;
            routes_live = some (remove (has_name name) s.routes);
            rate_limit_entries = clear_route_rate_limit strings name s.rate_limit_entries;
          },
        )
        else (false, s)

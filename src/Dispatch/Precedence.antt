-- ===== src/Dispatch/Precedence.antt =====
-- Which of several routes that answer a request is run.
use quackapi.Base.{
  ◌≤◌, min, true, false, List, [], ◌∷◌, ◌++◌, some, ◌≡◌, refl, sym, ap, ◌∙◌, subst, arith,
}
use quackapi.Text.{codes, text_eq}
use quackapi.Types.{Route, Stream}
use quackapi.Router.{Captures, match_pattern}
use quackapi.Dispatch.{
  Request, Options, Found, route_step, scan_routes, scan_streams, nothing, search_all,
}
use quackapi.Dispatch.Decide.{
  serve_route, route_body_limit, limit_of, hard_limit, effective_body_limit, decide,
}
use quackapi.Dispatch.Seen.{auto_head-match, scan_streams-match}
use quackapi.Dispatch.Choice.{decide-found}

module _ {Value : Type 0} (req : Request) where
  scan_routes-append :
      (routes : List (Route Value)) (route : Route Value) (f : Found Value)
      → scan_routes req (routes ++ route ∷ []) f ≡ route_step req route (scan_routes req routes f)
  unfolding scan_routes
  scan_routes-append [] route f = refl
  scan_routes-append (r ∷ routes) route f = scan_routes-append routes route (route_step req r f)

  route_step-taken :
      (route : Route Value) (captures : Captures) (f : Found Value)
      → text_eq route.method req.method ≡ true
      → match_pattern route.pattern req.path ≡ some captures
      → (route_step req route f).match ≡ some (route, captures)
  unfolding route_step
  route_step-taken route captures f same matched = rw (matched, route_step) (rw same refl)

  search_all-match :
      (routes : List (Route Value)) (streams : List Stream) (p : Route Value × Captures)
      → (scan_routes req routes (nothing req)).match ≡ some p
      → (search_all req routes streams).match ≡ some p
  unfolding search_all
  search_all-match routes streams p found =
      let first = scan_routes req routes (nothing req) in
      rw
        (
          auto_head-match req routes streams (scan_streams req streams first),
          scan_streams-match req streams first,
          found,
        )
        refl

  -- For a request that no built-in endpoint answers, where the route that was registered last has its
  -- method, which is not OPTIONS, and matches its path, and the body is within the limits of that
  -- route and of the server, that route is chosen, whatever other routes match.
  pub decide-last :
      (options : Options) (routes : List (Route Value)) (streams : List Stream)
      (route : Route Value) (captures : Captures)
      → text_eq route.method req.method ≡ true
      → match_pattern route.pattern req.path ≡ some captures
      → req.body_size ≤ min (limit_of options route) (hard_limit options)
      → text_eq req.method (codes "OPTIONS") ≡ false
      → decide req options (routes ++ route ∷ []) streams ≡ serve_route route captures
  decide-last options routes streams route captures same matched fits other =
      let all = routes ++ route ∷ [] in
      let last : (scan_routes req all (nothing req)).match ≡ some (route, captures) =
        ap (λ f. f.match) (scan_routes-append routes route (nothing req))
        ∙ route_step-taken route captures (scan_routes req routes (nothing req)) same matched in
      let found : (search_all req all streams).match ≡ some (route, captures) =
        search_all-match all streams (route, captures) last in
      let within : req.body_size ≤ effective_body_limit options (search_all req all streams) =
        subst (λ m. req.body_size ≤ min (route_body_limit options m) (hard_limit options))
          (sym found) fits in
      decide-found req options all streams route captures found (ground arith) other

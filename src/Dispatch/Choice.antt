-- ===== src/Dispatch/Choice.antt =====
-- Which route a request reaches.
use quackapi.Base.{
  ltb, ◌≤◌, min, Bool, true, false, ◌&&◌, ◌||◌, List, Option, none, some, if◌then◌else◌, any, ◌≡◌,
  subst, refl, sym, ap, ◌∙◌, arith, Bool-cases, Option-cases, inl, inr,
}
use quackapi.Text.{codes, text_eq}
use quackapi.Types.{Route, Stream}
use quackapi.Router.{Captures, matches}
use quackapi.Dispatch.{
  Request, Options, Found, is_some, scan_routes, scan_streams, nothing, search_all,
}
use quackapi.Dispatch.Decide.{
  Decision, serve_route, route_body_limit, limit_of, hard_limit, effective_body_limit,
  answer_options, answer, decide,
}
use quackapi.Dispatch.Seen.{auto_head-match, scan_routes-is_some, scan_streams-match}
use quackapi.Dispatch.Answers.{Answers, search_all-Answers}

-- The route that a decision runs.
abbrev pub route_of : {Value : Type 0} → Decision Value → Option (Route Value × Captures)
route_of (serve_route route captures) = some (route, captures)
route_of _ = none

abbrev pub refused_early : {Value : Type 0} → Request → Options → Found Value → Bool
refused_early req options f =
    ltb (effective_body_limit options f) req.body_size || text_eq req.method (codes "OPTIONS")

module _ {Value : Type 0} (req : Request) where
  route_of-answer_options :
      (options : Options) (f : Found Value) → route_of (answer_options req options f) ≡ none
  route_of-answer_options options f = ground arith

  route_of-answer :
      (options : Options) (routes : List (Route Value)) (streams : List Stream) (f : Found Value)
      → route_of (answer req options routes streams f) ≡ f.match
  route_of-answer options routes streams f = elim (Option-cases f.match) [
    | inr (p, found) ↦ rw found refl
    | inl missing ↦ rw missing (ground arith)
  ]

  pub route_of-decide :
      (options : Options) (routes : List (Route Value)) (streams : List Stream)
      → route_of (decide req options routes streams) ≡ (
          let f = search_all req routes streams in
          if refused_early req options f then none else f.match)
  unfolding decide
  route_of-decide options routes streams =
      let f = search_all req routes streams in
      elim (Bool-cases (ltb (effective_body_limit options f) req.body_size)) [
        | inl large ↦ rw large refl
        | inr fits ↦ rw fits (elim (Bool-cases (text_eq req.method (codes "OPTIONS"))) [
          | inl is_options ↦ rw is_options (route_of-answer_options options f)
          | inr other ↦ rw other (route_of-answer options routes streams f)
        ])
      ]

  -- Where HandleRequest chooses a route with some captures, the route is registered, its pattern
  -- matches the path with those captures, it has the method of the request, or GET where that is
  -- HEAD, and the body is within the limit of that route and of the server.
  pub decide-Answers :
      (options : Options) (routes : List (Route Value)) (streams : List Stream)
      (route : Route Value) (captures : Captures)
      → decide req options routes streams ≡ serve_route route captures
      → Answers req routes route captures
        × (req.body_size ≤ min (limit_of options route) (hard_limit options))
  decide-Answers options routes streams route captures h =
      let f = search_all req routes streams in
      let chosen : (if refused_early req options f then none else f.match)
          ≡ some (route, captures) =
        sym (route_of-decide options routes streams) ∙ ap route_of h in
      elim (Bool-cases (refused_early req options f)) [
        | inl refused ↦ ground arith
        | inr passed ↦
            let found : f.match ≡ some (route, captures) = ground arith in
            (
              search_all-Answers req routes streams route captures found,
              subst (λ m. req.body_size ≤ min (route_body_limit options m) (hard_limit options))
                  found (ground arith),
            )
      ]

  search_all-is_some :
      (routes : List (Route Value)) (streams : List Stream)
      → any (λ route. text_eq route.method req.method && matches route.pattern req.path) routes
        ≡ true
      → is_some (search_all req routes streams).match ≡ true
  unfolding search_all
  search_all-is_some routes streams h =
      let first = scan_routes req routes (nothing req) in
      let found : is_some first.match ≡ true = scan_routes-is_some req routes (nothing req) ∙ h in
      rw
        (
          auto_head-match req routes streams (scan_streams req streams first),
          scan_streams-match req streams first,
          found,
        )
        found

  pub decide-found :
      (options : Options) (routes : List (Route Value)) (streams : List Stream)
      (route : Route Value) (captures : Captures)
      → (search_all req routes streams).match ≡ some (route, captures)
      → ltb (effective_body_limit options (search_all req routes streams)) req.body_size ≡ false
      → text_eq req.method (codes "OPTIONS") ≡ false
      → decide req options routes streams ≡ serve_route route captures
  unfolding decide
  decide-found options routes streams route captures found fits other = rw (fits, other, found) refl

  -- For a request that no built-in endpoint answers, where a route has its method, which is not
  -- OPTIONS, and a pattern that matches its path, and the body is within the effective limit,
  -- HandleRequest chooses a route.
  pub decide_serves :
      (options : Options) (routes : List (Route Value)) (streams : List Stream)
      → any (λ route. text_eq route.method req.method && matches route.pattern req.path) routes
        ≡ true
      → req.body_size ≤ effective_body_limit options (search_all req routes streams)
      → text_eq req.method (codes "OPTIONS") ≡ false
      → (route : Route Value) × (captures : Captures) × (decide req options routes streams
          ≡ serve_route route captures)
  decide_serves options routes streams h fits other =
      elim (Option-cases (search_all req routes streams).match) [
        | inr ((route, captures), found) ↦ (
          route,
          captures,
          decide-found options routes streams route captures found (ground arith) other,
        )
        | inl missing ↦
            let none_found : true ≡ false =
              sym (search_all-is_some routes streams h) ∙ ap is_some missing in
            cc
      ]

-- ===== src/Dispatch/Limit.antt =====
-- SetRequestPayloadLimit: the body limit that applies while the headers are read, before HandleRequest
-- has chosen a route.
use quackapi.Base.{ℕ, min, Bool, not, ◌&&◌, List, [], ◌∷◌, if◌then◌else◌, any}
use quackapi.Text.{Text, codes, text_eq}
use quackapi.Types.{Route}
use quackapi.Router.{matches}
use quackapi.Dispatch.{Request, Options}
use quackapi.Dispatch.Decide.{hard_limit, default_limit, limit_of}

module _ {Value : Type 0} (req : Request) where
  -- SetRequestPayloadLimit: the loops over the routes before the body is read.
  unfoldable pub limit_for : Options → Text → List (Route Value) → ℕ → ℕ
  limit_for options method [] limit = limit
  limit_for options method (route ∷ rest) limit = limit_for options method rest (
      if text_eq route.method method && matches route.pattern req.path
      then limit_of options route
      else limit)

  abbrev pub head_route_found : List (Route Value) → Bool
  head_route_found routes =
      any (λ route. text_eq route.method (codes "HEAD") && matches route.pattern req.path) routes

  unfoldable pub payload_limit : Options → List (Route Value) → ℕ
  payload_limit options routes =
      let first = limit_for options req.method routes (default_limit options) in
      min
        (if text_eq req.method (codes "HEAD") && not (head_route_found routes)
          then limit_for options (codes "GET") routes first
          else first)
        (hard_limit options)

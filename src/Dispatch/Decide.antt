-- ===== src/Dispatch/Decide.antt =====
-- What HandleRequest answers, once it has looked through the routes and the streams.
use quackapi.Base.{
  ℕ, min, max, ltb, Bool, true, false, not, ◌&&◌, ◌||◌, List, [], ◌∷◌, ◌++◌, Option, none, some,
  if◌then◌else◌, any,
}
use quackapi.Text.{Text, codes, text_eq, empty}
use quackapi.Types.{Route, Stream}
use quackapi.Router.{
  Captures, matches, has_trailing_slash, strip_trailing_slash, method_list_contains,
}
use quackapi.Dispatch.{Request, Options, payload_max_length, Found, add_method, search_all}

-- What the handler answers with.
pub data Decision (Value : Type 0) : Type 0 where
  payload_too_large : Decision Value
  preflight : List Text → Decision Value
  not_found : Decision Value
  upgrade_required : Decision Value
  redirect : Text → Decision Value
  method_not_allowed : List Text → Decision Value
  serve_stream : Stream → Captures → Decision Value
  serve_route : Route Value → Captures → Decision Value

abbrev pub hard_limit : Options → ℕ
hard_limit options = max 1 options.max_request_bytes

abbrev pub default_limit : Options → ℕ
default_limit options = min payload_max_length (hard_limit options)

module _ {Value : Type 0} where
  abbrev pub limit_of : Options → Route Value → ℕ
  limit_of options route =
      if ltb 0 route.max_request_bytes then route.max_request_bytes else default_limit options

  abbrev pub route_body_limit : Options → Option (Route Value × Captures) → ℕ
  route_body_limit options none = default_limit options
  route_body_limit options (some (route, _)) = limit_of options route

  -- `effective_body_limit`
  abbrev pub effective_body_limit : Options → Found Value → ℕ
  effective_body_limit options f = min (route_body_limit options f.match) (hard_limit options)

abbrev pub is_nil : List Text → Bool
is_nil [] = true
is_nil (_ ∷ _) = false

-- HEAD is advertised when GET is registered.
abbrev pub with_head : List Text → List Text
with_head methods =
    if method_list_contains methods (codes "GET")
    then add_method (codes "HEAD") methods
    else methods

abbrev pub with_options : Options → List Text → List Text
with_options options methods =
    if options.cors then add_method (codes "OPTIONS") methods else methods

abbrev pub alt_path : Request → Text
alt_path req =
    if has_trailing_slash req.path then strip_trailing_slash req.path else req.path ++ b'/' ∷ []

abbrev pub location : Request → Text
location req = if empty req.query then alt_path req else alt_path req ++ b'?' ∷ req.query

module _ {Value : Type 0} (req : Request) where
  abbrev pub answer_options : Options → Found Value → Decision Value
  answer_options options f =
      if not (is_nil f.methods) || f.other_method
      then (if options.cors
          then preflight (add_method (codes "OPTIONS") (with_head f.methods))
          else method_not_allowed (with_head f.methods))
      else not_found

  abbrev pub alt_matches : List (Route Value) → List Stream → Bool
  alt_matches routes streams =
      any (λ route. matches route.pattern (alt_path req)) routes
      || any (λ stream. matches stream.pattern (alt_path req)) streams

  -- Nothing answers the method on the path.
  abbrev pub answer_unmatched :
      Options → List (Route Value) → List Stream → Found Value → Decision Value
  answer_unmatched options routes streams f =
      if not f.other_method
        && is_nil f.methods
        && not (text_eq req.path (codes "/"))
        && alt_matches routes streams
      then redirect (location req)
      else if f.other_method || not (is_nil f.methods)
      then method_not_allowed (with_options options (with_head f.methods))
      else not_found

  abbrev pub answer : Options → List (Route Value) → List Stream → Found Value → Decision Value
  answer options routes streams f = elim f.match [
    | some (route, captures) ↦ serve_route route captures
    | none ↦ elim f.stream_match [
      | some (stream, captures) ↦ serve_stream stream captures
      | none ↦
          if f.websocket_path then upgrade_required else answer_unmatched options routes streams f
    ]
  ]

  unfoldable pub decide : Options → List (Route Value) → List Stream → Decision Value
  decide options routes streams =
      let f = search_all req routes streams in
      if ltb (effective_body_limit options f) req.body_size
      then payload_too_large
      else if text_eq req.method (codes "OPTIONS")
      then answer_options options f
      else answer options routes streams f

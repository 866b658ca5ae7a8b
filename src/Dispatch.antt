-- ===== src/Dispatch.antt =====
-- The choice of a handler in QuackapiHttpServer::HandleRequest (src/quackapi_server.cpp) before
-- authentication: the built-in endpoints, then routes and streams by method and pattern, HEAD from
-- GET, the body limit, OPTIONS, redirects, 404, 405 and 426; and SetRequestPayloadLimit.
pub mod Decide
pub mod Limit
pub mod Seen
pub mod Methods
pub mod Answers
pub mod Choice
pub mod Precedence
pub mod Refusal
pub mod Lost
pub mod BuiltIn
pub mod Reserved
pub mod Respond
use quackapi.Base.{
  ℕ, min, max, ltb, leb, Bool, true, false, not, ◌&&◌, ◌||◌, List, [], ◌∷◌, ◌++◌, Option, none,
  some, if◌then◌else◌, any, length,
}
use quackapi.Text.{Text, codes, text_eq, empty}
use quackapi.Types.{Route, Stream, StreamTransport, sse, ws}
use quackapi.Router.{
  Captures, match_pattern, matches, has_trailing_slash, strip_trailing_slash, method_list_contains,
}

-- BuildQueryString over httplib's `encode_query_component`: the loop after the first parameter.
unfoldable pub more_params : (Text → Text) → List (Text × Text) → Text
more_params encode [] = []
more_params encode ((name, value) ∷ params) =
    b'&' ∷ (encode name ++ b'=' ∷ (encode value ++ more_params encode params))

unfoldable pub build_query_string : (Text → Text) → List (Text × Text) → Text
unfolding more_params
build_query_string encode [] = []
build_query_string encode ((name, value) ∷ params) =
    encode name ++ b'=' ∷ (encode value ++ more_params encode params)

-- What HandleRequest reads of a request; `query` is what BuildQueryString makes of its parameters.
pub record Request : Type 0 where
  pub method : Text
  pub path : Text
  pub query : Text
  pub body_size : ℕ

-- The serve options that the choice depends on.
pub record Options : Type 0 where
  pub cors : Bool
  pub max_request_bytes : ℕ

-- QUACKAPI_PAYLOAD_MAX_LENGTH
abbrev pub payload_max_length : ℕ
payload_max_length = 8388608

pub record Found (Value : Type 0) : Type 0 where
  pub methods : List Text
  pub match : Option (Route Value × Captures)
  pub stream_match : Option (Stream × Captures)
  pub other_method : Bool
  pub websocket_path : Bool

abbrev pub is_some {ℓ} : {A : Type ℓ} → Option A → Bool
is_some none = false
is_some (some _) = true

abbrev pub is_ws : StreamTransport → Bool
is_ws sse = false
is_ws ws = true

-- `methods_for_path`, in the order first seen
abbrev pub add_method : Text → List Text → List Text
add_method method methods =
    if method_list_contains methods method then methods else methods ++ method ∷ []

module _ {Value : Type 0} (req : Request) where
  -- One round of the loop over the routes, for a route that matches the path.
  abbrev pub route_seen : Route Value → Captures → Found Value → Found Value
  route_seen route captures f =
      if text_eq route.method req.method
      then record f { methods = add_method route.method f.methods; match = some (route, captures) }
      else record f {
        methods = add_method route.method f.methods;
        other_method = f.other_method || not (is_some f.match);
      }

  unfoldable pub route_step : Route Value → Found Value → Found Value
  route_step route f = elim (match_pattern route.pattern req.path) [
    | none ↦ f
    | some captures ↦ route_seen route captures f
  ]

  unfoldable pub scan_routes : List (Route Value) → Found Value → Found Value
  scan_routes [] f = f
  scan_routes (route ∷ rest) f = scan_routes rest (route_step route f)

  abbrev pub unmatched : Found Value → Bool
  unmatched f = not (is_some f.match) && not (is_some f.stream_match)

  -- One round of the loop over the streams, for an SSE stream that matches the path.
  abbrev pub stream_seen : Stream → Captures → Found Value → Found Value
  stream_seen stream captures f =
      if text_eq stream.method req.method
      then record f {
        methods = add_method stream.method f.methods;
        stream_match = if unmatched f then some (stream, captures) else f.stream_match;
      }
      else record f {
        methods = add_method stream.method f.methods;
        other_method = f.other_method || unmatched f;
      }

  unfoldable pub stream_step : Stream → Found Value → Found Value
  stream_step stream f =
      if is_ws stream.transport
      then record f { websocket_path = f.websocket_path || matches stream.pattern req.path }
      else elim (match_pattern stream.pattern req.path) [
        | none ↦ f
        | some captures ↦ stream_seen stream captures f
      ]

  unfoldable pub scan_streams : List Stream → Found Value → Found Value
  scan_streams [] f = f
  scan_streams (stream ∷ rest) f = scan_streams rest (stream_step stream f)

  -- Auto-HEAD, first over the routes, where the last GET route is taken …
  unfoldable pub head_step : Route Value → Found Value → Found Value
  head_step route f = elim (match_pattern route.pattern req.path) [
    | none ↦ f
    | some captures ↦
        if text_eq route.method (codes "GET")
        then record f {
          match = some (route, captures);
          methods = add_method (codes "HEAD") f.methods;
        }
        else f
  ]

  unfoldable pub head_routes : List (Route Value) → Found Value → Found Value
  head_routes [] f = f
  head_routes (route ∷ rest) f = head_routes rest (head_step route f)

  -- … and then over the streams, where the first is.
  unfoldable pub head_streams : List Stream → Found Value → Found Value
  head_streams [] f = f
  head_streams (stream ∷ rest) f =
      let later = head_streams rest f in
      elim (match_pattern stream.pattern req.path) [
        | none ↦ later
        | some captures ↦
            if text_eq stream.method (codes "GET")
            then record f {
              stream_match = some (stream, captures);
              methods = add_method (codes "HEAD") f.methods;
            }
            else later
      ]

  unfoldable pub auto_head : List (Route Value) → List Stream → Found Value → Found Value
  auto_head routes streams f =
      if unmatched f && text_eq req.method (codes "HEAD")
      then (let after = head_routes routes f in
          if is_some after.match then after else head_streams streams after)
      else f

  abbrev pub nothing : Found Value
  nothing = record {
    methods = [];
    match = none;
    stream_match = none;
    other_method = false;
    websocket_path = false;
  }

  unfoldable pub search_all : List (Route Value) → List Stream → Found Value
  search_all routes streams =
      auto_head routes streams (scan_streams streams (scan_routes routes nothing))

-- ===== src/Dispatch/Methods.antt =====
-- The methods that the loops collect, and whether the path is known at all.
use quackapi.Base.{
  Bool, true, false, not, ◌&&◌, ◌||◌, List, [], ◌∷◌, if◌then◌else◌, any, ◌≡◌, subst, refl, ◌∙◌,
  arith, Bool-cases, Option-cases, inl, inr, any-append,
}
use quackapi.Text.{Text, text_eq}
use quackapi.Text.Laws.{text_eq_iff}
use quackapi.Types.{Route, Stream}
use quackapi.Router.{match_pattern, matches, method_list_contains}
use quackapi.Dispatch.{
  Request, Found, is_some, is_ws, add_method, route_step, scan_routes, stream_step, scan_streams,
}
use quackapi.Dispatch.Decide.{is_nil}

-- The list after a method is added holds that method and what it held.
pub contains-add_method :
    (list : List Text) (method m : Text)
    → method_list_contains (add_method method list) m
      ≡ (method_list_contains list m || text_eq method m)
contains-add_method list method m = elim (Bool-cases (method_list_contains list method)) [
  | inr absent ↦ rw absent (any-append (λ s. text_eq s m) list (method ∷ []) ∙ ground arith)
  | inl present ↦ rw present (elim (Bool-cases (text_eq method m)) [
    | inr other ↦ rw other (ground arith)
    | inl same ↦ rw same (
        ground (
          arith,
          subst (λ k. method_list_contains list k ≡ true) ((text_eq_iff method m).0 same) present,
        ))
  ])
]

nil-add_method : (list : List Text) (method : Text) → is_nil (add_method method list) ≡ false
nil-add_method [] method = refl
nil-add_method (x ∷ list) method = ground arith

abbrev pub sse_on_path : Request → Stream → Bool
sse_on_path req stream = not (is_ws stream.transport) && matches stream.pattern req.path

abbrev pub ws_on_path : Request → Stream → Bool
ws_on_path req stream = is_ws stream.transport && matches stream.pattern req.path

module _ {Value : Type 0} (req : Request) where
  abbrev pub on_path : Route Value → Bool
  on_path route = matches route.pattern req.path

  route_step-methods :
      (route : Route Value) (f : Found Value)
      → (route_step req route f).methods
        ≡ (if on_path route then add_method route.method f.methods else f.methods)
  unfolding route_step
  route_step-methods route f = elim (Option-cases (match_pattern route.pattern req.path)) [
    | inl missed ↦ ground arith
    | inr (captures, matched) ↦ ground arith
  ]

  stream_step-methods :
      (stream : Stream) (f : Found Value)
      → (stream_step req stream f).methods
        ≡ (if sse_on_path req stream then add_method stream.method f.methods else f.methods)
  unfolding stream_step
  stream_step-methods stream f = elim (Option-cases (match_pattern stream.pattern req.path)) [
    | inl missed ↦ ground arith
    | inr (captures, matched) ↦ ground arith
  ]

  -- Which methods are collected.
  pub scan_routes-methods :
      (routes : List (Route Value)) (f : Found Value) (m : Text)
      → method_list_contains (scan_routes req routes f).methods m ≡ (
          method_list_contains f.methods m
          || any (λ route. on_path route && text_eq route.method m) routes)
  unfolding scan_routes
  scan_routes-methods [] f m = ground arith
  scan_routes-methods (route ∷ rest) f m =
      scan_routes-methods rest (route_step req route f) m
      ∙ rw (route_step-methods route f)
          (ground (arith, contains-add_method f.methods route.method m))

  pub scan_streams-methods :
      (streams : List Stream) (f : Found Value) (m : Text)
      → method_list_contains (scan_streams req streams f).methods m ≡ (
          method_list_contains f.methods m
          || any (λ stream. sse_on_path req stream && text_eq stream.method m) streams)
  unfolding scan_streams
  scan_streams-methods [] f m = ground arith
  scan_streams-methods (stream ∷ rest) f m =
      scan_streams-methods rest (stream_step req stream f) m
      ∙ rw (stream_step-methods stream f)
          (ground (arith, contains-add_method f.methods stream.method m))

  -- No method is collected exactly when nothing matches the path.
  pub scan_routes-nil :
      (routes : List (Route Value)) (f : Found Value)
      → is_nil (scan_routes req routes f).methods ≡ (is_nil f.methods && not (any on_path routes))
  unfolding scan_routes
  scan_routes-nil [] f = ground arith
  scan_routes-nil (route ∷ rest) f =
      scan_routes-nil rest (route_step req route f)
      ∙ rw (route_step-methods route f) (ground (arith, nil-add_method f.methods route.method))

  pub scan_streams-nil :
      (streams : List Stream) (f : Found Value)
      → is_nil (scan_streams req streams f).methods
        ≡ (is_nil f.methods && not (any (sse_on_path req) streams))
  unfolding scan_streams
  scan_streams-nil [] f = ground arith
  scan_streams-nil (stream ∷ rest) f =
      scan_streams-nil rest (stream_step req stream f)
      ∙ rw (stream_step-methods stream f) (ground (arith, nil-add_method f.methods stream.method))

  stream_step-websocket :
      (stream : Stream) (f : Found Value)
      → (stream_step req stream f).websocket_path ≡ (f.websocket_path || ws_on_path req stream)
  unfolding stream_step
  stream_step-websocket stream f = elim (Option-cases (match_pattern stream.pattern req.path)) [
    | inl missed ↦ ground arith
    | inr (captures, matched) ↦ ground arith
  ]

  pub scan_streams-websocket :
      (streams : List Stream) (f : Found Value)
      → (scan_streams req streams f).websocket_path
        ≡ (f.websocket_path || any (ws_on_path req) streams)
  unfolding scan_streams
  scan_streams-websocket [] f = ground arith
  scan_streams-websocket (stream ∷ rest) f =
      scan_streams-websocket rest (stream_step req stream f)
      ∙ rw (stream_step-websocket stream f) (ground arith)

  pub scan_routes-websocket :
      (routes : List (Route Value)) (f : Found Value)
      → (scan_routes req routes f).websocket_path ≡ f.websocket_path
  unfolding scan_routes route_step
  scan_routes-websocket [] f = refl
  scan_routes-websocket (route ∷ rest) f =
      scan_routes-websocket rest (route_step req route f) ∙ ground arith

  -- A match, or another method on the path, is noted only along with its method.
  abbrev pub Noted : Found Value → Type 0
  Noted f =
      (f.other_method || is_some f.match || is_some f.stream_match) ≡ true
      → is_nil f.methods ≡ false

  route_step-Noted :
      (route : Route Value) (f : Found Value) → Noted f → Noted (route_step req route f)
  unfolding route_step
  route_step-Noted route f n = elim (Option-cases (match_pattern route.pattern req.path)) [
    | inl missed ↦ ground arith
    | inr (captures, matched) ↦ ground (arith, nil-add_method f.methods route.method)
  ]

  stream_step-Noted :
      (stream : Stream) (f : Found Value) → Noted f → Noted (stream_step req stream f)
  unfolding stream_step
  stream_step-Noted stream f n = elim (Option-cases (match_pattern stream.pattern req.path)) [
    | inl missed ↦ ground arith
    | inr (captures, matched) ↦ ground (arith, nil-add_method f.methods stream.method)
  ]

  pub scan_routes-Noted :
      (routes : List (Route Value)) (f : Found Value) → Noted f → Noted (scan_routes req routes f)
  unfolding scan_routes
  scan_routes-Noted [] f n = n
  scan_routes-Noted (route ∷ rest) f n =
      scan_routes-Noted rest (route_step req route f) (route_step-Noted route f n)

  pub scan_streams-Noted :
      (streams : List Stream) (f : Found Value) → Noted f → Noted (scan_streams req streams f)
  unfolding scan_streams
  scan_streams-Noted [] f n = n
  scan_streams-Noted (stream ∷ rest) f n =
      scan_streams-Noted rest (stream_step req stream f) (stream_step-Noted stream f n)

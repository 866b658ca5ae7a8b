-- ===== src/Dispatch/Seen.antt =====
-- What the loops over routes and streams leave behind, and the two computations of the body limit.
use quackapi.Base.{
  min, Bool, true, false, not, ◌&&◌, ◌||◌, List, [], ◌∷◌, some, if◌then◌else◌, any, ◌≡◌, subst,
  refl, sym, ap, ◌∙◌, arith, Bool-cases, Option-cases, inl, inr, ◌⊎◌, ◌⊎◌,
}
use quackapi.Text.{Text, codes, text_eq}
use quackapi.Text.Laws.{text_eq_iff}
use quackapi.Types.{Route, Stream}
use quackapi.Router.{Captures, match_pattern, matches}
use quackapi.Dispatch.{
  Request, Options, Found, is_some, route_step, scan_routes, unmatched, stream_step, scan_streams,
  head_step, head_routes, head_streams, auto_head, nothing, search_all,
}
use quackapi.Dispatch.Decide.{default_limit, route_body_limit, hard_limit, effective_body_limit}
use quackapi.Dispatch.Limit.{limit_for, head_route_found, payload_limit}

module _ {Value : Type 0} (req : Request) where
  abbrev of_method : Text → Route Value → Bool
  of_method method route = text_eq route.method method && matches route.pattern req.path

  -- A route that answers the method replaces the match.
  route_step-match :
      (route : Route Value) (f : Found Value)
      → ((route_step req route f).match ≡ f.match) × (of_method req.method route ≡ false)
        ⊎ ((captures : Captures) × ((route_step req route f).match ≡ some (route, captures))
            × (of_method req.method route ≡ true))
  unfolding route_step
  route_step-match route f = elim (Option-cases (match_pattern route.pattern req.path)) [
    | inl missed ↦ inl (ground arith, ground arith)
    | inr (captures, matched) ↦ elim (Bool-cases (text_eq route.method req.method)) [
      | inl same ↦ inr (captures, ground arith, ground arith)
      | inr other ↦ inl (ground arith, ground arith)
    ]
  ]

  head_step-match :
      (route : Route Value) (f : Found Value)
      → ((head_step req route f).match ≡ f.match) × (of_method (codes "GET") route ≡ false)
        ⊎ ((captures : Captures) × ((head_step req route f).match ≡ some (route, captures))
            × (of_method (codes "GET") route ≡ true))
  unfolding head_step
  head_step-match route f = elim (Option-cases (match_pattern route.pattern req.path)) [
    | inl missed ↦ inl (ground arith, ground arith)
    | inr (captures, matched) ↦ elim (Bool-cases (text_eq route.method (codes "GET"))) [
      | inl same ↦ inr (captures, ground arith, ground arith)
      | inr other ↦ inl (ground arith, ground arith)
    ]
  ]

  scan_routes-limit :
      (options : Options) (routes : List (Route Value)) (f : Found Value)
      → route_body_limit options (scan_routes req routes f).match
        ≡ limit_for req options req.method routes (route_body_limit options f.match)
  unfolding scan_routes limit_for
  scan_routes-limit options [] f = refl
  scan_routes-limit options (route ∷ rest) f =
      scan_routes-limit options rest (route_step req route f)
      ∙ ap (limit_for req options req.method rest) (elim (route_step-match route f) [
        | inl (kept, other) ↦ rw (kept, other)
        | inr (captures, taken, same) ↦ rw (taken, same)
      ])

  head_routes-limit :
      (options : Options) (routes : List (Route Value)) (f : Found Value)
      → route_body_limit options (head_routes req routes f).match
        ≡ limit_for req options (codes "GET") routes (route_body_limit options f.match)
  unfolding head_routes limit_for
  head_routes-limit options [] f = refl
  head_routes-limit options (route ∷ rest) f =
      head_routes-limit options rest (head_step req route f)
      ∙ ap (limit_for req options (codes "GET") rest) (elim (head_step-match route f) [
        | inl (kept, other) ↦ rw (kept, other)
        | inr (captures, taken, same) ↦ rw (taken, same)
      ])

  -- A match is there exactly when some route answers the method.
  pub scan_routes-is_some :
      (routes : List (Route Value)) (f : Found Value)
      → is_some (scan_routes req routes f).match
        ≡ (is_some f.match || any (of_method req.method) routes)
  unfolding scan_routes
  scan_routes-is_some [] f = ground arith
  scan_routes-is_some (route ∷ rest) f =
      scan_routes-is_some rest (route_step req route f) ∙ (elim (route_step-match route f) [
        | inl (kept, other) ↦ rw (kept, other)
        | inr (captures, taken, same) ↦ rw (taken, same) (ground arith)
      ])

  stream_step-match :
      (stream : Stream) (f : Found Value) → (stream_step req stream f).match ≡ f.match
  unfolding stream_step
  stream_step-match stream f = ground arith

  pub scan_streams-match :
      (streams : List Stream) (f : Found Value) → (scan_streams req streams f).match ≡ f.match
  unfolding scan_streams
  scan_streams-match [] f = refl
  scan_streams-match (stream ∷ rest) f =
      scan_streams-match rest (stream_step req stream f) ∙ stream_step-match stream f

  head_streams-match :
      (streams : List Stream) (f : Found Value) → (head_streams req streams f).match ≡ f.match
  unfolding head_streams
  head_streams-match [] f = refl
  head_streams-match (stream ∷ rest) f = ground (arith, head_streams-match rest f)

  -- No stream answers a method that none has.
  scan_streams-stream_match :
      (streams : List Stream) (f : Found Value)
      → any (λ stream. text_eq stream.method req.method) streams ≡ false
      → (scan_streams req streams f).stream_match ≡ f.stream_match
  unfolding scan_streams stream_step
  scan_streams-stream_match [] f h = refl
  scan_streams-stream_match (stream ∷ rest) f h =
      scan_streams-stream_match rest (stream_step req stream f) (ground arith) ∙ ground arith

  pub auto_head-match :
      (routes : List (Route Value)) (streams : List Stream) (f : Found Value)
      → (auto_head req routes streams f).match ≡ (
          if unmatched req f && text_eq req.method (codes "HEAD")
          then (head_routes req routes f).match
          else f.match)
  unfolding auto_head
  auto_head-match routes streams f =
      elim (Bool-cases (unmatched req f && text_eq req.method (codes "HEAD"))) [
        | inr off ↦ rw off
        | inl on ↦ rw on (elim (Bool-cases (is_some (head_routes req routes f).match)) [
          | inl found ↦ rw found
          | inr missing ↦ rw missing (head_streams-match streams (head_routes req routes f))
        ])
      ]

  scan_routes-stream_match :
      (routes : List (Route Value)) (f : Found Value)
      → (scan_routes req routes f).stream_match ≡ f.stream_match
  unfolding scan_routes route_step
  scan_routes-stream_match [] f = refl
  scan_routes-stream_match (route ∷ rest) f =
      scan_routes-stream_match rest (route_step req route f) ∙ ground arith

  abbrev after_streams : List (Route Value) → List Stream → Found Value
  after_streams routes streams = scan_streams req streams (scan_routes req routes (nothing req))

  after-limit :
      (options : Options) (routes : List (Route Value)) (streams : List Stream)
      → route_body_limit options (after_streams routes streams).match
        ≡ limit_for req options req.method routes (default_limit options)
  after-limit options routes streams =
      ap (route_body_limit options)
        (scan_streams-match streams (scan_routes req routes (nothing req)))
      ∙ scan_routes-limit options routes (nothing req)

  after-unmatched :
      (routes : List (Route Value)) (streams : List Stream)
      → any (λ stream. text_eq stream.method (codes "HEAD")) streams ≡ false
      → text_eq req.method (codes "HEAD") ≡ true
      → unmatched req (after_streams routes streams) ≡ not (head_route_found req routes)
  after-unmatched routes streams no_head head =
      let is_head = (text_eq_iff req.method (codes "HEAD")).0 head in
      let first = scan_routes req routes (nothing req) in
      let quiet : any (λ stream. text_eq stream.method req.method) streams ≡ false =
        subst (λ m. any (λ stream. text_eq stream.method m) streams ≡ false) (sym is_head)
          no_head in
      let no_stream =
        scan_streams-stream_match streams first quiet
        ∙ scan_routes-stream_match routes (nothing req) in
      let found : is_some first.match ≡ head_route_found req routes =
        scan_routes-is_some routes (nothing req) ∙ ap (λ m. any (of_method m) routes) is_head in
      rw (scan_streams-match streams first, found, no_stream) (ground arith)

  -- The limit of the route that is chosen in the end.
  search-limit :
      (options : Options) (routes : List (Route Value)) (streams : List Stream)
      → any (λ stream. text_eq stream.method (codes "HEAD")) streams ≡ false
      → route_body_limit options (search_all req routes streams).match ≡ (
          let first = limit_for req options req.method routes (default_limit options) in
          if text_eq req.method (codes "HEAD") && not (head_route_found req routes)
          then limit_for req options (codes "GET") routes first
          else first)
  unfolding search_all
  search-limit options routes streams no_head =
      let after = after_streams routes streams in
      ap (route_body_limit options) (auto_head-match routes streams after)
      ∙ elim (Bool-cases (text_eq req.method (codes "HEAD"))) [
        | inr other ↦ rw other (ground (arith, after-limit options routes streams))
        | inl head ↦
            rw (after-unmatched routes streams no_head head, head)
              (elim (Bool-cases (head_route_found req routes)) [
                | inl found ↦ rw found (after-limit options routes streams)
                | inr missing ↦ rw missing (
                    head_routes-limit options routes after
                    ∙ ap (limit_for req options (codes "GET") routes)
                        (after-limit options routes streams))
              ])
      ]

  -- SetRequestPayloadLimit, which runs before the body is read, and HandleRequest, which has chosen a
  -- route, allow the same number of bytes, where no stream is registered for HEAD.
  pub payload_limit-effective_body_limit :
      (options : Options) (routes : List (Route Value)) (streams : List Stream)
      → any (λ stream. text_eq stream.method (codes "HEAD")) streams ≡ false
      → payload_limit req options routes
        ≡ effective_body_limit options (search_all req routes streams)
  unfolding payload_limit
  payload_limit-effective_body_limit options routes streams no_head =
      ap (λ n. min n (hard_limit options)) (sym (search-limit options routes streams no_head))

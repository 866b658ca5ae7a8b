-- ===== src/Dispatch/Lost.antt =====
-- Which requests are not found or redirected, and where a redirect leads.
use quackapi.Base.{
  ltb, Bool, true, false, not, ◌&&◌, ◌||◌, List, [], ◌∷◌, any, ◌≡◌, refl, sym, ap, ◌∙◌, arith,
  Bool-cases, Option-cases, inl, inr,
}
use quackapi.Text.{codes, text_eq}
use quackapi.Types.{Route, Stream}
use quackapi.Router.{matches}
use quackapi.Dispatch.{Request, Options, Found, scan_routes, nothing, search_all}
use quackapi.Dispatch.Decide.{
  Decision, not_found, redirect, effective_body_limit, is_nil, answer_options, alt_path,
  alt_matches, answer_unmatched, answer, decide,
}
use quackapi.Dispatch.Methods.{
  on_path, sse_on_path, ws_on_path, scan_routes-nil, scan_streams-nil, scan_streams-websocket,
  scan_routes-websocket, Noted, scan_routes-Noted, scan_streams-Noted,
}
use quackapi.Dispatch.Refusal.{seen, search_all-seen}

-- Nothing is known at the path.
abbrev pub lost : {Value : Type 0} → Decision Value → Bool
lost not_found = true
lost (redirect _) = true
lost _ = false

abbrev pub redirected : {Value : Type 0} → Decision Value → Bool
redirected (redirect _) = true
redirected _ = false

module _ {Value : Type 0} (req : Request) (options : Options) (routes : List (Route Value))
    (streams : List Stream) where
  -- A route or an SSE stream is registered whose pattern matches the path.
  abbrev pub known_path : Bool
  known_path = any (on_path req) routes || any (sse_on_path req) streams

  seen-Noted : Noted req (seen req options routes streams)
  seen-Noted =
      scan_streams-Noted req streams (scan_routes req routes (nothing req))
        (scan_routes-Noted req routes (nothing req) (λ h. ground arith))

  seen-nil : is_nil (seen req options routes streams).methods ≡ not known_path
  seen-nil =
      scan_streams-nil req streams (scan_routes req routes (nothing req))
      ∙ rw (scan_routes-nil req routes (nothing req)) (ground arith)

  seen-websocket : (seen req options routes streams).websocket_path ≡ any (ws_on_path req) streams
  seen-websocket =
      scan_streams-websocket req streams (scan_routes req routes (nothing req))
      ∙ rw (scan_routes-websocket req routes (nothing req)) refl

  answer_options-lost :
      (f : Found Value) → Noted req f → lost (answer_options req options f) ≡ is_nil f.methods
  answer_options-lost f n = elim (Bool-cases (is_nil f.methods)) [
    | inl nil ↦ ground arith
    | inr known ↦ ground arith
  ]

  answer_unmatched-lost :
      (f : Found Value)
      → Noted req f
      → lost (answer_unmatched req options routes streams f) ≡ is_nil f.methods
  answer_unmatched-lost f n = elim (Bool-cases (is_nil f.methods)) [
    | inl nil ↦ ground arith
    | inr known ↦ ground arith
  ]

  answer-lost :
      (f : Found Value)
      → Noted req f
      → lost (answer req options routes streams f) ≡ (is_nil f.methods && not f.websocket_path)
  answer-lost f n = elim (Option-cases f.match) [
    | inr (p, found) ↦ rw found (ground (arith, n (rw found (ground arith))))
    | inl missing ↦ rw missing (elim (Option-cases f.stream_match) [
      | inr (p, found) ↦ rw found (ground (arith, n (rw (missing, found) (ground arith))))
      | inl none_found ↦ rw none_found (elim (Bool-cases f.websocket_path) [
        | inl on ↦ rw on (ground arith)
        | inr off ↦ rw off (answer_unmatched-lost f n ∙ ground arith)
      ])
    ])
  ]

  decide-lost :
      (f : Found Value)
      → search_all req routes streams ≡ f
      → Noted req f
      → lost (decide req options routes streams) ≡ (
          not (ltb (effective_body_limit options f) req.body_size)
          && is_nil f.methods
          && (text_eq req.method (codes "OPTIONS") || not f.websocket_path))
  unfolding decide
  decide-lost f e n = rw e (elim (Bool-cases (ltb (effective_body_limit options f) req.body_size)) [
    | inl large ↦ rw large refl
    | inr fits ↦ rw fits (elim (Bool-cases (text_eq req.method (codes "OPTIONS"))) [
      | inl is_options ↦ rw is_options (answer_options-lost f n ∙ ground arith)
      | inr other ↦ rw other (answer-lost f n)
    ])
  ])

  -- A request that no built-in endpoint answers, and that is not HEAD, is not routed, with a 404 or a
  -- redirect, exactly when its body is within the limit,
  -- no route and no SSE stream has a pattern that matches its path, and, unless the method is OPTIONS, no
  -- WebSocket stream has one.
  pub lost-decide :
      text_eq req.method (codes "HEAD") ≡ false
      → lost (decide req options routes streams) ≡ (
          not (ltb (effective_body_limit options (search_all req routes streams)) req.body_size)
          && not known_path
          && (text_eq req.method (codes "OPTIONS") || not (any (ws_on_path req) streams)))
  lost-decide other =
      let e = search_all-seen req options routes streams other in
      decide-lost (seen req options routes streams) e seen-Noted
      ∙ rw (e, seen-nil, seen-websocket) refl

  -- A redirect is sent only where the other path is registered.
  abbrev Leads : Decision Value → Type 0
  Leads d = redirected d ≡ true → alt_matches req routes streams ≡ true

  answer_unmatched-Leads : (f : Found Value) → Leads (answer_unmatched req options routes streams f)
  answer_unmatched-Leads f h = ground arith

  answer-Leads : (f : Found Value) → Leads (answer req options routes streams f)
  answer-Leads f = elim (Option-cases f.match) [
    | inr (p, found) ↦ rw found (λ h. ground arith)
    | inl missing ↦ rw missing (elim (Option-cases f.stream_match) [
      | inr (p, found) ↦ rw found (λ h. ground arith)
      | inl none_found ↦ rw none_found (elim (Bool-cases f.websocket_path) [
        | inl on ↦ rw on (λ h. ground arith)
        | inr off ↦ rw off (answer_unmatched-Leads f)
      ])
    ])
  ]

  answer_options-redirected : (f : Found Value) → redirected (answer_options req options f) ≡ false
  answer_options-redirected f = ground arith

  pub redirected-alt_matches :
      redirected (decide req options routes streams) ≡ true
      → (alt_matches req routes streams ≡ true) × (text_eq req.method (codes "OPTIONS") ≡ false)
  unfolding decide
  redirected-alt_matches =
      let f = search_all req routes streams in
      elim (Bool-cases (ltb (effective_body_limit options f) req.body_size)) [
        | inl large ↦ rw large (λ h. ground arith)
        | inr fits ↦ rw fits (elim (Bool-cases (text_eq req.method (codes "OPTIONS"))) [
          | inl is_options ↦ rw is_options (λ h. ground (arith, answer_options-redirected f))
          | inr other ↦ rw other (λ h. (answer-Leads f h, refl))
        ])
      ]

any_transport :
    (req : Request) (streams : List Stream)
    → any (λ stream. matches stream.pattern req.path) streams
      ≡ (any (sse_on_path req) streams || any (ws_on_path req) streams)
any_transport req [] = refl
any_transport req (stream ∷ rest) = ground (arith, any_transport req rest)

-- The request that a client makes after a redirect.
abbrev pub followed : Request → Request
followed req = record req { path = alt_path req }

-- Where a request that is not HEAD is redirected, the same request to the other path is neither
-- answered by 404 nor redirected again.
pub redirect_settles :
    {Value : Type 0} (req : Request) (options : Options) (routes : List (Route Value))
    (streams : List Stream)
    → text_eq req.method (codes "HEAD") ≡ false
    → redirected (decide req options routes streams) ≡ true
    → lost (decide (followed req) options routes streams) ≡ false
redirect_settles req options routes streams other h =
    let (there, not_options) = redirected-alt_matches req options routes streams h in
    let known : (any (on_path (followed req)) routes
          || (any (sse_on_path (followed req)) streams || any (ws_on_path (followed req)) streams))
        ≡ true =
      ap (λ b. any (on_path (followed req)) routes || b)
        (sym (any_transport (followed req) streams))
      ∙ there in
    lost-decide (followed req) options routes streams other ∙ rw not_options (ground arith)

-- ===== src/Dispatch/Respond.antt =====
-- Which requests HandleRequest refuses or does not find, with its built-in endpoints.
use quackapi.Base.{
  ltb, Bool, false, not, ◌&&◌, ◌||◌, List, Option, none, some, any, if◌then◌else◌, ◌≡◌, refl, sym,
  ap, ◌∙◌, arith, Option-cases, inl, inr,
}
use quackapi.Text.{Text, codes, text_eq}
use quackapi.Strings.{StringUtil}
use quackapi.Types.{Route, Stream}
use quackapi.Router.{method_list_contains}
use quackapi.Registry.Graphql.{GraphqlState}
use quackapi.Dispatch.{Request, Options, is_some, search_all}
use quackapi.Dispatch.Decide.{effective_body_limit, decide}
use quackapi.Dispatch.BuiltIn.{BuiltIn, Response, built_in_answer, chosen, built_in, respond}
use quackapi.Dispatch.Methods.{ws_on_path}
use quackapi.Dispatch.Refusal.{allowed, has_method, allowed-decide}
use quackapi.Dispatch.Lost.{lost, known_path, lost-decide}
use quackapi.Dispatch.Reserved.{
  own_methods, graphql_path, reserved, docs_options, own_list, built_in-reserved, built_in-lists,
}

-- The methods of a 405 or of a preflight.
abbrev pub listed : {Value : Type 0} → Response Value → Option (List Text)
listed (built_in_answer b) = own_methods b
listed (chosen d) = allowed d

-- An answer of the routing by 404 or by a redirect.
abbrev pub unrouted : {Value : Type 0} → Response Value → Bool
unrouted (built_in_answer b) = false
unrouted (chosen d) = lost d

module _ (strings : StringUtil) (health_routes : Bool) (graphql : GraphqlState) (req : Request)
    {Value : Type 0} (options : Options) (routes : List (Route Value)) (streams : List Stream) where
  abbrev responded : Response Value
  responded = respond strings health_routes graphql req options routes streams

  -- Some route or SSE stream of the path has the method, or it comes with GET or with CORS.
  abbrev pub route_list : Text → Bool
  route_list m =
      (has_method req options routes streams m
        || (has_method req options routes streams (codes "GET") && text_eq (codes "HEAD") m))
      || (options.cors && text_eq (codes "OPTIONS") m)

  respond-own :
      (b : BuiltIn)
      → built_in strings health_routes graphql options.cors req ≡ some b
      → responded ≡ built_in_answer b
  unfolding respond
  respond-own b e = rw (e, respond) refl

  respond-chosen :
      built_in strings health_routes graphql options.cors req ≡ none
      → responded ≡ chosen (decide req options routes streams)
  unfolding respond
  respond-chosen e = rw (e, respond) refl

  -- For a request that is not HEAD and that HandleRequest answers with a list of methods, by a 405 or a
  -- preflight: on /graphql, with or without a slash at its end, the list is POST, with OPTIONS for a
  -- request by OPTIONS where CORS is on; for OPTIONS of a page of the documentation, it is GET and
  -- HEAD, with OPTIONS where CORS is on; for any other request, a method is in the list exactly when a
  -- route or an SSE stream whose pattern matches the path has it, or it is HEAD and one of them has
  -- GET, or it is OPTIONS and CORS is on.
  pub listed-respond :
      (methods : List Text) (m : Text)
      → text_eq req.method (codes "HEAD") ≡ false
      → listed responded ≡ some methods
      → method_list_contains methods m ≡ (
          if graphql_path req || docs_options req
          then own_list req options.cors m
          else route_list m)
  listed-respond methods m other h =
      elim (Option-cases (built_in strings health_routes graphql options.cors req)) [
        | inr (b, e) ↦
            let (own, lists) =
              built_in-lists strings health_routes graphql req options.cors b methods m e
                (ap listed (sym (respond-own b e)) ∙ h) in
            rw own lists
        | inl e ↦
            let free : (graphql_path req || docs_options req) ≡ false =
              (let vacant =
                  sym (built_in-reserved strings health_routes graphql req options.cors)
                  ∙ ap is_some e in
                ground arith) in
            rw free (
              allowed-decide req options routes streams methods m other
                (ap listed (sym (respond-chosen e)) ∙ h))
      ]

  -- The routing of HandleRequest answers a request, not HEAD, by 404 or by a redirect exactly when no
  -- built-in endpoint answers it, its body is within the limit, no route and no SSE stream has a
  -- pattern that matches its path, and, unless the method is OPTIONS, no WebSocket stream has one. The
  -- built-in endpoints are those of health, where they are on, the GraphQL mounts and their schemas,
  -- the built-in GraphQL endpoint and the documentation.
  pub unrouted-respond :
      text_eq req.method (codes "HEAD") ≡ false
      → unrouted responded ≡ (
          not (reserved strings health_routes graphql req)
          && not (ltb (effective_body_limit options (search_all req routes streams)) req.body_size)
          && not (known_path req options routes streams)
          && (text_eq req.method (codes "OPTIONS") || not (any (ws_on_path req) streams)))
  unrouted-respond other =
      elim (Option-cases (built_in strings health_routes graphql options.cors req)) [
        | inr (b, e) ↦
            let taken =
              sym (built_in-reserved strings health_routes graphql req options.cors)
              ∙ ap is_some e in
            ap unrouted (respond-own b e) ∙ rw taken refl
        | inl e ↦
            let vacant =
              sym (built_in-reserved strings health_routes graphql req options.cors)
              ∙ ap is_some e in
            ap unrouted (respond-chosen e)
            ∙ lost-decide req options routes streams other
            ∙ rw vacant refl
      ]

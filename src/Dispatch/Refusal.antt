-- ===== src/Dispatch/Refusal.antt =====
-- The methods of a 405 and of a preflight.
use quackapi.Base.{
  ltb, Bool, false, not, ◌&&◌, ◌||◌, List, Option, none, some, any, ◌≡◌, refl, sym, ap, ◌∙◌, arith,
  Bool-cases, Option-cases, inl, inr, ◌⊎◌, eq_of_some,
}
use quackapi.Text.{Text, codes, text_eq}
use quackapi.Types.{Route, Stream}
use quackapi.Router.{method_list_contains}
use quackapi.Dispatch.{
  Request, Options, Found, scan_routes, unmatched, scan_streams, auto_head, nothing, search_all,
}
use quackapi.Dispatch.Decide.{
  Decision, preflight, method_not_allowed, effective_body_limit, is_nil, with_head, with_options,
  answer_options, alt_matches, answer_unmatched, answer, decide,
}
use quackapi.Dispatch.Methods.{
  on_path, sse_on_path, scan_routes-methods, scan_streams-methods, contains-add_method,
}

-- The methods of an answer that lists them.
abbrev pub allowed : {Value : Type 0} → Decision Value → Option (List Text)
allowed (method_not_allowed methods) = some methods
allowed (preflight methods) = some methods
allowed _ = none

-- HEAD comes with GET and OPTIONS with CORS.
contains-with_options :
    (options : Options) (list : List Text) (m : Text)
    → method_list_contains (with_options options list) m
      ≡ (method_list_contains list m || (options.cors && text_eq (codes "OPTIONS") m))
contains-with_options options list m = elim (Bool-cases options.cors) [
  | inl on ↦ rw on (contains-add_method list (codes "OPTIONS") m)
  | inr off ↦ rw off (ground arith)
]

contains-with_head :
    (list : List Text) (m : Text)
    → method_list_contains (with_head list) m ≡ (
        method_list_contains list m
        || (method_list_contains list (codes "GET") && text_eq (codes "HEAD") m))
contains-with_head list m = elim (Bool-cases (method_list_contains list (codes "GET"))) [
  | inl on ↦ rw on (contains-add_method list (codes "HEAD") m)
  | inr off ↦ rw off (ground arith)
]

module _ {Value : Type 0} (req : Request) (options : Options) (routes : List (Route Value))
    (streams : List Stream) where
  abbrev pub seen : Found Value
  seen = scan_streams req streams (scan_routes req routes (nothing req))

  -- Some route or SSE stream of the path has the method.
  abbrev pub has_method : Text → Bool
  has_method m =
      any (λ route. on_path req route && text_eq route.method m) routes
      || any (λ stream. sse_on_path req stream && text_eq stream.method m) streams

  seen-methods : (m : Text) → method_list_contains seen.methods m ≡ has_method m
  seen-methods m =
      scan_streams-methods req streams (scan_routes req routes (nothing req)) m
      ∙ ap (λ b. b || any (λ stream. sse_on_path req stream && text_eq stream.method m) streams)
          (scan_routes-methods req routes (nothing req) m)

  auto_head-other :
      (f : Found Value)
      → text_eq req.method (codes "HEAD") ≡ false
      → auto_head req routes streams f ≡ f
  unfolding auto_head
  auto_head-other f other = elim (Bool-cases (unmatched req f)) [
    | inl t ↦ rw (t, other) refl
    | inr t ↦ rw t refl
  ]

  -- What the search leaves, where the method is not HEAD.
  pub search_all-seen :
      text_eq req.method (codes "HEAD") ≡ false → search_all req routes streams ≡ seen
  unfolding search_all
  search_all-seen other = auto_head-other seen other

  -- An answer that lists methods lists those that were collected, with what comes with them.
  abbrev Lists : Decision Value → List Text → Type 0
  Lists d methods =
      (allowed d ≡ none) ⊎ (allowed d ≡ some (with_options options (with_head methods)))

  answer_options-Lists : (f : Found Value) → Lists (answer_options req options f) f.methods
  answer_options-Lists f = elim (Bool-cases (not (is_nil f.methods) || f.other_method)) [
    | inr unknown ↦ rw unknown (inl refl)
    | inl known ↦
        rw known (elim (Bool-cases options.cors) [
          | inl on ↦ rw on (inr refl)
          | inr off ↦ rw off (inr refl)
        ])
  ]

  answer_unmatched-Lists :
      (f : Found Value) → Lists (answer_unmatched req options routes streams f) f.methods
  answer_unmatched-Lists f =
      elim (Bool-cases (
        not f.other_method
        && is_nil f.methods
        && not (text_eq req.path (codes "/"))
        && alt_matches req routes streams)) [
          | inl redirected ↦ rw redirected (inl refl)
          | inr stays ↦ rw stays (elim (Bool-cases (f.other_method || not (is_nil f.methods))) [
            | inl known ↦ rw known (inr refl)
            | inr unknown ↦ rw unknown (inl refl)
          ])
        ]

  answer-Lists : (f : Found Value) → Lists (answer req options routes streams f) f.methods
  answer-Lists f = elim (Option-cases f.match) [
    | inr (p, found) ↦ rw found (inl refl)
    | inl missing ↦ rw missing (elim (Option-cases f.stream_match) [
      | inr (p, found) ↦ rw found (inl refl)
      | inl none_found ↦ rw none_found (elim (Bool-cases f.websocket_path) [
        | inl on ↦ rw on (inl refl)
        | inr off ↦ rw off (answer_unmatched-Lists f)
      ])
    ])
  ]

  decide-Lists : Lists (decide req options routes streams) (search_all req routes streams).methods
  unfolding decide
  decide-Lists =
      let f = search_all req routes streams in
      elim (Bool-cases (ltb (effective_body_limit options f) req.body_size)) [
        | inl large ↦ rw large (inl refl)
        | inr fits ↦ rw fits (elim (Bool-cases (text_eq req.method (codes "OPTIONS"))) [
          | inl is_options ↦ rw is_options (answer_options-Lists f)
          | inr other ↦ rw other (answer-Lists f)
        ])
      ]

  -- For a request that no built-in endpoint answers and that is not HEAD, a 405 or a preflight
  -- lists the methods of the path: a method is in the list exactly when a route or an SSE stream whose pattern
  -- matches the path has it, or it is HEAD and one of them has GET, or it is OPTIONS and CORS is
  -- on.
  pub allowed-decide :
      (methods : List Text) (m : Text)
      → text_eq req.method (codes "HEAD") ≡ false
      → allowed (decide req options routes streams) ≡ some methods
      → method_list_contains methods m ≡ (
          (has_method m || (has_method (codes "GET") && text_eq (codes "HEAD") m))
          || (options.cors && text_eq (codes "OPTIONS") m))
  allowed-decide methods m other h =
      let f = search_all req routes streams in
      elim decide-Lists [
        | inl unlisted ↦ (let clash : none ≡ some methods = sym unlisted ∙ h in cc)
        | inr listed ↦
            let e : with_options options (with_head f.methods) ≡ methods =
              eq_of_some (sym listed ∙ h) in
            ap (λ l. method_list_contains l m) (sym e)
            ∙ contains-with_options options (with_head f.methods) m
            ∙ rw
                (
                  contains-with_head f.methods m,
                  search_all-seen other,
                  seen-methods m,
                  seen-methods (codes "GET"),
                )
                refl
      ]

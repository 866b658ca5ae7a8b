-- ===== src/Dispatch/Answers.antt =====
-- Which routes the search can leave.
use quackapi.Base.{
  ◌&&◌, List, [], ◌∷◌, some, ◌≡◌, subst, refl, sym, ◌∙◌, arith, Bool-cases, Option-cases, inl, inr,
  ◌⊎◌, eq_of_some,
}
use mathlib.Core.List.{Memᴰ}
use quackapi.Text.{codes, text_eq}
use quackapi.Text.Laws.{text_eq_iff}
use quackapi.Types.{Route, Stream}
use quackapi.Router.{Captures, match_pattern}
use quackapi.Dispatch.{
  Request, Found, route_step, scan_routes, unmatched, scan_streams, head_step, head_routes, nothing,
  search_all,
}
use quackapi.Dispatch.Seen.{auto_head-match, scan_streams-match}

module _ {Value : Type 0} (req : Request) where
  -- The route is registered, its pattern matches the path with the captures, and it answers the method,
  -- a GET route also HEAD.
  pub record Answers (routes : List (Route Value)) (route : Route Value) (captures : Captures)
      : Type 0 where
    pub listed : Memᴰ route routes
    pub matched : match_pattern route.pattern req.path ≡ some captures
    pub method :
        (route.method ≡ req.method) ⊎ ((req.method ≡ codes "HEAD") × (route.method ≡ codes "GET"))

  Answers-cons :
      {routes : List (Route Value)} {r route : Route Value} {captures : Captures}
      → Answers routes route captures
      → Answers (r ∷ routes) route captures
  Answers-cons a = record { listed = Memᴰ.tail a.listed; matched = a.matched; method = a.method }

  -- One round keeps the match or takes a route that answers.
  route_step-Answers :
      (routes : List (Route Value)) (r : Route Value) (f : Found Value) (route : Route Value)
      (captures : Captures)
      → (route_step req r f).match ≡ some (route, captures)
      → (f.match ≡ some (route, captures)) ⊎ Answers (r ∷ routes) route captures
  unfolding route_step
  route_step-Answers routes r f route captures h =
      elim (Option-cases (match_pattern r.pattern req.path)) [
        | inl missed ↦ inl (ground arith)
        | inr (found, matched) ↦ elim (Bool-cases (text_eq r.method req.method)) [
          | inr other ↦ inl (ground arith)
          | inl same ↦ inr (
              let e =
                eq_of_some {A = Route Value × Captures} {a = (r, found)} {b = (route, captures)}
                  (ground arith) in
              subst (λ p. Answers (r ∷ routes) p.0 p.1) e
                (record {
                  listed = Memᴰ.head refl;
                  matched = matched;
                  method = inl ((text_eq_iff r.method req.method).0 same);
                }))
        ]
      ]

  scan_routes-Answers :
      (routes : List (Route Value)) (f : Found Value) (route : Route Value) (captures : Captures)
      → (scan_routes req routes f).match ≡ some (route, captures)
      → (f.match ≡ some (route, captures)) ⊎ Answers routes route captures
  unfolding scan_routes
  scan_routes-Answers [] f route captures h = inl h
  scan_routes-Answers (r ∷ rest) f route captures h =
      elim (scan_routes-Answers rest (route_step req r f) route captures h) [
        | inr later ↦ inr (Answers-cons later)
        | inl here ↦ route_step-Answers rest r f route captures here
      ]

  head_step-Answers :
      (routes : List (Route Value)) (r : Route Value) (f : Found Value) (route : Route Value)
      (captures : Captures)
      → req.method ≡ codes "HEAD"
      → (head_step req r f).match ≡ some (route, captures)
      → (f.match ≡ some (route, captures)) ⊎ Answers (r ∷ routes) route captures
  unfolding head_step
  head_step-Answers routes r f route captures head h =
      elim (Option-cases (match_pattern r.pattern req.path)) [
        | inl missed ↦ inl (ground arith)
        | inr (found, matched) ↦ elim (Bool-cases (text_eq r.method (codes "GET"))) [
          | inr other ↦ inl (ground arith)
          | inl same ↦ inr (
              let e =
                eq_of_some {A = Route Value × Captures} {a = (r, found)} {b = (route, captures)}
                  (ground arith) in
              subst (λ p. Answers (r ∷ routes) p.0 p.1) e
                (record {
                  listed = Memᴰ.head refl;
                  matched = matched;
                  method = inr (head, (text_eq_iff r.method (codes "GET")).0 same);
                }))
        ]
      ]

  head_routes-Answers :
      (routes : List (Route Value)) (f : Found Value) (route : Route Value) (captures : Captures)
      → req.method ≡ codes "HEAD"
      → (head_routes req routes f).match ≡ some (route, captures)
      → (f.match ≡ some (route, captures)) ⊎ Answers routes route captures
  unfolding head_routes
  head_routes-Answers [] f route captures head h = inl h
  head_routes-Answers (r ∷ rest) f route captures head h =
      elim (head_routes-Answers rest (head_step req r f) route captures head h) [
        | inr later ↦ inr (Answers-cons later)
        | inl here ↦ head_step-Answers rest r f route captures head here
      ]

  scanned-Answers :
      (routes : List (Route Value)) (streams : List Stream) (route : Route Value)
      (captures : Captures)
      → (scan_streams req streams (scan_routes req routes (nothing req))).match
        ≡ some (route, captures)
      → Answers routes route captures
  scanned-Answers routes streams route captures h =
      let first = scan_routes req routes (nothing req) in
      elim (scan_routes-Answers routes (nothing req) route captures
        (sym (scan_streams-match req streams first) ∙ h)) [ inl none_yet ↦ cc | inr found ↦ found ]

  pub search_all-Answers :
      (routes : List (Route Value)) (streams : List Stream) (route : Route Value)
      (captures : Captures)
      → (search_all req routes streams).match ≡ some (route, captures)
      → Answers routes route captures
  unfolding search_all
  search_all-Answers routes streams route captures h =
      let after = scan_streams req streams (scan_routes req routes (nothing req)) in
      let chosen = sym (auto_head-match req routes streams after) ∙ h in
      elim (Bool-cases (unmatched req after && text_eq req.method (codes "HEAD"))) [
        | inr off ↦ scanned-Answers routes streams route captures (ground arith)
        | inl on ↦
            elim (head_routes-Answers routes after route captures
              ((text_eq_iff req.method (codes "HEAD")).0 (ground arith)) (ground arith)) [
                | inl early ↦ scanned-Answers routes streams route captures early
                | inr found ↦ found
              ]
      ]

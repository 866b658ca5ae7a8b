-- ===== src/Registry/Routes/Laws.antt =====
-- The route registry: its invariant, and what AddRoutes and DropRoute do to lookup by name and to the
-- counters of the rate limiter.
use quackapi.Base.{
  ℕ, Bool, List, [], ◌∷◌, Option, none, some, ok, err, >>=-eq-ok, Result-cases, if◌then◌else◌, any,
  ◌≡◌, ◌⊎◌, inl, inr, refl, ap, arith, Bool-cases, ok-injective, err-ne-ok, ◌∙◌, sym, subst,
}
use quackapi.Text.{Text, text_eq}
use quackapi.Text.Laws.{text_eq_sym, text_eq-IsEquiv}
use quackapi.Strings.{StringUtil}
use quackapi.RateLimit.{Entries, lookup, rate_key, clear_route_rate_limit}
use quackapi.RateLimit.Table.{lookup-clear_route_rate_limit}
use quackapi.Keyed.{named, get}
use quackapi.Keyed.Laws.{get-replace, get-append, get-remove, get-absent, remove-Distinct}
use quackapi.Types.{Route}
use quackapi.Registry.{Error}
use quackapi.Registry.Routes.{
  RouteState, scan, place, propose, live_routes, clear_all, add_routes, has_name, drop_route,
}
use quackapi.Registry.Routes.Scan.{
  name_of, path_of, path_eq, path_eq-IsEquiv, DistinctNames, DistinctPaths, place-scan,
  place-Distinct,
}

module _ {Value : Type 0} where
  -- No two routes share a name, no two answer the same method and pattern, and what is published, if
  -- anything is, is the registry.
  pub record IsValid (s : RouteState Value) : Type 0 where
    pub names : DistinctNames s.routes
    pub paths : DistinctPaths s.routes
    pub published : (s.routes_live ≡ none) ⊎ (s.routes_live ≡ some s.routes)

  pub propose-Distinct :
      (or_replace : Bool) (new rs : List (Route Value)) {ys : List (Route Value)}
      → propose or_replace new rs ≡ ok ys
      → DistinctNames rs
      → DistinctPaths rs
      → DistinctNames ys × DistinctPaths ys
  unfolding propose
  propose-Distinct or_replace [] rs h n p =
      let e = ok-injective h in (subst DistinctNames e n, subst DistinctPaths e p)
  propose-Distinct or_replace (route ∷ rest) rs h n p =
      let (found, scanned, later) = >>=-eq-ok (scan or_replace route rs 0 none) _ h in
      let (n', p') = place-Distinct or_replace route rs scanned n p in
      propose-Distinct or_replace rest (place route rs found) later n' p'

  -- The route that a name has after a batch: the last of the batch with the name, or else the old one.
  abbrev pub latest : Text → List (Route Value) → Option (Route Value) → Option (Route Value)
  latest k [] old = old
  latest k (route ∷ rest) old = latest k rest (if text_eq route.name k then some route else old)

  get-place :
      (or_replace : Bool) (route : Route Value) (k : Text) (rs : List (Route Value))
      {found : Option ℕ}
      → DistinctNames rs
      → scan or_replace route rs 0 none ≡ ok found
      → get text_eq name_of k (place route rs found)
        ≡ (if text_eq route.name k then some route else get text_eq name_of k rs)
  get-place or_replace route k rs n h =
      rw (place-scan or_replace route rs n h)
        (elim (Bool-cases (any (named text_eq name_of route.name) rs)) [
          | inl present ↦
              rw present (get-replace text_eq name_of text_eq-IsEquiv k route rs present)
          | inr absent ↦ rw absent (get-append text_eq name_of text_eq-IsEquiv k route rs absent)
        ])

  pub get-propose :
      (or_replace : Bool) (new rs : List (Route Value)) (k : Text) {ys : List (Route Value)}
      → propose or_replace new rs ≡ ok ys
      → DistinctNames rs
      → DistinctPaths rs
      → get text_eq name_of k ys ≡ latest k new (get text_eq name_of k rs)
  unfolding propose
  get-propose or_replace [] rs k h n p = ap (get text_eq name_of k) (sym (ok-injective h))
  get-propose or_replace (route ∷ rest) rs k h n p =
      let (found, scanned, later) = >>=-eq-ok (scan or_replace route rs 0 none) _ h in
      let (n', p') = place-Distinct or_replace route rs scanned n p in
      get-propose or_replace rest (place route rs found) k later n' p'
      ∙ ap (latest k rest) (get-place or_replace route k rs n scanned)

  -- The serving path reads the registry itself, whether it was published before or not.
  pub live_routes-routes :
      (s : RouteState Value)
      → IsValid s
      → ((live_routes s).0 ≡ s.routes) × IsValid (live_routes s).1
  live_routes-routes s v = elim v.published [
    | inl never ↦ rw never (refl, record { names = v.names; paths = v.paths; published = inr refl })
    | inr now ↦ rw now (refl, record { names = v.names; paths = v.paths; published = inr refl })
  ]

module _ {Value : Type 0} (strings : StringUtil) where
  add_routes_ok :
      (new : List (Route Value)) (or_replace : Bool) (s : RouteState Value)
      (rs : List (Route Value))
      → propose or_replace new s.routes ≡ ok rs
      → add_routes strings new or_replace s ≡ (
        ok tt,
        record s {
          routes = rs;
          routes_live = some rs;
          rate_limit_entries = clear_all strings new s.rate_limit_entries;
        },
      )
  unfolding add_routes
  add_routes_ok new or_replace s rs h = rw (h, add_routes)

  add_routes_err :
      (new : List (Route Value)) (or_replace : Bool) (s : RouteState Value) (e : Error)
      → propose or_replace new s.routes ≡ err e
      → add_routes strings new or_replace s ≡ (err e, s)
  unfolding add_routes
  add_routes_err new or_replace s e h = rw (h, add_routes)

  -- AddRoutes, whether it throws or not, keeps route names distinct, no two routes with the same
  -- method and pattern, and nothing published but the registry itself.
  pub add_routes-IsValid :
      (new : List (Route Value)) (or_replace : Bool) (s : RouteState Value)
      → IsValid s
      → IsValid (add_routes strings new or_replace s).1
  add_routes-IsValid new or_replace s v = elim (Result-cases (propose or_replace new s.routes)) [
    | inl (rs, h) ↦
        let (n, p) = propose-Distinct or_replace new s.routes h v.names v.paths in
        rw (add_routes_ok new or_replace s rs h)
          (record { names = n; paths = p; published = inr refl })
    | inr (e, h) ↦ rw (add_routes_err new or_replace s e h) v
  ]

  -- In a valid state, AddRoutes either throws and leaves the registry, what is published and the
  -- counters as they were, or makes each name of the batch resolve to the last route of the batch
  -- that has it, leaves the other names as they were, and publishes exactly the registry.
  pub add_routes_atomic :
      (new : List (Route Value)) (or_replace : Bool) (s : RouteState Value)
      → IsValid s
      → ((e : Error) × (add_routes strings new or_replace s ≡ (err e, s)))
        ⊎ (((add_routes strings new or_replace s).0 ≡ ok tt)
            × ((k : Text)
                → get text_eq name_of k (add_routes strings new or_replace s).1.routes
                  ≡ latest k new (get text_eq name_of k s.routes))
            × ((add_routes strings new or_replace s).1.routes_live
                ≡ some (add_routes strings new or_replace s).1.routes))
  add_routes_atomic new or_replace s v = elim (Result-cases (propose or_replace new s.routes)) [
    | inl (rs, h) ↦ inr (
        rw (add_routes_ok new or_replace s rs h)
          (refl, λ k. get-propose or_replace new s.routes k h v.names v.paths, refl))
    | inr (e, h) ↦ inl (e, add_routes_err new or_replace s e h)
  ]

  -- The counters after a batch: those of the batch's names are gone and the others are kept.
  lookup-clear_all :
      (new : List (Route Value)) (other client : Text) (m : Entries)
      → lookup (rate_key other client) (clear_all strings new m)
        ≡ (if any (has_name other) new then none else lookup (rate_key other client) m)
  unfolding clear_all
  lookup-clear_all [] other client m = refl
  lookup-clear_all (route ∷ rest) other client m =
      lookup-clear_all rest other client (clear_route_rate_limit strings route.name m)
      ∙ rw (lookup-clear_route_rate_limit strings route.name other client m)
          (ground (arith, text_eq_sym route.name other, text_eq_sym other route.name))

  -- Where AddRoutes does not throw, the counters of every route of the batch are gone, and those
  -- of every other route are found as before.
  pub add_routes-counters :
      (new : List (Route Value)) (or_replace : Bool) (s : RouteState Value) (other client : Text)
      → (add_routes strings new or_replace s).0 ≡ ok tt
      → lookup (rate_key other client) (add_routes strings new or_replace s).1.rate_limit_entries
        ≡ (if any (has_name other) new
            then none
            else lookup (rate_key other client) s.rate_limit_entries)
  add_routes-counters new or_replace s other client done =
      elim (Result-cases (propose or_replace new s.routes)) [
        | inl (rs, h) ↦
            rw (add_routes_ok new or_replace s rs h)
              (lookup-clear_all new other client s.rate_limit_entries)
        | inr (e, h) ↦
            absurd (err-ne-ok (sym (ap (λ r. r.0) (add_routes_err new or_replace s e h)) ∙ done))
      ]

  -- DropRoute keeps the registry valid.
  pub drop_route-IsValid :
      (name : Text) (s : RouteState Value) → IsValid s → IsValid (drop_route strings name s).1
  unfolding drop_route
  drop_route-IsValid name s v = elim (Bool-cases (any (has_name name) s.routes)) [
    | inl present ↦ rw present (record {
      names = remove-Distinct text_eq name_of text_eq-IsEquiv (has_name name) s.routes v.names;
      paths = remove-Distinct path_eq path_of path_eq-IsEquiv (has_name name) s.routes v.paths;
      published = inr refl;
    })
    | inr absent ↦ rw absent v
  ]

  -- In a valid state, DropRoute says whether the name was there, and afterwards that name is free
  -- and every other name resolves as before.
  pub get-drop_route :
      (name k : Text) (s : RouteState Value)
      → IsValid s
      → ((drop_route strings name s).0 ≡ any (has_name name) s.routes)
        × (get text_eq name_of k (drop_route strings name s).1.routes
            ≡ (if text_eq name k then none else get text_eq name_of k s.routes))
  unfolding drop_route
  get-drop_route name k s v = elim (Bool-cases (any (has_name name) s.routes)) [
    | inl present ↦
        rw present (refl, get-remove text_eq name_of text_eq-IsEquiv name k s.routes v.names)
    | inr absent ↦
        rw absent (refl, get-absent text_eq name_of text_eq-IsEquiv name k s.routes absent)
  ]

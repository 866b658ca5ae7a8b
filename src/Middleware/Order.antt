-- ===== src/Middleware/Order.antt =====
-- The snapshot that the hooks of a request are run from: which definitions it holds, and their order.
use quackapi.Base.{
  ℕ, ◌+◌, ltb, leb, Bool, true, false, not, ◌&&◌, ◌||◌, List, [], ◌∷◌, all, filter, count, Pairwise,
  append-nil, subst, count-append, count-filter, count-or, count-same, Pairwise-append, all-filter,
  filter-all, if◌then◌else◌, ◌≡◌, refl, sym, ap, ◌∙◌, ◌≤◌, arith, Bool-cases, inl, inr,
}
use quackapi.Text.{Text, text_eq, empty}
use quackapi.Middleware.{
  Middleware, MiddlewarePhase, before, after, MiddlewareRegistry, same_phase, global_scope,
  group_scope, snapshot,
}

-- The hooks of a request in a group: those of the phase, without a group or with this one.
unfoldable pub applies : MiddlewarePhase → Text → Middleware → Bool
applies phase group_name m =
    same_phase m.phase phase && (empty m.group_name || text_eq m.group_name group_name)

-- The order of the hooks of a phase: the global ones first before the route and last after it, and each scope
-- in the order of registration.
unfoldable pub earlier : MiddlewarePhase → Middleware → Middleware → Bool
earlier before a b =
    if empty a.group_name
    then not (empty b.group_name) || ltb a.registration_order b.registration_order
    else not (empty b.group_name) && ltb a.registration_order b.registration_order
earlier after a b =
    if empty a.group_name
    then empty b.group_name && ltb a.registration_order b.registration_order
    else empty b.group_name || ltb a.registration_order b.registration_order

-- The orders rise, from `low` on, and stay below `next`.
abbrev pub Rising : ℕ → ℕ → List Middleware → Type 0
Rising low next [] = low ≤ next
Rising low next (m ∷ ms) = (low ≤ m.registration_order) × Rising (m.registration_order + 1) next ms

-- `ms` holds the hooks of a request, each as often as the registry does, and in their order.
pub record Schedule (phase : MiddlewarePhase) (group_name : Text) (registered ms : List Middleware)
    : Type 0 where
  pub same_hooks :
      (p : Middleware → Bool)
      → count p ms ≡ count (λ m. p m && applies phase group_name m) registered
  pub in_order : Pairwise (earlier phase) ms

Rising-above :
    (low next bound : ℕ) (ms : List Middleware)
    → bound ≤ low
    → Rising low next ms
    → all (λ m. leb bound m.registration_order) ms ≡ true
Rising-above low next bound [] b h = refl
Rising-above low next bound (m ∷ ms) b (h, hs) =
    ground (arith, Rising-above (m.registration_order + 1) next bound ms (omega arith) hs)

-- Definitions of one scope stay in the order of registration.
scope-in_order :
    (phase : MiddlewarePhase) (scope : Middleware → Bool)
    → ((a b : Middleware)
        → scope a ≡ true
        → scope b ≡ true
        → ltb a.registration_order b.registration_order ≡ true
        → earlier phase a b ≡ true)
    → (low next : ℕ) (ms : List Middleware) → Rising low next ms
    → Pairwise (earlier phase) (filter scope ms)
scope-in_order phase scope alike low next [] h = tt
scope-in_order phase scope alike low next (m ∷ ms) (h, hs) =
    let later = scope-in_order phase scope alike (m.registration_order + 1) next ms hs in
    let above = Rising-above _ next (m.registration_order + 1) ms (omega arith) hs in
    elim (Bool-cases (scope m)) [
      | inr out ↦ rw out later
      | inl kept ↦ rw kept (
        all-filter (λ x. leb (m.registration_order + 1) x.registration_order) scope
            (earlier phase m) (λ x a q. alike m x kept q (ground arith)) ms above,
        later,
      )
    ]

global-alike :
    (phase : MiddlewarePhase) (a b : Middleware)
    → global_scope phase a ≡ true
    → global_scope phase b ≡ true
    → ltb a.registration_order b.registration_order ≡ true
    → earlier phase a b ≡ true
unfolding earlier
global-alike before a b h k l = ground arith
global-alike after a b h k l = ground arith

nonempty_name :
    (g group_name : Text) → empty group_name ≡ false → text_eq g group_name ≡ true → empty g ≡ false
unfolding text_eq
nonempty_name [] [] n h = cc
nonempty_name [] (_ ∷ _) n h = cc
nonempty_name (_ ∷ _) group_name n h = refl

module _ (group_name : Text) (named : empty group_name ≡ false) where
  in_group :
      (phase : MiddlewarePhase) (m : Middleware)
      → group_scope phase group_name m ≡ true
      → empty m.group_name ≡ false
  in_group phase m h = nonempty_name m.group_name group_name named (ground arith)

  group-alike :
      (phase : MiddlewarePhase) (a b : Middleware)
      → group_scope phase group_name a ≡ true
      → group_scope phase group_name b ≡ true
      → ltb a.registration_order b.registration_order ≡ true
      → earlier phase a b ≡ true
  unfolding earlier
  group-alike before a b h k l = rw (in_group before a h, in_group before b k) l
  group-alike after a b h k l = rw (in_group after a h, in_group after b k) l

  scopes_apart :
      (phase : MiddlewarePhase) (m : Middleware)
      → global_scope phase m ≡ true
      → group_scope phase group_name m ≡ false
  scopes_apart phase m h = elim (Bool-cases (group_scope phase group_name m)) [
    | inr f ↦ f
    | inl t ↦ ground (arith, in_group phase m t)
  ]

  named_applies :
      (phase : MiddlewarePhase) (p : Middleware → Bool) (m : Middleware)
      → (p m && (global_scope phase m || group_scope phase group_name m))
        ≡ (p m && applies phase group_name m)
  unfolding applies
  named_applies phase p m = ground arith

  named_hooks :
      (phase : MiddlewarePhase) (p : Middleware → Bool) (ms : List Middleware)
      → count p (filter (global_scope phase) ms)
          + count p (filter (group_scope phase group_name) ms)
        ≡ count (λ m. p m && applies phase group_name m) ms
  named_hooks phase p ms =
      rw (count-filter p (global_scope phase) ms, count-filter p (group_scope phase group_name) ms)
        (count-or p (global_scope phase) (group_scope phase group_name) (scopes_apart phase) ms
          ∙ count-same _ _ (named_applies phase p) ms)

  across-before :
      (ms : List Middleware)
      → all
          (λ x. all (earlier before x) (filter (group_scope before group_name) ms))
          (filter (global_scope before) ms)
        ≡ true
  unfolding earlier
  across-before ms =
      filter-all (global_scope before) _
        (λ x g.
          filter-all (group_scope before group_name) (earlier before x)
            (λ y k. ground (arith, in_group before y k)) ms)
        ms

  across-after :
      (ms : List Middleware)
      → all
          (λ x. all (earlier after x) (filter (global_scope after) ms))
          (filter (group_scope after group_name) ms)
        ≡ true
  unfolding earlier
  across-after ms =
      filter-all (group_scope after group_name) _
        (λ x g.
          filter-all (global_scope after) (earlier after x)
            (λ y k. ground (arith, in_group after x g)) ms)
        ms

  module _ (low next : ℕ) (ms : List Middleware) (rising : Rising low next ms) where
    globals : (phase : MiddlewarePhase) → Pairwise (earlier phase) (filter (global_scope phase) ms)
    globals phase =
        scope-in_order phase (global_scope phase) (global-alike phase) low next ms rising

    grouped :
        (phase : MiddlewarePhase)
        → Pairwise (earlier phase) (filter (group_scope phase group_name) ms)
    grouped phase =
        scope-in_order phase (group_scope phase group_name) (group-alike phase) low next ms rising

    pub named-Schedule :
        (phase : MiddlewarePhase) (n : ℕ)
        → Schedule phase group_name ms
            (snapshot phase group_name (record { middlewares = ms; next_registration_order = n }))
    unfolding snapshot
    named-Schedule before n = rw named (record {
      same_hooks = λ p.
          count-append p (filter (global_scope before) ms)
            (filter (group_scope before group_name) ms)
          ∙ named_hooks before p ms;
      in_order =
          Pairwise-append (earlier before) _ _ (globals before) (grouped before) (across-before ms);
    })
    named-Schedule after n = rw named (record {
      same_hooks = λ p.
          count-append p (filter (group_scope after group_name) ms) (filter (global_scope after) ms)
          ∙ omega (arith, named_hooks after p ms);
      in_order =
          Pairwise-append (earlier after) _ _ (grouped after) (globals after) (across-after ms);
    })

-- A name that is empty selects the global hooks only.
unnamed_applies :
    (phase : MiddlewarePhase) (p : Middleware → Bool) (m : Middleware)
    → (p m && global_scope phase m) ≡ (p m && applies phase [] m)
unfolding applies text_eq
unnamed_applies phase p m = elim (Bool-cases (empty m.group_name)) [
  | inl e ↦ rw e refl
  | inr f ↦ rw (f, unnamed_eq m.group_name f) refl
]
  where
    unnamed_eq : (g : Text) → empty g ≡ false → text_eq g [] ≡ false
    unnamed_eq [] h = cc
    unnamed_eq (_ ∷ _) h = refl

pub snapshot-in_order :
    (phase : MiddlewarePhase) (group_name : Text) (low : ℕ) (r : MiddlewareRegistry)
    → Rising low r.next_registration_order r.middlewares
    → Schedule phase group_name r.middlewares (snapshot phase group_name r)
unfolding snapshot
snapshot-in_order phase (c ∷ g) low r h =
    named-Schedule (c ∷ g) refl low r.next_registration_order r.middlewares h phase
      r.next_registration_order
snapshot-in_order before [] low r h = record {
  same_hooks = λ p.
      ap (count p) (append-nil (filter (global_scope before) r.middlewares))
      ∙ count-filter p (global_scope before) r.middlewares
      ∙ count-same _ _ (unnamed_applies before p) r.middlewares;
  in_order =
      subst (Pairwise (earlier before))
        (sym (append-nil (filter (global_scope before) r.middlewares)))
        (scope-in_order before (global_scope before) (global-alike before) low _ r.middlewares h);
}
snapshot-in_order after [] low r h = record {
  same_hooks = λ p.
      count-filter p (global_scope after) r.middlewares
      ∙ count-same _ _ (unnamed_applies after p) r.middlewares;
  in_order = scope-in_order after (global_scope after) (global-alike after) low _ r.middlewares h;
}

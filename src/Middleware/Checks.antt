-- ===== src/Middleware/Checks.antt =====
-- The checks of MiddlewareDdlParse against those of ApplyMiddlewareExec.
use quackapi.Base.{
  ℕ, ◌+◌, ◌-◌, ltb, Bool, true, false, not, ◌||◌, List, [], ◌∷◌, length, ok, err, >>=-eq-ok,
  err-ne-ok, ok-injective, ◌≡◌, refl, ap, subst, arith, Bool-cases, Option-cases, inl, inr,
  if◌then◌else◌,
}
use quackapi.Text.{Text, codes, empty}
use quackapi.Strings.{StringUtil}
use quackapi.Ddl.{trim}
use quackapi.Router.{skip}
use quackapi.Middleware.{
  Middleware, MiddlewarePhase, MiddlewareRegistry, max_sql_bytes, is_middleware_name,
}
use quackapi.Middleware.Parse.{
  take, find_standalone_keyword, whitespace_tokens, not_ours, drop_middleware, create_middleware,
  parse_phase, parse_declaration, parse_sql, definition, parse_create, parse_drop, parse,
  invalid_handler, check_definition, add_to, apply,
}

-- A name, and the group that it may have.
abbrev Named : Text → Text → Type 0
Named name group_name =
    (is_middleware_name name ≡ true) × ((empty group_name || is_middleware_name group_name) ≡ true)

created-injective :
    {b c : Bool} {m n : Middleware} → create_middleware b m ≡ create_middleware c n → m ≡ n
created-injective h = cc

not_ours-not_created : {b : Bool} {m : Middleware} → not_ours ≡ create_middleware b m → ⊥
not_ours-not_created h = cc

dropped-not_created :
    {name : Text} {b : Bool} {m : Middleware} → drop_middleware name ≡ create_middleware b m → ⊥
dropped-not_created h = cc

module _ (strings : StringUtil) where
  parse_declaration-Named :
      (tokens : List Text) (name : Text) (phase : MiddlewarePhase) (group_name : Text)
      → parse_declaration strings tokens ≡ ok (name, phase, group_name)
      → Named name group_name
  unfolding parse_declaration
  parse_declaration-Named [] name phase group_name h = absurd (err-ne-ok h)
  parse_declaration-Named (_ ∷ []) name phase group_name h = absurd (err-ne-ok h)
  parse_declaration-Named (n ∷ p ∷ []) name phase group_name h =
      elim (Bool-cases (is_middleware_name n)) [
        | inr bad ↦ absurd (err-ne-ok (rw bad at h))
        | inl good ↦
            let (found, e, rest) = >>=-eq-ok (parse_phase strings p) _ (rw good at h) in
            let same = ok-injective rest in
            (
              subst (λ x. is_middleware_name x ≡ true)
                  (ap (λ (t : Text × MiddlewarePhase × Text). t.0) same) good,
              subst (λ x. (empty x || is_middleware_name x) ≡ true)
                  (ap (λ (t : Text × MiddlewarePhase × Text). t.2) same) refl,
            )
      ]
  parse_declaration-Named (_ ∷ _ ∷ _ ∷ []) name phase group_name h = absurd (err-ne-ok h)
  parse_declaration-Named (n ∷ p ∷ k ∷ g ∷ []) name phase group_name h =
      elim (Bool-cases (is_middleware_name n)) [
        | inr bad ↦ absurd (err-ne-ok (rw bad at h))
        | inl good ↦
            let (found, e, rest) = >>=-eq-ok (parse_phase strings p) _ (rw good at h) in
            elim (Bool-cases
              (not (strings.ci_equals k (codes "GROUP")) || not (is_middleware_name g))) [
                | inl wrong ↦ absurd (err-ne-ok (rw wrong at rest))
                | inr right ↦
                    let same = ok-injective (rw right at rest) in
                    (
                      subst (λ x. is_middleware_name x ≡ true)
                          (ap (λ (t : Text × MiddlewarePhase × Text). t.0) same) good,
                      subst (λ x. (empty x || is_middleware_name x) ≡ true)
                          (ap (λ (t : Text × MiddlewarePhase × Text). t.2) same) (ground arith),
                    )
              ]
      ]
  parse_declaration-Named (_ ∷ _ ∷ _ ∷ _ ∷ _ ∷ _) name phase group_name h = absurd (err-ne-ok h)

  parse_sql-short :
      (text sql : Text)
      → parse_sql text ≡ ok sql
      → (empty sql || ltb max_sql_bytes (length sql)) ≡ false
  unfolding parse_sql
  parse_sql-short text sql h = elim (Bool-cases (empty text)) [
    | inl none_there ↦ absurd (err-ne-ok (rw none_there at h))
    | inr some_there ↦ elim (Bool-cases (ltb max_sql_bytes (length text))) [
      | inl long ↦ absurd (err-ne-ok (rw (some_there, long) at h))
      | inr short ↦ rw (← ok-injective (rw (some_there, short) at h)) (ground arith)
    ]
  ]

  definition-checks :
      (parts : Text × MiddlewarePhase × Text) (sql : Text)
      → Named parts.0 parts.2
      → (empty sql || ltb max_sql_bytes (length sql)) ≡ false
      → check_definition (definition parts sql) ≡ ok tt
  unfolding check_definition
  definition-checks (name, phase, group_name) sql (good, group) short = ground arith

  parse_create-checks :
      (or_replace replaces : Bool) (prefix_end : ℕ) (q : Text) (m : Middleware)
      → parse_create strings or_replace prefix_end q ≡ ok (create_middleware replaces m)
      → check_definition m ≡ ok tt
  unfolding parse_create
  parse_create-checks or_replace replaces prefix_end q m h =
      elim (Option-cases
        (find_standalone_keyword strings (strings.upper q) (codes "AS") prefix_end)) [
          | inl missing ↦ absurd (err-ne-ok (rw (missing, parse_create) at h))
          | inr (as_pos, found) ↦
              let declaration = trim strings (take (as_pos - prefix_end) (skip prefix_end q)) in
              let (parts, d, rest) =
                >>=-eq-ok (parse_declaration strings (whitespace_tokens strings declaration)) _
                  (rw (found, parse_create) at h) in
              let (sql, s, last) =
                >>=-eq-ok (parse_sql (trim strings (skip (as_pos + 2) q))) _ rest in
              subst (λ x. check_definition x ≡ ok tt) (created-injective (ok-injective last))
                (definition-checks parts sql
                  (parse_declaration-Named (whitespace_tokens strings declaration) parts.0 parts.1
                    parts.2 d)
                  (parse_sql-short (trim strings (skip (as_pos + 2) q)) sql s))
        ]

  parse_drop-not_created :
      (q : Text) (b : Bool) (m : Middleware) → parse_drop strings q ≡ ok (create_middleware b m) → ⊥
  unfolding parse_drop
  parse_drop-not_created q b m h =
      elim (Bool-cases (is_middleware_name (trim strings (skip 16 q)))) [
        | inl good ↦ dropped-not_created (ok-injective (rw good at h))
        | inr bad ↦ err-ne-ok (rw bad at h)
      ]

  parse-checks :
      (query : Text) (or_replace : Bool) (m : Middleware)
      → parse strings query ≡ ok (create_middleware or_replace m)
      → check_definition m ≡ ok tt
  unfolding parse
  parse-checks query or_replace m h =
      let q = trim strings query in
      let upper = strings.upper q in
      elim (Bool-cases (strings.starts_with upper (codes "DROP MIDDLEWARE "))) [
        | inl drops ↦ absurd (parse_drop-not_created q or_replace m (rw drops at h))
        | inr no_drop ↦
            elim (Bool-cases (strings.starts_with upper (codes "CREATE OR REPLACE MIDDLEWARE "))) [
              | inl replaces ↦
                  parse_create-checks true or_replace 29 q m (rw (no_drop, replaces) at h)
              | inr no_replace ↦
                  elim (Bool-cases (strings.starts_with upper (codes "CREATE MIDDLEWARE "))) [
                    | inl creates ↦
                        parse_create-checks false or_replace 18 q m
                          (rw (no_drop, no_replace, creates) at h)
                    | inr other ↦
                        absurd (
                          not_ours-not_created
                            (ok-injective (rw (no_drop, no_replace, other) at h)))
                  ]
            ]
      ]

  -- A CREATE MIDDLEWARE that the parser accepts never fails the checks of ApplyMiddlewareExec: it throws that the handler is
  -- invalid where DuckDB does not prepare it, and is the registry's Add otherwise.
  pub apply-parse :
      (prepares : Text → Bool) (query : Text) (or_replace : Bool) (m : Middleware)
      → parse strings query ≡ ok (create_middleware or_replace m)
      → (r : MiddlewareRegistry)
      → apply prepares (create_middleware or_replace m) r ≡ (
          if not (prepares m.handler_sql)
          then err (invalid_handler m.name)
          else add_to m or_replace r)
  unfolding apply
  apply-parse prepares query or_replace m h r = rw (parse-checks query or_replace m h) refl
